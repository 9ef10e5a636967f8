-- ===== src/Redact/Masked.antt =====
-- What a value holds once it is redacted.
use ohinfra_plugins.Base.{◌≡◌, refl, ap, Text, Bool, true, false, not, if◌then◌else◌, ◌⊎◌, inl, inr}
use ohinfra_plugins.Protocol.Value.{
  Value, nil_interface, interface, bool, int, float, string, nil_map, other_map, nil_slice, slice,
  array, nil_pointer, pointer, struct, Items, item, end_items, Fields, field, end_fields, Members,
  end_members, member,
}
use ohinfra_plugins.Redact.{
  mask, redact_text, sensitive_key, sensitive_struct_field, zero_value, zero_items, zero_members,
  masked_value, redact_value, redact_items, redact_fields, redact_members,
}

-- The mask, or the zero of a type.
abbrev pub IsMasked : Value → Type 0
IsMasked v = (v ≡ interface (string mask)) ⊎ ((v ≡ string mask) ⊎ (zero_value v ≡ v))

-- Every text comes out of `String`, and what a map or a struct has under a sensitive name is masked. A
-- member that is not exported may hold anything, and so may a map with other keys than strings.
unfoldable mutual
  pub IsRedacted : Value → Type 0
  IsRedacted (interface v) = IsRedacted v
  IsRedacted (string s) = (t : Text) × (s ≡ redact_text t)
  IsRedacted (Value.map fs) = AreRedactedFields fs
  IsRedacted (slice xs) = AreRedactedItems xs
  IsRedacted (array xs) = AreRedactedItems xs
  IsRedacted (pointer v) = IsRedacted v
  IsRedacted (struct ms) = AreRedactedMembers ms
  IsRedacted v = Unit

  pub AreRedactedItems : Items → Type 0
  AreRedactedItems end_items = Unit
  AreRedactedItems (item v xs) = IsRedacted v × AreRedactedItems xs

  pub AreRedactedFields : Fields → Type 0
  AreRedactedFields end_fields = Unit
  AreRedactedFields (field key v fs) =
      (if sensitive_key key then IsMasked v else IsRedacted v) × AreRedactedFields fs

  pub AreRedactedMembers : Members → Type 0
  AreRedactedMembers end_members = Unit
  AreRedactedMembers (member name json_name exported v ms) =
      (if not exported
        then Unit
        else if sensitive_struct_field name json_name
        then IsMasked v
        else IsRedacted v)
      × AreRedactedMembers ms

mutual
  unfolding zero_value

  zero_twice : (v : Value) → zero_value (zero_value v) ≡ zero_value v
  zero_twice nil_interface = refl
  zero_twice (interface v) = refl
  zero_twice (bool b) = refl
  zero_twice (int n) = refl
  zero_twice (float x) = refl
  zero_twice (string s) = refl
  zero_twice nil_map = refl
  zero_twice (Value.map fs) = refl
  zero_twice (other_map n xs) = refl
  zero_twice nil_slice = refl
  zero_twice (slice xs) = refl
  zero_twice (array xs) = ap array (zero_items_twice xs)
  zero_twice nil_pointer = refl
  zero_twice (pointer v) = refl
  zero_twice (struct ms) = ap struct (zero_members_twice ms)

  zero_items_twice : (xs : Items) → zero_items (zero_items xs) ≡ zero_items xs
  zero_items_twice end_items = refl
  zero_items_twice (item v xs) = cc (zero_twice v, zero_items_twice xs)

  zero_members_twice : (ms : Members) → zero_members (zero_members ms) ≡ zero_members ms
  zero_members_twice end_members = refl
  zero_members_twice (member name json_name exported v ms) =
      cc (zero_twice v, zero_members_twice ms)

masked_value-IsMasked : (v : Value) → IsMasked (masked_value v)
unfolding masked_value
masked_value-IsMasked nil_interface = inl refl
masked_value-IsMasked (interface v) = inl refl
masked_value-IsMasked (string s) = inr (inl refl)
masked_value-IsMasked (bool b) = inr (inr (zero_twice (bool b)))
masked_value-IsMasked (int n) = inr (inr (zero_twice (int n)))
masked_value-IsMasked (float x) = inr (inr (zero_twice (float x)))
masked_value-IsMasked nil_map = inr (inr (zero_twice nil_map))
masked_value-IsMasked (Value.map fs) = inr (inr (zero_twice (Value.map fs)))
masked_value-IsMasked (other_map n xs) = inr (inr (zero_twice (other_map n xs)))
masked_value-IsMasked nil_slice = inr (inr (zero_twice nil_slice))
masked_value-IsMasked (slice xs) = inr (inr (zero_twice (slice xs)))
masked_value-IsMasked (array xs) = inr (inr (zero_twice (array xs)))
masked_value-IsMasked nil_pointer = inr (inr (zero_twice nil_pointer))
masked_value-IsMasked (pointer v) = inr (inr (zero_twice (pointer v)))
masked_value-IsMasked (struct ms) = inr (inr (zero_twice (struct ms)))

field-IsRedacted :
    (b : Bool) (v : Value)
    → IsRedacted (redact_value v)
    → (if b
        then IsMasked (if b then masked_value v else redact_value v)
        else IsRedacted (if b then masked_value v else redact_value v))
field-IsRedacted true v h = masked_value-IsMasked v
field-IsRedacted false v h = h

member-IsRedacted :
    (exported sensitive : Bool) (v : Value)
    → IsRedacted (redact_value v)
    → (if not exported
        then Unit
        else if sensitive
        then IsMasked
            (if not exported then v else if sensitive then masked_value v else redact_value v)
        else IsRedacted
            (if not exported then v else if sensitive then masked_value v else redact_value v))
member-IsRedacted false sensitive v h = tt
member-IsRedacted true true v h = masked_value-IsMasked v
member-IsRedacted true false v h = h

mutual
  unfolding redact_value IsRedacted

  redacted : (v : Value) → IsRedacted (redact_value v)
  redacted nil_interface = tt
  redacted (interface v) = redacted v
  redacted (bool b) = tt
  redacted (int n) = tt
  redacted (float x) = tt
  redacted (string s) = (s, refl)
  redacted nil_map = tt
  redacted (Value.map fs) = redacted_fields fs
  redacted (other_map n xs) = tt
  redacted nil_slice = tt
  redacted (slice xs) = redacted_items xs
  redacted (array xs) = redacted_items xs
  redacted nil_pointer = tt
  redacted (pointer v) = redacted v
  redacted (struct ms) = redacted_members ms

  redacted_items : (xs : Items) → AreRedactedItems (redact_items xs)
  redacted_items end_items = tt
  redacted_items (item v xs) = (redacted v, redacted_items xs)

  pub redacted_fields : (fs : Fields) → AreRedactedFields (redact_fields fs)
  redacted_fields end_fields = tt
  redacted_fields (field key v fs) =
      (field-IsRedacted (sensitive_key key) v (redacted v), redacted_fields fs)

  redacted_members : (ms : Members) → AreRedactedMembers (redact_members ms)
  redacted_members end_members = tt
  redacted_members (member name json_name exported v ms) = (
    member-IsRedacted exported (sensitive_struct_field name json_name) v (redacted v),
    redacted_members ms,
  )

-- In a redacted value, at any depth that is reached through interfaces, maps with string keys, slices,
-- arrays, pointers and exported members, what a map or a struct has under a sensitive name is the mask
-- or the zero of its type, and every other text has gone through the patterns. Of what maps with other
-- keys and members that are not exported hold nothing is said.
pub redact_value-IsRedacted : (v : Value) → IsRedacted (redact_value v)
redact_value-IsRedacted v = redacted v
