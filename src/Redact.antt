-- ===== src/Redact.antt =====
-- internal/redact/redact.go: masking secrets in texts and in values.
pub mod Masked
use ohinfra_plugins.Base.{
  ℕ, ◌+◌, ◌-◌, Text, codes, eq_text, cut_prefix, Bool, true, false, not, ◌&&◌, ◌||◌, List, [], ◌∷◌,
  ◌++◌, any, take, Option, none, some, ltb, leb, ◌==◌, if◌then◌else◌, pos, map, zero, suc,
}
use ohinfra_plugins.Protocol.Value.{
  Value, nil_interface, interface, bool, int, float, string, nil_map, other_map, nil_slice, slice,
  array, nil_pointer, pointer, struct, Items, item, end_items, Fields, field, end_fields, Members,
  end_members, member, whole,
}
use ohinfra_plugins.Protocol.Value
use ohinfra_plugins.Protocol.Types.{Result, Check, Change, StructuredError, Slice}
use ohinfra_plugins.Paths.{starts_with}
use ohinfra_plugins.Regex.{
  Regex, one, many, boundary, and_then, or_else, nothing, Pattern, replace_all, is_word, stars,
}

abbrev pub mask : Text
mask = stars

-- The letters that `(?i)` takes for a small letter: long s and the Kelvin sign are such of s and k.
abbrev exactly : ℕ → Regex
exactly c = one (λ d. d == c)

abbrev fold_more : ℕ → Regex → Regex
fold_more c r =
    if c == b's'
    then or_else r (and_then (exactly 0xc5) (exactly 0xbf))
    else if c == b'k'
    then or_else r (and_then (exactly 0xe2) (and_then (exactly 0x84) (exactly 0xaa)))
    else r

abbrev folded : ℕ → Regex
folded c = fold_more c (one (λ d. d == c || d + 32 == c))

unfoldable pub word : (ℕ → Regex) → Text → Regex
word letter [] = nothing
word letter (c ∷ s) = and_then (letter c) (word letter s)

abbrev pub is_blank_byte : ℕ → Bool
is_blank_byte c = c == 9 || (c == 10 || (c == 12 || (c == 13 || c == 32)))

abbrev some_of : (ℕ → Bool) → Regex
some_of p = and_then (one p) (many p)

abbrev blanks : Regex
blanks = many is_blank_byte

abbrev is_value_byte : ℕ → Bool
is_value_byte c = not (is_blank_byte c || (c == b'&' || (c == b';' || c == b',')))

-- `\s*[:=]\s*`
abbrev pub assigned : Regex
assigned = and_then blanks (and_then (one (λ c. c == b':' || c == b'=')) blanks)

-- `[_-]?`
abbrev dash_or_not : Regex
dash_or_not = or_else (one (λ c. c == b'_' || c == b'-')) nothing

abbrev pub ignoring_case : Text → Regex
ignoring_case s = word folded s

abbrev pub two_words : Text → Text → Regex
two_words a b = and_then (ignoring_case a) (and_then dash_or_not (ignoring_case b))

unfoldable pub patterns : List Pattern
patterns =
    record {
      kept = and_then (ignoring_case (codes "authorization")) (
          and_then blanks (
            and_then (exactly b':') (
              and_then blanks
                (and_then (ignoring_case (codes "bearer")) (some_of is_blank_byte)))));
      masked = some_of (λ c. not (is_blank_byte c || (c == b',' || c == b';')));
    }
    ∷ record {
      kept = and_then boundary (
          and_then
            (or_else (ignoring_case (codes "password"))
              (or_else (ignoring_case (codes "passwd")) (ignoring_case (codes "pwd"))))
            assigned);
      masked = some_of is_value_byte;
    }
    ∷ record {
      kept = and_then boundary (word exactly (codes "glpat-"));
      masked = and_then (some_of (λ c. is_word c || c == b'-')) boundary;
    }
    ∷ record {
      kept =
          and_then
            (or_else (two_words (codes "api") (codes "key")) (
              or_else (two_words (codes "access") (codes "token"))
                (two_words (codes "refresh") (codes "token"))))
            assigned;
      masked = some_of is_value_byte;
    }
    ∷ []

unfoldable pub replace_patterns : List Pattern → Text → Text
replace_patterns [] s = s
replace_patterns (p ∷ rest) s = replace_patterns rest (replace_all p s)

-- `String`
unfoldable pub redact_text : Text → Text
redact_text s = replace_patterns patterns s

abbrev is_joiner : ℕ → Bool
is_joiner c = c == b'_' || (c == b'-' || c == b'.')

abbrev small : ℕ → ℕ
small c = if leb b'A' c && leb c b'Z' then c + 32 else c

-- A key in small letters without its separators; `skip` bytes are part of a letter that has been made small. The letters
-- outside ASCII that have a small letter of ASCII are the Kelvin sign and the capital i with a dot.
unfoldable pub plain_key : ℕ → Text → Text
plain_key skip [] = []
plain_key (suc skip) (c ∷ s) = plain_key skip s
plain_key zero (c ∷ s) =
    if starts_with (c ∷ s) (0xe2 ∷ 0x84 ∷ 0xaa ∷ [])
    then b'k' ∷ plain_key 2 s
    else if starts_with (c ∷ s) (0xc4 ∷ 0xb0 ∷ [])
    then b'i' ∷ plain_key 1 s
    else if is_joiner c
    then plain_key 0 s
    else small c ∷ plain_key 0 s

-- `strings.Contains`
unfoldable pub contains_text : Text → Text → Bool
contains_text [] part = starts_with [] part
contains_text (c ∷ s) part = starts_with (c ∷ s) part || contains_text s part

abbrev markers : List Text
markers =
    codes "password"
    ∷ codes "passwd"
    ∷ codes "token"
    ∷ codes "secret"
    ∷ codes "privatekey"
    ∷ codes "authorization"
    ∷ codes "cookie"
    ∷ codes "apikey"
    ∷ []

-- `sensitiveKey`
unfoldable pub sensitive_key : Text → Bool
sensitive_key key = any (contains_text (plain_key 0 key)) markers

-- `sensitiveStructField`: the field's name, and the name in its json tag.
unfoldable pub sensitive_struct_field : Text → Text → Bool
sensitive_struct_field name json_name =
    sensitive_key name
    || (not (eq_text json_name [])
        && (not (eq_text json_name (codes "-")) && sensitive_key json_name))

-- `reflect.Zero` of the value's type.
unfoldable mutual
  pub zero_value : Value → Value
  zero_value nil_interface = nil_interface
  zero_value (interface v) = nil_interface
  zero_value (bool b) = bool false
  zero_value (int n) = int (pos 0)
  zero_value (float x) = float (whole (pos 0))
  zero_value (string s) = string []
  zero_value nil_map = nil_map
  zero_value (Value.map fs) = nil_map
  zero_value (other_map n xs) = other_map 0 end_items
  zero_value nil_slice = nil_slice
  zero_value (slice xs) = nil_slice
  zero_value (array xs) = array (zero_items xs)
  zero_value nil_pointer = nil_pointer
  zero_value (pointer v) = nil_pointer
  zero_value (struct ms) = struct (zero_members ms)

  pub zero_items : Items → Items
  zero_items end_items = end_items
  zero_items (item v xs) = item (zero_value v) (zero_items xs)

  pub zero_members : Members → Members
  zero_members end_members = end_members
  zero_members (member name json_name exported v ms) =
      member name json_name exported (zero_value v) (zero_members ms)

-- `maskedValue`
unfoldable pub masked_value : Value → Value
unfolding zero_value
masked_value nil_interface = interface (string mask)
masked_value (interface v) = interface (string mask)
masked_value (string s) = string mask
masked_value v = zero_value v

-- `redactValue`
unfoldable mutual
  pub redact_value : Value → Value
  redact_value (interface v) = interface (redact_value v)
  redact_value (string s) = string (redact_text s)
  redact_value (Value.map fs) = Value.map (redact_fields fs)
  redact_value (slice xs) = slice (redact_items xs)
  redact_value (array xs) = array (redact_items xs)
  redact_value (pointer v) = pointer (redact_value v)
  redact_value (struct ms) = struct (redact_members ms)
  redact_value v = v

  pub redact_items : Items → Items
  redact_items end_items = end_items
  redact_items (item v xs) = item (redact_value v) (redact_items xs)

  pub redact_fields : Fields → Fields
  redact_fields end_fields = end_fields
  redact_fields (field key v fs) =
      field key (if sensitive_key key then masked_value v else redact_value v) (redact_fields fs)

  pub redact_members : Members → Members
  redact_members end_members = end_members
  redact_members (member name json_name exported v ms) =
      member name json_name exported
        (if not exported
          then v
          else if sensitive_struct_field name json_name
          then masked_value v
          else redact_value v)
        (redact_members ms)

-- `redactMap`
abbrev pub redact_map : Option Fields → Option Fields
redact_map none = none
redact_map (some fs) = some (redact_fields fs)

abbrev pub redact_check : Check → Check
redact_check c = record c { summary = redact_text c.summary; details = redact_map c.details }

abbrev redact_change : Change → Change
redact_change c = record c { object = redact_text c.object; details = redact_map c.details }

abbrev redact_error : StructuredError → StructuredError
redact_error e = record e {
  message = redact_text e.message;
  dependency = redact_text e.dependency;
  details = redact_map e.details;
}

abbrev each : {A : Type 0} → (A → A) → Slice A → Slice A
each f none = none
each f (some xs) = some (map f xs)

-- `Result`
unfoldable pub redact_result : Result → Result
redact_result r = record r {
  data_map = redact_map r.data_map;
  checks = each redact_check r.checks;
  changes = each redact_change r.changes;
  errors = each redact_error r.errors;
}
