-- ===== src/ResultBuilder.antt =====
-- internal/resultbuilder/resultbuilder.go: a result from checks, changes and errors, before its
-- texts are redacted. The copies that the code makes of its input are the input itself here.
pub mod Classify
pub mod Stderr
pub mod Build
use ohinfra_plugins.Base.{
  ℕ, ◌+◌, ◌≡◌, refl, Text, codes, eq_text, lt_text, cut_prefix, Bool, true, false, not, ◌&&◌, ◌||◌,
  List, [], ◌∷◌, map, any, Option, none, some, leb, ◌==◌, if◌then◌else◌, sort_stable,
}
use ohinfra_plugins.Protocol.Value.{
  Value, interface, slice, array, Items, item, end_items, Fields, field, end_fields,
}
use ohinfra_plugins.Protocol.Value
use ohinfra_plugins.Protocol.Types.{
  Status, pass, info, warning, critical, partial, Check, Change, StructuredError, Slice, elements,
}

-- The loop of `classify`, with its two flags.
unfoldable pub classify_checks : Bool → Bool → List Check → Status
classify_checks has_warning has_partial [] =
    if has_warning then warning else if has_partial then partial else pass
classify_checks has_warning has_partial (check ∷ rest) = elim check.status [
  | critical ↦ critical
  | warning ↦ classify_checks true has_partial rest
  | pass ↦ classify_checks has_warning has_partial rest
  | info ↦ classify_checks has_warning has_partial rest
  | _ ↦ classify_checks has_warning true rest
]

abbrev pub is_present {ℓ} : {A : Type ℓ} → List A → Bool
is_present [] = false
is_present (x ∷ xs) = true

unfoldable pub classify : List Check → List StructuredError → Status
classify checks errors = classify_checks false (is_present errors) checks

abbrev is_separator : ℕ → Bool
is_separator c = c == b'_' || c == b'-' || c == b'.'

abbrev lower : ℕ → ℕ
lower c = if leb b'A' c && leb c b'Z' then c + 32 else c

abbrev normalized : Text → Text
normalized [] = []
normalized (c ∷ s) = if is_separator c then normalized s else lower c ∷ normalized s

-- A key that begins with stderr, but for case and separators. A letter that is not ASCII has none
-- of the letters of stderr as its lower case.
abbrev pub is_stderr : Text → Bool
is_stderr key = elim (cut_prefix (normalized key) (codes "stderr")) [
  | none ↦ false
  | some rest ↦ true
]

-- `removeStderrValue`
unfoldable mutual
  pub remove_stderr : Value → Value
  remove_stderr (interface v) = interface (remove_stderr v)
  remove_stderr (Value.map fs) = Value.map (remove_fields fs)
  remove_stderr (slice xs) = slice (remove_items xs)
  remove_stderr (array xs) = array (remove_items xs)
  remove_stderr v = v

  pub remove_items : Items → Items
  remove_items end_items = end_items
  remove_items (item v xs) = item (remove_stderr v) (remove_items xs)

  pub remove_fields : Fields → Fields
  remove_fields end_fields = end_fields
  remove_fields (field key v fs) =
      if is_stderr key then remove_fields fs else field key (remove_stderr v) (remove_fields fs)
