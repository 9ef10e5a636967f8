-- ===== src/StrictJson.antt =====
-- internal/strictjson: JSON without duplicate keys. The decoder of encoding/json is the list of
-- tokens that it still gives, and the error at which it stops; `End` is the end of the input.
pub mod Document
pub mod Walk
pub mod Exact
use ohinfra_plugins.Base.{
  ℕ, zero, suc, Text, eq_text, Bool, true, false, List, [], ◌∷◌, any, length, if◌then◌else◌,
  Fallible, Checked, ok, err, Error, end_of_input, failure, message, ◌>>=◌, ◌>>◌, require, not, ◌*◌,
}

-- What `decoder.Token()` returns: a delimiter, a string, or another scalar.
pub data Token : Type 0 where
  open_object close_object open_array close_array : Token
  text : Text → Token
  scalar : ℕ → Token

-- The tokens left, and the error behind them (`end_of_input`, io.EOF, behind a complete one).
pub record Decoder : Type 0 where
  pub tokens : List Token
  pub stop : Error

-- `decoder.Token()`
abbrev pub next_token : Decoder → Fallible (Token × Decoder)
next_token d = elim d.tokens [ [] ↦ err d.stop | t ∷ rest ↦ ok (t, record d { tokens = rest }) ]

-- `decoder.More()`: the next token is there and closes nothing.
abbrev pub more : Decoder → Bool
more d = elim d.tokens [
  | [] ↦ false
  | t ∷ rest ↦ elim t [ close_object ↦ false | close_array ↦ false | _ ↦ true ]
]

-- The token behind a loop over members or items is there, and closes the object or array.
abbrev pub close_object_next : Decoder → Fallible Decoder
close_object_next d = elim d.tokens [
  | [] ↦ err d.stop
  | t ∷ rest ↦ elim t [
    | close_object ↦ ok (record d { tokens = rest })
    | _ ↦ err (failure "unterminated JSON object")
  ]
]

abbrev pub close_array_next : Decoder → Fallible Decoder
close_array_next d = elim d.tokens [
  | [] ↦ err d.stop
  | t ∷ rest ↦ elim t [
    | close_array ↦ ok (record d { tokens = rest })
    | _ ↦ err (failure "unterminated JSON array")
  ]
]

abbrev pub key_of : Token → Fallible Text
key_of (text key) = ok key
key_of t = err (failure "object key is not a string")

abbrev pub duplicate_key : Text → Error
duplicate_key key = message "duplicate JSON key %q" (key ∷ [])

-- `walkValue`, its loop over the members, with the keys seen, and its loop over the items. The
-- fuel bounds the calls; running out of it is an error that the code does not have.
unfoldable mutual
  pub walk_value : ℕ → Token → Decoder → Fallible Decoder
  walk_value zero t d = err (failure "out of fuel")
  walk_value (suc f) open_object d = walk_members f [] d
  walk_value (suc f) open_array d = walk_items f d
  walk_value (suc f) close_object d = err (failure "unexpected JSON delimiter %q")
  walk_value (suc f) close_array d = err (failure "unexpected JSON delimiter %q")
  walk_value (suc f) (text s) d = ok d
  walk_value (suc f) (scalar n) d = ok d

  pub walk_members : ℕ → List Text → Decoder → Fallible Decoder
  walk_members zero seen d = err (failure "out of fuel")
  walk_members (suc f) seen d = elim (more d) [
    | false ↦ close_object_next d
    | true ↦ do
      (key_token, d1) ← next_token d
      key ← key_of key_token
      require (not (any (eq_text key) seen)) (duplicate_key key)
      (value, d2) ← next_token d1
      d3 ← walk_value f value d2
      walk_members f (key ∷ seen) d3
  ]

  pub walk_items : ℕ → Decoder → Fallible Decoder
  walk_items zero d = err (failure "out of fuel")
  walk_items (suc f) d = elim (more d) [
    | false ↦ close_array_next d
    | true ↦ do (value, d1) ← next_token d; d2 ← walk_value f value d1; walk_items f d2
  ]

-- Two calls for each token are enough.
abbrev pub fuel_for : List Token → ℕ
fuel_for tokens = 2 * length tokens

-- The token behind the document: there must be none.
abbrev pub at_end : Decoder → Checked
at_end d = elim d.tokens [
  | [] ↦ elim d.stop [ end_of_input ↦ ok tt | e ↦ err e ]
  | t ∷ rest ↦ err (failure "multiple JSON values are not allowed")
]

unfoldable pub reject_duplicate_keys : Decoder → Checked
unfolding walk_value walk_members walk_items
reject_duplicate_keys d = do
  (first, d1) ← next_token d
  d2 ← walk_value (fuel_for d.tokens) first d1
  at_end d2

-- `Decode`: `decode` is the strict decoding of encoding/json into the target.
unfoldable pub strict_decode {ℓ} : {A : Type ℓ} → Fallible A → Decoder → Fallible A
unfolding reject_duplicate_keys
strict_decode decode d = do reject_duplicate_keys d; decode
