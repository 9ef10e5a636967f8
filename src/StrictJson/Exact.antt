-- ===== src/StrictJson/Exact.antt =====
-- `rejectDuplicateKeys` against the documents themselves.
use ohinfra_plugins.Base.{
  Text, ◌≡◌, refl, List, ◌∷◌, ◌++◌, Option, none, some, Fallible, err, Error, arith, length-append,
  ◌>>=◌, ◌∙◌, ap,
}
use ohinfra_plugins.StrictJson.{Token, Decoder, duplicate_key, reject_duplicate_keys, fuel_for}
use ohinfra_plugins.StrictJson.Document.{Json, first_token, other_tokens, duplicate, size-le-tokens}
use ohinfra_plugins.StrictJson.{at_end}
use ohinfra_plugins.StrictJson.Walk.{at, outcome, walk-tokens}

then_at_end :
    (o : Option Text) (d : Decoder)
    → (outcome o d >>= at_end) ≡ (elim o [ none ↦ at_end d | some k ↦ err (duplicate_key k) ])
then_at_end none d = refl
then_at_end (some k) d = refl

abbrev pub document : Json → List Token
document j = first_token j ∷ other_tokens j

-- The check of the tokens of a JSON value, whatever follows them: it fails with the first key that
-- an object in the value, at any depth, has twice; otherwise it succeeds exactly if the input ends
-- there, and reports what follows if it does not. The fuel never runs out.
pub reject_duplicate_keys-document :
    (j : Json) (rest : List Token) (stop : Error)
    → reject_duplicate_keys (at (document j ++ rest) stop)
      ≡ (elim (duplicate j) [ none ↦ at_end (at rest stop) | some k ↦ err (duplicate_key k) ])
unfolding reject_duplicate_keys
reject_duplicate_keys-document j rest stop =
    ap (λ (r : Fallible Decoder). r >>= at_end)
      (walk-tokens j (fuel_for (document j ++ rest)) rest stop
        (omega (arith, size-le-tokens j, length-append (other_tokens j) rest)))
    ∙ then_at_end (duplicate j) (at rest stop)
