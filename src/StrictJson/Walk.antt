-- ===== src/StrictJson/Walk.antt =====
-- The walk over the tokens of a JSON value, with any rest behind them.
use ohinfra_plugins.Base.{
  ℕ, zero, suc, ◌≤◌, Text, eq_text, ◌≡◌, refl, Bool, true, false, List, [], ◌∷◌, ◌++◌, any, Option,
  none, some, if◌then◌else◌, Fallible, ok, err, Error, arith, ◌>>=◌, ◌∙◌,
}
use mathlib.Core.List.{append_assoc}
use ohinfra_plugins.StrictJson.{
  Token, text, Decoder, duplicate_key, walk_value, walk_members, walk_items,
}
use ohinfra_plugins.StrictJson.Document.{
  Json, atom, str, arr, obj, Elements, no_element, element, Entries, no_entry, entry, first_token,
  other_tokens, element_tokens, entry_tokens, or_else, duplicate, duplicate_element,
  duplicate_entry, size, size_elements, size_entries, size-pos, size_elements-pos, size_entries-pos,
}

abbrev pub at : List Token → Error → Decoder
at tokens stop = record { tokens = tokens; stop = stop }

abbrev pub outcome : Option Text → Decoder → Fallible Decoder
outcome none d = ok d
outcome (some k) d = err (duplicate_key k)

-- One round of the loop over items, and one of the loop over members.
walk_items_step :
    (x : Json) (f : ℕ) (s : List Token) (stop : Error)
    → walk_items (suc f) (at (first_token x ∷ s) stop)
      ≡ (walk_value f (first_token x) (at s stop) >>= walk_items f)
unfolding walk_items
walk_items_step (atom n) f s stop = refl
walk_items_step (str t) f s stop = refl
walk_items_step (arr xs) f s stop = refl
walk_items_step (obj es) f s stop = refl

walk_members_step :
    (k : Text) (x : Json) (seen : List Text) (f : ℕ) (s : List Token) (stop : Error)
    → walk_members (suc f) seen (at (text k ∷ first_token x ∷ s) stop) ≡ (
        if any (eq_text k) seen
        then err (duplicate_key k)
        else walk_value f (first_token x) (at s stop) >>= walk_members f (k ∷ seen))
unfolding walk_members
walk_members_step k x seen f s stop = ground arith

outcome-bind :
    (o p : Option Text) (d d' : Decoder) (g : Decoder → Fallible Decoder)
    → g d ≡ outcome p d'
    → (outcome o d >>= g) ≡ outcome (or_else o p) d'
outcome-bind none p d d' g h = h
outcome-bind (some k) p d d' g h = refl

outcome-if :
    (b : Bool) (k : Text) (p : Option Text) (d : Decoder) (r : Fallible Decoder)
    → r ≡ outcome p d
    → (if b then err (duplicate_key k) else r) ≡ outcome (if b then some k else p) d
outcome-if true k p d r h = refl
outcome-if false k p d r h = h

mutual
  unfolding walk_value element_tokens duplicate size

  walk_json :
      (j : Json) (f : ℕ) (rest : List Token) (stop : Error)
      → size j ≤ f
      → walk_value f (first_token j) (at (other_tokens j ++ rest) stop)
        ≡ outcome (duplicate j) (at rest stop)
  walk_json j zero rest stop h = absurd (omega (arith, size-pos j))
  walk_json (atom n) (suc f) rest stop h = refl
  walk_json (str s) (suc f) rest stop h = refl
  walk_json (arr xs) (suc f) rest stop h = walk_elements xs f rest stop (omega arith)
  walk_json (obj es) (suc f) rest stop h = walk_entries es [] f rest stop (omega arith)

  walk_elements :
      (xs : Elements) (f : ℕ) (rest : List Token) (stop : Error)
      → size_elements xs ≤ f
      → walk_items f (at (element_tokens xs ++ rest) stop)
        ≡ outcome (duplicate_element xs) (at rest stop)
  walk_elements xs zero rest stop h = absurd (omega (arith, size_elements-pos xs))
  walk_elements no_element (suc f) rest stop h = refl
  walk_elements (element x xs) (suc f) rest stop h =
      let tail = element_tokens xs ++ rest in
      walk_items_step x f ((other_tokens x ++ element_tokens xs) ++ rest) stop
      ∙ rw
          (
            append_assoc (other_tokens x) (element_tokens xs) rest,
            walk_json x f tail stop (omega arith),
          )
          (outcome-bind (duplicate x) (duplicate_element xs) (at tail stop) (at rest stop)
            (walk_items f) (walk_elements xs f rest stop (omega arith)))

  walk_entries :
      (es : Entries) (seen : List Text) (f : ℕ) (rest : List Token) (stop : Error)
      → size_entries es ≤ f
      → walk_members f seen (at (entry_tokens es ++ rest) stop)
        ≡ outcome (duplicate_entry seen es) (at rest stop)
  walk_entries es seen zero rest stop h = absurd (omega (arith, size_entries-pos es))
  walk_entries no_entry seen (suc f) rest stop h = refl
  walk_entries (entry k x es) seen (suc f) rest stop h =
      let tail = entry_tokens es ++ rest in
      walk_members_step k x seen f ((other_tokens x ++ entry_tokens es) ++ rest) stop
      ∙ outcome-if (any (eq_text k) seen) k (or_else (duplicate x) (duplicate_entry (k ∷ seen) es))
          (at rest stop) _
          (rw
            (
              append_assoc (other_tokens x) (entry_tokens es) rest,
              walk_json x f tail stop (omega arith),
            )
            (outcome-bind (duplicate x) (duplicate_entry (k ∷ seen) es) (at tail stop)
              (at rest stop) (walk_members f (k ∷ seen))
              (walk_entries es (k ∷ seen) f rest stop (omega arith))))

-- With enough fuel the walk consumes the tokens of the value, or stops at its first duplicate key.
pub walk-tokens :
    (j : Json) (f : ℕ) (rest : List Token) (stop : Error)
    → size j ≤ f
    → walk_value f (first_token j) (at (other_tokens j ++ rest) stop)
      ≡ outcome (duplicate j) (at rest stop)
walk-tokens = walk_json
