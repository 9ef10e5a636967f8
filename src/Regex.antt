-- ===== src/Regex.antt =====
-- Regular expressions of package regexp, as far as internal/redact/redact.go uses them.
use ohinfra_plugins.Base.{
  ℕ, ◌+◌, ◌-◌, Text, codes, Bool, false, not, ◌&&◌, ◌||◌, List, [], ◌∷◌, ◌++◌, take, Option, none,
  some, leb, ◌==◌, if◌then◌else◌, map, zero, suc,
}

-- A regular expression of package regexp, as far as the patterns go: a byte of a class, as many bytes of a class as there are
-- (or fewer, if the rest matches only then), and a boundary of a word.
pub data Regex : Type 0 where
  one : (ℕ → Bool) → Regex
  many : (ℕ → Bool) → Regex
  boundary : Regex
  and_then : Regex → Regex → Regex
  or_else : Regex → Regex → Regex
  nothing : Regex

-- A place in a text: the byte before it, the number of bytes that have been matched, and the rest.
pub record Place : Type 0 where
  pub before : Option ℕ
  pub taken : ℕ
  pub rest : Text

abbrev is_letter_or_digit : ℕ → Bool
is_letter_or_digit c =
    leb b'A' c && leb c b'Z' || (leb b'a' c && leb c b'z' || leb b'0' c && leb c b'9')

abbrev pub is_word : ℕ → Bool
is_word c = is_letter_or_digit c || c == b'_'

abbrev is_word_before : Option ℕ → Bool
is_word_before none = false
is_word_before (some c) = is_word c

abbrev is_word_after : Text → Bool
is_word_after [] = false
is_word_after (c ∷ s) = is_word c

abbrev differ : Bool → Bool → Bool
differ a b = a && not b || (not a && b)

unfoldable pub flat_map : {A B : Type 0} → (A → List B) → List A → List B
flat_map f [] = []
flat_map f (a ∷ rest) = f a ++ flat_map f rest

abbrev take_one : (ℕ → Bool) → Option ℕ → ℕ → Text → List Place
take_one p before n [] = []
take_one p before n (c ∷ s) =
    if p c then record { before = some c; taken = n + 1; rest = s } ∷ [] else []

unfoldable pub take_many : (ℕ → Bool) → Option ℕ → ℕ → Text → List Place
take_many p before n [] = record { before = before; taken = n; rest = [] } ∷ []
take_many p before n (c ∷ s) =
    let further = take_many p (some c) (n + 1) s in
    let here : Place = record { before = before; taken = n; rest = c ∷ s } in
    if p c then further ++ here ∷ [] else here ∷ []

-- The places where a match can end, the preferred one first.
unfoldable pub ends : Regex → Place → List Place
ends (one p) at = take_one p at.before at.taken at.rest
ends (many p) at = take_many p at.before at.taken at.rest
ends boundary at = if differ (is_word_before at.before) (is_word_after at.rest) then at ∷ [] else []
ends (and_then a b) at = flat_map (ends b) (ends a at)
ends (or_else a b) at = ends a at ++ ends b at
ends nothing at = at ∷ []

-- A pattern whose replacement keeps the text of the first expression and has a mask for the second.
pub record Pattern : Type 0 where
  pub kept : Regex
  pub masked : Regex

-- What a match is replaced by, behind the text that is kept.
abbrev pub stars : Text
stars = codes "********"

abbrev matches : Pattern → Place → List (ℕ × ℕ)
matches p at =
    flat_map (λ (k : Place). map (λ (e : Place). (k.taken, e.taken)) (ends p.masked k))
      (ends p.kept at)

-- `ReplaceAllString`: `skip` bytes are part of the match that has been replaced. No pattern matches the empty text.
unfoldable pub replace_from : Pattern → ℕ → Option ℕ → Text → Text
replace_from p skip before [] = []
replace_from p (suc skip) before (c ∷ s) = replace_from p skip (some c) s
replace_from p zero before (c ∷ s) =
    elim (matches p (record { before = before; taken = 0; rest = c ∷ s })) [
      | [] ↦ c ∷ replace_from p zero (some c) s
      | (kept, all) ∷ others ↦ take kept (c ∷ s) ++ (stars ++ replace_from p (all - 1) (some c) s)
    ]

abbrev pub replace_all : Pattern → Text → Text
replace_all p s = replace_from p 0 none s
