-- ===== src/Platform/Quoting.antt =====
-- Double quotes of os-release: what is quoted reads as itself.
use ohinfra_plugins.Base.{
  ℕ, ◌≡◌, refl, ap, ◌∙◌, Text, false, [], ◌∷◌, ◌++◌, some, ◌==◌, if◌then◌else◌, Fallible, ok, arith,
  Bool-cases, inl, inr, ==_refl, ◌>>=◌,
}
use ohinfra_plugins.Platform.{is_special, unescape, init_last, quoted, parse_value}

-- Double quotes around a text, with a backslash before each byte that has a meaning there.
abbrev pub escape : Text → Text
escape [] = []
escape (c ∷ s) = if is_special c then 92 ∷ c ∷ escape s else c ∷ escape s

abbrev pub quote : Text → Text
quote s = 34 ∷ (escape s ++ 34 ∷ [])

plain : (c : ℕ) → is_special c ≡ false → (c == 92) ≡ false
plain c h = ground arith

unescape-plain :
    (c : ℕ) (s : Text)
    → (c == 92) ≡ false
    → unescape false (c ∷ s) ≡ (unescape false s >>= λ rest. ok (c ∷ rest))
unfolding unescape
unescape-plain c s h = ground (arith, h)

unescape-escape : (s : Text) → unescape false (escape s) ≡ ok s
unfolding unescape
unescape-escape [] = refl
unescape-escape (c ∷ s) = elim (Bool-cases (is_special c)) [
  | inl e ↦ rw e (rw (unescape-escape s) (rw e refl))
  | inr e ↦ rw e (
      unescape-plain c (escape s) (plain c e)
      ∙ ap (λ (r : Fallible Text). r >>= λ rest. ok (c ∷ rest)) (unescape-escape s))
]

init_last-append : (c : ℕ) (s : Text) (d : ℕ) → init_last c (s ++ d ∷ []) ≡ (c ∷ s, d)
init_last-append c [] d = refl
init_last-append c (x ∷ s) d = rw (init_last-append x s d) refl

quoted-append : (s : Text) (q : ℕ) → quoted q (s ++ q ∷ []) ≡ some s
quoted-append [] q = rw (==_refl q) refl
quoted-append (c ∷ s) q = rw (init_last-append c s q) (rw (==_refl q) refl)

-- A text of any bytes, in double quotes with its special bytes escaped, is parsed as itself.
pub parse_value-quote : (s : Text) → parse_value (quote s) ≡ ok s
unfolding parse_value
parse_value-quote s = rw (quoted-append (escape s) 34) (unescape-escape s)
