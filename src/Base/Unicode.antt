-- ===== src/Base/Unicode.antt =====
-- UTF-8 as Go's `range` over a string reads it: an invalid byte is one replacement rune.
use Prim.Native.Nat.{ℕ, zero, suc, ◌+◌, ◌-◌, ◌*◌}
use mathlib.Core.Bool.{Bool, true, false, not, ◌&&◌, ◌||◌}
use mathlib.Core.List.{List, [], ◌∷◌, ◌++◌}
use ohinfra_plugins.Base.Tests.{ltb, leb, ◌==◌, if◌then◌else◌}
use ohinfra_plugins.Base.Lists.{all}
use ohinfra_plugins.Base.Sort.{keep}
use ohinfra_plugins.Base.Texts.{Text}

pub data Rune : Type 0 where
  rune : ℕ → Rune
  invalid : Rune

abbrev between : ℕ → ℕ → ℕ → Bool
between low high b = leb low b && leb b high

abbrev is_tail : ℕ → Bool
is_tail = between 0x80 0xbf

two : ℕ → ℕ → Rune × ℕ
two a b = if is_tail b then (rune ((a - 0xc0) * 64 + (b - 0x80)), 1) else (invalid, 0)

-- No overlong form (0xe0) and no surrogate (0xed).
three : ℕ → ℕ → ℕ → Rune × ℕ
three a b c =
    if between (if a == 0xe0 then 0xa0 else 0x80) (if a == 0xed then 0x9f else 0xbf) b && is_tail c
    then (rune ((a - 0xe0) * 4096 + (b - 0x80) * 64 + (c - 0x80)), 2)
    else (invalid, 0)

four : ℕ → ℕ → ℕ → ℕ → Rune × ℕ
four a b c d =
    if between (if a == 0xf0 then 0x90 else 0x80) (if a == 0xf4 then 0x8f else 0xbf) b
      && (is_tail c && is_tail d)
    then (rune ((a - 0xf0) * 262144 + (b - 0x80) * 4096 + (c - 0x80) * 64 + (d - 0x80)), 3)
    else (invalid, 0)

-- The rune that begins with byte `a`, and how many more bytes it takes.
first_rune : ℕ → Text → Rune × ℕ
unfolding two three four
first_rune a [] = if ltb a 0x80 then (rune a, 0) else (invalid, 0)
first_rune a (b ∷ []) =
    if ltb a 0x80 then (rune a, 0) else if between 0xc2 0xdf a then two a b else (invalid, 0)
first_rune a (b ∷ c ∷ []) =
    if ltb a 0x80
    then (rune a, 0)
    else if between 0xc2 0xdf a
    then two a b
    else if between 0xe0 0xef a
    then three a b c
    else (invalid, 0)
first_rune a (b ∷ c ∷ d ∷ s) =
    if ltb a 0x80
    then (rune a, 0)
    else if between 0xc2 0xdf a
    then two a b
    else if between 0xe0 0xef a
    then three a b c
    else if between 0xf0 0xf4 a
    then four a b c d
    else (invalid, 0)

-- The first argument counts the bytes that belong to the rune read last.
runes_after : ℕ → Text → List Rune
unfolding first_rune
runes_after skip [] = []
runes_after (suc skip) (a ∷ s) = runes_after skip s
runes_after zero (a ∷ s) = let (r, more) = first_rune a s in r ∷ runes_after more s

unfoldable pub runes : Text → List Rune
unfolding runes_after
runes = runes_after 0

abbrev is_valid : Rune → Bool
is_valid (rune c) = true
is_valid invalid = false

-- `utf8.ValidString`
unfoldable pub valid_utf8 : Text → Bool
unfolding runes
valid_utf8 s = all is_valid (runes s)

-- `unicode.IsControl`
abbrev pub is_control : Rune → Bool
is_control (rune c) = ltb c 0x20 || between 0x7f 0x9f c
is_control invalid = false

-- `unicode.IsSpace`
abbrev pub is_space : Rune → Bool
is_space (rune c) =
    between 9 13 c
    || c == 32
    || c == 0x85
    || c == 0xa0
    || c == 0x1680
    || between 0x2000 0x200a c
    || between 0x2028 0x2029 c
    || c == 0x202f
    || c == 0x205f
    || c == 0x3000
is_space invalid = false

-- `strings.TrimSpace(s) == ""`
unfoldable pub is_blank : Text → Bool
unfolding runes
is_blank s = all is_space (runes s)

last_is_space : List Rune → Bool
last_is_space [] = false
last_is_space (r ∷ []) = is_space r
last_is_space (r ∷ q ∷ rs) = last_is_space (q ∷ rs)

first_is_space : List Rune → Bool
first_is_space [] = false
first_is_space (r ∷ rs) = is_space r

-- `strings.TrimSpace(s) == s`: neither end is a space.
unfoldable pub is_trimmed : Text → Bool
unfolding runes first_is_space last_is_space
is_trimmed s = not (first_is_space (runes s)) && not (last_is_space (runes s))

abbrev width : ℕ → ℕ
width c = if ltb c 0x80 then 1 else if ltb c 0xe0 then 2 else 3

-- The text behind its leading spaces; `skip` bytes are part of a space.
unfoldable pub trim_left : ℕ → Text → Text
unfolding runes first_is_space
trim_left skip [] = []
trim_left (suc skip) (c ∷ s) = trim_left skip s
trim_left zero (c ∷ s) =
    let behind = trim_left (width c - 1) s in
    if first_is_space (runes (c ∷ s)) then behind else c ∷ s

unfoldable pub trim_right : Text → Text
unfolding is_blank
trim_right [] = []
trim_right (c ∷ s) = let rest = trim_right s in if is_blank (c ∷ s) then [] else c ∷ rest

-- `strings.TrimSpace`
unfoldable pub trim_space : Text → Text
trim_space s = trim_right (trim_left 0 s)

-- The bytes of a text, each with whether it belongs to a space; `skip` bytes belong to the rune read last.
marked : ℕ → Bool → Text → List (Bool × ℕ)
unfolding first_rune
marked skip space [] = []
marked (suc skip) space (c ∷ s) = (space, c) ∷ marked skip space s
marked zero space (c ∷ s) =
    let (r, more) = first_rune c s in (is_space r, c) ∷ marked more (is_space r) s

-- The parts between spaces, those that are empty too; the first argument is the part that is being read.
parts : Text → List (Bool × ℕ) → List Text
parts part [] = part ∷ []
parts part ((true, c) ∷ s) = part ∷ parts [] s
parts part ((false, c) ∷ s) = parts (part ++ c ∷ []) s

is_empty : Text → Bool
is_empty [] = true
is_empty (c ∷ s) = false

-- `strings.Fields`
unfoldable pub fields : Text → List Text
unfolding marked parts is_empty
fields s = keep (λ p. not (is_empty p)) (parts [] (marked 0 false s))
