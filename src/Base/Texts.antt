-- ===== src/Base/Texts.antt =====
-- Go strings as lists of bytes, with the functions of package strings that the program calls.
use Prim.Native.Nat.{ℕ}
use Prim.Native.Char.{code}
use Prim.Native.String.{String}
use mathlib.Core.Path.{◌≡◌, refl}
use mathlib.Core.Bool.{Bool, true, false, ◌&&◌, ◌||◌}
use mathlib.Core.List.{List, [], ◌∷◌, ◌++◌}
use mathlib.Core.Option.{Option, none, some}
use native.Mathlib.Omega.{arith}
use ohinfra_plugins.Base.Tests.{ltb, ◌==◌, if◌then◌else◌}

abbrev pub Text : Type 0
Text = List ℕ

-- The bytes of an ASCII literal.
abbrev pub codes : String → Text
codes String.[] = []
codes (String.◌∷◌ c s) = code c ∷ codes s

abbrev pub eq_text : Text → Text → Bool
eq_text [] [] = true
eq_text (x ∷ xs) (y ∷ ys) = x == y && eq_text xs ys
eq_text _ _ = false

-- `a < b` on Go strings: byte by byte, a proper prefix first.
abbrev pub lt_text : Text → Text → Bool
lt_text [] [] = false
lt_text [] (y ∷ ys) = true
lt_text (x ∷ xs) [] = false
lt_text (x ∷ xs) (y ∷ ys) = ltb x y || (x == y && lt_text xs ys)

-- `strings.CutPrefix`: the rest behind the prefix, if it is there.
abbrev pub cut_prefix : Text → Text → Option Text
cut_prefix s [] = some s
cut_prefix [] (p ∷ ps) = none
cut_prefix (c ∷ s) (p ∷ ps) = if c == p then cut_prefix s ps else none

-- `strings.Join`
unfoldable pub join : List Text → Text → Text
join [] sep = []
join (p ∷ []) sep = p
join (p ∷ q ∷ ps) sep = p ++ (sep ++ join (q ∷ ps) sep)

pub eq_text→eq : (a b : Text) → eq_text a b ≡ true → a ≡ b
eq_text→eq [] [] h = refl
eq_text→eq [] (y ∷ ys) h = cc
eq_text→eq (x ∷ xs) [] h = cc
eq_text→eq (x ∷ xs) (y ∷ ys) h = ground (arith, eq_text→eq xs ys)

pub eq_text_refl : (a : Text) → eq_text a a ≡ true
eq_text_refl [] = refl
eq_text_refl (x ∷ xs) = ground (arith, eq_text_refl xs)

pub cut_prefix-append : (p s : Text) → cut_prefix (p ++ s) p ≡ some s
cut_prefix-append [] s = refl
cut_prefix-append (c ∷ p) s = ground (arith, cut_prefix-append p s)

pub lt_text_irrefl : (a : Text) → lt_text a a ≡ false
lt_text_irrefl [] = refl
lt_text_irrefl (x ∷ xs) = ground (arith, lt_text_irrefl xs)

pub lt_text_trans : (a b c : Text) → lt_text a b ≡ true → lt_text b c ≡ true → lt_text a c ≡ true
lt_text_trans [] [] c h k = cc
lt_text_trans [] (y ∷ ys) [] h k = cc
lt_text_trans [] (y ∷ ys) (z ∷ zs) h k = refl
lt_text_trans (x ∷ xs) [] c h k = cc
lt_text_trans (x ∷ xs) (y ∷ ys) [] h k = cc
lt_text_trans (x ∷ xs) (y ∷ ys) (z ∷ zs) h k = ground (arith, lt_text_trans xs ys zs)

pub lt_text_total : (a b : Text) → lt_text a b ≡ false → lt_text b a ≡ false → a ≡ b
lt_text_total [] [] h k = refl
lt_text_total [] (y ∷ ys) h k = cc
lt_text_total (x ∷ xs) [] h k = cc
lt_text_total (x ∷ xs) (y ∷ ys) h k = ground (arith, lt_text_total xs ys)

pub lt_text_asym : (a b : Text) → lt_text a b ≡ true → lt_text b a ≡ false
lt_text_asym a b h = ground (arith, lt_text_trans a b a, lt_text_irrefl a)

pub lt_text_cotrans :
    (a b c : Text) → lt_text b a ≡ false → lt_text c b ≡ false → lt_text c a ≡ false
lt_text_cotrans a b c h k =
    ground (arith, lt_text_trans c a b, lt_text_total b a, lt_text_trans b c a)
