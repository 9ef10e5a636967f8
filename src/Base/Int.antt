-- ===== src/Base/Int.antt =====
-- Go's `int` as the integers, with the tests that the program makes; `negsuc n` is -(n + 1).
use Prim.Native.Nat.{ℕ}
use mathlib.Core.Path.{◌≡◌}
use mathlib.Core.Bool.{Bool, true, false}
use native.Mathlib.Omega.{arith}
use ohinfra_plugins.Base.Tests.{leb, ◌==◌}

pub data ℤ : Type 0 where
  pos : ℕ → ℤ
  negsuc : ℕ → ℤ

abbrev pub eq_int : ℤ → ℤ → Bool
eq_int (pos a) (pos b) = a == b
eq_int (negsuc a) (negsuc b) = a == b
eq_int _ _ = false

-- `low <= n && n <= high` between natural bounds.
abbrev pub within : ℕ → ℕ → ℤ → Bool
within low high (pos n) = elim (leb low n) [ true ↦ leb n high | false ↦ false ]
within low high (negsuc n) = false

pub eq_int→eq : (a b : ℤ) → eq_int a b ≡ true → a ≡ b
eq_int→eq (pos a) (pos b) h = ground arith
eq_int→eq (pos a) (negsuc b) h = cc
eq_int→eq (negsuc a) (pos b) h = cc
eq_int→eq (negsuc a) (negsuc b) h = ground arith

pub eq_int_refl : (a : ℤ) → eq_int a a ≡ true
eq_int_refl (pos a) = ground arith
eq_int_refl (negsuc a) = ground arith
