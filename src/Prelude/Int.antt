-- ===== src/Prelude/Int.antt =====
-- Python's `int` over the native numbers: what the program asks of a size.
use mathlib.Core.Path.{◌≡◌, ap}
use mathlib.Core.Bool.{Bool, true, false}
use Prim.Native.Nat.{ℕ}
use native.Mathlib.Omega.{arith}
use postgresbuild.Prelude.Tests.{◌==◌}

-- `negsuc n` is -(n + 1).
pub data ℤ : Type 0 where
  pos : ℕ → ℤ
  negsuc : ℕ → ℤ

abbrev pub is_negative : ℤ → Bool
is_negative (pos n) = false
is_negative (negsuc n) = true

unfoldable pub int_eq : ℤ → ℤ → Bool
int_eq (pos a) (pos b) = a == b
int_eq (pos a) (negsuc b) = false
int_eq (negsuc a) (pos b) = false
int_eq (negsuc a) (negsuc b) = a == b

pub int_eq_refl : (a : ℤ) → int_eq a a ≡ true
unfolding int_eq
int_eq_refl (pos a) = ground arith
int_eq_refl (negsuc a) = ground arith

pub int_eq-eq : (a b : ℤ) → int_eq a b ≡ true → a ≡ b
unfolding int_eq
int_eq-eq (pos a) (pos b) h = ap pos (ground arith)
int_eq-eq (pos a) (negsuc b) h = cc
int_eq-eq (negsuc a) (pos b) h = cc
int_eq-eq (negsuc a) (negsuc b) h = ap negsuc (ground arith)
