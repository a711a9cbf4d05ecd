-- ===== src/Base/Int.antt =====
-- The integers: a Go `int` is one of them between -2^63 and 2^63 - 1.
use Prim.Native.Nat.{ℕ, zero, suc}
use mathlib.Core.Bool.{Bool, true, false}
use cff_core.Base.Tests.{leb}

-- `negsuc n` is -(n + 1).
pub data ℤ : Type 0 where
  pos : ℕ → ℤ
  negsuc : ℕ → ℤ

abbrev pub is_zero : ℤ → Bool
is_zero (pos zero) = true
is_zero _ = false

-- `n > 0`
abbrev pub is_positive : ℤ → Bool
is_positive (pos (suc n)) = true
is_positive _ = false

-- The value of a positive integer, and 0 otherwise.
abbrev pub nat_part : ℤ → ℕ
nat_part (pos n) = n
nat_part (negsuc n) = 0

-- `i <= j`
abbrev pub leb_int : ℤ → ℤ → Bool
leb_int (pos m) (pos n) = leb m n
leb_int (pos m) (negsuc n) = false
leb_int (negsuc m) (pos n) = true
leb_int (negsuc m) (negsuc n) = leb n m
