-- ===== src/Prelude/Int.antt =====
-- Signed numbers: an `i32` or `i64` within its range.
use Prim.Native.Nat.{ℕ}
use mathlib.Core.Bool.{Bool, false}
use mcproc.Prelude.Tests.{ltb, ◌==◌}

-- `negsuc n` is -(n + 1).
pub data ℤ : Type 0 where
  pos : ℕ → ℤ
  negsuc : ℕ → ℤ

-- `z == n` and `z > n`, for a literal `n` that is not negative
abbrev pub is_nat : ℕ → ℤ → Bool
is_nat n (pos m) = m == n
is_nat n (negsuc m) = false

abbrev pub exceeds : ℕ → ℤ → Bool
exceeds n (pos m) = ltb n m
exceeds n (negsuc m) = false
