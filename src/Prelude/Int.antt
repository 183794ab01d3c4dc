-- ===== src/Prelude/Int.antt =====
-- Signed integers (Go's `int`, `int64` and `time.Duration`) over the native numbers.
use Prim.Native.Nat.{ℕ}
use mathlib.Core.Path.{◌≡◌}
use mathlib.Core.Logic.{◌↔◌}
use mathlib.Core.Bool.{Bool, true, false}
use native.Mathlib.Omega.{arith}
use redis_sentinel_reconcile.Prelude.Tests.{ltb, ◌==◌}

-- `negsuc n` is -(n + 1).
pub data ℤ : Type 0 where
  pos : ℕ → ℤ
  negsuc : ℕ → ℤ

-- a > 0
abbrev pub is_positive : ℤ → Bool
is_positive (pos n) = ltb 0 n
is_positive (negsuc n) = false

-- a == 0
abbrev pub is_zero : ℤ → Bool
is_zero (pos n) = n == 0
is_zero (negsuc n) = false

-- n < a, at a natural number n
abbrev pub lt_int : ℕ → ℤ → Bool
lt_int n (pos m) = ltb n m
lt_int n (negsuc m) = false

abbrev pub int_eq : ℤ → ℤ → Bool
int_eq (pos n) (pos m) = n == m
int_eq (pos n) (negsuc m) = false
int_eq (negsuc n) (pos m) = false
int_eq (negsuc n) (negsuc m) = n == m

-- a < 0
abbrev pub is_negative : ℤ → Bool
is_negative (pos n) = false
is_negative (negsuc n) = true

pub int_eq_iff : (a b : ℤ) → (int_eq a b ≡ true) ↔ (a ≡ b)
int_eq_iff a b = ground arith
