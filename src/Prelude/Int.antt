-- ===== src/Prelude/Int.antt =====
-- Signed 64-bit integers: `negsuc n` is -(n + 1).
use Prim.Native.Nat.{ℕ, zero, suc, ◌+◌, ◌-◌, ◌^◌}
use mathlib.Core.Bool.{Bool, true, false}
use shipmunk_runner.Prelude.Tests.{ltb, ◌==◌, if◌then◌else◌}

pub data ℤ : Type 0 where
  pos : ℕ → ℤ
  negsuc : ℕ → ℤ

-- `a < b`, and `a == b`.
abbrev pub int_ltb : ℤ → ℤ → Bool
int_ltb (pos a) (pos b) = ltb a b
int_ltb (pos a) (negsuc b) = false
int_ltb (negsuc a) (pos b) = true
int_ltb (negsuc a) (negsuc b) = ltb b a

abbrev pub int_eq : ℤ → ℤ → Bool
int_eq (pos a) (pos b) = a == b
int_eq (negsuc a) (negsuc b) = a == b
int_eq _ _ = false

abbrev pub max_int64 : ℕ
max_int64 = 2 ^ 63 - 1

-- `n++` on an int64, which wraps from its largest value to its smallest.
abbrev pub int_incr : ℤ → ℤ
int_incr (pos n) = if n == max_int64 then negsuc max_int64 else pos (n + 1)
int_incr (negsuc zero) = pos 0
int_incr (negsuc (suc n)) = negsuc n
