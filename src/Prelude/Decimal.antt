-- ===== src/Prelude/Decimal.antt =====
-- `strconv.FormatInt(n, 10)`.
use Prim.Native.Nat.{ℕ, zero, suc, ◌+◌, ◌*◌, ◌/◌, ◌%◌, ◌^◌, ◌≤◌, ◌<◌}
use mathlib.Core.Path.{◌≡◌}
use mathlib.Core.Bool.{true}
use mathlib.Core.Logic.{inl, inr}
use native.Mathlib.Nat.{pow-suc}
use native.Mathlib.Omega.{arith}
use shipmunk_runner.Prelude.Lists.{length, length-append}
use mathlib.Core.List.{[], ◌∷◌, ◌++◌}
use shipmunk_runner.Prelude.Tests.{ltb, Bool-cases, if◌then◌else◌}
use shipmunk_runner.Prelude.Text.{Bytes}
use shipmunk_runner.Prelude.Int.{ℤ, pos, negsuc}

-- A number has at most as many digits as itself plus one, which is the fuel.
unfoldable pub decimal : ℕ → ℕ → Bytes
decimal zero n = []
decimal (suc f) n =
    let more = decimal f (n / 10) ++ (b'0' + n % 10) ∷ [] in
    if ltb n 10 then (b'0' + n) ∷ [] else more

unfoldable pub format_int : ℤ → Bytes
unfolding decimal
format_int (pos n) = decimal (suc n) n
format_int (negsuc n) = b'-' ∷ decimal (suc (suc n)) (suc n)

decimal-length : (f k n : ℕ) → n < 10 ^ suc k → length (decimal f n) ≤ suc k
unfolding decimal
decimal-length zero k n h = omega arith
decimal-length (suc f) zero n h =
    let small : n < 10 = h in let e : ltb n 10 ≡ true = ground arith in rw e (omega arith)
decimal-length (suc f) (suc k) n h =
    let s : 10 ^ suc (suc k) ≡ 10 ^ suc k * 10 = pow-suc 10 (suc k) in
    let smaller : n / 10 < 10 ^ suc k = omega (arith, h, s) in
    let shorter = decimal-length f k (n / 10) smaller in
    elim (Bool-cases (ltb n 10)) [
      | inl e ↦ rw e (omega arith)
      | inr e ↦
          rw e (omega (arith, length-append (decimal f (n / 10)) ((b'0' + n % 10) ∷ []), shorter))
    ]

-- A number below `10 ^ k` has at most `k` digits.
pub format_int-length : (k n : ℕ) → n < 10 ^ suc k → length (format_int (pos n)) ≤ suc k
unfolding format_int
format_int-length k n h = decimal-length (suc n) k n h
