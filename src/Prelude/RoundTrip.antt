-- ===== src/Prelude/RoundTrip.antt =====
-- `strconv.ParseInt` after `strconv.FormatInt`.
use Prim.Native.Nat.{ℕ, zero, suc, ◌+◌, ◌-◌, ◌*◌, ◌/◌, ◌%◌, ◌≤◌}
use mathlib.Core.Path.{◌≡◌, refl, ap, ◌∙◌}
use mathlib.Core.Bool.{true, false}
use mathlib.Core.Logic.{inl, inr}
use mathlib.Core.Option.{Option, some}
use mathlib.Core.List.{[], ◌∷◌, ◌++◌}
use native.Mathlib.Omega.{arith}
use shipmunk_runner.Prelude.Tests.{ltb, leb, ◌==◌, Bool-cases}
use shipmunk_runner.Prelude.Text.{Bytes}
use shipmunk_runner.Prelude.Int.{pos, max_int64}
use shipmunk_runner.Prelude.Decimal.{decimal, format_int}
use shipmunk_runner.Prelude.Parse.{digits_from, is_digit, positive, parse_int}

some_injective : {a b : ℕ} → ◌≡◌ {A = Option ℕ} (some a) (some b) → a ≡ b
some_injective e = cc

digits_from-append :
    (a m c : ℕ) (s : Bytes)
    → digits_from a s ≡ some m
    → is_digit c ≡ true
    → digits_from a (s ++ (c ∷ [])) ≡ some (m * 10 + (c - b'0'))
unfolding digits_from
digits_from-append a m c [] h d = rw d (ap (λ k. some (k * 10 + (c - b'0'))) (some_injective h))
digits_from-append a m c (x ∷ s) h d = elim (Bool-cases (is_digit x)) [
  | inl e ↦ rw e (digits_from-append (a * 10 + (x - b'0')) m c s (rw e at h) d)
  | inr e ↦ cc (rw e at h)
]

short_decimal : (f n : ℕ) → ltb n 10 ≡ true → digits_from 0 (decimal (suc f) n) ≡ some n
unfolding decimal digits_from
short_decimal f n e =
    let d : is_digit (b'0' + n) ≡ true = ground arith in
    let v : 0 + (b'0' + n - b'0') ≡ n = omega arith in rw e (rw d (ap some v))

long_decimal :
    (f n : ℕ)
    → ltb n 10 ≡ false
    → digits_from 0 (decimal f (n / 10)) ≡ some (n / 10)
    → digits_from 0 (decimal (suc f) n) ≡ some n
unfolding decimal digits_from
long_decimal f n e h =
    let d : is_digit (b'0' + n % 10) ≡ true = ground arith in
    let v : n / 10 * 10 + (b'0' + n % 10 - b'0') ≡ n = omega arith in
    rw e (digits_from-append 0 (n / 10) (b'0' + n % 10) (decimal f (n / 10)) h d ∙ ap some v)

pub digits_from-decimal : (f n : ℕ) → n ≤ f → digits_from 0 (decimal (suc f) n) ≡ some n
digits_from-decimal zero n h = short_decimal zero n (ground arith)
digits_from-decimal (suc f) n h = elim (Bool-cases (ltb n 10)) [
  | inl e ↦ short_decimal (suc f) n e
  | inr e ↦
      let big : 10 ≤ n = ground arith in
      long_decimal (suc f) n e (digits_from-decimal f (n / 10) (omega arith))
]

parse_digits :
    (s : Bytes) (n : ℕ) → digits_from 0 s ≡ some n → 1 ≤ n → parse_int s ≡ positive (some n)
unfolding parse_int digits_from
parse_digits [] n h k = absurd (omega (arith, some_injective h))
parse_digits (c ∷ s) n h k = elim (Bool-cases (is_digit c)) [
  | inl e ↦
      let minus : (c == b'-') ≡ false = ground arith in
      let plus : (c == b'+') ≡ false = ground arith in rw minus (rw plus (ap positive h))
  | inr e ↦ cc (rw e at h)
]

-- An int64 that is not negative is read back from its digits.
pub parse_int-format_int : (n : ℕ) → n ≤ max_int64 → parse_int (format_int (pos n)) ≡ some (pos n)
unfolding format_int parse_int digits_from
parse_int-format_int zero h = refl
parse_int-format_int (suc n) h =
    let e : leb (suc n) max_int64 ≡ true = ground arith in
    parse_digits (decimal (suc (suc n)) (suc n)) (suc n)
      (digits_from-decimal (suc n) (suc n) (omega arith)) (omega arith)
    ∙ rw e refl
