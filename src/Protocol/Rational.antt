-- ===== src/Protocol/Rational.antt =====
-- `numberValue` of internal/protocol/schema.go: the rational that a JSON number stands for.
use shipmunk_runner.Prelude.{
  ℕ, ◌+◌, ◌*◌, ◌^◌, ◌%◌, ◌==◌, ltb, leb, length, Bool, true, false, not, ◌&&◌, ◌||◌, Bytes, Option,
  none, some, [], ◌∷◌, ◌++◌, if◌then◌else◌, ℤ, pos, negsuc, parse_int, digits_from, ◌>>=◌, require,
}
use shipmunk_runner.Json.{Value, number}

-- A sign, a numerator and a denominator that is a power of ten; not in lowest terms.
pub record Rational : Type 0 where
  pub negative : Bool
  pub numerator : ℕ
  pub denominator : ℕ

abbrev pub add_first : ℕ → Bytes × Option Bytes → Bytes × Option Bytes
add_first c (s, t) = (c ∷ s, t)

-- The text before the first byte of a kind, and the text after it if there is one.
unfoldable pub cut_at : (ℕ → Bool) → Bytes → Bytes × Option Bytes
cut_at stop [] = ([], none)
cut_at stop (c ∷ s) = let rest = cut_at stop s in if stop c then ([], some s) else add_first c rest

abbrev pub is_exponent : ℕ → Bool
is_exponent c = c == b'e' || c == b'E'

abbrev pub is_point : ℕ → Bool
is_point c = c == b'.'

abbrev pub within_128 : ℤ → Bool
within_128 (pos n) = leb n 128
within_128 (negsuc n) = ltb n 128

unfoldable pub exponent_of : Option Bytes → Option ℤ
unfolding parse_int
exponent_of none = some (pos 0)
exponent_of (some s) = parse_int s >>= λ e. require (within_128 e) >>= λ _. some e

abbrev pub or_empty : Option Bytes → Bytes
or_empty none = []
or_empty (some s) = s

abbrev pub is_filled : Bytes → Bool
is_filled [] = false
is_filled (_ ∷ _) = true

-- The digits on both sides of the point, as one natural number.
abbrev pub scaled : Bool → ℕ → ℕ → ℤ → Rational
scaled neg n places (pos e) = record {
  negative = neg;
  numerator = n * 10 ^ e;
  denominator = 10 ^ places;
}
scaled neg n places (negsuc e) = record {
  negative = neg;
  numerator = n;
  denominator = 10 ^ (places + e + 1);
}

unfoldable pub magnitude : Bool → Bytes × Option Bytes → ℤ → Option Rational
unfolding digits_from
magnitude neg (whole, fraction) e = require (is_filled whole) >>= λ _.
    digits_from 0 (whole ++ or_empty fraction) >>= λ n.
    some (scaled neg n (length (or_empty fraction)) e)

unfoldable pub signed_magnitude : Bytes → ℤ → Option Rational
unfolding magnitude cut_at
signed_magnitude [] e = none
signed_magnitude (c ∷ s) e =
    if c == b'-'
    then magnitude true (cut_at is_point s) e
    else magnitude false (cut_at is_point (c ∷ s)) e

unfoldable pub text_value : Bytes → Bytes × Option Bytes → Option Rational
unfolding exponent_of signed_magnitude
text_value text (mantissa, exponent) = require (is_filled text && leb (length text) 128) >>= λ _.
    exponent_of exponent >>= λ e. signed_magnitude mantissa e

-- `numberValue`, for the numbers that a JSON decoder lets through.
unfoldable pub number_value : Option Value → Option Rational
unfolding text_value cut_at
number_value (some (number s)) = text_value s (cut_at is_exponent s)
number_value _ = none

-- `rational.IsInt()`.
abbrev pub is_int : Rational → Bool
is_int r = r.numerator % r.denominator == 0

-- `a.Cmp(b) < 0`: the comparison of a/b with c/d is that of a*d with c*b, turned round below zero.
abbrev pub rational_ltb : Rational → Rational → Bool
rational_ltb a b =
    let left = a.numerator * b.denominator in
    let right = b.numerator * a.denominator in
    if a.negative
    then if b.negative then ltb right left else not (left == 0 && right == 0)
    else if b.negative
    then false
    else ltb left right

-- `a.Cmp(b) == 0`.
abbrev pub rational_eq : Rational → Rational → Bool
rational_eq a b = not (rational_ltb a b) && not (rational_ltb b a)
