-- ===== src/Protocol/Numbers.antt =====
-- The numbers and literals of `encoding/json`.
use shipmunk_runner.Prelude.{
  ℕ, ◌==◌, Bool, true, false, ◌||◌, Bytes, Option, none, some, [], ◌∷◌, is_digit, if◌then◌else◌,
}

-- What has been read of a number.
pub data Mode : Type 0 where
  start minus zero whole point fraction exponent exponent_sign exponent_digits stopped : Mode

abbrev pub after_whole : ℕ → Mode
after_whole c = if c == b'.' then point else if c == b'e' || c == b'E' then exponent else stopped

abbrev pub first_digit : ℕ → Mode
first_digit c = if c == b'0' then zero else if is_digit c then whole else stopped

abbrev pub next_mode : Mode → ℕ → Mode
next_mode start c = if c == b'-' then minus else first_digit c
next_mode minus c = first_digit c
next_mode zero c = after_whole c
next_mode whole c = if is_digit c then whole else after_whole c
next_mode point c = if is_digit c then fraction else stopped
next_mode fraction c =
    if is_digit c then fraction else if c == b'e' || c == b'E' then exponent else stopped
next_mode exponent c =
    if c == b'+' || c == b'-'
    then exponent_sign
    else if is_digit c
    then exponent_digits
    else stopped
next_mode exponent_sign c = if is_digit c then exponent_digits else stopped
next_mode exponent_digits c = if is_digit c then exponent_digits else stopped
next_mode stopped c = stopped

abbrev pub is_stopped : Mode → Bool
is_stopped stopped = true
is_stopped _ = false

abbrev pub is_number : Mode → Bool
is_number zero = true
is_number whole = true
is_number fraction = true
is_number exponent_digits = true
is_number _ = false

abbrev pub add_byte : ℕ → Option (Bytes × Bytes) → Option (Bytes × Bytes)
add_byte c none = none
add_byte c (some (s, rest)) = some (c ∷ s, rest)

-- The longest number, and the text after it.
unfoldable pub number_from : Mode → Bytes → Option (Bytes × Bytes)
number_from m [] = if is_number m then some ([], []) else none
number_from m (c ∷ s) =
    let rest = number_from (next_mode m c) s in
    if is_stopped (next_mode m c)
    then if is_number m then some ([], c ∷ s) else none
    else add_byte c rest

unfoldable pub number_text : Bytes → Option (Bytes × Bytes)
unfolding number_from
number_text s = number_from start s

-- The text after a literal.
unfoldable pub strip_prefix : Bytes → Bytes → Option Bytes
strip_prefix [] s = some s
strip_prefix (c ∷ p) [] = none
strip_prefix (c ∷ p) (d ∷ s) = let rest = strip_prefix p s in if c == d then rest else none
