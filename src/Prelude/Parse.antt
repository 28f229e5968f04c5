-- ===== src/Prelude/Parse.antt =====
-- `strconv.ParseInt(s, 10, 64)`, which `json.Number.Int64` calls.
use Prim.Native.Nat.{ℕ, ◌+◌, ◌-◌, ◌*◌}
use mathlib.Core.Bool.{Bool, ◌&&◌}
use mathlib.Core.Option.{Option, none, some}
use mathlib.Core.List.{[], ◌∷◌}
use shipmunk_runner.Prelude.Tests.{leb, ◌==◌, if◌then◌else◌}
use shipmunk_runner.Prelude.Text.{Bytes}
use shipmunk_runner.Prelude.Int.{ℤ, pos, negsuc, max_int64}

abbrev pub is_digit : ℕ → Bool
is_digit c = leb b'0' c && leb c b'9'

-- The value of the digits after those of `n`; any other byte is an error.
unfoldable pub digits_from : ℕ → Bytes → Option ℕ
digits_from n [] = some n
digits_from n (c ∷ s) =
    let rest = digits_from (n * 10 + (c - b'0')) s in if is_digit c then rest else none

abbrev pub digits : Bytes → Option ℕ
digits [] = none
digits (c ∷ s) = digits_from 0 (c ∷ s)

abbrev pub positive : Option ℕ → Option ℤ
positive none = none
positive (some n) = if leb n max_int64 then some (pos n) else none

abbrev negate : ℕ → ℤ
negate n = if n == 0 then pos 0 else negsuc (n - 1)

abbrev negative : Option ℕ → Option ℤ
negative none = none
negative (some n) = if leb n (max_int64 + 1) then some (negate n) else none

unfoldable pub parse_int : Bytes → Option ℤ
unfolding digits_from
parse_int [] = none
parse_int (c ∷ s) =
    if c == b'-'
    then negative (digits s)
    else if c == b'+'
    then positive (digits s)
    else positive (digits (c ∷ s))
