-- ===== src/Prelude/Utf8.antt =====
-- `utf8.ValidString`.
use Prim.Native.Nat.{ℕ, zero, suc}
use mathlib.Core.Bool.{Bool, true, false, ◌&&◌}
use mathlib.Core.List.{[], ◌∷◌}
use shipmunk_runner.Prelude.Tests.{ltb, leb, ◌==◌, if◌then◌else◌}
use shipmunk_runner.Prelude.Text.{Bytes}

-- What a byte leaves to be read: `more` continuation bytes, the first of them from `low` to `high`.
pub data Expected : Type 0 where
  bad : Expected
  bytes : ℕ → ℕ → ℕ → Expected

abbrev within : ℕ → ℕ → ℕ → Bool
within low high b = leb low b && leb b high

abbrev after_start : ℕ → Expected
after_start b =
    if ltb b 0x80
    then bytes 0 0 0
    else if within 0xC2 0xDF b
    then bytes 1 0x80 0xBF
    else if b == 0xE0
    then bytes 2 0xA0 0xBF
    else if b == 0xED
    then bytes 2 0x80 0x9F
    else if within 0xE1 0xEF b
    then bytes 2 0x80 0xBF
    else if b == 0xF0
    then bytes 3 0x90 0xBF
    else if within 0xF1 0xF3 b
    then bytes 3 0x80 0xBF
    else if b == 0xF4
    then bytes 3 0x80 0x8F
    else bad

abbrev after_byte : Expected → ℕ → Expected
after_byte bad b = bad
after_byte (bytes zero low high) b = after_start b
after_byte (bytes (suc n) low high) b = if within low high b then bytes n 0x80 0xBF else bad

utf8_from : Expected → Bytes → Bool
utf8_from bad s = false
utf8_from (bytes zero _ _) [] = true
utf8_from (bytes (suc n) _ _) [] = false
utf8_from e (b ∷ s) = utf8_from (after_byte e b) s

unfoldable pub valid_utf8 : Bytes → Bool
unfolding utf8_from
valid_utf8 = utf8_from (bytes 0 0 0)
