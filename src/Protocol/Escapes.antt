-- ===== src/Protocol/Escapes.antt =====
-- `validateUnicodeEscapes` and `unicodeCodeUnit` of internal/protocol/protocol.go.
use shipmunk_runner.Prelude.{
  ℕ, zero, suc, ◌+◌, ◌*◌, ◌==◌, Bool, true, false, ◌||◌, Bytes, Option, none, some, [], ◌∷◌,
  if◌then◌else◌,
}
use shipmunk_runner.Protocol.Strings.{hex_digit, is_high, is_low}

-- What the byte at the index is to be. `digits high n acc` has read the digits before the last `suc n`
-- of a code unit, whose high surrogate is known where it is the second of a pair.
pub data Expects : Type 0 where
  outside inside escape refused : Expects
  digits : Option ℕ → ℕ → ℕ → Expects
  pair_backslash pair_u : ℕ → Expects

abbrev pub after_unit : Option ℕ → ℕ → Expects
after_unit none u = if is_low u then refused else if is_high u then pair_backslash u else inside
after_unit (some high) u = if is_low u then inside else refused

abbrev pub after_digit : Option ℕ → ℕ → ℕ → Option ℕ → Expects
after_digit high n acc none = refused
after_digit high zero acc (some d) = after_unit high (acc * 16 + d)
after_digit high (suc n) acc (some d) = digits high n (acc * 16 + d)

abbrev pub next_expects : Expects → ℕ → Expects
next_expects outside c = if c == b'"' then inside else outside
next_expects inside c =
    if c == b'"'
    then outside
    else if c == 92
    then escape
    else if c == 10 || c == 13
    then refused
    else inside
next_expects escape c = if c == b'u' then digits none 3 0 else inside
next_expects (digits high n acc) c = after_digit high n acc (hex_digit c)
next_expects (pair_backslash high) c = if c == 92 then pair_u high else refused
next_expects (pair_u high) c = if c == b'u' then digits (some high) 3 0 else refused
next_expects refused c = refused

unfoldable pub escapes_from : Expects → Bytes → Bool
escapes_from outside [] = true
escapes_from e [] = false
escapes_from e (c ∷ s) = escapes_from (next_expects e c) s

unfoldable pub valid_unicode_escapes : Bytes → Bool
unfolding escapes_from
valid_unicode_escapes s = escapes_from outside s
