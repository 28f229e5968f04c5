-- ===== src/Codex/Runes.antt =====
-- The runes of a text that a JSON decoder gave, which is valid UTF-8, and what internal/codex/parser.go
-- asks of them.
use shipmunk_runner.Prelude.{
  ℕ, zero, suc, ◌+◌, ◌-◌, ◌*◌, ◌%◌, ◌==◌, leb, ltb, Bool, true, false, not, ◌&&◌, ◌||◌, Bytes, List,
  [], ◌∷◌, map, if◌then◌else◌,
}

-- The continuation bytes after a first byte, and its own bits.
abbrev more_bytes : ℕ → ℕ
more_bytes b = if ltb b 0xC0 then 0 else if ltb b 0xE0 then 1 else if ltb b 0xF0 then 2 else 3

abbrev first_bits : ℕ → ℕ
first_bits b = if ltb b 0xE0 then b - 0xC0 else if ltb b 0xF0 then b - 0xE0 else b - 0xF0

runes_from : ℕ → ℕ → Bytes → List ℕ
runes_from n acc [] = []
runes_from zero acc (b ∷ s) =
    let rest = runes_from (more_bytes b) (first_bits b) s in
    if more_bytes b == 0 then b ∷ rest else rest
runes_from (suc n) acc (b ∷ s) =
    let rune = acc * 64 + b % 64 in
    let rest = runes_from n rune s in if n == 0 then rune ∷ rest else rest

unfoldable pub runes : Bytes → List ℕ
unfolding runes_from
runes s = runes_from 0 0 s

abbrev between : ℕ → ℕ → ℕ → Bool
between low high r = leb low r && leb r high

-- `unicode.IsSpace`.
abbrev is_space : ℕ → Bool
is_space r =
    between 9 13 r
    || r == 0x20
    || r == 0x85
    || r == 0xA0
    || r == 0x1680
    || between 0x2000 0x200A r
    || r == 0x2028
    || r == 0x2029
    || r == 0x202F
    || r == 0x205F
    || r == 0x3000

abbrev pub all_space : List ℕ → Bool
all_space [] = true
all_space (r ∷ rs) = is_space r && all_space rs

-- No control character and no line or paragraph separator.
abbrev pub is_line_rune : ℕ → Bool
is_line_rune r = not (ltb r 0x20 || between 0x7F 0x9F r || r == 0x2028 || r == 0x2029)

abbrev pub all_line : List ℕ → Bool
all_line [] = true
all_line (r ∷ rs) = is_line_rune r && all_line rs

-- `containsC0`: a rune below 0x20 is one byte.
abbrev pub contains_c0 : Bytes → Bool
contains_c0 [] = false
contains_c0 (b ∷ s) = ltb b 0x20 || contains_c0 s

-- `unicode.ToLower`, as far as an ASCII letter comes out of it: the Kelvin sign is a `k` and the
-- dotted capital I an `i`.
abbrev lower : ℕ → ℕ
lower r =
    if between b'A' b'Z' r
    then r + 32
    else if r == 0x212A
    then b'k'
    else if r == 0x130
    then b'i'
    else r

abbrev starts_with : List ℕ → List ℕ → Bool
starts_with [] s = true
starts_with (c ∷ p) [] = false
starts_with (c ∷ p) (d ∷ s) = c == d && starts_with p s

abbrev contains : List ℕ → List ℕ → Bool
contains p [] = starts_with p []
contains p (c ∷ s) = starts_with p (c ∷ s) || contains p s

-- `containsAny(strings.ToLower(text), candidates…)` for ASCII candidates.
abbrev any_in : List ℕ → List Bytes → Bool
any_in s [] = false
any_in s (p ∷ ps) = contains p s || any_in s ps

unfoldable pub contains_any : Bytes → List Bytes → Bool
unfolding runes
contains_any text candidates = any_in (map lower (runes text)) candidates
