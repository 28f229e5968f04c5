-- ===== src/Protocol/Strings.antt =====
-- The strings of `encoding/json`, which `decodeValue` of internal/protocol/protocol.go reads by tokens.
use shipmunk_runner.Prelude.{
  ℕ, zero, suc, ◌+◌, ◌-◌, ◌*◌, ◌/◌, ◌%◌, ◌==◌, ltb, leb, Bool, ◌&&◌, ◌||◌, Bytes, Option, none,
  some, List, [], ◌∷◌, ◌++◌, if◌then◌else◌,
}

-- A byte as it stands or of a short escape, or the code unit of `\u`.
pub data Piece : Type 0 where
  byte code_unit : ℕ → Piece

-- Where the reader is: in the text, after a backslash, or with digits of `\u` to come.
pub data Mode : Type 0 where
  plain escape closed failed : Mode
  hex : ℕ → ℕ → Mode

abbrev pub backslash : ℕ
backslash = 92

-- The value of a hexadecimal digit.
abbrev pub hex_digit : ℕ → Option ℕ
hex_digit c =
    if leb b'0' c && leb c b'9'
    then some (c - b'0')
    else if leb b'a' c && leb c b'f'
    then some (c - b'a' + 10)
    else if leb b'A' c && leb c b'F'
    then some (c - b'A' + 10)
    else none

-- The byte of a short escape.
abbrev pub short_escape : ℕ → Option ℕ
short_escape c =
    if c == b'"' || c == backslash || c == b'/'
    then some c
    else if c == b'b'
    then some 8
    else if c == b'f'
    then some 12
    else if c == b'n'
    then some 10
    else if c == b'r'
    then some 13
    else if c == b't'
    then some 9
    else none

abbrev pub hex_mode : ℕ → ℕ → Option ℕ → Mode
hex_mode n acc none = failed
hex_mode zero acc (some d) = plain
hex_mode (suc n) acc (some d) = hex n (acc * 16 + d)

abbrev pub mode_after_escape : Option ℕ → Mode
mode_after_escape none = failed
mode_after_escape (some _) = plain

abbrev pub next_mode : Mode → ℕ → Mode
next_mode plain c =
    if c == b'"'
    then closed
    else if c == backslash
    then escape
    else if ltb c 0x20
    then failed
    else plain
next_mode escape c = if c == b'u' then hex 3 0 else mode_after_escape (short_escape c)
next_mode (hex n acc) c = hex_mode n acc (hex_digit c)
next_mode m c = m

abbrev pub one_byte : Option ℕ → List Piece
one_byte none = []
one_byte (some b) = byte b ∷ []

abbrev pub hex_piece : ℕ → ℕ → Option ℕ → List Piece
hex_piece zero acc (some d) = code_unit (acc * 16 + d) ∷ []
hex_piece _ acc _ = []

abbrev pub emitted : Mode → ℕ → List Piece
emitted plain c = if c == b'"' || c == backslash then [] else byte c ∷ []
emitted escape c = if c == b'u' then [] else one_byte (short_escape c)
emitted (hex n acc) c = hex_piece n acc (hex_digit c)
emitted m c = []

abbrev pub add_pieces : List Piece → Option (List Piece × Bytes) → Option (List Piece × Bytes)
add_pieces ps none = none
add_pieces ps (some (qs, s)) = some (ps ++ qs, s)

-- The pieces up to the closing quote, and the text after it.
unfoldable pub pieces : Mode → Bytes → Option (List Piece × Bytes)
pieces closed s = some ([], s)
pieces failed s = none
pieces m [] = none
pieces m (c ∷ s) = add_pieces (emitted m c) (pieces (next_mode m c) s)

-- The UTF-8 bytes of a rune.
abbrev pub utf8_bytes : ℕ → Bytes
utf8_bytes r =
    if ltb r 0x80
    then r ∷ []
    else if ltb r 0x800
    then (0xC0 + r / 64) ∷ (0x80 + r % 64) ∷ []
    else if ltb r 0x10000
    then (0xE0 + r / 4096) ∷ (0x80 + r / 64 % 64) ∷ (0x80 + r % 64) ∷ []
    else (0xF0 + r / 262144) ∷ (0x80 + r / 4096 % 64) ∷ (0x80 + r / 64 % 64) ∷ (0x80 + r % 64) ∷ []

abbrev pub is_high : ℕ → Bool
is_high u = leb 0xD800 u && leb u 0xDBFF

abbrev pub is_low : ℕ → Bool
is_low u = leb 0xDC00 u && leb u 0xDFFF

abbrev pub pair_rune : ℕ → ℕ → ℕ
pair_rune high low = 0x10000 + (high - 0xD800) * 1024 + (low - 0xDC00)

-- A surrogate with no partner becomes U+FFFD.
abbrev pub alone : ℕ → Bytes
alone u = if is_high u || is_low u then utf8_bytes 0xFFFD else utf8_bytes u

-- The text of the pieces; a high surrogate that was read waits for its partner.
unfoldable pub pieces_text : Option ℕ → List Piece → Bytes
pieces_text none [] = []
pieces_text (some high) [] = alone high
pieces_text none (byte b ∷ ps) = b ∷ pieces_text none ps
pieces_text (some high) (byte b ∷ ps) = alone high ++ (b ∷ pieces_text none ps)
pieces_text none (code_unit u ∷ ps) =
    let waits = if is_high u then some u else none in
    let rest = pieces_text waits ps in if is_high u then rest else alone u ++ rest
pieces_text (some high) (code_unit u ∷ ps) =
    let waits = if is_high u then some u else none in
    let rest = pieces_text waits ps in
    if is_low u
    then utf8_bytes (pair_rune high u) ++ rest
    else if is_high u
    then alone high ++ rest
    else alone high ++ (alone u ++ rest)

unfoldable pub text_read : Option (List Piece × Bytes) → Option (Bytes × Bytes)
unfolding pieces_text
text_read none = none
text_read (some (ps, s)) = some (pieces_text none ps, s)

-- The string whose opening quote has been read, and the text after its closing quote.
unfoldable pub string_body : Bytes → Option (Bytes × Bytes)
unfolding pieces text_read
string_body s = text_read (pieces plain s)
