-- ===== src/Protocol/Lexemes.antt =====
-- One lexeme of a JSON text, as `json.Decoder.Token` reads it.
use shipmunk_runner.Prelude.{
  ℕ, ◌==◌, Bool, true, false, ◌||◌, Bytes, codes, Option, none, some, [], ◌∷◌, if◌then◌else◌,
}
use shipmunk_runner.Json.{Value, null, bool, number}
use shipmunk_runner.Protocol.Strings.{string_body}
use shipmunk_runner.Protocol.Numbers.{number_text, strip_prefix}

pub data Lexeme : Type 0 where
  open_object close_object open_array close_array colon comma : Lexeme
  text : Bytes → Lexeme
  scalar : Value → Lexeme

abbrev pub is_blank : ℕ → Bool
is_blank c = c == 0x20 || c == 9 || c == 10 || c == 13

unfoldable pub skip_blank : Bytes → Bytes
skip_blank [] = []
skip_blank (c ∷ s) = let rest = skip_blank s in if is_blank c then rest else c ∷ s

abbrev pub text_lexeme : Option (Bytes × Bytes) → Option (Lexeme × Bytes)
text_lexeme none = none
text_lexeme (some (s, rest)) = some (text s, rest)

abbrev pub number_lexeme : Option (Bytes × Bytes) → Option (Lexeme × Bytes)
number_lexeme none = none
number_lexeme (some (s, rest)) = some (scalar (number s), rest)

abbrev pub literal_lexeme : Value → Option Bytes → Option (Lexeme × Bytes)
literal_lexeme v none = none
literal_lexeme v (some rest) = some (scalar v, rest)

-- A lexeme of one byte.
abbrev pub delimiter : ℕ → Option Lexeme
delimiter c =
    if c == b'{'
    then some open_object
    else if c == b'}'
    then some close_object
    else if c == b'['
    then some open_array
    else if c == b']'
    then some close_array
    else if c == b':'
    then some colon
    else if c == b','
    then some comma
    else none

-- A string, a literal or a number by its first byte.
unfoldable pub scalar_at : ℕ → Bytes → Option (Lexeme × Bytes)
unfolding string_body number_text strip_prefix
scalar_at c s =
    if c == b'"'
    then text_lexeme (string_body s)
    else if c == b't'
    then literal_lexeme (bool true) (strip_prefix (codes "rue") s)
    else if c == b'f'
    then literal_lexeme (bool false) (strip_prefix (codes "alse") s)
    else if c == b'n'
    then literal_lexeme null (strip_prefix (codes "ull") s)
    else number_lexeme (number_text (c ∷ s))

abbrev pub delimiter_or : Bytes → Option Lexeme → Option (Lexeme × Bytes) → Option (Lexeme × Bytes)
delimiter_or s (some t) o = some (t, s)
delimiter_or s none o = o

unfoldable pub lexeme_at : Bytes → Option (Lexeme × Bytes)
unfolding scalar_at
lexeme_at [] = none
lexeme_at (c ∷ s) = delimiter_or s (delimiter c) (scalar_at c s)

unfoldable pub lexeme : Bytes → Option (Lexeme × Bytes)
unfolding skip_blank lexeme_at
lexeme s = lexeme_at (skip_blank s)
