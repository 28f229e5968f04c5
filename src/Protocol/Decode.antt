-- ===== src/Protocol/Decode.antt =====
-- `decode` and `decodeValue` of internal/protocol/protocol.go.
use shipmunk_runner.Prelude.{
  ℕ, zero, suc, ◌+◌, ◌-◌, ◌*◌, leb, ltb, length, Bool, true, false, not, ◌&&◌, ◌||◌, Bytes, Option,
  none, some, [], ◌∷◌, valid_utf8, if◌then◌else◌, ◌>>=◌, require,
}
use shipmunk_runner.Json.{Value, Values, nil, cons, Fields, end, arr, obj, str, put, has_key}
use shipmunk_runner.Protocol.Escapes.{valid_unicode_escapes}
use shipmunk_runner.Protocol.Lexemes.{
  Lexeme, open_object, close_object, open_array, close_array, colon, comma, text, scalar, lexeme,
  skip_blank,
}

abbrev pub max_json_depth : ℕ
max_json_depth = 64

-- A value that was read, and the text after it.
abbrev pub Read : Type 0
Read = Option (Value × Bytes)

-- `array = append(array, value)`.
abbrev pub append_value : Values → Value → Values
append_value nil v = cons v nil
append_value (cons u us) v = cons u (append_value us v)

-- What comes next in an array or an object: its end, or a value; in an object the value has a key.
pub data Turn : Type 0 where
  closed : Bytes → Turn
  value_at : Bytes → Turn
  keyed : Bytes → Bytes → Turn

abbrev pub item_turn : Bool → Bytes → Option (Lexeme × Bytes) → Option Turn
item_turn first s none = none
item_turn first s (some (close_array, rest)) = some (closed rest)
item_turn true s (some _) = some (value_at s)
item_turn false s (some (comma, rest)) = some (value_at rest)
item_turn false s (some _) = none

abbrev pub after_colon : Bytes → Option (Lexeme × Bytes) → Option Turn
after_colon k (some (colon, rest)) = some (keyed k rest)
after_colon k _ = none

unfoldable pub key_turn : Option (Lexeme × Bytes) → Option Turn
unfolding lexeme
key_turn (some (text k, rest)) = after_colon k (lexeme rest)
key_turn _ = none

unfoldable pub field_turn : Bool → Option (Lexeme × Bytes) → Option Turn
unfolding lexeme key_turn
field_turn first (some (close_object, rest)) = some (closed rest)
field_turn false (some (comma, rest)) = key_turn (lexeme rest)
field_turn false _ = none
field_turn true t = key_turn t

-- `depth < MaxJSONDepth-1`, or an error.
abbrev pub is_shallow : ℕ → Bool
is_shallow depth = ltb depth (max_json_depth - 1)

-- The Boolean argument `dup` is `allowDuplicateKeys`.
unfoldable mutual
  unfolding lexeme has_key put field_turn

  pub decode_value : Bool → ℕ → ℕ → Bytes → Read
  decode_value dup zero depth s = none
  decode_value dup (suc n) depth s = lexeme s >>= λ (t, rest). decode_lexeme dup n depth t rest

  pub decode_lexeme : Bool → ℕ → ℕ → Lexeme → Bytes → Read
  decode_lexeme dup zero depth t s = none
  decode_lexeme dup (suc n) depth open_object s =
      require (is_shallow depth) >>= λ _. decode_fields dup n depth end true s
  decode_lexeme dup (suc n) depth open_array s =
      require (is_shallow depth) >>= λ _. decode_items dup n depth nil true s
  decode_lexeme dup (suc n) depth (text s) rest = some (str s, rest)
  decode_lexeme dup (suc n) depth (scalar v) rest = some (v, rest)
  decode_lexeme dup (suc n) depth _ rest = none

  pub decode_items : Bool → ℕ → ℕ → Values → Bool → Bytes → Read
  decode_items dup zero depth vs first s = none
  decode_items dup (suc n) depth vs first s =
      item_turn first s (lexeme s) >>= λ t. decode_item dup n depth vs t

  pub decode_item : Bool → ℕ → ℕ → Values → Turn → Read
  decode_item dup zero depth vs t = none
  decode_item dup (suc n) depth vs (closed rest) = some (arr vs, rest)
  decode_item dup (suc n) depth vs (value_at s) = decode_value dup n (depth + 1) s >>= λ (v, rest).
      decode_items dup n depth (append_value vs v) false rest
  decode_item dup (suc n) depth vs (keyed _ _) = none

  pub decode_fields : Bool → ℕ → ℕ → Fields → Bool → Bytes → Read
  decode_fields dup zero depth fs first s = none
  decode_fields dup (suc n) depth fs first s =
      field_turn first (lexeme s) >>= λ t. decode_field dup n depth fs t

  pub decode_field : Bool → ℕ → ℕ → Fields → Turn → Read
  decode_field dup zero depth fs t = none
  decode_field dup (suc n) depth fs (closed rest) = some (obj fs, rest)
  decode_field dup (suc n) depth fs (keyed k s) = require (dup || not (has_key k fs)) >>= λ _.
      decode_value dup n (depth + 1) s >>= λ (v, rest).
      decode_fields dup n depth (put k v fs) false rest
  decode_field dup (suc n) depth fs (value_at _) = none

abbrev pub is_blank_text : Bytes → Bool
is_blank_text [] = true
is_blank_text (_ ∷ _) = false

-- Nothing but blanks may follow the value.
unfoldable pub whole_text : Read → Option Value
unfolding skip_blank
whole_text none = none
whole_text (some (v, rest)) = if is_blank_text (skip_blank rest) then some v else none

-- `decode`. Four calls of the reader read a byte at least, so this fuel is enough.
unfoldable pub decode_with : Bool → ℕ → Bytes → Option Value
unfolding decode_value valid_utf8 valid_unicode_escapes whole_text
decode_with dup max_bytes raw =
    if leb (length raw) max_bytes && valid_utf8 raw && valid_unicode_escapes raw
    then whole_text (decode_value dup (4 * length raw + 1) 0 raw)
    else none

-- `Decode`.
unfoldable pub decode : ℕ → Bytes → Option Value
unfolding decode_with
decode max_bytes raw = decode_with false max_bytes raw

-- `DecodeAllowingDuplicateKeys`.
unfoldable pub decode_allowing_duplicate_keys : ℕ → Bytes → Option Value
unfolding decode_with
decode_allowing_duplicate_keys max_bytes raw = decode_with true max_bytes raw
