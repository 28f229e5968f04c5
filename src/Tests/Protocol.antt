-- ===== src/Tests/Protocol.antt =====
-- The decoder of internal/protocol at concrete texts.
use shipmunk_runner.Prelude.{
  codes, false, length, ◌*◌, ◌+◌, bytes_eq, true, ◌≡◌, refl, some, none, Bytes, ◌∷◌, [],
}
use shipmunk_runner.Json.{Value, obj, arr, field, end, cons, nil, number, null, str, bool}
use shipmunk_runner.Protocol.Fuel.{decode_value_ends}
use shipmunk_runner.Protocol.Decode.{decode, decode_value, decode_allowing_duplicate_keys}

abbrev small_text : Bytes
small_text =
    codes "{\"a\": [1, -2.5e3, {\"b\": null}, true], \"c\": \"x\\u00e9\\ud83d\\ude00\\n\"} "

abbrev small_value : Value
small_value = obj (
    field (codes "a")
      (arr (
        cons (number (codes "1")) (
          cons (number (codes "-2.5e3"))
            (cons (obj (field (codes "b") null end)) (cons (bool true) nil)))))
      (field (codes "c") (str (b'x' ∷ 0xC3 ∷ 0xA9 ∷ 0xF0 ∷ 0x9F ∷ 0x98 ∷ 0x80 ∷ 10 ∷ [])) end))

small_text_test : decode 1000 small_text ≡ some small_value
unfolding decode bytes_eq
small_text_test = refl

duplicate_test : decode 1000 (codes "{\"a\":1,\"a\":2}") ≡ none
unfolding decode bytes_eq
duplicate_test = refl

last_wins_test :
    decode_allowing_duplicate_keys 1000 (codes "{\"a\":1,\"a\":2}")
    ≡ some (obj (field (codes "a") (number (codes "2")) end))
unfolding decode_allowing_duplicate_keys bytes_eq
last_wins_test = refl

trailing_comma_test : decode 1000 (codes "[1,]") ≡ none
unfolding decode bytes_eq
trailing_comma_test = refl

unpaired_test : decode 1000 (codes "\"\\ud800x\"") ≡ none
unfolding decode bytes_eq
unpaired_test = refl

leading_zero_test : decode 1000 (codes "[01]") ≡ none
unfolding decode bytes_eq
leading_zero_test = refl

text_after_test : decode 1000 (codes "{} x") ≡ none
unfolding decode bytes_eq
text_after_test = refl

decode_value_ends_example :
    decode_value false (4 * length small_text + 1 + 7) 0 small_text
    ≡ decode_value false (4 * length small_text + 1) 0 small_text
decode_value_ends_example = decode_value_ends false 7 0 small_text
