-- ===== src/Tests/Contracts.antt =====
-- The contracts' schemas of internal/protocol at concrete documents.
use shipmunk_runner.Prelude.{codes, bytes_eq, true, false, ◌≡◌, ◌++◌, refl, some, none, Bytes}
use shipmunk_runner.Json.{Value, obj, arr, field, end, cons, nil, number, str}
use shipmunk_runner.Protocol.Decode.{decode_with}
use shipmunk_runner.Protocol.Document.{IsAt, decode_with-IsAt}
use shipmunk_runner.Protocol.Rules.{Texts, safe_relative_path}
use shipmunk_runner.Protocol.Contract.{decode_validated}
use shipmunk_runner.Protocol.Validated.{IsValidated, decode_validated-IsValidated}
use shipmunk_runner.Codex.Paths.{valid_relative_path}
use shipmunk_runner.Codex.Mirror.{valid_relative_path-safe_relative_path}

abbrev plain : Texts
plain = record { compiles = λ s. true; matches = λ p s. true; is_time = λ s. true }

abbrev twice : Bytes
twice = codes "{\"a\":1,\"a\":[2]}"

abbrev twice_value : Value
twice_value = obj (field (codes "a") (arr (cons (number (codes "2")) nil)) end)

twice_test : decode_with true 100 twice ≡ some twice_value
unfolding decode_with bytes_eq
twice_test = refl

decode_with-IsAt_example : IsAt 0 twice_value
decode_with-IsAt_example = decode_with-IsAt true 100 twice twice_value twice_test

abbrev small_schema : Bytes
small_schema =
    codes
      "{\"$defs\":{\"path\":{\"type\":\"string\",\"minLength\":1,\"maxLength\":9}},\"type\":\"object\",\"required\":[\"p\"],"
    ++ codes
        "\"additionalProperties\":false,\"properties\":{\"p\":{\"$ref\":\"#/$defs/path\"},\"n\":{\"type\":\"integer\",\"minimum\":1,\"maximum\":1e1}}}"

abbrev small_document : Bytes
small_document = codes "{\"p\":\"a/b\",\"n\":10}"

abbrev small_value : Value
small_value =
    obj (field (codes "p") (str (codes "a/b")) (field (codes "n") (number (codes "10")) end))

small_test : decode_validated plain (codes "result") small_schema small_document ≡ some small_value
unfolding decode_validated bytes_eq
small_test = refl

too_large_test :
    decode_validated plain (codes "result") small_schema (codes "{\"p\":\"a/b\",\"n\":10.1}") ≡ none
unfolding decode_validated bytes_eq
too_large_test = refl

unknown_key_test :
    decode_validated plain (codes "result") small_schema (codes "{\"p\":\"a/b\",\"q\":1}") ≡ none
unfolding decode_validated bytes_eq
unknown_key_test = refl

decode_validated-IsValidated_example :
    IsValidated plain (codes "result") small_schema small_document small_value
decode_validated-IsValidated_example =
    decode_validated-IsValidated plain (codes "result") small_schema small_document small_value
      small_test

-- The contract's pattern takes a path with an empty segment, and the parser does not.
doubled_slash_test :
    (safe_relative_path (codes "a//b") ≡ true) × (valid_relative_path (codes "a//b") ≡ false)
unfolding safe_relative_path valid_relative_path bytes_eq
doubled_slash_test = (refl, refl)

plain_path_test : valid_relative_path (codes "a/b") ≡ true
unfolding valid_relative_path bytes_eq
plain_path_test = refl

valid_relative_path-safe_relative_path_example : safe_relative_path (codes "a/b") ≡ true
valid_relative_path-safe_relative_path_example =
    valid_relative_path-safe_relative_path (codes "a/b") plain_path_test
