-- ===== src/Protocol/Schema.antt =====
-- `validateSchema` of internal/protocol/schema.go: the schemas that the runner can check against.
use shipmunk_runner.Prelude.{
  Bool, true, false, not, ◌&&◌, ◌||◌, Bytes, codes, bytes_eq, Option, none, some, List, [], ◌∷◌,
  if◌then◌else◌, ℤ, pos, parse_int, is_some, ◌>>=◌,
}
use shipmunk_runner.Json.{
  Value, Values, Fields, bool, number, str, arr, obj, nil, cons, end, field, get,
}
use shipmunk_runner.Archive.Text.{has_byte}
use shipmunk_runner.Protocol.Numbers.{strip_prefix}
use shipmunk_runner.Protocol.Rational.{number_value}
use shipmunk_runner.Codex.Fields.{one_of, object_of}

-- `refPrefix`, and the pattern that Go's regular expressions do not have.
abbrev pub ref_prefix : Bytes
ref_prefix = codes "#/$defs/"

abbrev pub safe_relative_path_pattern : Bytes
safe_relative_path_pattern = codes "^(?!/)(?!.*(?:^|/)\\.\\.(?:/|$))(?!.*\\\\)[^\\x00-\\x1f]+$"

abbrev pub plain_name : Bytes → Option Bytes
plain_name [] = none
plain_name (c ∷ s) = if has_byte b'/' (c ∷ s) then none else some (c ∷ s)

-- `resolveRef`.
unfoldable pub resolve_ref : Fields → Bytes → Option Value
unfolding strip_prefix get
resolve_ref root ref = strip_prefix ref_prefix ref >>= plain_name >>= λ name.
    object_of (get (codes "$defs") root) >>= λ defs. get name defs

abbrev pub schema_types : List Bytes
schema_types =
    codes "object"
    ∷ codes "array"
    ∷ codes "string"
    ∷ codes "integer"
    ∷ codes "number"
    ∷ codes "boolean"
    ∷ codes "null"
    ∷ []

-- The names of types, each of them once.
unfoldable pub distinct_types : List Bytes → Values → Bool
unfolding one_of
distinct_types seen nil = true
distinct_types seen (cons (str s) vs) =
    one_of s schema_types && not (one_of s seen) && distinct_types (s ∷ seen) vs
distinct_types seen (cons _ vs) = false

-- `validateSchemaTypes`.
unfoldable pub valid_schema_types : Value → Bool
unfolding one_of distinct_types
valid_schema_types (str s) = one_of s schema_types
valid_schema_types (arr (cons v vs)) = distinct_types [] (cons v vs)
valid_schema_types _ = false

-- What a keyword's value has to be.
pub data Keyword : Type 0 where
  unsupported anything a_reference a_text a_format a_pattern some_types a_bound a_number : Keyword
  some_values some_schemas a_schema named_schemas some_names : Keyword

-- `supportedSchemaKeywords`, by what is checked of each.
unfoldable pub keyword_of : Bytes → Keyword
unfolding one_of bytes_eq
keyword_of k =
    if one_of k
      (codes "if" ∷ codes "then" ∷ codes "else" ∷ codes "items" ∷ codes "additionalProperties" ∷ [])
    then a_schema
    else if one_of k (codes "$defs" ∷ codes "properties" ∷ [])
    then named_schemas
    else if one_of k (codes "anyOf" ∷ codes "allOf" ∷ [])
    then some_schemas
    else if one_of k
        (codes "minLength" ∷ codes "maxLength" ∷ codes "minItems" ∷ codes "maxItems" ∷ [])
    then a_bound
    else if one_of k (codes "minimum" ∷ codes "maximum" ∷ [])
    then a_number
    else if one_of k (codes "$schema" ∷ codes "$id" ∷ [])
    then a_text
    else if bytes_eq k (codes "$ref")
    then a_reference
    else if bytes_eq k (codes "format")
    then a_format
    else if bytes_eq k (codes "pattern")
    then a_pattern
    else if bytes_eq k (codes "type")
    then some_types
    else if bytes_eq k (codes "enum")
    then some_values
    else if bytes_eq k (codes "required")
    then some_names
    else if bytes_eq k (codes "const")
    then anything
    else unsupported

abbrev pub is_bound : Option ℤ → Bool
is_bound (some (pos _)) = true
is_bound _ = false

-- `integerSchema`.
unfoldable pub integer_schema : Option Value → Option ℤ
unfolding parse_int
integer_schema (some (number s)) = parse_int s
integer_schema _ = none

unfoldable pub all_texts : Values → Bool
all_texts nil = true
all_texts (cons (str _) vs) = all_texts vs
all_texts (cons _ vs) = false

-- The keywords whose value holds no schema. Whether a regular expression compiles is the argument
-- `compiles`.
module _ (compiles : Bytes → Bool) (root : Fields) where
  unfoldable pub plain_keyword : Keyword → Value → Bool
  unfolding resolve_ref bytes_eq valid_schema_types integer_schema number_value all_texts
  plain_keyword anything v = true
  plain_keyword a_reference (str ref) = is_some (resolve_ref root ref)
  plain_keyword a_text (str s) = true
  plain_keyword a_format (str s) = bytes_eq s (codes "date-time")
  plain_keyword a_pattern (str s) = compiles s || bytes_eq s safe_relative_path_pattern
  plain_keyword some_types v = valid_schema_types v
  plain_keyword a_bound v = is_bound (integer_schema (some v))
  plain_keyword a_number v = is_some (number_value (some v))
  plain_keyword some_values (arr (cons _ _)) = true
  plain_keyword some_names (arr vs) = all_texts vs
  plain_keyword _ _ = false

  -- `validateSchema`: a Boolean, or an object whose keywords are all supported.
  unfoldable mutual
    unfolding keyword_of plain_keyword

    pub validate_schema : Value → Bool
    validate_schema (bool b) = true
    validate_schema (obj fs) = validate_keywords fs
    validate_schema _ = false

    pub validate_keywords : Fields → Bool
    validate_keywords end = true
    validate_keywords (field k v fs) = validate_keyword (keyword_of k) v && validate_keywords fs

    pub validate_keyword : Keyword → Value → Bool
    validate_keyword a_schema (bool b) = true
    validate_keyword a_schema (obj fs) = validate_keywords fs
    validate_keyword named_schemas (obj fs) = validate_members fs
    validate_keyword some_schemas (arr (cons v vs)) = validate_schema v && validate_schemas vs
    validate_keyword kind v = plain_keyword kind v

    pub validate_members : Fields → Bool
    validate_members end = true
    validate_members (field _ v fs) = validate_schema v && validate_members fs

    pub validate_schemas : Values → Bool
    validate_schemas nil = true
    validate_schemas (cons v vs) = validate_schema v && validate_schemas vs
