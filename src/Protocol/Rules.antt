-- ===== src/Protocol/Rules.antt =====
-- The rules of internal/protocol/schema.go that look at the value alone: types, numbers, texts.
use shipmunk_runner.Prelude.{
  ℕ, ◌==◌, length, Bool, true, false, not, ◌&&◌, ◌||◌, Bytes, codes, bytes_eq, Option, none, some,
  List, [], ◌∷◌, if◌then◌else◌, ℤ, pos, int_ltb,
}
use shipmunk_runner.Json.{Value, Values, Fields, null, bool, number, str, arr, obj, nil, cons, get}
use shipmunk_runner.Archive.Text.{has_byte, split}
use shipmunk_runner.Archive.Header.{starts_with_slash}
use shipmunk_runner.Claim.Manifest.{is_utc_timestamp}
use shipmunk_runner.Codex.Fields.{string_of}
use shipmunk_runner.Codex.Runes.{runes, contains_c0}
use shipmunk_runner.Protocol.Rational.{Rational, number_value, rational_ltb, is_int}
use shipmunk_runner.Protocol.Same.{same_json}
use shipmunk_runner.Protocol.Schema.{integer_schema, safe_relative_path_pattern}

-- The regular expressions and the parsing of a time in RFC 3339.
pub record Texts : Type 0 where
  pub compiles : Bytes → Bool
  pub matches : Bytes → Bytes → Bool
  pub is_time : Bytes → Bool

unfoldable pub has_parent : List Bytes → Bool
unfolding bytes_eq
has_parent [] = false
has_parent (s ∷ ss) = bytes_eq s (codes "..") || has_parent ss

-- `safeRelativePath`.
unfoldable pub safe_relative_path : Bytes → Bool
unfolding has_parent
safe_relative_path s =
    not (length s == 0 || starts_with_slash s || has_byte 92 s)
    && not (has_parent (split s))
    && not (contains_c0 s)

abbrev pub integral : Option Rational → Bool
integral none = false
integral (some r) = is_int r

-- `hasSingleType`.
unfoldable pub has_single_type : Bytes → Value → Bool
unfolding bytes_eq number_value
has_single_type kind (obj _) = bytes_eq kind (codes "object")
has_single_type kind (arr _) = bytes_eq kind (codes "array")
has_single_type kind (str _) = bytes_eq kind (codes "string")
has_single_type kind (number s) =
    bytes_eq kind (codes "number")
    || (bytes_eq kind (codes "integer") && integral (number_value (some (number s))))
has_single_type kind (bool _) = bytes_eq kind (codes "boolean")
has_single_type kind null = bytes_eq kind (codes "null")

unfoldable pub any_type : Values → Value → Bool
unfolding has_single_type
any_type nil v = false
any_type (cons (str kind) ks) v = has_single_type kind v || any_type ks v
any_type (cons _ ks) v = any_type ks v

-- `hasType`.
unfoldable pub has_type : Value → Value → Bool
unfolding any_type
has_type (str kind) v = has_single_type kind v
has_type (arr kinds) v = any_type kinds v
has_type _ v = false

unfoldable pub any_same : Values → Value → Bool
unfolding same_json
any_same nil v = false
any_same (cons c cs) v = same_json c v || any_same cs v

-- A bound that is missing holds.
abbrev pub at_least : Option ℤ → ℕ → Bool
at_least none n = true
at_least (some b) n = not (int_ltb (pos n) b)

abbrev pub at_most : Option ℤ → ℕ → Bool
at_most none n = true
at_most (some b) n = not (int_ltb b (pos n))

abbrev pub bound_fits : Option Rational → (Rational → Bool) → Bool
bound_fits none fits = false
bound_fits (some b) fits = fits b

unfoldable pub bounded_by : Option Value → (Rational → Bool) → Bool
unfolding number_value
bounded_by none fits = true
bounded_by (some v) fits = bound_fits (number_value (some v)) fits

unfoldable pub in_bounds : Fields → Option Rational → Bool
unfolding bounded_by get
in_bounds schema none = false
in_bounds schema (some r) =
    bounded_by (get (codes "minimum") schema) (λ b. not (rational_ltb r b))
    && bounded_by (get (codes "maximum") schema) (λ b. not (rational_ltb b r))

-- `numberRules`.
unfoldable pub number_rules : Fields → Value → Bool
unfolding in_bounds number_value
number_rules schema (number s) = in_bounds schema (number_value (some (number s)))
number_rules schema _ = true

module _ (texts : Texts) where
  -- `matchesPattern`.
  unfoldable pub matches_pattern : Bytes → Bytes → Bool
  unfolding safe_relative_path bytes_eq
  matches_pattern pattern s =
      if bytes_eq pattern safe_relative_path_pattern
      then safe_relative_path s
      else texts.compiles pattern && texts.matches pattern s

  unfoldable pub pattern_rule : Option Bytes → Bytes → Bool
  unfolding matches_pattern
  pattern_rule none s = true
  pattern_rule (some pattern) s = matches_pattern pattern s

  unfoldable pub format_rule : Option Bytes → Bytes → Bool
  unfolding is_utc_timestamp bytes_eq
  format_rule none s = true
  format_rule (some format) s =
      not (bytes_eq format (codes "date-time")) || (is_utc_timestamp s && texts.is_time s)

  -- `stringRules`.
  unfoldable pub string_rules : Fields → Value → Bool
  unfolding runes integer_schema pattern_rule format_rule get
  string_rules schema (str s) =
      at_least (integer_schema (get (codes "minLength") schema)) (length (runes s))
      && at_most (integer_schema (get (codes "maxLength") schema)) (length (runes s))
      && pattern_rule (string_of (get (codes "pattern") schema)) s
      && format_rule (string_of (get (codes "format") schema)) s
  string_rules schema _ = true
