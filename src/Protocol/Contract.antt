-- ===== src/Protocol/Contract.antt =====
-- `validateNode` and `decodeValidated` of internal/protocol/schema.go: a document against a contract's schema.
use shipmunk_runner.Prelude.{
  ℕ, zero, suc, ◌+◌, ◌*◌, Bool, true, false, not, ◌&&◌, ◌||◌, Bytes, codes, bytes_eq, Option, none,
  some, [], ◌∷◌, if◌then◌else◌, ◌>>=◌, require,
}
use shipmunk_runner.Json.{
  Value, Values, Fields, bool, str, arr, obj, nil, cons, end, field, get, has_key,
}
use shipmunk_runner.Codex.Fields.{one_of, object_of}
use shipmunk_runner.Protocol.Decode.{decode, max_json_depth}
use shipmunk_runner.Protocol.Rational.{Rational, number_value, rational_ltb}
use shipmunk_runner.Protocol.Same.{same_json, count_values}
use shipmunk_runner.Protocol.Schema.{resolve_ref, integer_schema, validate_schema}
use shipmunk_runner.Protocol.Rules.{
  Texts, at_least, at_most, has_type, any_same, number_rules, string_rules,
}

-- The names are texts, since `validateSchema` has seen to it.
unfoldable pub all_required : Values → Fields → Bool
unfolding has_key
all_required nil document = true
all_required (cons (str name) names) document = has_key name document && all_required names document
all_required (cons _ names) document = false

unfoldable pub required_rule : Option (Value) → Fields → Bool
unfolding all_required
required_rule (some (arr names)) document = all_required names document
required_rule _ document = true

abbrev pub fields_or_none : Option Fields → Fields
fields_or_none none = end
fields_or_none (some fs) = fs

-- The rules with schemas in them, on a check of a smaller depth.
module _ (check : Value → Value → Bool) where
  abbrev pub all_items : Value → Values → Bool
  all_items items nil = true
  all_items items (cons v vs) = check items v && all_items items vs

  abbrev pub items_rule : Option Value → Values → Bool
  items_rule none vs = true
  items_rule (some items) vs = all_items items vs

  -- `arrayRules`.
  unfoldable pub array_rules : Fields → Value → Bool
  unfolding integer_schema get
  array_rules schema (arr vs) =
      at_least (integer_schema (get (codes "minItems") schema)) (count_values vs)
      && at_most (integer_schema (get (codes "maxItems") schema)) (count_values vs)
      && items_rule (get (codes "items") schema) vs
  array_rules schema _ = true

  abbrev pub additional_rule : Option Value → Value → Bool
  additional_rule none v = true
  additional_rule (some (bool allowed)) v = allowed
  additional_rule (some additional) v = check additional v

  abbrev pub property_rule : Option Value → Option Value → Value → Bool
  property_rule (some known) additional v = check known v
  property_rule none additional v = additional_rule additional v

  unfoldable pub property_rules : Fields → Option Value → Fields → Bool
  unfolding get
  property_rules properties additional end = true
  property_rules properties additional (field name v document) =
      property_rule (get name properties) additional v
      && property_rules properties additional document

  -- `objectRules`.
  unfoldable pub object_rules : Fields → Value → Bool
  unfolding required_rule property_rules get
  object_rules schema (obj document) =
      required_rule (get (codes "required") schema) document
      && property_rules (fields_or_none (object_of (get (codes "properties") schema)))
          (get (codes "additionalProperties") schema) document
  object_rules schema _ = true

  abbrev pub any_schema : Values → Value → Bool
  any_schema nil v = false
  any_schema (cons s ss) v = check s v || any_schema ss v

  abbrev pub all_schemas : Values → Value → Bool
  all_schemas nil v = true
  all_schemas (cons s ss) v = check s v && all_schemas ss v

  abbrev pub any_of_rule : Option Value → Value → Bool
  any_of_rule (some (arr ss)) v = any_schema ss v
  any_of_rule _ v = true

  abbrev pub all_of_rule : Option Value → Value → Bool
  all_of_rule (some (arr ss)) v = all_schemas ss v
  all_of_rule _ v = true

  abbrev pub branch_rule : Option Value → Value → Bool
  branch_rule none v = true
  branch_rule (some s) v = check s v

  unfoldable pub if_rule : Fields → Option Value → Value → Bool
  unfolding get
  if_rule schema none v = true
  if_rule schema (some condition) v =
      if check condition v
      then branch_rule (get (codes "then") schema) v
      else branch_rule (get (codes "else") schema) v

  abbrev pub resolved_rule : Option Value → Value → Bool
  resolved_rule none v = false
  resolved_rule (some s) v = check s v

  unfoldable pub ref_rule : Fields → Option Value → Value → Bool
  unfolding resolve_ref
  ref_rule root (some (str ref)) v = resolved_rule (resolve_ref root ref) v
  ref_rule root _ v = true

unfoldable pub const_rule : Option Value → Value → Bool
unfolding same_json
const_rule none v = true
const_rule (some c) v = same_json c v

unfoldable pub enum_rule : Option Value → Value → Bool
unfolding any_same
enum_rule (some (arr cs)) v = any_same cs v
enum_rule _ v = true

unfoldable pub type_rule : Option Value → Value → Bool
unfolding has_type
type_rule none v = true
type_rule (some t) v = has_type t v

-- The rules of an object schema, in the order of the source; `false` is its error.
unfoldable pub node_rules : Texts → Fields → (Value → Value → Bool) → Fields → Value → Bool
unfolding ref_rule const_rule enum_rule type_rule if_rule string_rules number_rules array_rules
    object_rules get
node_rules texts root check schema v =
    ref_rule check root (get (codes "$ref") schema) v
    && const_rule (get (codes "const") schema) v
    && enum_rule (get (codes "enum") schema) v
    && type_rule (get (codes "type") schema) v
    && any_of_rule check (get (codes "anyOf") schema) v
    && all_of_rule check (get (codes "allOf") schema) v
    && if_rule check schema (get (codes "if") schema) v
    && string_rules texts schema v
    && number_rules schema v
    && array_rules check schema v
    && object_rules check schema v

-- `validateNode`: the first number is how many levels are left, with none of them an error.
unfoldable pub validate_node : Texts → Fields → ℕ → Value → Value → Bool
unfolding node_rules
validate_node texts root zero node v = false
validate_node texts root (suc n) (bool allowed) v = allowed
validate_node texts root (suc n) (obj schema) v =
    node_rules texts root (λ s w. validate_node texts root n s w) schema v
validate_node texts root (suc n) _ v = false

-- `documentLimit`; `none` is the unknown contract.
unfoldable pub document_limit : Bytes → Option ℕ
unfolding one_of bytes_eq
document_limit contract =
    if one_of contract (codes "manifest" ∷ codes "run-input" ∷ [])
    then some (128 * 1024)
    else if one_of contract (codes "result" ∷ codes "patch-artifact" ∷ [])
    then some (2 * 1024 * 1024)
    else if bytes_eq contract (codes "worker-event")
    then some (64 * 1024)
    else if bytes_eq contract (codes "event-batch")
    then some 6_553_600
    else none

abbrev pub ordered : Option Rational → Option Rational → Bool
ordered (some first) (some last) = not (rational_ltb last first)
ordered _ _ = true

-- The lines of one reference.
unfoldable pub is_range : Value → Bool
unfolding number_value get
is_range (obj fs) =
    ordered (number_value (get (codes "line_start") fs)) (number_value (get (codes "line_end") fs))
is_range _ = true

unfoldable pub all_ranges : Values → Bool
unfolding is_range
all_ranges nil = true
all_ranges (cons v vs) = is_range v && all_ranges vs

unfoldable pub evidence_rule : Option Value → Bool
unfolding all_ranges
evidence_rule (some (arr vs)) = all_ranges vs
evidence_rule _ = true

unfoldable pub is_cited : Value → Bool
unfolding evidence_rule get
is_cited (obj fs) = evidence_rule (get (codes "evidence") fs)
is_cited _ = true

unfoldable pub all_citing : Values → Bool
unfolding is_cited
all_citing nil = true
all_citing (cons v vs) = is_cited v && all_citing vs

unfoldable pub citing_rule : Option Value → Bool
unfolding all_citing
citing_rule (some (arr vs)) = all_citing vs
citing_rule _ = true

-- `assertEvidenceRanges`.
unfoldable pub assert_evidence_ranges : Value → Bool
unfolding citing_rule get
assert_evidence_ranges (obj fs) =
    citing_rule (get (codes "findings") fs) && citing_rule (get (codes "questions") fs)
assert_evidence_ranges _ = true

abbrev pub max_schema_bytes : ℕ
max_schema_bytes = 128 * 1024

-- `decodeValidated`, whose errors are `none`.
unfoldable pub decode_validated : Texts → Bytes → Bytes → Bytes → Option Value
unfolding document_limit decode validate_schema validate_node assert_evidence_ranges bytes_eq
decode_validated texts contract schema_raw raw = document_limit contract >>= λ limit.
    decode max_schema_bytes schema_raw >>= λ schema_value.
    object_of (some schema_value) >>= λ schema.
    require (validate_schema texts.compiles schema (obj schema)) >>= λ _.
    decode limit raw >>= λ document.
    require (validate_node texts schema (max_json_depth + 1) (obj schema) document) >>= λ _.
    require (not (bytes_eq contract (codes "result")) || assert_evidence_ranges document) >>= λ _.
    some document
