-- ===== src/Protocol/Obeys.antt =====
-- `objectRules` of internal/protocol/schema.go: the objects that a schema lets through.
use shipmunk_runner.Prelude.{
  ◌≡◌, ◌⊎◌, inl, inr, refl, ap, subst, Bool, true, false, Bytes, codes, bytes_eq, bytes_eq_iff,
  Option, none, some, is_some, [], Bool-cases, arith,
}
use shipmunk_runner.Json.{
  Value, Values, Fields, null, bool, number, str, arr, obj, nil, cons, end, field, get, has_key,
}
use shipmunk_runner.Codex.Fields.{object_of}
use shipmunk_runner.Protocol.Contract.{
  object_rules, required_rule, all_required, property_rules, property_rule, fields_or_none,
}

abbrev pub Listed : Value → Values → Type 0
Listed v nil = ⊥
Listed v (cons w ws) = (w ≡ v) ⊎ Listed v ws

abbrev pub properties_of : Fields → Fields
properties_of schema = fields_or_none (object_of (get (codes "properties") schema))

-- An object has the keys that its schema requires, its members fit the schemas of their keys, and a schema
-- without additional properties allows no other key.
pub record Obeys (check : Value → Value → Bool) (schema : Fields) (document : Fields) : Type 0 where
  pub required :
      (names : Values) (name : Bytes)
      → get (codes "required") schema ≡ some (arr names)
      → Listed (str name) names
      → has_key name document ≡ true
  pub known :
      (name : Bytes) (v p : Value)
      → get name document ≡ some v
      → get name (properties_of schema) ≡ some p
      → check p v ≡ true
  pub closed :
      get (codes "additionalProperties") schema ≡ some (bool false)
      → (name : Bytes) (v : Value) → get name document ≡ some v
      → is_some (get name (properties_of schema)) ≡ true

abbrev text_or_not : Value → Bytes
text_or_not (str s) = s
text_or_not _ = []

required-Listed :
    (names : Values) (document : Fields) (name : Bytes)
    → all_required names document ≡ true
    → Listed (str name) names
    → has_key name document ≡ true
unfolding all_required
required-Listed nil document name h l = absurd l
required-Listed (cons (str n) names) document name h (inl e) =
    let here : has_key n document ≡ true = ground arith in
    subst (λ m. has_key m document ≡ true) (ap text_or_not e) here
required-Listed (cons (str n) names) document name h (inr l) =
    let rest : all_required names document ≡ true = ground arith in
    required-Listed names document name rest l
required-Listed (cons null names) document name h l = cc h
required-Listed (cons (bool b) names) document name h l = cc h
required-Listed (cons (number s) names) document name h l = cc h
required-Listed (cons (arr vs) names) document name h l = cc h
required-Listed (cons (obj fs) names) document name h l = cc h

abbrev value_or : Value → Option Value → Value
value_or u none = u
value_or u (some v) = v

-- The rule of a member holds for the value that its key gives.
member_rule :
    (check : Value → Value → Bool) (properties : Fields) (additional : Option Value)
    (document : Fields) (name : Bytes) (v : Value)
    → property_rules check properties additional document ≡ true
    → get name document ≡ some v
    → property_rule check (get name properties) additional v ≡ true
unfolding property_rules get
member_rule check ps a end name v h e = cc e
member_rule check ps a (field k u document) name v h e = elim (Bool-cases (bytes_eq k name)) [
  | inl q ↦
      let here : property_rule check (get k ps) a u ≡ true = ground arith in
      let same : k ≡ name = (bytes_eq_iff k name).0 q in
      let value : u ≡ v = ap (value_or u) (rw q at e) in
      subst (λ w. property_rule check (get name ps) a w ≡ true) value
        (subst (λ n. property_rule check (get n ps) a u ≡ true) same here)
  | inr q ↦
      let rest : property_rules check ps a document ≡ true = ground arith in
      member_rule check ps a document name v rest (rw q at e)
]

known_only :
    (check : Value → Value → Bool) (o : Option Value) (v : Value)
    → property_rule check o (some (bool false)) v ≡ true
    → is_some o ≡ true
known_only check none v h = cc h
known_only check (some p) v h = refl

pub object_rules-Obeys :
    (check : Value → Value → Bool) (schema document : Fields)
    → object_rules check schema (obj document) ≡ true
    → Obeys check schema document
unfolding object_rules
object_rules-Obeys check schema document h = record {
  required = λ names name e l.
      let ruled : required_rule (some (arr names)) document ≡ true =
        subst (λ o. required_rule o document ≡ true) e (ground arith) in
      required-Listed names document name ruled l;
  known = λ name v p e k.
      let ruled : property_rule check (get name (properties_of schema))
            (get (codes "additionalProperties") schema) v
          ≡ true =
        member_rule check (properties_of schema) (get (codes "additionalProperties") schema)
          document name v (ground arith) e in
      rw k at ruled;
  closed = λ c name v e.
      let ruled : property_rule check (get name (properties_of schema))
            (get (codes "additionalProperties") schema) v
          ≡ true =
        member_rule check (properties_of schema) (get (codes "additionalProperties") schema)
          document name v (ground arith) e in
      known_only check (get name (properties_of schema)) v (rw c at ruled);
}
