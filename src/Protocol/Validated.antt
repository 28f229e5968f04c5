-- ===== src/Protocol/Validated.antt =====
-- What the documents are that `decodeValidated` of internal/protocol/schema.go accepts.
use shipmunk_runner.Prelude.{
  ℕ, ◌≤◌, Bool, leb, length, ◌&&◌, Bool-cases, valid_utf8, ◌+◌, ◌≡◌, ◌⊎◌, inl, inr, sym, ap, ◌∙◌,
  subst, true, false, not, ◌||◌, Bytes, codes, bytes_eq, bytes_eq_iff, Option, none, some, arith,
  Given, Given_some, then-Given, require-Given,
}
use shipmunk_runner.Json.{Value, Values, Fields, null, bool, number, str, arr, obj, nil, cons, get}
use shipmunk_runner.Codex.Fields.{object_of}
use shipmunk_runner.Protocol.Escapes.{valid_unicode_escapes}
use shipmunk_runner.Protocol.Decode.{decode, decode_with, max_json_depth}
use shipmunk_runner.Protocol.Document.{IsAt, decode_with-IsAt}
use shipmunk_runner.Protocol.Rational.{Rational, number_value, rational_ltb}
use shipmunk_runner.Protocol.Rules.{Texts}
use shipmunk_runner.Protocol.Schema.{validate_schema}
use shipmunk_runner.Protocol.Obeys.{Obeys, Listed, object_rules-Obeys}
use shipmunk_runner.Protocol.Contract.{
  validate_node, node_rules, document_limit, decode_validated, assert_evidence_ranges, citing_rule,
  all_citing, is_cited, evidence_rule, all_ranges, is_range, ordered, max_schema_bytes,
}

-- The references of an item name lines in order, as far as they name lines by supported numbers.
abbrev pub InOrder : Fields → Type 0
InOrder item =
    (refs : Values) (ref : Fields) (first last : Rational)
    → get (codes "evidence") item ≡ some (arr refs)
    → Listed (obj ref) refs
    → number_value (get (codes "line_start") ref) ≡ some first
    → number_value (get (codes "line_end") ref) ≡ some last
    → rational_ltb last first ≡ false

abbrev pub Ranges : Fields → Type 0
Ranges fs =
    (key : Bytes) (items : Values) (item : Fields)
    → (key ≡ codes "findings") ⊎ (key ≡ codes "questions")
    → get key fs ≡ some (arr items)
    → Listed (obj item) items
    → InOrder item

range_in_order :
    (ref : Fields) (first last : Rational)
    → is_range (obj ref) ≡ true
    → number_value (get (codes "line_start") ref) ≡ some first
    → number_value (get (codes "line_end") ref) ≡ some last
    → rational_ltb last first ≡ false
unfolding is_range
range_in_order ref first last h a b =
    let both : ordered (some first) (some last) ≡ true = rw a at rw b at h in ground arith

Listed-range :
    (refs : Values) (ref : Fields)
    → all_ranges refs ≡ true
    → Listed (obj ref) refs
    → is_range (obj ref) ≡ true
unfolding all_ranges
Listed-range nil ref h l = absurd l
Listed-range (cons v vs) ref h (inl e) =
    let here : is_range v ≡ true = ground arith in subst (λ w. is_range w ≡ true) e here
Listed-range (cons v vs) ref h (inr l) =
    let rest : all_ranges vs ≡ true = ground arith in Listed-range vs ref rest l

evidence-InOrder :
    (item : Fields) → evidence_rule (get (codes "evidence") item) ≡ true → InOrder item
unfolding evidence_rule
evidence-InOrder item h refs ref first last e l a b =
    let all : all_ranges refs ≡ true = rw e at h in
    range_in_order ref first last (Listed-range refs ref all l) a b

Listed-citing :
    (items : Values) (item : Fields)
    → all_citing items ≡ true
    → Listed (obj item) items
    → InOrder item
unfolding all_citing is_cited
Listed-citing nil item h l = absurd l
Listed-citing (cons v vs) item h (inl e) =
    let here : is_cited v ≡ true = ground arith in
    let there : is_cited (obj item) ≡ true = subst (λ w. is_cited w ≡ true) e here in
    evidence-InOrder item there
Listed-citing (cons v vs) item h (inr l) =
    let rest : all_citing vs ≡ true = ground arith in Listed-citing vs item rest l

Ranges-of : (fs : Fields) → assert_evidence_ranges (obj fs) ≡ true → Ranges fs
unfolding assert_evidence_ranges citing_rule
Ranges-of fs h key items item (inl k) e l =
    let f : citing_rule (get (codes "findings") fs) ≡ true = ground arith in
    let g : citing_rule (get key fs) ≡ true =
      subst (λ n. citing_rule (get n fs) ≡ true) (sym k) f in
    Listed-citing items item (rw e at g) l
Ranges-of fs h key items item (inr k) e l =
    let f : citing_rule (get (codes "questions") fs) ≡ true = ground arith in
    let g : citing_rule (get key fs) ≡ true =
      subst (λ n. citing_rule (get n fs) ≡ true) (sym k) f in
    Listed-citing items item (rw e at g) l

pub record IsValidated (texts : Texts) (contract schema_raw raw : Bytes) (document : Value)
    : Type 0 where
  pub schema : Fields
  pub pinned : decode_with false max_schema_bytes schema_raw ≡ some (obj schema)
  pub limit : ℕ
  pub limited : document_limit contract ≡ some limit
  pub strict : decode_with false limit raw ≡ some document
  pub fits : length raw ≤ limit
  pub nested : IsAt 0 document
  pub obeys :
      (fs : Fields)
      → document ≡ obj fs
      → Obeys (λ s w. validate_node texts schema max_json_depth s w) schema fs
  pub ranges : contract ≡ codes "result" → (fs : Fields) → document ≡ obj fs → Ranges fs

and_first : (b c : Bool) → (b && c) ≡ true → b ≡ true
and_first b c h = ground arith

leb-le : (m n : ℕ) → leb m n ≡ true → m ≤ n
leb-le m n h = ground arith

decode_with-length :
    (limit : ℕ) (raw : Bytes) (v : Value)
    → decode_with false limit raw ≡ some v
    → length raw ≤ limit
unfolding decode_with
decode_with-length limit raw v e =
    elim (Bool-cases (leb (length raw) limit && valid_utf8 raw && valid_unicode_escapes raw)) [
      | inl ok ↦
          leb-le _ _
            (and_first (leb (length raw) limit) _ (and_first _ (valid_unicode_escapes raw) ok))
      | inr bad ↦ cc (rw bad at e)
    ]

abbrev fields_or : Fields → Option Fields → Fields
fields_or gs none = gs
fields_or gs (some fs) = fs

object_form : (v : Value) (fs : Fields) → object_of (some v) ≡ some fs → v ≡ obj fs
object_form (obj gs) fs h = ap (λ o. obj (fields_or gs o)) h
object_form null fs h = cc h
object_form (bool b) fs h = cc h
object_form (number s) fs h = cc h
object_form (str s) fs h = cc h
object_form (arr vs) fs h = cc h

node_Obeys :
    (texts : Texts) (schema : Fields) (document : Value)
    → validate_node texts schema (max_json_depth + 1) (obj schema) document ≡ true
    → (fs : Fields) → document ≡ obj fs
    → Obeys (λ s w. validate_node texts schema max_json_depth s w) schema fs
unfolding validate_node node_rules
node_Obeys texts schema document h fs e =
    let h' : validate_node texts schema (max_json_depth + 1) (obj schema) (obj fs) ≡ true =
      subst (λ d. validate_node texts schema (max_json_depth + 1) (obj schema) d ≡ true) e h in
    object_rules-Obeys (λ s w. validate_node texts schema max_json_depth s w) schema fs
      (ground arith)

-- A document that passes against a contract is what the strict decoder gives for the text, which has no
-- more bytes than the contract's limit. The nesting is less than 64 and the keys of all objects are
-- distinct. If the document is an object it has the keys that the schema requires, each member fits the
-- schema of its key, and where the schema has no additional properties there is no other key. In a
-- result the references of findings and questions name lines in order.
pub decode_validated-IsValidated :
    (texts : Texts) (contract schema_raw raw : Bytes) (document : Value)
    → decode_validated texts contract schema_raw raw ≡ some document
    → IsValidated texts contract schema_raw raw document
unfolding decode_validated decode
decode_validated-IsValidated texts contract schema_raw raw document e = Given_some P given e
  where
    P : Value → Type 0
    P = IsValidated texts contract schema_raw raw

    asserted :
        contract ≡ codes "result"
        → (d : Value) (fs : Fields) → d ≡ obj fs
        → (not (bytes_eq contract (codes "result")) || assert_evidence_ranges d) ≡ true
        → Ranges fs
    asserted c d fs f a =
        let q : bytes_eq contract (codes "result") ≡ true =
          (bytes_eq_iff contract (codes "result")).1 c in
        let r : assert_evidence_ranges d ≡ true = ground arith in
        Ranges-of fs (subst (λ w. assert_evidence_ranges w ≡ true) f r)

    given : Given P (decode_validated texts contract schema_raw raw)
    given = then-Given P (document_limit contract) _ (λ limit known.
        then-Given P (decode_with false max_schema_bytes schema_raw) _ (λ sv s.
          then-Given P (object_of (some sv)) _ (λ schema o.
            require-Given P (validate_schema texts.compiles schema (obj schema)) _ (λ _.
              then-Given P (decode_with false limit raw) _ (λ d k.
                require-Given P (validate_node texts schema (max_json_depth + 1) (obj schema) d) _
                  (λ v.
                    require-Given P
                      (not (bytes_eq contract (codes "result")) || assert_evidence_ranges d) _
                      (λ a. record {
                        schema = schema;
                        pinned = s ∙ ap some (object_form sv schema o);
                        limit = limit;
                        limited = known;
                        strict = k;
                        fits = decode_with-length limit raw d k;
                        nested = decode_with-IsAt false limit raw d k;
                        obeys = node_Obeys texts schema d v;
                        ranges = λ c fs f. asserted c d fs f a;
                      })))))))
