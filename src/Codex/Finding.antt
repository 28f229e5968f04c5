-- ===== src/Codex/Finding.antt =====
-- `parseFinding`, `parseQuestion` and `parseTest` of internal/codex/parser.go.
use shipmunk_runner.Prelude.{
  ℕ, ◌+◌, ◌==◌, leb, length, Bool, not, ◌&&◌, Bytes, codes, Option, none, some, List, [], ◌∷◌,
  if◌then◌else◌, ◌>>=◌, require,
}
use shipmunk_runner.Json.{Value, Fields, get, field_count, has_key}
use shipmunk_runner.Codex.Fields.{
  bounded_string, object_of, string_of, one_of, has_keys, exact_object,
}
use shipmunk_runner.Codex.Runes.{runes, all_space, all_line}
use shipmunk_runner.Codex.Evidence.{EvidenceRef, Anchor, parse_references, parse_anchor}

pub record Finding : Type 0 where
  pub category : Bytes
  pub title : Bytes
  pub severity : Bytes
  pub relation : Bytes
  pub scenario : Bytes
  pub consequence : Bytes
  pub action : Bytes
  pub explanation : Bytes
  pub evidence : List EvidenceRef
  pub anchor : Option Anchor

pub record Question : Type 0 where
  pub topic : Bytes
  pub question : Bytes
  pub why_material : Bytes
  pub evidence : List EvidenceRef

pub record Test : Type 0 where
  pub command : Bytes
  pub status : Bytes
  pub summary : Bytes

abbrev pub max_material : ℕ
max_material = 2000

-- The keys, and one more where it is there.
unfoldable pub keys_and : List Bytes → Bytes → Fields → Bool
unfolding has_key has_keys
keys_and ks k fs =
    (if has_key k fs then field_count fs == length ks + 1 else field_count fs == length ks)
    && has_keys ks fs

-- `singleLineTitle`.
unfoldable pub single_line_title : Bytes → Bool
unfolding runes
single_line_title title =
    let rs = runes title in
    leb 5 (length rs) && leb (length rs) 80 && not (all_space rs) && all_line rs

unfoldable pub title_of : Option Value → Option Bytes
unfolding single_line_title
title_of v = string_of v >>= λ title. require (single_line_title title) >>= λ _. some title

-- A bounded string that is one of some words.
unfoldable pub word_of : ℕ → List Bytes → Option Value → Option Bytes
unfolding bounded_string one_of
word_of limit words v = bounded_string limit v >>= λ s. require (one_of s words) >>= λ _. some s

abbrev pub given_anchor : Option Anchor → Option (Option Anchor)
given_anchor none = none
given_anchor (some a) = some (some a)

unfoldable pub anchor_field : Option Value → Option (Option Anchor)
unfolding parse_anchor
anchor_field none = some none
anchor_field (some v) = given_anchor (parse_anchor v)

abbrev pub categories : List Bytes
categories =
    codes "correctness"
    ∷ codes "security"
    ∷ codes "contract"
    ∷ codes "maintenance"
    ∷ codes "test_adequacy"
    ∷ codes "performance"
    ∷ codes "other"
    ∷ []

abbrev pub severities : List Bytes
severities = codes "info" ∷ codes "low" ∷ codes "medium" ∷ codes "high" ∷ codes "critical" ∷ []

abbrev pub relations : List Bytes
relations = codes "introduced" ∷ codes "modified" ∷ codes "preexisting" ∷ []

abbrev pub finding_keys : List Bytes
finding_keys =
    codes "category"
    ∷ codes "title"
    ∷ codes "severity"
    ∷ codes "relation"
    ∷ codes "scenario"
    ∷ codes "consequence"
    ∷ codes "action"
    ∷ codes "explanation"
    ∷ codes "evidence"
    ∷ []

-- `parseFinding`: one to five references, and an anchor where the key is there.
unfoldable pub finding_of : Fields → Option Finding
unfolding bounded_string parse_references keys_and title_of word_of anchor_field get
finding_of fs = require (keys_and finding_keys (codes "anchor") fs) >>= λ _.
    word_of 32 categories (get (codes "category") fs) >>= λ category.
    title_of (get (codes "title") fs) >>= λ title.
    word_of 16 severities (get (codes "severity") fs) >>= λ severity.
    word_of 16 relations (get (codes "relation") fs) >>= λ relation.
    bounded_string max_material (get (codes "scenario") fs) >>= λ scenario.
    bounded_string max_material (get (codes "consequence") fs) >>= λ consequence.
    bounded_string max_material (get (codes "action") fs) >>= λ action.
    bounded_string 8192 (get (codes "explanation") fs) >>= λ explanation.
    parse_references 1 5 (get (codes "evidence") fs) >>= λ evidence.
    anchor_field (get (codes "anchor") fs) >>= λ anchor. some (record {
      category = category;
      title = title;
      severity = severity;
      relation = relation;
      scenario = scenario;
      consequence = consequence;
      action = action;
      explanation = explanation;
      evidence = evidence;
      anchor = anchor;
    })

unfoldable pub parse_finding : Value → Option Finding
unfolding finding_of
parse_finding v = object_of (some v) >>= finding_of

unfoldable pub evidence_field : Option Value → Option (List EvidenceRef)
unfolding parse_references
evidence_field none = some []
evidence_field (some v) = parse_references 0 5 (some v)

-- `parseQuestion`.
unfoldable pub question_of : Fields → Option Question
unfolding bounded_string keys_and evidence_field get
question_of fs =
    require (
      keys_and (codes "topic" ∷ codes "question" ∷ codes "why_material" ∷ []) (codes "evidence") fs)
    >>= λ _. bounded_string 200 (get (codes "topic") fs) >>= λ topic.
        bounded_string max_material (get (codes "question") fs) >>= λ question.
        bounded_string max_material (get (codes "why_material") fs) >>= λ why.
        evidence_field (get (codes "evidence") fs) >>= λ evidence.
        some
          (record { topic = topic; question = question; why_material = why; evidence = evidence })

unfoldable pub parse_question : Value → Option Question
unfolding question_of
parse_question v = object_of (some v) >>= question_of

unfoldable pub test_of : Fields → Option Test
unfolding bounded_string word_of get
test_of fs = bounded_string 2048 (get (codes "command") fs) >>= λ command.
    word_of 16 (codes "passed" ∷ codes "failed" ∷ codes "error" ∷ codes "not_run" ∷ [])
      (get (codes "status") fs)
    >>= λ status. bounded_string 4096 (get (codes "summary") fs) >>= λ summary.
        some (record { command = command; status = status; summary = summary })

-- `parseTest`.
unfoldable pub parse_test : Value → Option Test
unfolding exact_object test_of
parse_test v =
    exact_object (codes "command" ∷ codes "status" ∷ codes "summary" ∷ []) (some v) >>= test_of
