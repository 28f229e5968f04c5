-- ===== src/Codex/Structured.antt =====
-- `dropNullMembers` and `parseResult` of internal/codex/parser.go.
use shipmunk_runner.Prelude.{
  ℕ, ◌*◌, ◌==◌, leb, length, Bool, true, not, ◌&&◌, ◌||◌, Bytes, codes, bytes_eq, Option, none,
  some, List, [], ◌∷◌, ◌++◌, if◌then◌else◌, ◌>>=◌, require, traverse,
}
use shipmunk_runner.Json.{
  Value, Values, Fields, null, bool, number, str, arr, obj, nil, cons, end, field, get,
}
use shipmunk_runner.Protocol.Decode.{decode}
use shipmunk_runner.Codex.Fields.{bounded_string, object_of, array_of, one_of}
use shipmunk_runner.Codex.Finding.{
  Finding, Question, Test, parse_finding, parse_question, parse_test,
}
use shipmunk_runner.Codex.Coverage.{Coverage, parse_coverage}

pub record Structured : Type 0 where
  pub summary : Bytes
  pub outcome : Bytes
  pub charter_version : Bytes
  pub findings : List Finding
  pub questions : List Question
  pub coverage : Option Coverage
  pub verification_state : Bytes
  pub tests : List Test

unfoldable mutual
  pub drop_null_members : Value → Value
  drop_null_members null = null
  drop_null_members (bool b) = bool b
  drop_null_members (number s) = number s
  drop_null_members (str s) = str s
  drop_null_members (arr vs) = arr (drop_null_items vs)
  drop_null_members (obj fs) = obj (drop_null_fields fs)

  pub drop_null_items : Values → Values
  drop_null_items nil = nil
  drop_null_items (cons v vs) = cons (drop_null_members v) (drop_null_items vs)

  pub drop_null_fields : Fields → Fields
  drop_null_fields end = end
  drop_null_fields (field k null fs) = drop_null_fields fs
  drop_null_fields (field k (bool b) fs) = field k (bool b) (drop_null_fields fs)
  drop_null_fields (field k (number s) fs) = field k (number s) (drop_null_fields fs)
  drop_null_fields (field k (str s) fs) = field k (str s) (drop_null_fields fs)
  drop_null_fields (field k (arr vs) fs) = field k (arr (drop_null_items vs)) (drop_null_fields fs)
  drop_null_fields (field k (obj gs) fs) = field k (obj (drop_null_fields gs)) (drop_null_fields fs)

abbrev pub is_extended : Bytes → Bool
is_extended outcome = bytes_eq outcome (codes "findings") || bytes_eq outcome (codes "no_findings")

unfoldable pub is_outcome : Bytes → Bool
unfolding one_of
is_outcome outcome = one_of outcome (
    codes "findings"
    ∷ codes "no_findings"
    ∷ codes "changes_proposed"
    ∷ codes "incomplete"
    ∷ codes "needs_input"
    ∷ [])

unfoldable pub must_be_empty : Bytes → Bool
unfolding one_of
must_be_empty outcome =
    one_of outcome (codes "no_findings" ∷ codes "incomplete" ∷ codes "needs_input" ∷ [])

abbrev pub base_keys : List Bytes
base_keys = codes "summary" ∷ codes "outcome" ∷ codes "findings" ∷ codes "tests" ∷ []

-- The keys that the outcome allows.
unfoldable pub allowed_keys : Bytes → List Bytes
unfolding bytes_eq
allowed_keys outcome =
    if is_extended outcome
    then base_keys
      ++ (codes "charter_version"
          ∷ codes "coverage"
          ∷ codes "verification_state"
          ∷ codes "questions"
          ∷ [])
    else if bytes_eq outcome (codes "incomplete")
    then base_keys ++ (codes "coverage" ∷ [])
    else base_keys

unfoldable pub only_keys : List Bytes → Fields → Bool
unfolding one_of
only_keys ks end = true
only_keys ks (field k _ fs) = one_of k ks && only_keys ks fs

unfoldable pub questions_of : Option Value → Option (List Question)
unfolding traverse parse_question
questions_of none = some []
questions_of (some v) =
    array_of (some v) >>= λ vs. require (leb (length vs) 20) >>= λ _. traverse parse_question vs

abbrev pub given_coverage : Option Coverage → Option (Option Coverage)
given_coverage none = none
given_coverage (some c) = some (some c)

unfoldable pub required_coverage : Option Value → Option Coverage
unfolding parse_coverage
required_coverage none = none
required_coverage (some v) = parse_coverage v

unfoldable pub optional_coverage : Option Value → Option (Option Coverage)
unfolding parse_coverage
optional_coverage none = some none
optional_coverage (some v) = given_coverage (parse_coverage v)

-- The part that the outcomes `findings` and `no_findings` add, and that of `incomplete`.
unfoldable pub extended_result : Fields → Structured → Option Structured
unfolding bounded_string bytes_eq required_coverage questions_of get
extended_result fs r = bounded_string 8 (get (codes "charter_version") fs) >>= λ charter.
    bounded_string 16 (get (codes "verification_state") fs) >>= λ state.
    require (bytes_eq state (codes "none")) >>= λ _.
    required_coverage (get (codes "coverage") fs) >>= λ coverage.
    questions_of (get (codes "questions") fs) >>= λ questions. some (record r {
      charter_version = charter;
      verification_state = state;
      coverage = some coverage;
      questions = questions;
    })

unfoldable pub incomplete_result : Fields → Structured → Option Structured
unfolding optional_coverage get
incomplete_result fs r = optional_coverage (get (codes "coverage") fs) >>= λ coverage.
    some (record r { coverage = coverage })

unfoldable pub completed_result : Fields → Structured → Option Structured
unfolding extended_result incomplete_result bytes_eq
completed_result fs r =
    if is_extended r.outcome
    then extended_result fs r
    else if bytes_eq r.outcome (codes "incomplete")
    then incomplete_result fs r
    else some r

-- `len(findingsRaw)` against the outcome.
unfoldable pub fits_outcome : Bytes → ℕ → Bool
unfolding bytes_eq must_be_empty
fits_outcome outcome n =
    leb n 100
    && not (bytes_eq outcome (codes "findings") && n == 0)
    && not (must_be_empty outcome && not (n == 0))

-- `parseResult` of the object after `dropNullMembers`.
unfoldable pub result_of : Fields → Option Structured
unfolding bounded_string is_outcome allowed_keys only_keys fits_outcome traverse parse_finding
    parse_test completed_result get
result_of fs = bounded_string 16384 (get (codes "summary") fs) >>= λ summary.
    bounded_string 64 (get (codes "outcome") fs) >>= λ outcome.
    require (is_outcome outcome) >>= λ _. require (only_keys (allowed_keys outcome) fs) >>= λ _.
    array_of (get (codes "findings") fs) >>= λ findings.
    array_of (get (codes "tests") fs) >>= λ tests.
    require (fits_outcome outcome (length findings) && leb (length tests) 100) >>= λ _.
    traverse parse_finding findings >>= λ findings. traverse parse_test tests >>= λ tests.
    completed_result fs (record {
      summary = summary;
      outcome = outcome;
      charter_version = [];
      findings = findings;
      questions = [];
      coverage = none;
      verification_state = [];
      tests = tests;
    })

abbrev pub max_result_bytes : ℕ
max_result_bytes = 64 * 1024

-- `parseResult`, whose one error is the invalid result.
unfoldable pub parse_result : Bytes → Option Structured
unfolding decode drop_null_members result_of
parse_result raw = decode max_result_bytes raw >>= λ v.
    object_of (some v) >>= λ fs. result_of (drop_null_fields fs)
