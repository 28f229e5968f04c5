-- ===== src/Tests/Codex.antt =====
-- Streams of internal/codex/parser.go at concrete inputs.
use shipmunk_runner.Prelude.{
  codes, bytes_eq, true, ◌≡◌, ◌↔◌, refl, some, none, Bytes, ◌∷◌, ◌++◌, [], ok, err, Result,
}
use shipmunk_runner.Json.{Value, null, obj, arr, field, end, cons, nil, number}
use shipmunk_runner.Codex.Failure.{ParseError, classified_failure, rate_limited}
use shipmunk_runner.Codex.Structured.{Structured, drop_null_members, parse_result}
use shipmunk_runner.Codex.Results.{ResultIsSound, parse_result-ResultIsSound}
use shipmunk_runner.Codex.Evidence.{EvidenceRef}
use shipmunk_runner.Codex.Finding.{Finding}
use shipmunk_runner.Codex.Review.{ReviewEvidence, build_line_index, validate_review_result}
use shipmunk_runner.Codex.Review.Checked.{ReviewIsChecked, validate_review_result-ReviewIsChecked}
use shipmunk_runner.Codex.Nulls.{NoNulls, drop_null_members_lem}
use shipmunk_runner.Codex.Paths.{valid_relative_path, clean}
use shipmunk_runner.Codex.Relative.{IsPlain, valid_relative_path_iff}
use shipmunk_runner.Codex.Stream.{Stream, parse}
use shipmunk_runner.Codex.Stream.Whole.{StreamIsWhole, parse-StreamIsWhole}

abbrev quiet_text : Bytes
quiet_text =
    codes
      "{\"summary\":\"ok\",\"outcome\":\"incomplete\",\"findings\":[],\"tests\":[],\"coverage\":null}"

abbrev quiet_result : Structured
quiet_result = record {
  summary = codes "ok";
  outcome = codes "incomplete";
  charter_version = [];
  findings = [];
  questions = [];
  coverage = none;
  verification_state = [];
  tests = [];
}

quiet_result_test : parse_result quiet_text ≡ some quiet_result
unfolding parse_result bytes_eq
quiet_result_test = refl

parse_result-ResultIsSound_example : ResultIsSound quiet_result
parse_result-ResultIsSound_example =
    parse_result-ResultIsSound quiet_text quiet_result quiet_result_test

valid_relative_path_iff_example :
    (valid_relative_path (codes "a/../b") ≡ true) ↔ IsPlain (codes "a/../b")
valid_relative_path_iff_example = valid_relative_path_iff (codes "a/../b")

valid_path_test : valid_relative_path (codes "a/b.c/d") ≡ true
unfolding valid_relative_path bytes_eq
valid_path_test = refl

clean_test : clean (codes "/../a/./b//../c/") ≡ codes "/a/c"
unfolding clean bytes_eq
clean_test = refl

abbrev nully : Value
nully = obj (field (codes "a") null (field (codes "b") (arr (cons null nil)) end))

drop_null_members_lem_example :
    NoNulls (drop_null_members nully)
    × (drop_null_members (number (codes "1")) ≡ number (codes "1"))
    × (drop_null_members (drop_null_members nully) ≡ drop_null_members nully)
drop_null_members_lem_example = drop_null_members_lem nully (number (codes "1")) tt

abbrev line : Bytes → Bytes
line s = s ++ (10 ∷ [])

abbrev stopped_stream : Bytes
stopped_stream =
    line (codes "{\"type\":\"thread.started\",\"thread_id\":\"t\"}")
    ++ line (
        codes
          "{\"type\":\"error\",\"message\":\"x {\\\"error\\\":{\\\"code\\\":\\\"usage_limit_reached\\\"}} y\"}")

stopped_stream_test : parse stopped_stream [] ≡ err (classified_failure rate_limited)
unfolding parse bytes_eq
stopped_stream_test = refl

abbrev good_stream : Bytes
good_stream =
    line (codes "{\"type\":\"thread.started\",\"thread_id\":\"t\"}")
    ++ (line (codes "{\"type\":\"turn.started\"}")
        ++ (line
              (codes "{\"type\":\"item.started\",\"item\":{\"id\":\"i\",\"type\":\"reasoning\"}}")
            ++ (line (
                  codes
                    "{\"type\":\"item.completed\",\"item\":{\"id\":\"i\",\"type\":\"reasoning\"}}")
                ++ (line (
                      codes
                        "{\"type\":\"item.completed\",\"item\":{\"id\":\"j\",\"type\":\"agent_message\",\"text\":\"{\\\"summary\\\":\\\"ok\\\",\\\"outcome\\\":\\\"incomplete\\\",\\\"findings\\\":[],\\\"tests\\\":[]}\"}}")
                    ++ line (codes "{\"type\":\"turn.completed\"}")))))

abbrev stream_of : Result ParseError Stream → Stream
stream_of (ok s) = s
stream_of (err e) = record { thread_id = []; events = []; result = quiet_result; usage = none }

good_stream_test : parse good_stream [] ≡ ok (stream_of (parse good_stream []))
unfolding parse bytes_eq
good_stream_test = refl

parse-StreamIsWhole_example : StreamIsWhole good_stream (stream_of (parse good_stream []))
parse-StreamIsWhole_example =
    parse-StreamIsWhole good_stream [] (stream_of (parse good_stream [])) good_stream_test

abbrev small_review : ReviewEvidence
small_review = record {
  baseline_sha = codes "b";
  head_sha = codes "h";
  changed_files = codes "x" ∷ [];
  baseline_index = [];
  head_index =
      build_line_index
        ((codes "x", record { hash = []; mode = []; contents = codes "one\ntwo" }) ∷ []);
}

abbrev cited : EvidenceRef
cited = record {
  snapshot = codes "h";
  path = codes "x";
  line_start = 1;
  line_end = 2;
  reason = codes "r";
}

abbrev small_finding : Finding
small_finding = record {
  category = [];
  title = [];
  severity = [];
  relation = codes "introduced";
  scenario = [];
  consequence = [];
  action = [];
  explanation = [];
  evidence = cited ∷ [];
  anchor = none;
}

abbrev reviewed : Structured
reviewed = record {
  summary = codes "ok";
  outcome = codes "findings";
  charter_version = codes "1";
  findings = small_finding ∷ [];
  questions = [];
  coverage = some (record {
    files = record { path = codes "x"; status = codes "reviewed"; reason = []; evidence = [] } ∷ [];
    context_gaps = [];
  });
  verification_state = codes "none";
  tests = [];
}

reviewed_test : validate_review_result reviewed (some small_review) ≡ ok tt
unfolding validate_review_result build_line_index bytes_eq
reviewed_test = refl

validate_review_result-ReviewIsChecked_example : ReviewIsChecked reviewed small_review
validate_review_result-ReviewIsChecked_example =
    validate_review_result-ReviewIsChecked reviewed small_review reviewed_test
