-- ===== src/Tests/Decoding.antt =====
-- A native output with one event and one patch, and the same from an executable that failed.
use shipmunk_runner.Prelude.{◌≡◌, refl, true, codes, bytes_eq, some, [], ◌∷◌, ok, pos, parse_int}
use shipmunk_runner.Json.{
  Value, Fields, nil, cons, end, field, null, str, number, arr, obj, get, get_string, put,
}
use shipmunk_runner.Claim.{Claim}
use shipmunk_runner.Supervisor.Calls.{Execution}
use shipmunk_runner.Supervisor.Decode.{
  Contracts, same_object, failed_result, events_from, artifacts_from, validate_pre_upload,
  checked_execution, decode_execution_of,
}

abbrev a_claim : Claim
a_claim = record {
  run_id = codes "r";
  attempt_id = codes "a";
  fence = pos 7;
  lease_expires_at = 100;
  deadline = 1000;
  manifest = end;
}

abbrev identity : Fields → Fields
identity fs =
    field (codes "protocol_version") (str (codes "1.0"))
      (field (codes "attempt_id") (str (codes "a")) (field (codes "fence") (number (codes "7")) fs))

abbrev an_event : Fields
an_event = identity (field (codes "sequence") (number (codes "1")) end)

abbrev a_result : Fields
a_result = identity (
    field (codes "run_id") (str (codes "r")) (
      field (codes "outcome") (str (codes "changes_proposed"))
        (field (codes "patch_artifact") null end)))

abbrev a_patch : Fields
a_patch =
    field (codes "kind") (str (codes "patch"))
      (field (codes "bytes") (str (codes "diff")) (field (codes "sha256") (str (codes "diff")) end))

abbrev native_output : Value
native_output = obj (
    field (codes "result") (obj a_result) (
      field (codes "events") (arr (cons (obj an_event) nil))
        (field (codes "artifacts") (arr (cons (obj a_patch) nil)) end)))

-- A hash that is its text, and contracts that everything meets.
abbrev lenient : Contracts
lenient = record {
  decode = λ s. some native_output;
  accepts_event = λ fs. true;
  accepts_result = λ fs. true;
  encode = λ fs. codes "{}";
  sha256_hex = λ s. s;
}

abbrev executed : Execution
executed = record {
  events = codes "{}" ∷ [];
  artifacts = record { kind = codes "patch"; bytes = codes "diff"; sha256 = codes "diff" } ∷ [];
  result = some a_result;
  failure_reason = [];
}

abbrev failed_execution : Execution
failed_execution = record {
  events = [];
  artifacts = [];
  result = some (failed_result a_result);
  failure_reason = [];
}

decodes : decode_execution_of lenient a_claim (pos 0) [] ≡ ok executed
unfolding decode_execution_of same_object events_from artifacts_from validate_pre_upload
    checked_execution get get_string put bytes_eq parse_int
decodes = refl
