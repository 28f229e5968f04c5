-- ===== src/Supervisor/Decode.antt =====
-- internal/supervisor/execution.go: `DecodeExecution` after the JSON decoder. The contracts' schemas,
-- the JSON encoder and SHA-256 are an argument.
use shipmunk_runner.Prelude.{
  ℕ, ◌+◌, ◌==◌, ltb, leb, length, Bool, true, false, not, ◌&&◌, ◌||◌, Bytes, codes, bytes_eq,
  Option, none, some, List, [], ◌∷◌, Result, ok, err, and_then, ℤ, pos, int_eq, parse_int,
  if◌then◌else◌,
}
use shipmunk_runner.Json.{
  field_count, Value, Values, nil, cons, Fields, end, field, null, str, number, arr, obj, get,
  get_string, put, delete,
}
use shipmunk_runner.Claim.{Claim}
use shipmunk_runner.Supervisor.Calls.{Artifact, Execution}

-- The errors by their texts.
pub data Failure : Type 0 where
  bad_output not_object unsupported_field foreign_result bad_events foreign_event : Failure
  bad_sequence bad_artifacts bad_artifact rejected_artifact bad_patch incompatible_patch : Failure
  against_contract : Failure

pub record Contracts : Type 0 where
  pub decode : Bytes → Option Value
  pub accepts_event : Fields → Bool
  pub accepts_result : Fields → Bool
  pub encode : Fields → Bytes
  pub sha256_hex : Bytes → Bytes

abbrev pub result_max_bytes : ℕ
result_max_bytes = 2_097_152

-- `value == text` where the value is of any type.
abbrev pub is_text : Option Value → Bytes → Bool
is_text (some (str s)) t = bytes_eq s t
is_text _ t = false

abbrev pub is_integer : Option ℤ → ℤ → Bool
is_integer none n = false
is_integer (some m) n = int_eq m n

abbrev pub is_number : Option Value → ℤ → Bool
is_number (some (number s)) n = is_integer (parse_int s) n
is_number _ n = false

-- `sameIdentity`; `run` asks for the run's identifier too.
unfoldable pub same_object : Fields → Claim → Bool → Bool
unfolding get bytes_eq parse_int
same_object fs c run =
    is_number (get (codes "fence") fs) c.fence
    && is_text (get (codes "attempt_id") fs) c.attempt_id
    && (not run || is_text (get (codes "run_id") fs) c.run_id)
    && is_text (get (codes "protocol_version") fs) (codes "1.0")

-- The result of a native executable that failed.
unfoldable pub failed_result : Fields → Fields
unfolding put delete
failed_result r = delete (codes "questions") (
    delete (codes "verification_state") (
      delete (codes "coverage") (
        delete (codes "charter_version") (
          put (codes "usage") null (
            put (codes "tests") (arr nil) (
              put (codes "patch_artifact") null (
                put (codes "findings") (arr nil) (
                  put (codes "summary") (str (codes "Native executable exited unsuccessfully."))
                    (put (codes "outcome") (str (codes "incomplete")) r)))))))))

abbrev is_envelope_key : Bytes → Bool
is_envelope_key k =
    bytes_eq k (codes "result") || bytes_eq k (codes "events") || bytes_eq k (codes "artifacts")

abbrev pub only_known : Fields → Bool
only_known end = true
only_known (field k v fs) = is_envelope_key k && only_known fs

abbrev pub add_first :
    {A : Type 0} → Result Failure A → Result Failure (List A) → Result Failure (List A)
add_first (err e) rest = err e
add_first (ok a) rest = and_then rest (λ xs. ok (a ∷ xs))

module _ (contracts : Contracts) where
  -- One event; a number that is no int64 is not the expected one.
  abbrev pub event_of : Claim → ℕ → Value → Result Failure Bytes
  event_of c n (obj fs) =
      if not (same_object fs c false)
      then err foreign_event
      else if not (contracts.accepts_event fs)
      then err against_contract
      else if not (is_number (get (codes "sequence") fs) (pos n))
      then err bad_sequence
      else ok (contracts.encode fs)
  event_of c n _ = err foreign_event

  unfoldable pub events_from : Claim → ℕ → Values → Result Failure (List Bytes)
  unfolding same_object
  events_from c n nil = ok []
  events_from c n (cons v vs) = add_first (event_of c n v) (events_from c (n + 1) vs)

  abbrev is_kind : Bytes → Bool
  is_kind k = bytes_eq k (codes "patch") || bytes_eq k (codes "native_output")

  abbrev pub is_artifact : Bytes → Bytes → Bytes → Bool
  is_artifact kind body hash =
      is_kind kind
      && bytes_eq (contracts.sha256_hex body) hash
      && leb (length body) result_max_bytes

  abbrev pub artifact_with : Option Bytes → Option Bytes → Option Bytes → Result Failure Artifact
  artifact_with (some kind) (some body) (some hash) =
      if is_artifact kind body hash
      then ok (record { kind = kind; bytes = body; sha256 = hash })
      else err rejected_artifact
  artifact_with _ _ _ = err rejected_artifact

  abbrev pub artifact_of : Value → Result Failure Artifact
  artifact_of (obj fs) =
      if field_count fs == 3
      then artifact_with (get_string (codes "kind") fs) (get_string (codes "bytes") fs)
          (get_string (codes "sha256") fs)
      else err bad_artifact
  artifact_of _ = err bad_artifact

  unfoldable pub artifacts_from : Values → Result Failure (List Artifact)
  unfolding get_string bytes_eq
  artifacts_from nil = ok []
  artifacts_from (cons v vs) = add_first (artifact_of v) (artifacts_from vs)

  abbrev pub events_in : Claim → Option Value → Result Failure (List Bytes)
  events_in c none = ok []
  events_in c (some (arr vs)) = events_from c 1 vs
  events_in c (some _) = err bad_events

  abbrev pub artifacts_in : Option Value → Result Failure (List Artifact)
  artifacts_in none = ok []
  artifacts_in (some (arr vs)) = artifacts_from vs
  artifacts_in (some _) = err bad_artifacts

  abbrev pub is_patch : Artifact → Bool
  is_patch a = bytes_eq a.kind (codes "patch")

  abbrev pub patches : List Artifact → List Artifact
  patches [] = []
  patches (a ∷ xs) = if is_patch a then a ∷ patches xs else patches xs

  abbrev pub is_nil : Option Value → Bool
  is_nil none = true
  is_nil (some null) = true
  is_nil (some _) = false

  abbrev pub is_changes : Fields → Bool
  is_changes r = is_text (get (codes "outcome") r) (codes "changes_proposed")

  abbrev provisional : Artifact → Value
  provisional a = obj (
      field (codes "artifact_id") (str (codes "01k4w000000000000000000099"))
        (field (codes "sha256") (str a.sha256) end))

  abbrev with_patch : Fields → List Artifact → Fields
  with_patch r [] = r
  with_patch r (a ∷ xs) = put (codes "patch_artifact") (provisional a) r

  -- `validatePreUploadResult`: a proposed change is validated with a reference to its first patch.
  unfoldable pub validate_pre_upload : Fields → List Artifact → Bool
  unfolding get put bytes_eq
  validate_pre_upload r xs =
      if is_changes r && is_nil (get (codes "patch_artifact") r)
      then contracts.accepts_result (with_patch r (patches xs))
      else contracts.accepts_result r

  -- The checks of the patches and of the result.
  unfoldable pub checked_execution : Fields → List Bytes → List Artifact → Result Failure Execution
  unfolding validate_pre_upload
  checked_execution r es xs =
      if ltb 1 (length (patches xs)) || not (is_nil (get (codes "patch_artifact") r))
      then err bad_patch
      else if not (length (patches xs) == 0) && not (is_changes r)
      then err incompatible_patch
      else if not (validate_pre_upload r xs)
      then err against_contract
      else ok (record { events = es; artifacts = xs; result = some r; failure_reason = [] })

  abbrev pub decode_result : Claim → Bool → Fields → Fields → Result Failure Execution
  decode_result c failed envelope r =
      if not (same_object r c true)
      then err foreign_result
      else if failed
      then checked_execution (failed_result r) [] []
      else and_then (events_in c (get (codes "events") envelope)) (λ es.
        and_then (artifacts_in (get (codes "artifacts") envelope))
          (λ xs. checked_execution r es xs))

  abbrev pub result_in : Claim → Bool → Fields → Option Value → Result Failure Execution
  result_in c failed envelope (some (obj r)) = decode_result c failed envelope r
  result_in c failed envelope _ = err foreign_result

  abbrev pub decode_envelope : Claim → Bool → Option Value → Result Failure Execution
  decode_envelope c failed none = err bad_output
  decode_envelope c failed (some (obj fs)) =
      if only_known fs
      then result_in c failed fs (get (codes "result") fs)
      else err unsupported_field
  decode_envelope c failed (some _) = err not_object

  unfoldable pub decode_execution_of : Claim → ℤ → Bytes → Result Failure Execution
  unfolding checked_execution failed_result events_from artifacts_from
  decode_execution_of c code output =
      decode_envelope c (not (int_eq code (pos 0))) (contracts.decode output)
