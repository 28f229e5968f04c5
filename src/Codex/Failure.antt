-- ===== src/Codex/Failure.antt =====
-- The classification of native failures in internal/codex/parser.go.
use shipmunk_runner.Prelude.{
  ℕ, ◌-◌, ◌==◌, length, take, Bool, true, ◌&&◌, Bytes, codes, bytes_eq, Option, none, some, [], ◌∷◌,
  if◌then◌else◌, ◌>>=◌, require, ◌*◌, ◌+◌,
}
use shipmunk_runner.Json.{Value, Fields, end, field, str, get}
use shipmunk_runner.Protocol.Decode.{decode, decode_value}
use shipmunk_runner.Codex.Fields.{object_of, string_of, one_of}
use shipmunk_runner.Codex.Runes.{contains_any}

pub data FailureReason : Type 0 where
  auth_expired rate_limited approval_required model_unavailable : FailureReason
  invalid_output_schema invalid_result review_budget_exhausted : FailureReason
  malformed_output missing_result : FailureReason

-- The errors of the parser: the four plain ones, and `ClassifiedFailure`.
pub data ParseError : Type 0 where
  err_malformed_output err_missing_result err_invalid_result err_native_failure : ParseError
  classified_failure : FailureReason → ParseError

abbrev pub max_line_bytes : ℕ
max_line_bytes = 1024 * 1024

-- `failureCode` of a string.
unfoldable pub code_reason : Bytes → Option FailureReason
unfolding one_of
code_reason code =
    if one_of code (
      codes "token_expired"
      ∷ codes "auth_expired"
      ∷ codes "unauthorized"
      ∷ codes "refresh_token_expired"
      ∷ [])
    then some auth_expired
    else if one_of code (codes "rate_limit_exceeded" ∷ codes "usage_limit_reached" ∷ [])
    then some rate_limited
    else if one_of code (codes "approval_required" ∷ codes "approval_request" ∷ [])
    then some approval_required
    else if bytes_eq code (codes "model_not_found")
    then some model_unavailable
    else if bytes_eq code (codes "invalid_json_schema")
    then some invalid_output_schema
    else none

-- `failureCode`.
unfoldable pub failure_code : Option Value → Option FailureReason
unfolding code_reason
failure_code (some (str code)) = code_reason code
failure_code _ = none

-- `relayedErrorEnvelope`.
unfoldable pub relayed_error_envelope : Fields → Bool
unfolding one_of
relayed_error_envelope end = true
relayed_error_envelope (field k _ fs) =
    one_of k (codes "type" ∷ codes "error" ∷ codes "status" ∷ []) && relayed_error_envelope fs

-- The message from its first opening brace on.
from_brace : Bytes → Option Bytes
from_brace [] = none
from_brace (c ∷ s) = let rest = from_brace s in if c == b'{' then some (c ∷ s) else rest

-- The first JSON value of a text, as its bytes: `json.Decoder` into a `RawMessage`. A value that is
-- nested too deeply, or has a key twice, `decode` refuses afterwards.
unfoldable pub first_value_text : Bytes → Option Bytes
unfolding decode_value
first_value_text s =
    decode_value true (4 * length s + 1) 0 s >>= λ (_, rest). some (take (length s - length rest) s)

-- `backendErrorEnvelope`.
unfoldable pub backend_error_envelope : Bytes → Option Fields
unfolding from_brace first_value_text decode relayed_error_envelope get
backend_error_envelope message = from_brace message >>= λ s. first_value_text s >>= λ envelope.
    decode max_line_bytes envelope >>= λ v. object_of (some v) >>= λ body.
    require (relayed_error_envelope body) >>= λ _. object_of (get (codes "error") body)

-- `message, _ := value["message"].(string)`. The message is searched for a brace and for words with no
-- blank at their ends, so the blanks that `strings.TrimSpace` takes off do not matter.
abbrev pub text_or_empty : Option Bytes → Bytes
text_or_empty none = []
text_or_empty (some s) = s

abbrev pub first_reason : Option FailureReason → Option FailureReason → Option FailureReason
first_reason none o = o
first_reason (some r) o = some r

-- `progressFailure`: the code, or else the code of the error that the message relays.
unfoldable pub progress_failure : Fields → Option FailureReason
unfolding failure_code backend_error_envelope get
progress_failure fs =
    let message = text_or_empty (string_of (get (codes "message") fs)) in
    first_reason (failure_code (get (codes "code") fs))
      (backend_error_envelope message >>= λ nested. failure_code (get (codes "code") nested))

-- `messageFailureReason`.
unfoldable pub message_failure_reason : Bytes → Option FailureReason
unfolding contains_any
message_failure_reason m =
    if contains_any m (
      codes "authentication expired"
      ∷ codes "not logged in"
      ∷ codes "unauthorized"
      ∷ codes "refresh token expired"
      ∷ [])
    then some auth_expired
    else if contains_any m (codes "rate limit" ∷ codes "usage limit" ∷ [])
    then some rate_limited
    else if contains_any m (codes "approval required" ∷ [])
    then some approval_required
    else if contains_any m (codes "model_not_found" ∷ codes "model not found" ∷ [])
    then some model_unavailable
    else if contains_any m (
        codes "invalid_json_schema"
        ∷ codes "invalid json schema"
        ∷ codes "invalid output schema"
        ∷ [])
    then some invalid_output_schema
    else none

abbrev pub failure_error : Option FailureReason → ParseError
failure_error none = err_native_failure
failure_error (some r) = classified_failure r

-- `nativeFailure`.
unfoldable pub native_failure : Fields → ParseError
unfolding progress_failure message_failure_reason get
native_failure fs =
    let message = text_or_empty (string_of (get (codes "message") fs)) in
    failure_error (first_reason (progress_failure fs) (message_failure_reason message))
