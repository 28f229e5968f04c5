-- ===== src/Mediation/Handle.antt =====
-- `Handle` of internal/codex/mediation.go.
use shipmunk_runner.Prelude.{
  ℕ, ◌+◌, ◌-◌, leb, ◌==◌, length, Bool, not, Bytes, codes, Option, none, some, [], ◌∷◌, Result, ok,
  err, pos, if◌then◌else◌,
}
use shipmunk_runner.Json.{Value}
use shipmunk_runner.Mediation.Requests.{
  Refusal, bad_schema, bad_fence, bad_sequence, sealed_snapshot, context_done, budget_exhausted,
  execution_failed, bad_result, bad_response, CommandResult, CommandRequest, CommandResponse,
  Mediator, Session, Frame, decode_command_request, is_valid_result, max_request_bytes,
  max_response_bytes,
}
use shipmunk_runner.Mediation.Encoding.{encode_response}

abbrev pub exhausted : CommandRequest → CommandResponse
exhausted r = record {
  fence = r.fence;
  id = r.id;
  stdout = [];
  stderr = codes "repository command budget exhausted; finish with the work already done";
  exit_code = pos 1;
}

abbrev pub response_of : CommandRequest → CommandResult → CommandResponse
response_of r c = record {
  fence = r.fence;
  id = r.id;
  stdout = c.stdout;
  stderr = c.stderr;
  exit_code = c.exit_code;
}

abbrev pub oversized : CommandRequest → CommandResponse
oversized r = record {
  fence = r.fence;
  id = r.id;
  stdout = [];
  stderr = codes "Repository command response exceeds its frame limit.";
  exit_code = pos 1;
}

abbrev pub fits : Bytes → Bool
fits s = leb (length s) max_response_bytes

-- The encoded response, or what is returned where it does not fit its frame.
unfoldable pub framed : CommandResponse → Result Refusal Bytes → Result Refusal Bytes
unfolding encode_response
framed r otherwise = let s = encode_response r in if fits s then ok s else otherwise

unfoldable pub answer_of :
    CommandRequest → Bool → Result Refusal CommandResult → Result Refusal Bytes
unfolding framed is_valid_result
answer_of r done (err _) = if done then err context_done else err execution_failed
answer_of r done (ok c) =
    if is_valid_result c
    then framed (response_of r c) (framed (oversized r) (err bad_response))
    else err bad_result

abbrev pub skip_command : CommandRequest → Session → Session
skip_command r s = record s { mediator = record s.mediator { last = r.id } }

-- The sequence is spent before the execution.
abbrev pub spend_command : CommandRequest → Session → Session
spend_command r s = record {
  mediator = record s.mediator { last = r.id; remaining = s.mediator.remaining - 1 };
  executed = record { fence = r.fence; id = r.id; text = r.command } ∷ s.executed;
}

-- What stands between a decoded request and its execution, in the order of the checks.
unfoldable pub refusal_of : CommandRequest → Mediator → Bool → Option Refusal
refusal_of r m done =
    if not (r.fence == m.fence)
    then some bad_fence
    else if not (r.id == m.last + 1)
    then some bad_sequence
    else if m.sealed
    then some sealed_snapshot
    else if done
    then some context_done
    else none

-- Past the checks: an exhausted budget is answered, and all else is executed.
unfoldable pub serve : CommandRequest → Frame → Session → Result Refusal Bytes × Session
unfolding framed answer_of
serve r f s =
    if s.mediator.remaining == 0
    then (framed (exhausted r) (err budget_exhausted), skip_command r s)
    else (answer_of r f.done_after f.answer, spend_command r s)

unfoldable pub unless :
    Option Refusal → CommandRequest → Frame → Session → Result Refusal Bytes × Session
unfolding serve
unless (some e) r f s = (err e, s)
unless none r f s = serve r f s

unfoldable pub handle_decoded :
    Option CommandRequest → Frame → Session → Result Refusal Bytes × Session
unfolding unless refusal_of
handle_decoded none f s = (err bad_schema, s)
handle_decoded (some r) f s = unless (refusal_of r s.mediator f.done_before) r f s

module _ (decode : Bytes → ℕ → Option Value) where
  unfoldable pub request_in : Frame → Option CommandRequest
  unfolding decode_command_request
  request_in f = decode_command_request (decode f.raw max_request_bytes)

  unfoldable pub handle : Frame → Session → Result Refusal Bytes × Session
  unfolding request_in handle_decoded
  handle f s = handle_decoded (request_in f) f s
