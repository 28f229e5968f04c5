-- ===== src/Tests/Mediation.antt =====
-- A mediator with a budget of two commands, and the frames of three.
use shipmunk_runner.Prelude.{
  ℕ, ◌≡◌, ◌≤◌, refl, true, false, Bytes, codes, Option, List, [], ◌∷◌, ◌++◌, ok, pos, All, length,
  parse_int, valid_utf8, bytes_eq, format_int,
}
use shipmunk_runner.Json.{Value, get}
use shipmunk_runner.Protocol.Decode.{decode}
use shipmunk_runner.Mediation.Requests.{
  Mediator, Command, CommandResult, Session, Frame, new_mediator, seal, safe_number, safe_integer,
  decode_command_request, is_valid_result,
}
use shipmunk_runner.Mediation.Encoding.{encode_response, encode_string}
use shipmunk_runner.Mediation.Handle.{
  refusal_of, serve, unless, handle_decoded, request_in, handle, framed, answer_of,
}
use shipmunk_runner.Mediation.History.{
  Event, frame, sealing, opened, ids, countdown, run_events, step, executed_in_order,
}
use shipmunk_runner.Mediation.Once.{seal_is_final, replay_is_refused}
use shipmunk_runner.Mediation.Answers.{IsAnswer, handle-IsAnswer}

-- The decoder of the source, and a frame with a sequence number.
abbrev source_decode : Bytes → ℕ → Option Value
unfolding decode
source_decode raw limit = decode limit raw

abbrev request_text : Bytes → Bytes
request_text id = codes "{\"fence\":7,\"id\":" ++ (id ++ codes ",\"command\":\"ls\"}")

abbrev listing : CommandResult
listing = record { stdout = codes "a<b"; stderr = []; exit_code = pos 0 }

abbrev asking : Bytes → Frame
asking raw = record {
  raw = request_text raw;
  done_before = false;
  done_after = false;
  answer = ok listing;
}

abbrev two_commands : Mediator
two_commands = record { fence = 7; last = 0; remaining = 2; sealed = false }

abbrev frames : List Event
frames =
    frame (asking (codes "1"))
    ∷ frame (asking (codes "1"))
    ∷ frame (asking (codes "2"))
    ∷ frame (asking (codes "3"))
    ∷ sealing
    ∷ frame (asking (codes "4"))
    ∷ []

session_after :
    (run_events source_decode frames (opened two_commands)).mediator
    ≡ record { fence = 7; last = 3; remaining = 0; sealed = true }
unfolding run_events step handle request_in handle_decoded unless serve refusal_of
    decode_command_request safe_integer safe_number parse_int seal valid_utf8 get bytes_eq
    source_decode
session_after = refl

first_answer :
    (handle source_decode (asking (codes "1")) (opened two_commands)).0
    ≡ ok (codes "{\"fence\":7,\"id\":1,\"stdout\":\"a\\u003cb\",\"stderr\":\"\",\"exit_code\":0}")
unfolding handle request_in handle_decoded unless serve refusal_of decode_command_request
    safe_integer safe_number parse_int valid_utf8 get bytes_eq source_decode answer_of framed
    encode_response encode_string format_int is_valid_result
first_answer = refl

executed_in_order_example :
    (ids (run_events source_decode frames (opened two_commands)).executed
      ≡ countdown (length (run_events source_decode frames (opened two_commands)).executed))
    × (length (run_events source_decode frames (opened two_commands)).executed ≤ 2)
    × All
        (λ (c : Command). c.fence ≡ 7)
        (run_events source_decode frames (opened two_commands)).executed
unfolding new_mediator
executed_in_order_example = executed_in_order source_decode 7 2 true two_commands frames refl

seal_is_final_example :
    (run_events source_decode frames
      (seal (run_events source_decode [] (opened two_commands)))).executed
    ≡ (run_events source_decode [] (opened two_commands)).executed
seal_is_final_example = seal_is_final source_decode [] frames (opened two_commands)

abbrev first_spent : Session
first_spent =
    run_events source_decode frames
      (handle source_decode (asking (codes "1")) (opened two_commands)).1

replay_is_refused_example : (handle source_decode (asking (codes "1")) first_spent).1 ≡ first_spent
unfolding handle request_in handle_decoded unless serve refusal_of decode_command_request
    safe_integer safe_number parse_int valid_utf8 get bytes_eq source_decode
replay_is_refused_example =
    replay_is_refused source_decode (asking (codes "1")) (asking (codes "1")) frames
      (opened two_commands) refl refl

handle-IsAnswer_example :
    IsAnswer (handle source_decode (asking (codes "1")) (opened two_commands)).0
handle-IsAnswer_example = handle-IsAnswer source_decode (asking (codes "1")) (opened two_commands)
