-- ===== src/Codex/Stream.antt =====
-- `Parse` of internal/codex/parser.go.
pub mod Grammar
pub mod Lives
pub mod Steps
pub mod Whole
use shipmunk_runner.Prelude.{
  ℕ, suc, ◌+◌, ◌*◌, ◌==◌, ltb, leb, length, Bool, true, false, not, ◌&&◌, ◌||◌, Bytes, codes,
  bytes_eq, Option, none, some, List, [], ◌∷◌, ◌++◌, if◌then◌else◌, Result, ok, err, and_then,
  is_some,
}
use shipmunk_runner.Json.{Value, Fields, get}
use shipmunk_runner.Protocol.Decode.{decode_allowing_duplicate_keys}
use shipmunk_runner.Codex.Fields.{bounded_string, object_of}
use shipmunk_runner.Codex.Failure.{
  FailureReason, ParseError, err_malformed_output, err_missing_result, err_invalid_result,
  err_native_failure, classified_failure, max_line_bytes, progress_failure, native_failure,
}
use shipmunk_runner.Codex.Usage.{Usage, parse_usage}
use shipmunk_runner.Codex.Structured.{Structured, parse_result}
use shipmunk_runner.Codex.Events.{
  Event, EventType, ItemState, Items, Phase, Progress, Step, TurnState, add_event, all_complete,
  completed, event_type_of, has_unfinished, identified, in_thread, in_turn, initial,
  is_all_complete, is_completed, is_error, is_in_thread, is_in_turn, is_initial, is_message,
  is_started, is_updated, item_event, item_of, item_phase, item_step, later_failure, malformed,
  may_follow, native_error, noticed, other, recorded, report_failure, set_item, started,
  take_message, thread_started, turn_completed, turn_failed, turn_item, turn_started, updated,
}

abbrev pub max_stream_bytes : ℕ
max_stream_bytes = 16 * 1024 * 1024

abbrev pub max_events : ℕ
max_events = 10_000

pub record Stream : Type 0 where
  pub thread_id : Bytes
  pub events : List Event
  pub result : Structured
  pub usage : Option Usage

abbrev pub start_thread : Option Bytes → Progress → Step
start_thread none p = malformed
start_thread (some id) p =
    if is_initial p.state then ok (record p { thread_id = id; state = in_thread }) else malformed

abbrev pub complete_turn : Option (Option Usage) → Progress → Step
complete_turn none p = malformed
complete_turn (some usage) p = ok (record p { usage = usage; state = all_complete })

unfoldable pub failed_turn : Option Fields → Step
unfolding native_failure
failed_turn none = err err_native_failure
failed_turn (some error) = err (native_failure error)

-- The `switch` on the event's type.
unfoldable pub event_step : EventType → Fields → Progress → Step
unfolding item_event failed_turn report_failure bounded_string parse_usage get
event_step thread_started event p =
    start_thread (bounded_string 128 (get (codes "thread_id") event)) p
event_step turn_started event p =
    if not (is_in_thread p.state) then malformed else ok (record p { state = in_turn })
event_step (item_phase phase) event p = item_event phase (object_of (get (codes "item") event)) p
event_step turn_completed event p =
    if not (is_in_turn p.state) || has_unfinished p.items
    then malformed
    else complete_turn (parse_usage (get (codes "usage") event)) p
event_step native_error event p =
    ok (report_failure event (add_event native_error [] (codes "native") p))
event_step turn_failed event p = failed_turn (object_of (get (codes "error") event))
event_step other event p = malformed

unfoldable pub typed_step : Fields → Option Bytes → Progress → Step
unfolding event_step event_type_of
typed_step event none p = malformed
typed_step event (some type) p = event_step (event_type_of type) event p

unfoldable pub decoded_step : Option Fields → Progress → Step
unfolding typed_step event_step event_type_of bounded_string get
decoded_step none p = malformed
decoded_step (some event) p = typed_step event (bounded_string 64 (get (codes "type") event)) p

-- `decodeStreamEvent`.
unfoldable pub decode_stream_event : Bytes → Option Fields
unfolding decode_allowing_duplicate_keys
decode_stream_event line = object_of (decode_allowing_duplicate_keys max_line_bytes line)

-- One line of the stream.
unfoldable pub line_step : Bytes → Progress → Step
unfolding decode_stream_event decoded_step
line_step line p =
    if length line == 0 || ltb max_line_bytes (length line) || is_all_complete p.state
    then malformed
    else decoded_step (decode_stream_event line) p

unfoldable pub lines_from : List Bytes → Progress → Step
unfolding line_step
lines_from [] p = ok p
lines_from (line ∷ lines) p = and_then (line_step line p) (λ q. lines_from lines q)

abbrev pub nothing_read : Progress
nothing_read = record {
  state = initial;
  items = [];
  thread_id = [];
  events = [];
  usage = none;
  final_message = [];
  reported_failure = none;
}

-- `strings.Split(body, "\n")`.
abbrev pub begin_line : ℕ → List Bytes → List Bytes
begin_line c [] = (c ∷ []) ∷ []
begin_line c (s ∷ ss) = (c ∷ s) ∷ ss

unfoldable pub split_lines : Bytes → List Bytes
split_lines [] = [] ∷ []
split_lines (c ∷ s) = let rest = split_lines s in if c == 10 then [] ∷ rest else begin_line c rest

-- The bytes before a final newline.
abbrev pub cons_body : ℕ → Option Bytes → Option Bytes
cons_body c none = none
cons_body c (some s) = some (c ∷ s)

unfoldable pub body_of : Bytes → Option Bytes
body_of [] = none
body_of (c ∷ []) = if c == 10 then some [] else none
body_of (c ∷ d ∷ s) = cons_body c (body_of (d ∷ s))

abbrev pub missing : Option FailureReason → ParseError
missing none = err_missing_result
missing (some r) = classified_failure r

abbrev pub with_result : Progress → Option Structured → Result ParseError Stream
with_result p none = err err_invalid_result
with_result p (some r) =
    ok (record { thread_id = p.thread_id; events = p.events; result = r; usage = p.usage })

-- What follows the last line.
unfoldable pub finish : Progress → Result ParseError Stream
unfolding parse_result
finish p =
    if not (is_all_complete p.state) || length p.final_message == 0
    then err (missing p.reported_failure)
    else with_result p (parse_result p.final_message)

unfoldable pub parse_body : Option Bytes → Result ParseError Stream
unfolding lines_from finish split_lines
parse_body none = err err_malformed_output
parse_body (some body) =
    if ltb max_events (length (split_lines body))
    then err err_malformed_output
    else and_then (lines_from (split_lines body) nothing_read) finish

-- `Parse`. Of the standard error's bytes only their number counts.
unfoldable pub parse : Bytes → Bytes → Result ParseError Stream
unfolding parse_body body_of
parse stdout stderr =
    if ltb max_stream_bytes (length stdout + length stderr)
    then err err_malformed_output
    else if length stdout == 0
    then err err_missing_result
    else parse_body (body_of stdout)
