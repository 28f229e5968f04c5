-- ===== src/Codex/Events.antt =====
-- The events of the stream that `Parse` of internal/codex/parser.go reads, and its steps on items.
use shipmunk_runner.Prelude.{
  Bool, true, false, not, ◌&&◌, ◌||◌, Bytes, codes, bytes_eq, Option, none, some, List, [], ◌∷◌,
  ◌++◌, if◌then◌else◌, Result, ok, err,
}
use shipmunk_runner.Json.{Fields, get}
use shipmunk_runner.Codex.Fields.{bounded_string}
use shipmunk_runner.Codex.Failure.{
  FailureReason, ParseError, err_malformed_output, err_invalid_result, progress_failure,
}
use shipmunk_runner.Codex.Usage.{Usage}

-- `item.started`, `item.updated` and `item.completed`.
pub data Phase : Type 0 where
  started updated completed : Phase

-- The event types; `other` is any text that the parser does not know.
pub data EventType : Type 0 where
  thread_started turn_started turn_completed native_error turn_failed other : EventType
  item_phase : Phase → EventType

pub record Event : Type 0 where
  pub event_type : EventType
  pub item_id : Bytes
  pub item_type : Bytes

pub record ItemState : Type 0 where
  pub kind : Bytes
  pub complete : Bool

pub data TurnState : Type 0 where
  initial in_thread in_turn all_complete : TurnState

-- `items`, one entry for each id.
abbrev pub Items : Type 0
Items = List (Bytes × ItemState)

pub record Progress : Type 0 where
  pub state : TurnState
  pub items : Items
  pub thread_id : Bytes
  pub events : List Event
  pub usage : Option Usage
  pub final_message : Bytes
  pub reported_failure : Option FailureReason

abbrev pub Step : Type 0
Step = Result ParseError Progress

abbrev pub malformed : Step
malformed = err err_malformed_output

unfoldable pub event_type_of : Bytes → EventType
unfolding bytes_eq
event_type_of s =
    if bytes_eq s (codes "thread.started")
    then thread_started
    else if bytes_eq s (codes "turn.started")
    then turn_started
    else if bytes_eq s (codes "item.started")
    then item_phase started
    else if bytes_eq s (codes "item.updated")
    then item_phase updated
    else if bytes_eq s (codes "item.completed")
    then item_phase completed
    else if bytes_eq s (codes "turn.completed")
    then turn_completed
    else if bytes_eq s (codes "error")
    then native_error
    else if bytes_eq s (codes "turn.failed")
    then turn_failed
    else other

-- `previous, exists := items[id]`, and `items[id] = state`.
unfoldable pub item_of : Bytes → Items → Option ItemState
item_of id [] = none
item_of id ((j, i) ∷ is) = if bytes_eq j id then some i else item_of id is

unfoldable pub set_item : Bytes → ItemState → Items → Items
set_item id i [] = (id, i) ∷ []
set_item id i ((j, k) ∷ is) =
    let rest = set_item id i is in if bytes_eq j id then (j, i) ∷ is else (j, k) ∷ rest

-- `hasUnfinished`.
abbrev pub has_unfinished : Items → Bool
has_unfinished [] = false
has_unfinished ((_, i) ∷ is) = not i.complete || has_unfinished is

abbrev pub is_started : Phase → Bool
is_started started = true
is_started _ = false

abbrev pub is_updated : Phase → Bool
is_updated updated = true
is_updated _ = false

abbrev pub is_completed : Phase → Bool
is_completed completed = true
is_completed _ = false

-- Whether the phase may follow what is known of the item.
unfoldable pub may_follow : Option ItemState → Bytes → Phase → Bool
unfolding bytes_eq
may_follow none kind phase = not (is_updated phase)
may_follow (some previous) kind phase =
    not (previous.complete || not (bytes_eq previous.kind kind) || is_started phase)

abbrev pub later_failure : Option FailureReason → Option FailureReason → Option FailureReason
later_failure none before = before
later_failure (some r) before = some r

abbrev pub add_event : EventType → Bytes → Bytes → Progress → Progress
add_event type id kind p = record p {
  events = p.events ++ (record { event_type = type; item_id = id; item_type = kind } ∷ []);
}

-- `if failure := progressFailure(…); failure != nil { reportedFailure = failure }`
unfoldable pub report_failure : Fields → Progress → Progress
unfolding progress_failure
report_failure fs p = record p {
  reported_failure = later_failure (progress_failure fs) p.reported_failure;
}

abbrev pub take_message : Option Bytes → Progress → Step
take_message none p = err err_invalid_result
take_message (some message) p = ok (record p { final_message = message })

abbrev pub is_message : Bytes → Phase → Bool
is_message kind phase = bytes_eq kind (codes "agent_message") && is_completed phase

abbrev pub is_error : Bytes → Bool
is_error kind = bytes_eq kind (codes "error")

abbrev pub is_in_thread : TurnState → Bool
is_in_thread in_thread = true
is_in_thread _ = false

abbrev pub is_in_turn : TurnState → Bool
is_in_turn in_turn = true
is_in_turn _ = false

abbrev pub is_initial : TurnState → Bool
is_initial initial = true
is_initial _ = false

abbrev pub is_all_complete : TurnState → Bool
is_all_complete all_complete = true
is_all_complete _ = false

-- The record of an item of the turn, and the event for it.
unfoldable pub recorded : Phase → Bytes → Bytes → Progress → Progress
unfolding set_item
recorded phase id kind p = add_event (item_phase phase) id kind (record p {
  items = set_item id (record { kind = kind; complete = is_completed phase }) p.items;
})

abbrev pub noticed : Bytes → Fields → Progress → Progress
noticed kind item p = if is_error kind then report_failure item p else p

-- An item of the turn.
unfoldable pub turn_item : Phase → Bytes → Bytes → Fields → Progress → Step
unfolding bytes_eq item_of may_follow report_failure bounded_string recorded get
turn_item phase id kind item p =
    let next = noticed kind item (recorded phase id kind p) in
    if not (is_in_turn p.state) || not (may_follow (item_of id p.items) kind phase)
    then malformed
    else if is_message kind phase
    then take_message (bounded_string 65536 (get (codes "text") item)) next
    else ok next

-- A completed error item may come before the turn.
unfoldable pub item_step : Phase → Fields → Bytes → Bytes → Progress → Step
unfolding turn_item report_failure
item_step phase item id kind p =
    if is_in_thread p.state && is_completed phase && is_error kind
    then ok (report_failure item (add_event (item_phase phase) id kind p))
    else turn_item phase id kind item p

unfoldable pub identified : Phase → Fields → Option Bytes → Option Bytes → Progress → Step
unfolding item_step
identified phase item (some id) (some kind) p = item_step phase item id kind p
identified phase item _ _ p = malformed

unfoldable pub item_event : Phase → Option Fields → Progress → Step
unfolding identified item_step bounded_string get
item_event phase none p = malformed
item_event phase (some item) p =
    identified phase item (bounded_string 128 (get (codes "id") item))
      (bounded_string 128 (get (codes "type") item)) p
