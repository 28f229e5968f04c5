-- ===== src/Codex/Stream/Steps.antt =====
-- The steps of `Parse` in internal/codex/parser.go, on the events before and during the turn.
use shipmunk_runner.Prelude.{
  ◌≡◌, inl, inr, refl, ◌==◌, ltb, length, true, false, not, ◌&&◌, ◌||◌, Bytes, codes, Option, none,
  some, List, [], Bool-cases, arith, Holds, subst, ap, ◌∙◌, ◌++◌,
}
use mathlib.Core.List.{append-nil}
use shipmunk_runner.Json.{Fields, get}
use shipmunk_runner.Codex.Fields.{bounded_string, object_of}
use shipmunk_runner.Codex.Failure.{max_line_bytes}
use shipmunk_runner.Codex.Usage.{Usage, parse_usage}
use shipmunk_runner.Codex.Events.{
  Phase, started, updated, completed, EventType, item_phase, thread_started, turn_started,
  turn_completed, native_error, turn_failed, other, Event, Items, TurnState, initial, in_thread,
  in_turn, all_complete, Progress, item_of, has_unfinished, may_follow, is_completed, is_in_thread,
  is_in_turn, is_initial, is_all_complete, is_error, is_message, report_failure, take_message,
  recorded, noticed, turn_item, item_step, identified, item_event, event_type_of,
}
use shipmunk_runner.Codex.Stream.{
  start_thread, complete_turn, failed_turn, event_step, typed_step, decoded_step,
  decode_stream_event, line_step,
}
use shipmunk_runner.Codex.Stream.Lives.{Lives, Told, no_stage, add_early, add_late, add_recorded}

completed_lem :
    (phase : Phase) → is_completed phase ≡ true → item_phase phase ≡ item_phase completed
completed_lem started h = cc h
completed_lem updated h = cc h
completed_lem completed h = refl

failed_turn-Holds : (P : Progress → Type 0) (o : Option Fields) → Holds P (failed_turn o)
unfolding failed_turn
failed_turn-Holds P none = tt
failed_turn-Holds P (some e) = tt

-- The type of an event is that of the turn's start.
abbrev pub StartsAs : Option Bytes → Type 0
StartsAs none = ⊥
StartsAs (some type) = event_type_of type ≡ turn_started

abbrev pub Starts : Option Fields → Type 0
Starts none = ⊥
Starts (some event) = StartsAs (bounded_string 64 (get (codes "type") event))

-- The line is read as a turn.started event.
abbrev pub IsTurnStart : Bytes → Type 0
IsTurnStart line = Starts (decode_stream_event line)

module _ {K : List Event → Type 0} where
  native-Told :
      (event : Fields) (p : Progress) → Told K p → Holds (Told K) (event_step native_error event p)
  unfolding event_step report_failure
  native-Told event p l =
      let e : Event = record {
        event_type = native_error;
        item_id = [];
        item_type = codes "native";
      } in
      elim (Bool-cases (is_in_thread p.state || is_initial p.state)) [
        | inl h ↦ add_early p.state p.events p.items e h (inl refl) l
        | inr h ↦ add_late p.state p.events p.items e h (λ id. no_stage (codes "native") id) l
      ]

  noticed-Told :
      (kind : Bytes) (item : Fields) (p : Progress) → Told K p → Told K (noticed kind item p)
  unfolding report_failure
  noticed-Told kind item p l = elim (Bool-cases (is_error kind)) [ inl e ↦ rw e l | inr e ↦ rw e l ]

  message-Told : (o : Option Bytes) (p : Progress) → Told K p → Holds (Told K) (take_message o p)
  message-Told none p l = tt
  message-Told (some s) p l = l

  turn_item-Told :
      (phase : Phase) (id kind : Bytes) (item : Fields) (p : Progress)
      → Told K p
      → Holds (Told K) (turn_item phase id kind item p)
  unfolding turn_item recorded
  turn_item-Told phase id kind item p l =
      elim (Bool-cases
        (not (is_in_turn p.state) || not (may_follow (item_of id p.items) kind phase))) [
          | inl e ↦ rw e tt
          | inr e ↦
              let now : is_in_turn p.state ≡ true = ground arith in
              let may : may_follow (item_of id p.items) kind phase ≡ true = ground arith in
              let told : Told K (recorded phase id kind p) =
                add_recorded p.state p.events p.items phase id kind now may l in
              let next = noticed-Told kind item (recorded phase id kind p) told in
              elim (Bool-cases (is_message kind phase)) [
                | inl m ↦
                    rw e
                      (rw m (message-Told (bounded_string 65536 (get (codes "text") item)) _ next))
                | inr m ↦ rw e (rw m next)
              ]
        ]

  item_step-Told :
      (phase : Phase) (item : Fields) (id kind : Bytes) (p : Progress)
      → Told K p
      → Holds (Told K) (item_step phase item id kind p)
  unfolding item_step report_failure
  item_step-Told phase item id kind p l =
      elim (Bool-cases (is_in_thread p.state && is_completed phase && is_error kind)) [
        | inl e ↦
            let early : (is_in_thread p.state || is_initial p.state) ≡ true = ground arith in
            let wrong : is_error kind ≡ true = ground arith in
            let done : is_completed phase ≡ true = ground arith in
            rw e
              (add_early p.state p.events p.items _ early (inr (completed_lem phase done, wrong)) l)
        | inr e ↦ rw e (turn_item-Told phase id kind item p l)
      ]

  item_event-Told :
      (phase : Phase) (item : Option Fields) (p : Progress)
      → Told K p
      → Holds (Told K) (item_event phase item p)
  unfolding item_event identified
  item_event-Told phase none p l = tt
  item_event-Told phase (some item) p l =
      named (bounded_string 128 (get (codes "id") item))
        (bounded_string 128 (get (codes "type") item))
    where
      named : (id kind : Option Bytes) → Holds (Told K) (identified phase item id kind p)
      named none none = tt
      named none (some kind) = tt
      named (some id) none = tt
      named (some id) (some kind) = item_step-Told phase item id kind p l

  start_Lives :
      (s : TurnState) (es : List Event) (is : Items)
      → is_initial s ≡ true
      → Lives K s es is
      → Lives K in_thread es is
  start_Lives initial es is h l = record {
    before = l.before;
    during = l.during;
    whole = l.whole;
    early = l.early;
    quiet = l.quiet;
    opened = tt;
    fits = l.fits;
  }
  start_Lives in_thread es is h l = cc h
  start_Lives in_turn es is h l = cc h
  start_Lives all_complete es is h l = cc h

  turn_Lives :
      (s : TurnState) (es : List Event) (is : Items)
      → is_in_thread s ≡ true
      → K es
      → Lives K s es is
      → Lives K in_turn es is
  turn_Lives initial es is h k l = cc h
  turn_Lives in_turn es is h k l = cc h
  turn_Lives all_complete es is h k l = cc h
  turn_Lives in_thread es is h k l = record {
    before = l.before;
    during = l.during;
    whole = l.whole;
    early = l.early;
    quiet = tt;
    opened = subst K (l.whole ∙ ap (λ d. l.before ++ d) (l.quiet.0) ∙ append-nil l.before) k;
    fits = l.fits;
  }

  complete_Lives :
      (s : TurnState) (es : List Event) (is : Items)
      → is_in_turn s ≡ true
      → has_unfinished is ≡ false
      → Lives K s es is
      → Lives K all_complete es is
  complete_Lives initial es is t h l = cc t
  complete_Lives in_thread es is t h l = cc t
  complete_Lives all_complete es is t h l = cc t
  complete_Lives in_turn es is t h l = record {
    before = l.before;
    during = l.during;
    whole = l.whole;
    early = l.early;
    quiet = h;
    opened = l.opened;
    fits = l.fits;
  }

  start_thread-Told :
      (id : Option Bytes) (p : Progress) → Told K p → Holds (Told K) (start_thread id p)
  start_thread-Told none p l = tt
  start_thread-Told (some id) p l = elim (Bool-cases (is_initial p.state)) [
    | inl e ↦ rw e (start_Lives p.state p.events p.items e l)
    | inr e ↦ rw e tt
  ]

  complete_turn-Told :
      (usage : Option (Option Usage)) (p : Progress)
      → is_in_turn p.state ≡ true
      → has_unfinished p.items ≡ false
      → Told K p
      → Holds (Told K) (complete_turn usage p)
  complete_turn-Told none p t h l = tt
  complete_turn-Told (some u) p t h l = complete_Lives p.state p.events p.items t h l

  event_step-Told :
      (type : EventType) (event : Fields) (p : Progress)
      → (type ≡ turn_started → is_in_thread p.state ≡ true → K p.events)
      → Told K p
      → Holds (Told K) (event_step type event p)
  unfolding event_step
  event_step-Told thread_started event p k l =
      start_thread-Told (bounded_string 128 (get (codes "thread_id") event)) p l
  event_step-Told turn_started event p k l = elim (Bool-cases (is_in_thread p.state)) [
    | inl e ↦ rw e (turn_Lives p.state p.events p.items e (k refl e) l)
    | inr e ↦ rw e tt
  ]
  event_step-Told (item_phase phase) event p k l =
      item_event-Told phase (object_of (get (codes "item") event)) p l
  event_step-Told turn_completed event p k l =
      elim (Bool-cases (not (is_in_turn p.state) || has_unfinished p.items)) [
        | inl e ↦ rw e tt
        | inr e ↦
            let now : is_in_turn p.state ≡ true = ground arith in
            let done : has_unfinished p.items ≡ false = ground arith in
            rw e (complete_turn-Told (parse_usage (get (codes "usage") event)) p now done l)
      ]
  event_step-Told native_error event p k l = native-Told event p l
  event_step-Told turn_failed event p k l =
      failed_turn-Holds (Told K) (object_of (get (codes "error") event))
  event_step-Told other event p k l = tt

  decoded_step-Told :
      (o : Option Fields) (p : Progress)
      → (Starts o → is_in_thread p.state ≡ true → K p.events)
      → Told K p
      → Holds (Told K) (decoded_step o p)
  unfolding decoded_step typed_step
  decoded_step-Told none p k l = tt
  decoded_step-Told (some event) p k l = typed (bounded_string 64 (get (codes "type") event)) k
    where
      typed :
          (type : Option Bytes)
          → (StartsAs type → is_in_thread p.state ≡ true → K p.events)
          → Holds (Told K) (typed_step event type p)
      typed none k = tt
      typed (some type) k = event_step-Told (event_type_of type) event p k l

  pub line_step-Told :
      (line : Bytes) (p : Progress)
      → (IsTurnStart line → is_in_thread p.state ≡ true → K p.events)
      → Told K p
      → Holds (Told K) (line_step line p)
  unfolding line_step
  line_step-Told line p k l =
      elim (Bool-cases
        (length line == 0 || ltb max_line_bytes (length line) || is_all_complete p.state)) [
          | inl e ↦ rw e tt
          | inr e ↦ rw e (decoded_step-Told (decode_stream_event line) p k l)
        ]
