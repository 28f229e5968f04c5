-- ===== src/Codex/Stream/Lives.antt =====
-- The events before and during the turn of a stream that `Parse` of internal/codex/parser.go reads.
use shipmunk_runner.Prelude.{
  ◌≡◌, ◌⊎◌, inl, inr, refl, ap, ◌∙◌, true, false, ◌||◌, Bytes, bytes_eq, List, [], ◌∷◌, ◌++◌, All,
  Bool-cases,
}
use mathlib.Core.List.{append_assoc, append-nil}
use shipmunk_runner.Codex.Events.{
  Phase, completed, item_phase, native_error, Event, Items, TurnState, initial, in_thread, in_turn,
  all_complete, Progress, item_of, set_item, has_unfinished, may_follow, is_completed, is_in_thread,
  is_in_turn, is_initial, is_error,
}
use shipmunk_runner.Codex.Stream.Grammar.{
  stages, stage_of, stages_append, Matches, recorded-Matches,
}

-- What may come before the turn: an error of the stream, or an error item that is complete.
abbrev pub IsEarly : Event → Type 0
IsEarly e =
    (e.event_type ≡ native_error)
    ⊎ ((e.event_type ≡ item_phase completed) × (is_error e.item_type ≡ true))

abbrev pub Quiet : TurnState → List Event → Items → Type 0
Quiet initial es is = (es ≡ []) × (is ≡ [])
Quiet in_thread es is = (es ≡ []) × (is ≡ [])
Quiet in_turn es is = Unit
Quiet all_complete es is = has_unfinished is ≡ false

-- What `K` says of the events before the turn, once the turn is open.
abbrev pub Opened : (K : List Event → Type 0) → TurnState → List Event → Type 0
Opened K initial before = Unit
Opened K in_thread before = Unit
Opened K in_turn before = K before
Opened K all_complete before = K before

-- The events before the turn and during it.
pub record Lives (K : List Event → Type 0) (state : TurnState) (events : List Event) (items : Items)
    : Type 0 where
  pub before : List Event
  pub during : List Event
  pub whole : events ≡ before ++ during
  pub early : All IsEarly before
  pub quiet : Quiet state during items
  pub opened : Opened K state before
  pub fits : (id : Bytes) → Matches (item_of id items) (stages id during)

abbrev pub Told : (K : List Event → Type 0) → Progress → Type 0
Told K p = Lives K p.state p.events p.items

IsEarly-append :
    (es : List Event) (e : Event) → All IsEarly es → IsEarly e → All IsEarly (es ++ (e ∷ []))
IsEarly-append [] e h k = (k, tt)
IsEarly-append (d ∷ es) e h k = (h.0, IsEarly-append es e h.1 k)

add_before :
    (es : List Event) (e : Event) (before during : List Event)
    → es ≡ before ++ during
    → during ≡ []
    → es ++ (e ∷ []) ≡ (before ++ (e ∷ [])) ++ []
add_before es e before during h k =
    let all : es ≡ before = h ∙ ap (λ d. before ++ d) k ∙ append-nil before in
    rw (append-nil (before ++ (e ∷ []))) (ap (λ d. d ++ (e ∷ [])) all)

add_during :
    (es : List Event) (e : Event) (before during : List Event)
    → es ≡ before ++ during
    → es ++ (e ∷ []) ≡ before ++ (during ++ (e ∷ []))
add_during es e before during h = ap (λ d. d ++ (e ∷ [])) h ∙ append_assoc before during (e ∷ [])

none_fits : (is : Items) → is ≡ [] → (id : Bytes) → Matches (item_of id is) (stages id [])
unfolding item_of
none_fits is h id = rw h refl

same_fits :
    (is : Items) (during : List Event) (e : Event)
    → ((id : Bytes) → stage_of id e ≡ [])
    → ((id : Bytes) → Matches (item_of id is) (stages id during))
    → (id : Bytes) → Matches (item_of id is) (stages id (during ++ (e ∷ [])))
same_fits is during e k h id =
    rw (stages_append id during (e ∷ [])) (rw (k id) (rw (append-nil (stages id during)) (h id)))

-- An event before the turn.
pub add_early :
    {K : List Event → Type 0} (s : TurnState) (es : List Event) (is : Items) (e : Event)
    → (is_in_thread s || is_initial s) ≡ true
    → IsEarly e
    → Lives K s es is
    → Lives K s (es ++ (e ∷ [])) is
add_early initial es is e h k l = record {
  before = l.before ++ (e ∷ []);
  during = [];
  whole = add_before es e l.before l.during l.whole l.quiet.0;
  early = IsEarly-append l.before e l.early k;
  quiet = (refl, l.quiet.1);
  opened = tt;
  fits = none_fits is l.quiet.1;
}
add_early in_thread es is e h k l = record {
  before = l.before ++ (e ∷ []);
  during = [];
  whole = add_before es e l.before l.during l.whole l.quiet.0;
  early = IsEarly-append l.before e l.early k;
  quiet = (refl, l.quiet.1);
  opened = tt;
  fits = none_fits is l.quiet.1;
}
add_early in_turn es is e h k l = cc h
add_early all_complete es is e h k l = cc h

-- An event of the turn that is of no item.
pub add_late :
    {K : List Event → Type 0} (s : TurnState) (es : List Event) (is : Items) (e : Event)
    → (is_in_thread s || is_initial s) ≡ false
    → ((id : Bytes) → stage_of id e ≡ [])
    → Lives K s es is
    → Lives K s (es ++ (e ∷ [])) is
add_late initial es is e h k l = cc h
add_late in_thread es is e h k l = cc h
add_late in_turn es is e h k l = record {
  before = l.before;
  during = l.during ++ (e ∷ []);
  whole = add_during es e l.before l.during l.whole;
  early = l.early;
  quiet = tt;
  opened = l.opened;
  fits = same_fits is l.during e k l.fits;
}
add_late all_complete es is e h k l = record {
  before = l.before;
  during = l.during ++ (e ∷ []);
  whole = add_during es e l.before l.during l.whole;
  early = l.early;
  quiet = l.quiet;
  opened = l.opened;
  fits = same_fits is l.during e k l.fits;
}

pub no_stage :
    (kind id : Bytes)
    → stage_of id (record { event_type = native_error; item_id = []; item_type = kind }) ≡ []
no_stage kind id = elim (Bool-cases (bytes_eq [] id)) [ inl e ↦ rw e refl | inr e ↦ rw e refl ]

-- An event of an item of the turn.
pub add_recorded :
    {K : List Event → Type 0} (s : TurnState) (es : List Event) (is : Items) (phase : Phase)
    (id kind : Bytes)
    → is_in_turn s ≡ true
    → may_follow (item_of id is) kind phase ≡ true
    → Lives K s es is
    → Lives K s
        (es ++ (record { event_type = item_phase phase; item_id = id; item_type = kind } ∷ []))
        (set_item id (record { kind = kind; complete = is_completed phase }) is)
add_recorded initial es is phase id kind h m l = cc h
add_recorded in_thread es is phase id kind h m l = cc h
add_recorded all_complete es is phase id kind h m l = cc h
add_recorded in_turn es is phase id kind h m l =
    let e : Event = record { event_type = item_phase phase; item_id = id; item_type = kind } in
    record {
      before = l.before;
      during = l.during ++ (e ∷ []);
      whole = add_during es e l.before l.during l.whole;
      early = l.early;
      quiet = tt;
      opened = l.opened;
      fits = recorded-Matches phase id kind is l.during l.fits m;
    }
