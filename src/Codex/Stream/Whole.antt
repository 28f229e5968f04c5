-- ===== src/Codex/Stream/Whole.antt =====
-- The streams that `Parse` of internal/codex/parser.go accepts.
use shipmunk_runner.Prelude.{
  ◌≡◌, ◌⊎◌, inl, inr, refl, subst, ◌==◌, ltb, length, ◌+◌, true, false, not, ◌||◌, Bytes, Option,
  none, some, List, [], ◌++◌, ◌∷◌, ap, ◌∙◌, err, and_then, All, Bool-cases, Option-cases, arith, ok,
  Holds, and_then-Holds, subst,
}
use mathlib.Core.List.{append_assoc}
use shipmunk_runner.Codex.Structured.{Structured, parse_result}
use shipmunk_runner.Codex.Results.{ResultIsSound, parse_result-ResultIsSound}
use shipmunk_runner.Codex.Events.{
  Event, ItemState, Items, TurnState, all_complete, is_all_complete, Step, Progress, initial,
  in_thread, in_turn, item_of, has_unfinished, is_in_thread,
}
use shipmunk_runner.Codex.Stream.{
  Stream, line_step, lines_from, nothing_read, finish, with_result, parse_body, parse, split_lines,
  body_of, max_events, max_stream_bytes,
}
use shipmunk_runner.Codex.Stream.Grammar.{stages, IsWhole, Stands, Matches, finished}
use shipmunk_runner.Codex.Stream.Lives.{IsEarly, Lives, Told}
use shipmunk_runner.Codex.Stream.Steps.{IsTurnStart, line_step-Told}

-- Among the lines there is one that is read as a turn.started event after the lines before it opened the
-- thread, and `before` are the events that were recorded of the lines before it.
pub record IsOpening (lines : List Bytes) (before : List Event) : Type 0 where
  pub earlier : List Bytes
  pub line : Bytes
  pub later : List Bytes
  pub read : Progress
  pub lines_eq : earlier ++ (line ∷ later) ≡ lines
  pub reads : lines_from earlier nothing_read ≡ ok read
  pub opened : is_in_thread read.state ≡ true
  pub starts : IsTurnStart line
  pub before_eq : read.events ≡ before

-- The events of the lines before the turn's start, and those after it, in which each item that is named
-- is whole and has one type.
pub record StreamIsWhole (stdout : Bytes) (s : Stream) : Type 0 where
  pub body : Bytes
  pub before : List Event
  pub during : List Event
  pub body_eq : body_of stdout ≡ some body
  pub whole : s.events ≡ before ++ during
  pub opening : IsOpening (split_lines body) before
  pub early : All IsEarly before
  pub lives :
      (id : Bytes) → (stages id during ≡ []) ⊎ ((kind : Bytes) × IsWhole kind (stages id during))
  pub sound : ResultIsSound s.result

nothing-Told : {K : List Event → Type 0} → Told K nothing_read
unfolding item_of
nothing-Told = record {
  before = [];
  during = [];
  whole = refl;
  early = tt;
  quiet = (refl, refl);
  opened = tt;
  fits = λ id. refl;
}

lines_from_append :
    (xs ys : List Bytes) (p q : Progress)
    → lines_from xs p ≡ ok q
    → lines_from (xs ++ ys) p ≡ lines_from ys q
unfolding lines_from
lines_from_append [] ys p q h = ap (λ r. and_then r (lines_from ys)) h
lines_from_append (x ∷ xs) ys p q h = by_step (line_step x p) h (λ s. lines_from_append xs ys s q)
  where
    by_step :
        (r : Step)
        → and_then r (λ s. lines_from xs s) ≡ ok q
        → ((s : Progress) → lines_from xs s ≡ ok q → lines_from (xs ++ ys) s ≡ lines_from ys q)
        → and_then r (λ s. lines_from (xs ++ ys) s) ≡ lines_from ys q
    by_step (err e) h k = cc h
    by_step (ok s) h k = k s h

-- The lines that are left keep what is told of those that were read.
left-Told :
    (lines earlier left : List Bytes) (p : Progress)
    → earlier ++ left ≡ lines
    → lines_from earlier nothing_read ≡ ok p
    → Told (IsOpening lines) p
    → Holds (Told (IsOpening lines)) (lines_from left p)
unfolding lines_from
left-Told lines earlier [] p h r l = l
left-Told lines earlier (line ∷ left) p h r l =
    next (line_step line p) refl (line_step-Told line p opens l) (λ q s.
      left-Told lines (earlier ++ (line ∷ [])) left q (append_assoc earlier (line ∷ []) left ∙ h)
        (lines_from_append earlier (line ∷ []) nothing_read p r ∙ rw s refl))
  where
    opens : IsTurnStart line → is_in_thread p.state ≡ true → IsOpening lines p.events
    opens starts opened = record {
      earlier = earlier;
      line = line;
      later = left;
      read = p;
      lines_eq = h;
      reads = r;
      opened = opened;
      starts = starts;
      before_eq = refl;
    }

    next :
        (o : Step)
        → line_step line p ≡ o
        → Holds (Told (IsOpening lines)) o
        → ((q : Progress)
            → line_step line p ≡ ok q
            → Told (IsOpening lines) q
            → Holds (Told (IsOpening lines)) (lines_from left q))
        → Holds (Told (IsOpening lines)) (and_then o (λ q. lines_from left q))
    next (err e) s k f = tt
    next (ok q) s k f = f q s k

item-IsWhole :
    (id : Bytes) (is : Items) (es : List Event)
    → has_unfinished is ≡ false
    → Matches (item_of id is) (stages id es)
    → (stages id es ≡ []) ⊎ ((kind : Bytes) × IsWhole kind (stages id es))
item-IsWhole id is es h m = elim (Option-cases (item_of id is)) [
  | inl e ↦ inl (rw e at m)
  | inr e ↦
      let i : ItemState = e.0 in
      let c : i.complete ≡ true = finished id is i h (e.1) in
      let st : Stands i.complete i.kind (stages id es) = rw (e.1) at m in inr (i.kind, rw c at st)
]

quiet_end :
    {K : List Event → Type 0} (s : TurnState) (es : List Event) (is : Items)
    → is_all_complete s ≡ true
    → Lives K s es is
    → Lives K all_complete es is
quiet_end initial es is h l = cc h
quiet_end in_thread es is h l = cc h
quiet_end in_turn es is h l = cc h
quiet_end all_complete es is h l = l

module _ (stdout body : Bytes) (b : body_of stdout ≡ some body) where
  abbrev Opening : List Event → Type 0
  Opening = IsOpening (split_lines body)

  result-StreamIsWhole :
      (p : Progress)
      → Lives Opening all_complete p.events p.items
      → (o : Option Structured) → ((r : Structured) → o ≡ some r → ResultIsSound r)
      → Holds (StreamIsWhole stdout) (with_result p o)
  result-StreamIsWhole p l none k = tt
  result-StreamIsWhole p l (some r) k = record {
    body = body;
    before = l.before;
    during = l.during;
    body_eq = b;
    whole = l.whole;
    opening = l.opened;
    early = l.early;
    lives = λ id. item-IsWhole id p.items l.during l.quiet (l.fits id);
    sound = k r refl;
  }

  finish-StreamIsWhole : (p : Progress) → Told Opening p → Holds (StreamIsWhole stdout) (finish p)
  unfolding finish
  finish-StreamIsWhole p told =
      elim (Bool-cases (not (is_all_complete p.state) || length p.final_message == 0)) [
        | inl e ↦ rw e tt
        | inr e ↦
            let done : is_all_complete p.state ≡ true = ground arith in
            rw e (
              result-StreamIsWhole p (quiet_end p.state p.events p.items done told)
                (parse_result p.final_message) (parse_result-ResultIsSound p.final_message))
      ]

parse_body-Holds :
    (stdout : Bytes) (o : Option Bytes)
    → body_of stdout ≡ o
    → Holds (StreamIsWhole stdout) (parse_body o)
unfolding parse_body
parse_body-Holds stdout none h = tt
parse_body-Holds stdout (some body) h =
    elim (Bool-cases (ltb max_events (length (split_lines body)))) [
      | inl e ↦ rw e tt
      | inr e ↦ rw e (
          and_then-Holds (StreamIsWhole stdout) (lines_from (split_lines body) nothing_read) finish
            (left-Told (split_lines body) [] (split_lines body) nothing_read refl refl nothing-Told)
            (finish-StreamIsWhole stdout body h))
    ]

parse-Holds : (stdout stderr : Bytes) → Holds (StreamIsWhole stdout) (parse stdout stderr)
unfolding parse
parse-Holds stdout stderr =
    elim (Bool-cases (ltb max_stream_bytes (length stdout + length stderr))) [
      | inl e ↦ rw e tt
      | inr e ↦ elim (Bool-cases (length stdout == 0)) [
        | inl f ↦ rw e (rw f tt)
        | inr f ↦ rw e (rw f (parse_body-Holds stdout (body_of stdout) refl))
      ]
    ]

-- In a stream that is accepted one of the lines is read as a turn.started event, the lines before it give
-- only errors of the stream and completed error items, and of the events recorded after it each item
-- either is completed at once, or is started, updated any number of times and completed, with one type
-- throughout and no event after its completion. The result in it has what a result is to have.
pub parse-StreamIsWhole :
    (stdout stderr : Bytes) (s : Stream) → parse stdout stderr ≡ ok s → StreamIsWhole stdout s
parse-StreamIsWhole stdout stderr s e =
    subst (Holds (StreamIsWhole stdout)) e (parse-Holds stdout stderr)
