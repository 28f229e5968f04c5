-- ===== src/Sandbox/Control/Agreed.antt =====
-- internal/sandbox/watchdog.go: what the supervisor's handle knows of the watchdog's loop.
use shipmunk_runner.Prelude.{
  ℕ, ◌+◌, ◌^◌, ◌<◌, ◌≡◌, refl, sym, ap, ◌∙◌, subst, Bool, true, false, Bytes, Option, none, some,
  List, [], ◌∷◌, ◌++◌, All, arith, if◌then◌else◌,
}
use shipmunk_runner.Sandbox.Watch.{Watch, is_empty, inspected}
use shipmunk_runner.Sandbox.Watch.Guarded.{new_watch-IsWatch}
use shipmunk_runner.Sandbox.Control.{
  Lease, create_started, create_finished, renew_handle, disarm, Disarming, absent,
}
use shipmunk_runner.Sandbox.Control.Exchange.{
  Phase, started, finished, is_valid, Sent, phase, other, IsOther, has, System, Reach, arms, serves,
  renews, disarms, starts, finishes,
}
use shipmunk_runner.Sandbox.Control.Taken.{Says, Queued}
use shipmunk_runner.Sandbox.Control.Served.{Serving, Serves-Serving}
use shipmunk_runner.Sandbox.Control.Called.{
  SameLease, renew_handle-SameLease, disarm-SameLease, disarm_none, absence_found, Called,
  create_started-Called, create_finished-Called,
}

-- What the handle knows, with the channel and the watchdog at its other end.
record IsSystem (deadline : ℕ) (s : System) : Type 0 where
  serving : Serving deadline s.lease.sequence s.latest s.watch s.pipe
  blank : s.lease.finished ≡ false → s.lease.confirmed ≡ []
  certain : s.lease.unknown ≡ false → s.watch.last ≡ s.lease.sequence
  said :
      s.lease.unknown ≡ false → Says s.latest s.lease.in_flight s.lease.finished s.lease.confirmed

-- What follows for each line from what holds of the lines before and of the added ones.
lines-All :
    (P N Q : Sent → Type 0)
    → ((m : Sent) → P m → Q m)
    → ((m : Sent) → N m → Q m)
    → (old new : List Sent) → All P old
    → All N new
    → All Q (old ++ new)
lines-All P N Q f g [] [] h k = tt
lines-All P N Q f g [] (m ∷ new) h k = (g m k.0, lines-All P N Q f g [] new h k.1)
lines-All P N Q f g (m ∷ old) new h k = (f m h.0, lines-All P N Q f g old new h.1 k)

module _ (deadline : ℕ) (s : System) (i : IsSystem deadline s) where
  -- A call that writes no phase.
  aside :
      (l : Lease) (lines : List Sent)
      → SameLease s.lease l
      → All IsOther lines
      → IsSystem deadline (record s { lease = l; pipe = s.pipe ++ lines })
  aside l lines (flight, done, unknown, sequence, named) others = record {
    serving = record {
      kept = i.serving.kept;
      small = rw sequence i.serving.small;
      numbered = rw sequence i.serving.numbered;
      acked = i.serving.acked;
      queued = rw sequence (
          lines-All (Queued s.lease.sequence s.latest) IsOther (Queued s.lease.sequence s.latest)
            (λ m h. h) aside_line s.pipe lines i.serving.queued others);
      says = rw sequence i.serving.says;
    };
    blank = rw done (rw named i.blank);
    certain = rw unknown (rw sequence i.certain);
    said = rw unknown (rw flight (rw done (rw named i.said)));
  }
    where
      aside_line : (m : Sent) → IsOther m → Queued s.lease.sequence s.latest m
      aside_line (phase _ _) h = elim h [ ]
      aside_line (other m) h = h

  -- The channel after a phase is written, or lost.
  begun :
      (p : Phase) (lines : List Sent)
      → is_valid p ≡ true
      → s.lease.sequence + 1 < 2 ^ 64
      → All (λ m. m ≡ phase (s.lease.sequence + 1) p) lines
      → Serving deadline (s.lease.sequence + 1) (some p) s.watch (s.pipe ++ lines)
  begun p lines valid small written = record {
    kept = i.serving.kept;
    small = small;
    numbered = omega (arith, i.serving.numbered);
    acked = i.serving.acked;
    queued =
        lines-All (Queued s.lease.sequence s.latest) (λ m. m ≡ phase (s.lease.sequence + 1) p)
          (Queued (s.lease.sequence + 1) (some p)) older newest s.pipe lines i.serving.queued
          written;
    says = λ e. absurd (omega (arith, i.serving.numbered, e));
  }
    where
      older :
          (m : Sent) → Queued s.lease.sequence s.latest m → Queued (s.lease.sequence + 1) (some p) m
      older (phase k q) (low, ok, last) = (omega arith, ok, λ e. absurd (omega arith))
      older (other m) h = h

      newest :
          (m : Sent) → m ≡ phase (s.lease.sequence + 1) p → Queued (s.lease.sequence + 1) (some p) m
      newest m e =
          subst (Queued (s.lease.sequence + 1) (some p)) (sym e) (omega arith, valid, λ _. refl)

-- A call that writes a phase, after the watchdog's turns.
called :
    (deadline n : ℕ) (p : Phase) (r : Lease) (v : Watch) (q : List Sent)
    → Serving deadline n (some p) v q
    → Called v.acks n p r
    → IsSystem deadline (record { lease = r; watch = v; pipe = q; latest = some p })
called deadline n p r v q s c = record {
  serving = subst (λ k. Serving deadline k (some p) v q) (sym c.sequence_eq) s;
  blank = c.blank;
  certain = λ e. ≤_antisym_last (c.known e).0;
  said = λ e. (c.known e).1;
}
  where
    ≤_antisym_last : has n v.acks ≡ true → v.last ≡ r.sequence
    ≤_antisym_last h = omega (arith, s.acked n h, s.numbered, c.sequence_eq)

same_saying :
    (latest : Option Phase) {f g d h : Bool} {b c : Bytes}
    → Says latest f d b
    → Says latest g h c
    → (f ≡ g) × (d ≡ h) × (b ≡ c)
same_saying none (f, d, c) (g, e, b) = (f ∙ sym g, d ∙ sym e, c ∙ sym b)
same_saying (some started) (f, d, c) (g, e, b) = (f ∙ sym g, d ∙ sym e, c ∙ sym b)
same_saying (some (finished id)) (f, d, c) (g, e, b) = (f ∙ sym g, d ∙ sym e, c ∙ sym b)

module _ (name : Bytes) (deadline : ℕ) where
  Reach-IsSystem : {s : System} → Reach name deadline s → IsSystem deadline s
  Reach-IsSystem (arms lease h) = record {
    serving = record {
      kept = new_watch-IsWatch deadline lease h;
      small = omega arith;
      numbered = omega arith;
      acked = λ k e. cc;
      queued = tt;
      says = λ _. (refl, refl, refl);
    };
    blank = λ _. refl;
    certain = λ _. refl;
    said = λ _. (refl, refl, refl);
  }
  Reach-IsSystem (serves {s} v q r turns) =
      let i = Reach-IsSystem r in
      let k = Serves-Serving name deadline s.lease.sequence s.latest turns i.serving in
      record {
        serving = k.0;
        blank = i.blank;
        certain = λ e. omega (arith, k.0.numbered, k.1, i.certain e);
        said = i.said;
      }
  Reach-IsSystem (renews {s} z w lines r others) =
      aside deadline s (Reach-IsSystem r) (renew_handle s.lease z w).0 lines
        (renew_handle-SameLease s.lease z w) others
  Reach-IsSystem (disarms {s} d lines r others) =
      aside deadline s (Reach-IsSystem r) (disarm name s.lease d).0 lines
        (disarm-SameLease name s.lease d) others
  Reach-IsSystem (starts {s} w hs lines v q r unfinished guard small written turns told) =
      let i = Reach-IsSystem r in
      called deadline (s.lease.sequence + 1) started (create_started s.lease w hs).0 v q
        (Serves-Serving name deadline (s.lease.sequence + 1) (some started) turns
          (begun deadline s i started lines refl small written)).0
        (create_started-Called s.lease v.acks unfinished i.blank small w hs told guard)
  Reach-IsSystem
        (finishes {s} id w hs lines v q r valid unfinished guard small written turns told) =
      let i = Reach-IsSystem r in
      called deadline (s.lease.sequence + 1) (finished id) (create_finished s.lease id w hs).0 v q
        (Serves-Serving name deadline (s.lease.sequence + 1) (some (finished id)) turns
          (begun deadline s i (finished id) lines valid small written)).0
        (create_finished-Called s.lease v.acks unfinished i.blank small w hs told id valid guard)

  -- Whenever the handle is certain of the last phase, a watchdog that goes on has the same creation in
  -- flight, the same one finished and the same container confirmed, whatever responses came late, came
  -- never or came again. A disarming that succeeds finds no creation in flight in the watchdog and, for
  -- other than a Codex run, has found the container that the watchdog itself would ask for absent.
  pub handle_agrees :
      (s : System)
      → Reach name deadline s
      → (s.lease.unknown ≡ false
          → (s.watch.in_flight ≡ s.lease.in_flight)
            × (s.watch.finished ≡ s.lease.finished)
            × (s.watch.confirmed ≡ s.lease.confirmed))
        × ((d : Disarming)
            → (disarm name s.lease d).1 ≡ none
            → (s.watch.in_flight ≡ false)
              × (d.codex ≡ false → d.found (inspected name s.watch) ≡ absent))
  handle_agrees s r = (agrees, disarms_absent)
    where
      agrees :
          s.lease.unknown ≡ false
          → (s.watch.in_flight ≡ s.lease.in_flight)
            × (s.watch.finished ≡ s.lease.finished)
            × (s.watch.confirmed ≡ s.lease.confirmed)
      agrees e =
          let i = Reach-IsSystem r in same_saying s.latest (i.serving.says (i.certain e)) (i.said e)

      disarms_absent :
          (d : Disarming)
          → (disarm name s.lease d).1 ≡ none
          → (s.watch.in_flight ≡ false)
            × (d.codex ≡ false → d.found (inspected name s.watch) ≡ absent)
      disarms_absent d e =
          let (flight, sure, clear) = disarm_none name s.lease d e in
          let same = agrees sure in
          (
            same.0 ∙ flight,
            λ plain.
                ap (λ c. d.found (if is_empty c then name else c)) same.2
                ∙ absence_found d (if is_empty s.lease.confirmed then name else s.lease.confirmed)
                    clear plain,
          )
