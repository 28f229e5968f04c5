-- ===== src/Sandbox/Control/Served.antt =====
-- internal/sandbox/watchdog.go: what the watchdog's turns make of the phases in the channel.
use shipmunk_runner.Prelude.{
  ℕ, ◌^◌, ◌≤◌, ◌<◌, ◌≡◌, sym, ◌∙◌, subst, true, Bytes, Option, List, ◌∷◌, All, arith,
}
use shipmunk_runner.Sandbox.Watch.{Watch, watching}
use shipmunk_runner.Sandbox.Watch.Kept.{IsWatch}
use shipmunk_runner.Sandbox.Control.Exchange.{
  Phase, Sent, phase, other, has, Serves, still, waits, reads,
}
use shipmunk_runner.Sandbox.Control.Taken.{
  Says, Queued, SamePhase, Reads, Goes, Took, turn_idle, turn_read, goes_on,
}

-- What the watchdog and the channel are, given the number of the last phase.
pub record Serving (deadline n : ℕ) (latest : Option Phase) (w : Watch) (pipe : List Sent)
    : Type 0 where
  pub kept : IsWatch deadline w
  pub small : n < 2 ^ 64
  pub numbered : w.last ≤ n
  pub acked : (k : ℕ) → has k w.acks ≡ true → k ≤ w.last
  pub queued : All (Queued n latest) pipe
  pub says : w.last ≡ n → Says latest w.in_flight w.finished w.confirmed

-- A turn that goes on keeps what the watchdog and the channel are.
same-Serving :
    (deadline n : ℕ) (latest : Option Phase) (w v : Watch) (pipe : List Sent)
    → Serving deadline n latest w pipe
    → IsWatch deadline v
    → SamePhase w v
    → Serving deadline n latest v pipe
same-Serving deadline n latest w v pipe s i (last, acks, flight, done, named) = record {
  kept = i;
  small = s.small;
  numbered = omega (arith, s.numbered, last);
  acked = λ k h. omega (arith, s.acked k (rw acks at h), last);
  queued = s.queued;
  says = λ e. rw flight (rw done (rw named (s.says (sym last ∙ e))));
}

read-Serving :
    (deadline n k : ℕ) (latest : Option Phase) (p : Phase) (w v : Watch) (pipe : List Sent)
    → Serving deadline n latest w (phase k p ∷ pipe)
    → IsWatch deadline v
    → Reads k p w v
    → Serving deadline n latest v pipe
read-Serving deadline n k latest p w v pipe s i (last, acks, later, said) = record {
  kept = i;
  small = s.small;
  numbered = omega (arith, s.queued.0.0, last);
  acked = λ j h. let h' : has j (k ∷ w.acks) ≡ true = rw acks at h in ground (arith, s.acked j);
  queued = s.queued.1;
  says = λ e.
      subst (λ l. Says l v.in_flight v.finished v.confirmed) (sym (s.queued.0.2 (sym last ∙ e)))
        said;
}

module _ (name : Bytes) (deadline n : ℕ) (latest : Option Phase) where
  next-Serving :
      (w v : Watch) (m : Sent) (pipe : List Sent)
      → Serving deadline n latest w (m ∷ pipe)
      → IsWatch deadline v
      → Took w m (watching v)
      → Serving deadline n latest v pipe
  next-Serving w v (phase k p) pipe s i h = read-Serving deadline n k latest p w v pipe s i h
  next-Serving w v (other m) pipe s i h =
      same-Serving deadline n latest w v pipe
        (record {
          kept = s.kept;
          small = s.small;
          numbered = s.numbered;
          acked = s.acked;
          queued = s.queued.1;
          says = s.says;
        })
        i h

  last_grows : (w v : Watch) (m : Sent) → Took w m (watching v) → w.last ≤ v.last
  last_grows w v (phase k p) (last, acks, later, said) = omega (arith, last, later)
  last_grows w v (other m) h = omega (arith, h.0)

  -- However many turns the watchdog has.
  pub Serves-Serving :
      {w v : Watch} {p q : List Sent}
      → Serves name deadline w p v q
      → Serving deadline n latest w p
      → Serving deadline n latest v q × (w.last ≤ v.last)
  Serves-Serving still s = (s, omega arith)
  Serves-Serving {w} {p = p} (waits u t e idle more) s =
      let same = subst (Goes (SamePhase w)) e (turn_idle name deadline w t idle) in
      let rest =
        Serves-Serving more
          (same-Serving deadline n latest w u p s (goes_on name deadline w t u s.kept e) same) in
      (rest.0, omega (arith, rest.1, same.0))
  Serves-Serving {w} (reads {p = r} u t m e heard more) s =
      let took =
        subst (Took w m) e
          (turn_read name deadline w t n latest m s.kept s.small s.queued.0 heard) in
      let rest =
        Serves-Serving more (next-Serving w u m r s (goes_on name deadline w t u s.kept e) took) in
      (rest.0, omega (arith, rest.1, last_grows w u m took))
