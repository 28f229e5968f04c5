-- ===== src/Sandbox/Control/Taken.antt =====
-- internal/sandbox/watchdog.go: what one turn of the watchdog makes of a phase in the channel.
use shipmunk_runner.Prelude.{
  ℕ, ◌^◌, ◌≤◌, ◌<◌, ◌≡◌, refl, sym, subst, leb, Bool, true, false, Bytes, codes, bytes_eq, Option,
  none, some, [], ◌∷◌, ℤ, parse_int, inl, inr, arith, Bool-cases,
}
use shipmunk_runner.Protocol.Numbers.{strip_prefix}
use shipmunk_runner.Sandbox.Input.{eof_message}
use shipmunk_runner.Sandbox.Watch.{
  Watch, Turn, Next, watching, turn, is_empty, on_started, on_finished, on_numbered, on_message,
  on_select, stopped, on_disarm, on_expiry, on_other, on_renew,
}
use shipmunk_runner.Sandbox.Watch.Kept.{IsWatch, Handled, turn-Handled}
use shipmunk_runner.Sandbox.Control.Message.{IsPhase, phase_message_lem}
use shipmunk_runner.Sandbox.Control.Exchange.{
  Phase, started, finished, kind_of, id_of, is_valid, Sent, phase, other, line_of,
}

-- What the last phase says of a creation: in flight, finished, and its container.
abbrev pub Says : Option Phase → Bool → Bool → Bytes → Type 0
Says none f d c = (f ≡ false) × (d ≡ false) × (c ≡ [])
Says (some started) f d c = (f ≡ true) × (d ≡ false) × (c ≡ [])
Says (some (finished id)) f d c = (f ≡ false) × (d ≡ true) × (c ≡ id)

-- A line in the channel: the last phase is the one with the last number.
abbrev pub Queued : ℕ → Option Phase → Sent → Type 0
Queued n latest (phase k p) = (k ≤ n) × (is_valid p ≡ true) × (k ≡ n → latest ≡ some p)
Queued n latest (other m) = strip_prefix (codes "phase:") m ≡ none

-- What a turn that goes on leaves of the phases, if it reads none, or makes of them.
abbrev pub SamePhase : Watch → Watch → Type 0
SamePhase w v =
    (v.last ≡ w.last)
    × (v.acks ≡ w.acks)
    × (v.in_flight ≡ w.in_flight)
    × (v.finished ≡ w.finished)
    × (v.confirmed ≡ w.confirmed)

abbrev pub Reads : ℕ → Phase → Watch → Watch → Type 0
Reads n p w v =
    (v.last ≡ n)
    × (v.acks ≡ n ∷ w.acks)
    × (w.last < n)
    × Says (some p) v.in_flight v.finished v.confirmed

abbrev pub Goes : (Watch → Type 0) → Next → Type 0
Goes P (watching v) = P v
Goes P _ = Unit

empty_text : (s : Bytes) → is_empty s ≡ true → s ≡ []
empty_text [] h = refl
empty_text (c ∷ s) h = cc h

module _ (deadline : ℕ) (w : Watch) (t : Turn) where
  on_disarm-SamePhase : (name : Bytes) → Goes (SamePhase w) (on_disarm name w t.absent)
  unfolding on_disarm
  on_disarm-SamePhase name = ground arith

  on_renew-SamePhase : (o : Option Bytes) → Goes (SamePhase w) (on_renew deadline w t o)
  unfolding on_expiry
  on_renew-SamePhase none = ground arith
  on_renew-SamePhase (some text) = on_expiry-SamePhase (parse_int text)
    where
      on_expiry-SamePhase : (o : Option ℤ) → Goes (SamePhase w) (on_expiry deadline w t o)
      on_expiry-SamePhase none = ground arith
      on_expiry-SamePhase (some z) = ground arith

  on_other-SamePhase : (name m : Bytes) → Goes (SamePhase w) (on_other name deadline w t m)
  on_other-SamePhase name m =
      ground (arith, on_disarm-SamePhase name, on_renew-SamePhase (strip_prefix (codes "renew:") m))

  on_started-Reads :
      (n : ℕ)
      → IsWatch deadline w
      → w.last < n
      → Goes (Reads n started w) (on_started w n [] t.written)
  unfolding on_started
  on_started-Reads n i h = ground (arith, empty_text w.confirmed)

  on_finished-Reads :
      (n : ℕ) (id : Bytes)
      → w.last < n
      → Goes (Reads n (finished id) w) (on_finished w n id t.written)
  unfolding on_finished
  on_finished-Reads n id h = ground arith

  on_numbered-Reads :
      (n : ℕ) (p : Phase)
      → IsWatch deadline w
      → Goes (Reads n p w) (on_numbered w (kind_of p) (id_of p) t.written (some n))
  unfolding on_numbered
  on_numbered-Reads n started i = ground (arith, on_started-Reads n i)
  on_numbered-Reads n (finished id) i = ground (arith, on_finished-Reads n id)

valid-IsPhase : (p : Phase) → is_valid p ≡ true → IsPhase (kind_of p) (id_of p)
valid-IsPhase started h = inl (refl, refl)
valid-IsPhase (finished id) h = inr (refl, h)

-- What a turn that goes on has done with its message.
abbrev pub Took : Watch → Sent → Next → Type 0
Took w (phase n p) r = Goes (Reads n p w) r
Took w (other m) r = Goes (SamePhase w) r

module _ (name : Bytes) (deadline : ℕ) (w : Watch) (t : Turn) where
  pub turn_idle : t.message ≡ none → Goes (SamePhase w) (turn name deadline w t)
  unfolding turn
  turn_idle e = elim (Bool-cases (leb w.lease t.now)) [
    | inl late ↦ rw late tt
    | inr early ↦ rw early (rw e (refl, refl, refl, refl, refl))
  ]

  on_message-Took :
      (n : ℕ) (latest : Option Phase) (m : Sent)
      → IsWatch deadline w
      → n < 2 ^ 64
      → Queued n latest m
      → Took w m (on_message name deadline w t (line_of m))
  unfolding on_message
  on_message-Took n latest (phase k p) i small q =
      rw
        ((phase_message_lem k (kind_of p) (id_of p) (omega (arith, q.0)) (valid-IsPhase p q.1) []
          name deadline w t).1)
        (on_numbered-Reads deadline w t k p i)
  on_message-Took n latest (other m) i small q = elim (Bool-cases (bytes_eq m eof_message)) [
    | inl e ↦ rw e tt
    | inr e ↦ rw e (rw q (on_other-SamePhase deadline w t name m))
  ]

  pub turn_read :
      (n : ℕ) (latest : Option Phase) (m : Sent)
      → IsWatch deadline w
      → n < 2 ^ 64
      → Queued n latest m
      → t.message ≡ some (line_of m)
      → Took w m (turn name deadline w t)
  unfolding turn
  turn_read n latest m i small q e = elim (Bool-cases (leb w.lease t.now)) [
    | inl late ↦ rw late (ended_Took m)
    | inr early ↦ rw early (
        subst (λ o. Took w m (on_select name deadline w t o)) (sym e)
          (on_message-Took n latest m i small q))
  ]
    where
      ended_Took : (m : Sent) → Took w m (stopped w)
      ended_Took (phase n p) = tt
      ended_Took (other m) = tt

  pub goes_on :
      (v : Watch) → IsWatch deadline w → turn name deadline w t ≡ watching v → IsWatch deadline v
  goes_on v i e = (subst (Handled name deadline w t) e (turn-Handled name deadline w t i).0).kept
