-- ===== src/Sandbox/Watch/Kept.antt =====
-- What one turn of the watchdog's loop in internal/sandbox/watchdog.go keeps, or returns for.
use shipmunk_runner.Prelude.{
  ℕ, ◌≤◌, ◌<◌, ◌≡◌, refl, leb, true, false, not, ◌||◌, ◌&&◌, Bytes, codes, Option, none, some, ℤ,
  bytes_eq, inl, inr, arith, Bool-cases, parse_int,
}
use shipmunk_runner.Protocol.Numbers.{strip_prefix}
use shipmunk_runner.Supervisor.Lease.{full_container_id}
use shipmunk_runner.Sandbox.Input.{parse_uint, three_parts, eof_message}
use shipmunk_runner.Sandbox.Watch.{
  Watch, Turn, Next, watching, ended, Ending, cleanup, disarmed, unwritten, is_empty, inspected,
  on_started, on_finished, on_numbered, on_phase, on_disarm, on_expiry, on_renew, on_other, on_text,
  on_message, on_select, turn, broken,
}

-- What the loop knows of the container's creation.
pub record IsWatch (deadline : ℕ) (w : Watch) : Type 0 where
  pub within : w.lease ≤ deadline
  pub settled : w.finished ≡ true → w.in_flight ≡ false
  pub named : (w.finished && not (is_empty w.confirmed)) ≡ not (is_empty w.confirmed)
  pub shaped : (is_empty w.confirmed || full_container_id w.confirmed) ≡ true

-- Why a turn returns: a cleanup knows of every creation in flight and of the confirmed container;
-- without one, no creation is in flight and the container is absent, or an answer is not written.
abbrev pub Returns : Bytes → Watch → Turn → Ending → Type 0
Returns name w t (cleanup b id) = (id ≡ w.confirmed) × (w.in_flight ≡ true → b ≡ true)
Returns name w t disarmed = (w.in_flight ≡ false) × (t.absent (inspected name w) ≡ true)
Returns name w t unwritten = t.written ≡ false

-- What a message makes of a watch.
pub record Keeps (deadline : ℕ) (w v : Watch) : Type 0 where
  pub longer : w.lease ≤ v.lease
  pub kept : IsWatch deadline v

abbrev pub Handled : Bytes → ℕ → Watch → Turn → Next → Type 0
Handled name deadline w t (watching v) = Keeps deadline w v
Handled name deadline w t (ended e) = Returns name w t e

-- All but a cleanup comes before the end of the lease.
abbrev pub Timely : Watch → Turn → Next → Type 0
Timely w t (watching v) = t.now < w.lease
Timely w t (ended (cleanup b id)) = Unit
Timely w t (ended disarmed) = t.now < w.lease
Timely w t (ended unwritten) = t.now < w.lease

early-Timely : (w : Watch) (t : Turn) → t.now < w.lease → (n : Next) → Timely w t n
early-Timely w t h (watching v) = h
early-Timely w t h (ended (cleanup b id)) = tt
early-Timely w t h (ended disarmed) = h
early-Timely w t h (ended unwritten) = h

module _ (name : Bytes) (deadline : ℕ) (w : Watch) (t : Turn) (i : IsWatch deadline w) where
  same : Keeps deadline w w
  same = record { longer = omega arith; kept = i }

  broken-Handled : Handled name deadline w t (broken w)
  broken-Handled = (refl, λ _. refl)

  on_started-Handled :
      (n : ℕ) (id : Bytes) → Handled name deadline w t (on_started w n id t.written)
  unfolding on_started
  on_started-Handled n id = ground arith

  on_finished-Handled :
      (n : ℕ) (id : Bytes) → Handled name deadline w t (on_finished w n id t.written)
  unfolding on_finished
  on_finished-Handled n id = ground arith

  on_numbered-Handled :
      (kind id : Bytes) (o : Option ℕ)
      → Handled name deadline w t (on_numbered w kind id t.written o)
  unfolding on_numbered
  on_numbered-Handled kind id none = broken-Handled
  on_numbered-Handled kind id (some n) =
      ground (arith, on_started-Handled n id, on_finished-Handled n id)

  on_phase-Handled :
      (o : Option (Bytes × Bytes × Bytes)) → Handled name deadline w t (on_phase w t.written o)
  unfolding on_phase
  on_phase-Handled none = broken-Handled
  on_phase-Handled (some (number, kind, id)) = on_numbered-Handled kind id (parse_uint number)

  on_disarm-Handled : Handled name deadline w t (on_disarm name w t.absent)
  unfolding on_disarm
  on_disarm-Handled = ground arith

  on_expiry-Handled : (o : Option ℤ) → Handled name deadline w t (on_expiry deadline w t o)
  unfolding on_expiry
  on_expiry-Handled none = same
  on_expiry-Handled (some z) = ground arith

  on_renew-Handled : (o : Option Bytes) → Handled name deadline w t (on_renew deadline w t o)
  on_renew-Handled none = same
  on_renew-Handled (some text) = on_expiry-Handled (parse_int text)

  on_other-Handled : (m : Bytes) → Handled name deadline w t (on_other name deadline w t m)
  on_other-Handled m =
      ground (arith, on_disarm-Handled, on_renew-Handled (strip_prefix (codes "renew:") m))

  on_text-Handled :
      (m : Bytes) (o : Option Bytes) → Handled name deadline w t (on_text name deadline w t m o)
  on_text-Handled m none = on_other-Handled m
  on_text-Handled m (some text) = on_phase-Handled (three_parts text)

  on_message-Handled : (m : Bytes) → Handled name deadline w t (on_message name deadline w t m)
  unfolding on_message
  on_message-Handled m = elim (Bool-cases (bytes_eq m eof_message)) [
    | inl e ↦ rw e (refl, λ h. h)
    | inr e ↦ rw e (on_text-Handled m (strip_prefix (codes "phase:") m))
  ]

  on_select-Handled : (m : Option Bytes) → Handled name deadline w t (on_select name deadline w t m)
  on_select-Handled none = same
  on_select-Handled (some m) = on_message-Handled m

  pub turn-Handled :
      Handled name deadline w t (turn name deadline w t) × Timely w t (turn name deadline w t)
  unfolding turn
  turn-Handled = elim (Bool-cases (leb w.lease t.now)) [
    | inl e ↦ rw e ((refl, λ h. h), tt)
    | inr e ↦
        let early : t.now < w.lease = ground arith in
        rw e (
          on_select-Handled t.message,
          early-Timely w t early (on_select name deadline w t t.message),
        )
  ]
