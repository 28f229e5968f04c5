-- ===== src/Sandbox/Control/Called.antt =====
-- internal/sandbox/watchdog.go: what a call of the supervisor's handle leaves of it.
use shipmunk_runner.Prelude.{
  ℕ, ◌+◌, ◌%◌, ◌^◌, ◌<◌, ◌≡◌, refl, sym, ap, ◌∙◌, subst, Bool, true, false, not, ◌&&◌, ◌||◌, Bytes,
  digits, drop, bytes_eq, bytes_eq_iff, Option, none, some, List, [], ◌∷◌, All, inl, inr, arith,
  Bool-cases, if_false, if◌then◌else◌,
}
use shipmunk_runner.Supervisor.Lease.{full_container_id}
use shipmunk_runner.Sandbox.Watch.{is_empty}
use shipmunk_runner.Sandbox.Control.{
  Lease, Heard, response, exit, timer, Write, await_ack, ack_text, send_phase, write_message,
  create_started, create_finished, renew_handle, disarm, Disarming, after_started, after_finished,
  settle, Fault, absent, absence, disarmed_lease,
}
use shipmunk_runner.Sandbox.Control.Message.{digits-format_int}
use shipmunk_runner.Sandbox.Control.Exchange.{Phase, started, finished, is_valid, has, Told}
use shipmunk_runner.Sandbox.Control.Taken.{Says}

-- The handle's fields but for `closed`.
abbrev pub SameLease : Lease → Lease → Type 0
SameLease l m =
    (m.in_flight ≡ l.in_flight)
    × (m.finished ≡ l.finished)
    × (m.unknown ≡ l.unknown)
    × (m.sequence ≡ l.sequence)
    × (m.confirmed ≡ l.confirmed)

write_message-SameLease : (l : Lease) (w : Write) → SameLease l (write_message l w).0
unfolding write_message
write_message-SameLease l w = ground arith

pub renew_handle-SameLease : (l : Lease) (z : Bool) (w : Write) → SameLease l (renew_handle l z w).0
unfolding renew_handle
renew_handle-SameLease l z w = ground (arith, write_message-SameLease l w)

pub disarm-SameLease : (name : Bytes) (l : Lease) (d : Disarming) → SameLease l (disarm name l d).0
unfolding disarm
disarm-SameLease name l d = ground arith

pub absence_found :
    (d : Disarming) (id : Bytes) → absence d id ≡ none → d.codex ≡ false → d.found id ≡ absent
absence_found d id e plain = ground arith

disarmed_none :
    (l : Lease) (d : Disarming) (o : Option Fault) → (disarmed_lease l d o).1 ≡ none → o ≡ none
disarmed_none l d none e = refl
disarmed_none l d (some f) e = cc e

-- What a disarming that succeeds has seen.
pub disarm_none :
    (name : Bytes) (l : Lease) (d : Disarming)
    → (disarm name l d).1 ≡ none
    → (l.in_flight ≡ false)
      × (l.unknown ≡ false)
      × (absence d (if is_empty l.confirmed then name else l.confirmed) ≡ none)
unfolding disarm
disarm_none name l d e = elim (Bool-cases (l.in_flight || l.unknown)) [
  | inl uncertain ↦ cc (rw uncertain at e)
  | inr sure ↦ (ground arith, ground arith, disarmed_none l d _ (rw sure at e))
]

ack_text_injective : (k n : ℕ) → ack_text k ≡ ack_text n → k ≡ n
ack_text_injective k n e =
    some_injective (sym (digits-format_int k) ∙ ap (λ s. digits (drop 4 s)) e ∙ digits-format_int n)
  where
    some_injective : {a b : ℕ} → ◌≡◌ {A = Option ℕ} (some a) (some b) → a ≡ b
    some_injective e = cc

acked_phase :
    (n : ℕ) (acks : List ℕ) (r : Bytes)
    → Told acks (response r)
    → bytes_eq r (ack_text n) ≡ true
    → has n acks ≡ true
acked_phase n acks r (inl (k, text, h)) e =
    subst (λ k. has k acks ≡ true)
      (ack_text_injective k n (sym text ∙ (bytes_eq_iff r (ack_text n)).0 e)) h
acked_phase n acks r (inr none_acked) e = cc (rw (none_acked n) at e)

-- A phase that is acknowledged was read.
await_ack-has :
    (n : ℕ) (acks : List ℕ) (hs : List Heard)
    → All (Told acks) hs
    → await_ack n hs ≡ none
    → has n acks ≡ true
unfolding await_ack
await_ack-has n acks [] h e = cc e
await_ack-has n acks (timer ∷ hs) h e = cc e
await_ack-has n acks (exit ∷ hs) h e = cc e
await_ack-has n acks (response r ∷ hs) h e =
    ground (arith, acked_phase n acks r h.0, await_ack-has n acks hs h.1)

-- What a call that writes a phase leaves of the handle.
pub record Called (acks : List ℕ) (n : ℕ) (p : Phase) (r : Lease) : Type 0 where
  pub sequence_eq : r.sequence ≡ n
  pub blank : r.finished ≡ false → r.confirmed ≡ []
  pub known :
      r.unknown ≡ false → (has n acks ≡ true) × Says (some p) r.in_flight r.finished r.confirmed

module _ (l : Lease) (acks : List ℕ) (small : l.sequence + 1 < 2 ^ 64) where
  send_phase-lem :
      (w : Write) (hs : List Heard)
      → All (Told acks) hs
      → SameLease (record l { sequence = l.sequence + 1 }) (send_phase l w hs).0
        × ((send_phase l w hs).1 ≡ none → has (l.sequence + 1) acks ≡ true)
  unfolding send_phase write_message
  send_phase-lem w hs h =
      let e : (l.sequence + 1) % 2 ^ 64 ≡ l.sequence + 1 = omega arith in
      rw e (ground (arith, await_ack-has (l.sequence + 1) acks hs h))

abbrev pending : Lease → Lease
pending l = record l { unknown = true }

abbrev numbered : Lease → Lease
numbered l = record l { sequence = l.sequence + 1 }

module _ (l : Lease) (acks : List ℕ) (open_phase : l.finished ≡ false)
    (blank : l.finished ≡ false → l.confirmed ≡ []) where
  settle-started :
      (m : Lease × Option Fault)
      → SameLease (numbered (pending l)) m.0
      → (m.1 ≡ none → has (l.sequence + 1) acks ≡ true)
      → Called acks (l.sequence + 1) started (settle after_started m).0
  settle-started (r, some e) s h = record {
    sequence_eq = s.3;
    blank = λ _. s.4 ∙ blank open_phase;
    known = λ u. let u' : true ≡ false = sym s.2 ∙ u in cc u';
  }
  settle-started (r, none) s h = record {
    sequence_eq = s.3;
    blank = λ _. s.4 ∙ blank open_phase;
    known = λ _. (h refl, (refl, s.1 ∙ open_phase, s.4 ∙ blank open_phase));
  }

  settle-finished :
      (id : Bytes) (m : Lease × Option Fault)
      → SameLease (numbered (pending l)) m.0
      → (m.1 ≡ none → has (l.sequence + 1) acks ≡ true)
      → Called acks (l.sequence + 1) (finished id) (settle (after_finished id) m).0
  settle-finished id (r, some e) s h = record {
    sequence_eq = s.3;
    blank = λ _. s.4 ∙ blank open_phase;
    known = λ u. let u' : true ≡ false = sym s.2 ∙ u in cc u';
  }
  settle-finished id (r, none) s h = record {
    sequence_eq = s.3;
    blank = λ e. cc e;
    known = λ _. (h refl, (refl, refl, refl));
  }

  module _ (small : l.sequence + 1 < 2 ^ 64) (w : Write) (hs : List Heard)
      (told : All (Told acks) hs) where
    pub create_started-Called :
        (l.in_flight && not l.unknown) ≡ false
        → Called acks (l.sequence + 1) started (create_started l w hs).0
    unfolding create_started
    create_started-Called guard =
        let s = send_phase-lem (pending l) acks small w hs told in
        subst (λ (m : Lease × Option Fault). Called acks (l.sequence + 1) started m.0)
          (sym (if_false _ _ open_phase ∙ if_false _ _ guard))
          (settle-started (send_phase (pending l) w hs) s.0 s.1)

    pub create_finished-Called :
        (id : Bytes)
        → is_valid (finished id) ≡ true
        → (not l.in_flight && not l.unknown) ≡ false
        → Called acks (l.sequence + 1) (finished id) (create_finished l id w hs).0
    unfolding create_finished
    create_finished-Called id valid guard =
        let s = send_phase-lem (pending l) acks small w hs told in
        let id_ok : (not (is_empty id) && not (full_container_id id)) ≡ false = ground arith in
        subst (λ (m : Lease × Option Fault). Called acks (l.sequence + 1) (finished id) m.0)
          (sym (if_false _ _ id_ok ∙ if_false _ _ open_phase ∙ if_false _ _ guard))
          (settle-finished id (send_phase (pending l) w hs) s.0 s.1)
