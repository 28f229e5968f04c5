-- ===== src/Sandbox/Control/Exchange.antt =====
-- internal/sandbox/watchdog.go: the supervisor's handle and the watchdog's loop, joined by the control
-- channel and the responses.
use shipmunk_runner.Prelude.{
  ℕ, ◌+◌, ◌^◌, ◌≤◌, ◌<◌, ◌≡◌, ◌==◌, Bool, true, false, not, ◌&&◌, ◌||◌, Bytes, codes, bytes_eq,
  Option, none, some, List, [], ◌∷◌, ◌++◌, All, ◌⊎◌,
}
use shipmunk_runner.Protocol.Numbers.{strip_prefix}
use shipmunk_runner.Supervisor.Lease.{full_container_id}
use shipmunk_runner.Sandbox.Watch.{
  Watch, Turn, watching, turn, new_watch, is_empty, started_text, finished_text,
}
use shipmunk_runner.Sandbox.Control.{
  Lease, new_lease, Heard, response, exit, timer, Write, ack_text, create_started, create_finished,
  renew_handle, disarm, Disarming,
}
use shipmunk_runner.Sandbox.Control.Message.{phase_line}

pub data Phase : Type 0 where
  started : Phase
  finished : Bytes → Phase

abbrev pub kind_of : Phase → Bytes
kind_of started = started_text
kind_of (finished id) = finished_text

abbrev pub id_of : Phase → Bytes
id_of started = []
id_of (finished id) = id

abbrev pub is_valid : Phase → Bool
is_valid started = true
is_valid (finished id) = is_empty id || full_container_id id

-- A line in the control channel: a phase message, or one that is none.
pub data Sent : Type 0 where
  phase : ℕ → Phase → Sent
  other : Bytes → Sent

abbrev pub line_of : Sent → Bytes
line_of (phase n p) = phase_line n (kind_of p) (id_of p)
line_of (other m) = m

abbrev pub IsOther : Sent → Type 0
IsOther (phase n p) = ⊥
IsOther (other m) = strip_prefix (codes "phase:") m ≡ none

abbrev pub has : ℕ → List ℕ → Bool
has n [] = false
has n (k ∷ ks) = n == k || has n ks

-- A response acknowledges a phase that the watchdog has acknowledged, now or long ago, or none.
abbrev pub Told : List ℕ → Heard → Type 0
Told acks (response r) =
    ((k : ℕ) × (r ≡ ack_text k) × (has k acks ≡ true)) ⊎ ((n : ℕ) → bytes_eq r (ack_text n) ≡ false)
Told acks exit = Unit
Told acks timer = Unit

-- The last phase that the handle has written is kept beside.
pub record System : Type 0 where
  pub lease : Lease
  pub watch : Watch
  pub pipe : List Sent
  pub latest : Option Phase

module _ (name : Bytes) (deadline : ℕ) where
  -- Turns of a watchdog that goes on, which may take the oldest line of the channel.
  pub data Serves : Watch → List Sent → Watch → List Sent → Type 0 where
    still : {w : Watch} {p : List Sent} → Serves w p w p
    waits :
        {w u : Watch} {p q : List Sent} (v : Watch) (t : Turn)
        → turn name deadline w t ≡ watching v
        → t.message ≡ none
        → Serves v p u q
        → Serves w p u q
    reads :
        {w u : Watch} {p q : List Sent} (v : Watch) (t : Turn) (m : Sent)
        → turn name deadline w t ≡ watching v
        → t.message ≡ some (line_of m)
        → Serves v p u q
        → Serves w (m ∷ p) u q

  -- What may be reached while the watchdog goes on. The handle's mutex makes each call one step, in
  -- which the watchdog has any number of turns; a line that could not be written may be lost. A call
  -- that returns before it writes changes nothing, and is left out.
  pub data Reach : System → Type 0 where
    arms :
        (lease : ℕ)
        → lease ≤ deadline
        → Reach (record { lease = new_lease; watch = new_watch lease; pipe = []; latest = none })
    serves :
        {s : System} (v : Watch) (q : List Sent)
        → Reach s
        → Serves s.watch s.pipe v q
        → Reach (record s { watch = v; pipe = q })
    renews :
        {s : System} (zero_time : Bool) (w : Write) (lines : List Sent)
        → Reach s
        → All IsOther lines
        → Reach (record s { lease = (renew_handle s.lease zero_time w).0; pipe = s.pipe ++ lines })
    disarms :
        {s : System} (d : Disarming) (lines : List Sent)
        → Reach s
        → All IsOther lines
        → Reach (record s { lease = (disarm name s.lease d).0; pipe = s.pipe ++ lines })
    starts :
        {s : System} (w : Write) (hs : List Heard) (lines : List Sent) (v : Watch) (q : List Sent)
        → Reach s
        → s.lease.finished ≡ false
        → (s.lease.in_flight && not s.lease.unknown) ≡ false
        → s.lease.sequence + 1 < 2 ^ 64
        → All (λ m. m ≡ phase (s.lease.sequence + 1) started) lines
        → Serves s.watch (s.pipe ++ lines) v q
        → All (Told v.acks) hs
        → Reach (record {
          lease = (create_started s.lease w hs).0;
          watch = v;
          pipe = q;
          latest = some started;
        })
    finishes :
        {s : System} (id : Bytes) (w : Write) (hs : List Heard) (lines : List Sent) (v : Watch)
        (q : List Sent)
        → Reach s
        → is_valid (finished id) ≡ true
        → s.lease.finished ≡ false
        → (not s.lease.in_flight && not s.lease.unknown) ≡ false
        → s.lease.sequence + 1 < 2 ^ 64
        → All (λ m. m ≡ phase (s.lease.sequence + 1) (finished id)) lines
        → Serves s.watch (s.pipe ++ lines) v q
        → All (Told v.acks) hs
        → Reach (record {
          lease = (create_finished s.lease id w hs).0;
          watch = v;
          pipe = q;
          latest = some (finished id);
        })
