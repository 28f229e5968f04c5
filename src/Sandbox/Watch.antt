-- ===== src/Sandbox/Watch.antt =====
-- internal/sandbox/watchdog.go: the loop of `RunWatchdogCommand` in the watchdog process.
pub mod Kept
pub mod Guarded
use shipmunk_runner.Prelude.{
  ℕ, ◌+◌, ◌-◌, min, ◌==◌, ltb, leb, Bool, true, false, not, ◌&&◌, ◌||◌, Bytes, codes, bytes_eq,
  Option, none, some, List, [], ◌∷◌, ℤ, pos, negsuc, max_int64, parse_int, if◌then◌else◌,
}
use shipmunk_runner.Protocol.Numbers.{strip_prefix}
use shipmunk_runner.Supervisor.Lease.{full_container_id}
use shipmunk_runner.Sandbox.Input.{parse_uint, three_parts, eof_message, broken_message}

-- The variables of the loop, with the phases acknowledged so far, the newest first.
pub record Watch : Type 0 where
  pub in_flight : Bool
  pub finished : Bool
  pub last : ℕ
  pub confirmed : Bytes
  pub lease : ℕ
  pub acks : List ℕ

-- What one turn of the loop gets from outside: the clock as the loop reads it, a message or none,
-- the wall clock and the clock again where a renewal is read, whether an acknowledgement can be
-- written, and whether Docker says that a container is absent.
pub record Turn : Type 0 where
  pub now : ℕ
  pub message : Option Bytes
  pub wall : ℕ
  pub after : ℕ
  pub written : Bool
  pub absent : Bytes → Bool

-- How the loop returns: by `cleanupWatchdog` with these arguments, after a confirmed `disarm`, or
-- since an acknowledgement could not be written.
pub data Ending : Type 0 where
  cleanup : Bool → Bytes → Ending
  disarmed : Ending
  unwritten : Ending

pub data Next : Type 0 where
  watching : Watch → Next
  ended : Ending → Next

abbrev pub time_until : ℕ → ℤ → ℕ
time_until wall (pos t) = min (t - wall) max_int64
time_until wall (negsuc _) = 0

-- `expiryFromWall`, whose two readings of the clock may differ.
abbrev pub expiry_from_wall : ℕ → ℕ → ℤ → ℕ
expiry_from_wall wall after t = after + time_until wall t

-- `earlierExpiry`.
abbrev pub earlier_expiry : ℕ → ℕ → ℕ
earlier_expiry first second = if ltb first second then first else second

-- A message that breaks the protocol counts as a creation in flight.
abbrev pub broken : Watch → Next
broken w = ended (cleanup true w.confirmed)

abbrev pub stopped : Watch → Next
stopped w = ended (cleanup w.in_flight w.confirmed)

abbrev pub is_empty : Bytes → Bool
is_empty [] = true
is_empty (_ ∷ _) = false

abbrev pub acknowledged : Bool → ℕ → Watch → Next
acknowledged written n w =
    if written then watching (record w { acks = n ∷ w.acks }) else ended unwritten

abbrev pub started_text : Bytes
started_text = codes "started"

abbrev pub finished_text : Bytes
finished_text = codes "finished"

unfoldable pub on_started : Watch → ℕ → Bytes → Bool → Next
on_started w n id written =
    if not (is_empty id) || w.finished
    then broken w
    else acknowledged written n (record w { last = n; in_flight = true })

unfoldable pub on_finished : Watch → ℕ → Bytes → Bool → Next
unfolding full_container_id bytes_eq
on_finished w n id written =
    if (not w.in_flight && not w.finished)
      || (not (is_empty id) && not (full_container_id id))
      || (w.finished && not (bytes_eq id w.confirmed))
    then broken w
    else acknowledged written n
        (record w { last = n; in_flight = false; finished = true; confirmed = id })

unfoldable pub on_numbered : Watch → Bytes → Bytes → Bool → Option ℕ → Next
unfolding on_started on_finished bytes_eq
on_numbered w kind id written none = broken w
on_numbered w kind id written (some n) =
    if n == 0 || leb n w.last
    then broken w
    else if bytes_eq kind started_text
    then on_started w n id written
    else if bytes_eq kind finished_text
    then on_finished w n id written
    else broken w

unfoldable pub on_phase : Watch → Bool → Option (Bytes × Bytes × Bytes) → Next
unfolding on_numbered parse_uint
on_phase w written none = broken w
on_phase w written (some (number, kind, id)) = on_numbered w kind id written (parse_uint number)

abbrev pub inspected : Bytes → Watch → Bytes
inspected name w = if is_empty w.confirmed then name else w.confirmed

unfoldable pub on_disarm : Bytes → Watch → (Bytes → Bool) → Next
on_disarm name w absent =
    if w.in_flight
    then watching w
    else if absent (inspected name w)
    then ended disarmed
    else watching w

abbrev pub renewed : Watch → ℕ → Watch
renewed w candidate = if ltb w.lease candidate then record w { lease = candidate } else w

unfoldable pub on_expiry : ℕ → Watch → Turn → Option ℤ → Next
on_expiry deadline w t none = watching w
on_expiry deadline w t (some expiry) =
    watching (renewed w (earlier_expiry (expiry_from_wall t.wall t.after expiry) deadline))

abbrev pub on_renew : ℕ → Watch → Turn → Option Bytes → Next
on_renew deadline w t none = watching w
on_renew deadline w t (some text) = on_expiry deadline w t (parse_int text)

abbrev pub and_next : Next → (Watch → Next) → Next
and_next (ended e) f = ended e
and_next (watching w) f = f w

module _ (name : Bytes) (deadline : ℕ) where
  abbrev pub on_other : Watch → Turn → Bytes → Next
  on_other w t m =
      if bytes_eq m broken_message
      then broken w
      else if bytes_eq m (codes "disarm")
      then on_disarm name w t.absent
      else on_renew deadline w t (strip_prefix (codes "renew:") m)

  abbrev pub on_text : Watch → Turn → Bytes → Option Bytes → Next
  on_text w t m none = on_other w t m
  on_text w t m (some text) = on_phase w t.written (three_parts text)

  unfoldable pub on_message : Watch → Turn → Bytes → Next
  unfolding bytes_eq strip_prefix three_parts parse_int on_phase on_disarm on_expiry
  on_message w t m =
      if bytes_eq m eof_message then stopped w else on_text w t m (strip_prefix (codes "phase:") m)

  abbrev pub on_select : Watch → Turn → Option Bytes → Next
  on_select w t none = watching w
  on_select w t (some m) = on_message w t m

  unfoldable pub turn : Watch → Turn → Next
  unfolding on_message
  turn w t = if leb w.lease t.now then stopped w else on_select w t t.message

  -- The loop over the turns that have come; `watching` is what it waits with after them.
  unfoldable pub run_watch : Watch → List Turn → Next
  unfolding turn
  run_watch w [] = watching w
  run_watch w (t ∷ ts) = and_next (turn w t) (λ v. run_watch v ts)

abbrev pub new_watch : ℕ → Watch
new_watch lease = record {
  in_flight = false;
  finished = false;
  last = 0;
  confirmed = [];
  lease = lease;
  acks = [];
}

-- The clock's readings before the loop, and whether `READY` can be written.
pub record Arming : Type 0 where
  pub wall : ℕ
  pub after : ℕ
  pub lease_wall : ℕ
  pub lease_after : ℕ
  pub now : ℕ
  pub ready : Bool

abbrev pub deadline_of : Arming → ℤ → ℕ
deadline_of a deadline = expiry_from_wall a.wall a.after deadline

abbrev pub lease_of : Arming → ℤ → ℤ → ℕ
lease_of a deadline lease =
    earlier_expiry (expiry_from_wall a.lease_wall a.lease_after lease) (deadline_of a deadline)

-- `RunWatchdogCommand` from its options on, up to the cleanup; `none` is one of its first two errors.
unfoldable pub run_watchdog_command : Bytes → ℤ → ℤ → Arming → List Turn → Option Next
unfolding run_watch
run_watchdog_command name deadline lease a ts =
    if not (ltb a.now (lease_of a deadline lease))
    then none
    else if not a.ready
    then none
    else some (run_watch name (deadline_of a deadline) (new_watch (lease_of a deadline lease)) ts)
