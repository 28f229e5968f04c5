-- ===== src/Sandbox/Control.antt =====
-- internal/sandbox/watchdog.go: `Lease`, the supervisor's handle on a watchdog process.
pub mod Message
pub mod Exchange
mod Taken
mod Served
mod Called
pub mod Agreed
use shipmunk_runner.Prelude.{
  ℕ, ◌+◌, ◌^◌, ◌%◌, ◌==◌, Bool, true, false, not, ◌&&◌, ◌||◌, Bytes, codes, bytes_eq, Option, none,
  some, List, [], ◌∷◌, ◌++◌, ℤ, pos, format_int, if◌then◌else◌,
}
use shipmunk_runner.Protocol.Numbers.{strip_prefix}
use shipmunk_runner.Supervisor.Lease.{full_container_id}
use shipmunk_runner.Sandbox.Watch.{is_empty, started_text, finished_text}

-- The fields that the operations change.
pub record Lease : Type 0 where
  pub closed : Bool
  pub in_flight : Bool
  pub finished : Bool
  pub unknown : Bool
  pub sequence : ℕ
  pub confirmed : Bytes

abbrev pub new_lease : Lease
new_lease = record {
  closed = false;
  in_flight = false;
  finished = false;
  unknown = false;
  sequence = 0;
  confirmed = [];
}

-- The errors of the operations.
pub data Fault : Type 0 where
  lease_closed write_failed write_timed_out phase_failed exited phase_timed_out : Fault
  already_finished not_in_flight invalid_id other_outcome invalid_expiry : Fault
  still_uncertain sandbox_exists absence_unconfirmed cleanup_failed close_failed wait_failed : Fault

-- How a write to the control channel comes out: the timer may be first.
pub data Write : Type 0 where
  written failed late : Write

-- `writeMessageLocked`.
unfoldable pub write_message : Lease → Write → Lease × Option Fault
write_message l w = if l.closed then (l, some lease_closed) else (elim w [
  | written ↦ (l, none)
  | failed ↦ (l, some write_failed)
  | late ↦ (record l { closed = true }, some write_timed_out)
])

-- What `sendPhaseLocked` waits for: a response of the process, its exit, or the timer.
pub data Heard : Type 0 where
  response : Bytes → Heard
  exit timer : Heard

abbrev pub ack_text : ℕ → Bytes
ack_text n = codes "ACK:" ++ format_int (pos n)

abbrev has_error : Option Bytes → Bool
has_error none = false
has_error (some _) = true

abbrev pub is_failure : Bytes → Bool
is_failure r = bytes_eq r (codes "EOF") || has_error (strip_prefix (codes "ERROR:") r)

-- The timer ends a wait in any case.
unfoldable pub await_ack : ℕ → List Heard → Option Fault
unfolding bytes_eq strip_prefix format_int
await_ack n [] = some phase_timed_out
await_ack n (timer ∷ hs) = some phase_timed_out
await_ack n (exit ∷ hs) = some exited
await_ack n (response r ∷ hs) =
    let rest = await_ack n hs in
    if bytes_eq r (ack_text n) then none else if is_failure r then some phase_failed else rest

-- `phase:%d:%s:%s`, and the newline that ends it.
unfoldable pub phase_message : ℕ → Bytes → Bytes → Bytes
unfolding format_int
phase_message n kind id =
    codes "phase:" ++ (format_int (pos n) ++ (b':' ∷ (kind ++ (b':' ∷ (id ++ (b'\n' ∷ []))))))

abbrev pub awaited : Lease → List Heard → Option Fault → Lease × Option Fault
awaited l hs (some e) = (l, some e)
awaited l hs none = (l, await_ack l.sequence hs)

-- `sendPhaseLocked` for the message that `phase_message` gives with the sequence of its result.
unfoldable pub send_phase : Lease → Write → List Heard → Lease × Option Fault
unfolding write_message await_ack
send_phase l w hs =
    let m = write_message (record l { sequence = (l.sequence + 1) % 2 ^ 64 }) w in
    awaited m.0 hs m.1

abbrev pub settle : (Lease → Lease) → Lease × Option Fault → Lease × Option Fault
settle f (l, some e) = (l, some e)
settle f (l, none) = (f l, none)

abbrev pub after_started : Lease → Lease
after_started l = record l { in_flight = true; unknown = false }

abbrev pub after_finished : Bytes → Lease → Lease
after_finished id l = record l {
  in_flight = false;
  unknown = false;
  finished = true;
  confirmed = id;
}

-- `CreateStarted`.
unfoldable pub create_started : Lease → Write → List Heard → Lease × Option Fault
create_started l w hs =
    if l.finished
    then (l, some already_finished)
    else if l.in_flight && not l.unknown
    then (l, none)
    else settle after_started (send_phase (record l { unknown = true }) w hs)

-- `CreateFinished`.
unfoldable pub create_finished : Lease → Bytes → Write → List Heard → Lease × Option Fault
unfolding bytes_eq full_container_id
create_finished l id w hs =
    if not (is_empty id) && not (full_container_id id)
    then (l, some invalid_id)
    else if l.finished
    then (if bytes_eq l.confirmed id then (l, none) else (l, some other_outcome))
    else if not l.in_flight && not l.unknown
    then (l, some not_in_flight)
    else settle (after_finished id) (send_phase (record l { unknown = true }) w hs)

-- `Renew`; the zero time is refused.
unfoldable pub renew_handle : Lease → Bool → Write → Lease × Option Fault
unfolding write_message
renew_handle l is_zero w = if is_zero then (l, some invalid_expiry) else write_message l w

-- What Docker says before a disarming: of the container, or of all that a Codex run may own.
pub data Found : Type 0 where
  absent exists unclear : Found

pub record Disarming : Type 0 where
  pub codex : Bool
  pub cleaned : Bool
  pub found : Bytes → Found
  pub write : Write
  pub close_ok : Bool
  pub wait_ok : Bool

abbrev pub absence : Disarming → Bytes → Option Fault
absence d id =
    if d.codex then (if d.cleaned then none else some cleanup_failed) else elim (d.found id) [
      | absent ↦ none
      | exists ↦ some sandbox_exists
      | unclear ↦ some absence_unconfirmed
    ]

abbrev disarm_error : Bool → Disarming → Option Fault
disarm_error wrote d =
    if not wrote && not d.wait_ok
    then some wait_failed
    else if not d.close_ok
    then some close_failed
    else if not d.wait_ok
    then some wait_failed
    else none

abbrev is_none : Option Fault → Bool
is_none none = true
is_none (some _) = false

abbrev pub disarmed_lease : Lease → Disarming → Option Fault → Lease × Option Fault
disarmed_lease l d (some e) = (l, some e)
disarmed_lease l d none =
    if l.closed
    then (l, some lease_closed)
    else (record l { closed = true }, disarm_error (is_none (write_message l d.write).1) d)

-- `Disarm` of the sandbox of a name, as one step: between its two locks only `Renew` may run, which
-- can close the handle and changes nothing else.
unfoldable pub disarm : Bytes → Lease → Disarming → Lease × Option Fault
unfolding write_message
disarm name l d =
    if l.in_flight || l.unknown
    then (l, some still_uncertain)
    else disarmed_lease l d (absence d (if is_empty l.confirmed then name else l.confirmed))
