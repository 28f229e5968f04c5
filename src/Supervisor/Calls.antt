-- ===== src/Supervisor/Calls.antt =====
-- What the supervisor asks of its interfaces (`Client`, `StateStore`, `Workspaces`, `Sandbox`,
-- `Process`, `Watchdog`, `WatchdogLease`, `Executor`), and the history of those calls.
use shipmunk_runner.Prelude.{
  ℕ, ℤ, Bool, true, false, Bytes, Option, none, some, List, [], ◌∷◌, Result, ◌||◌,
}
use shipmunk_runner.Json.{Fields}
use shipmunk_runner.Claim.{Claim}
use shipmunk_runner.Journal.{State}

-- The sentinels and the texts of the package's errors; `other` is any other error's text.
pub data Reason : Type 0 where
  stopped lease_expired cleanup_unconfirmed create_uncertain context_done : Reason
  reservation_required invalid_container_id container_unconfirmed persist_container : Reason
  skip_unconfirmed clear_reservation restart_required incomplete_dependencies : Reason
  claimed_identity persist_claim acknowledgement_failed creation_unconfirmed : Reason
  recovery_workspace legacy_sandbox recovery_container prepared_workspace no_process : Reason
  no_result invalid_result : Reason
  other : ℕ → Reason

-- A Go error tree. `wrap` is a text with one `%w`, `join` has two children.
pub data Err : Type 0 where
  message : Reason → Err
  control_plane : ℕ → Err
  network : Err
  refused_stopped : ℤ → ℕ → Err
  wrap : Reason → Err → Err
  join : Err → Err → Err

abbrev or_else : Option ℕ → Option ℕ → Option ℕ
or_else none b = b
or_else (some a) b = some a

-- `errors.As(err, &controlPlaneErr)`: the status of the first such error in preorder.
unfoldable pub status_of : Err → Option ℕ
status_of (control_plane s) = some s
status_of (wrap _ e) = status_of e
status_of (join a b) = or_else (status_of a) (status_of b)
status_of (message _) = none
status_of (refused_stopped _ _) = none
status_of network = none

-- `errors.Is` for a sentinel: some error of the tree is it.
unfoldable pub holds : (Reason → Bool) → Err → Bool
holds is (message r) = is r
holds is (wrap _ e) = holds is e
holds is (join a b) = holds is a || holds is b
holds is (control_plane _) = false
holds is (refused_stopped _ _) = false
holds is network = false

abbrev is_create_uncertain : Reason → Bool
is_create_uncertain create_uncertain = true
is_create_uncertain _ = false

abbrev is_cleanup_unconfirmed : Reason → Bool
is_cleanup_unconfirmed cleanup_unconfirmed = true
is_cleanup_unconfirmed _ = false

-- `errors.Is(err, sandbox.ErrCreateUncertain)`, and the same for `ErrCleanupUnconfirmed`.
unfoldable pub uncertain : Err → Bool
unfolding holds
uncertain = holds is_create_uncertain

unfoldable pub is_unconfirmed : Err → Bool
unfolding holds
is_unconfirmed = holds is_cleanup_unconfirmed

-- `errors.As` for a `*RefusedStoppedError`, and for a `net.Error`.
unfoldable pub has_refused : Err → Bool
has_refused (refused_stopped _ _) = true
has_refused (wrap _ e) = has_refused e
has_refused (join a b) = has_refused a || has_refused b
has_refused (message _) = false
has_refused (control_plane _) = false
has_refused network = false

unfoldable pub has_network : Err → Bool
has_network network = true
has_network (wrap _ e) = has_network e
has_network (join a b) = has_network a || has_network b
has_network (message _) = false
has_network (control_plane _) = false
has_network (refused_stopped _ _) = false

-- A write of the journal: done, or an error that came before or after the file was replaced.
pub data Commit : Type 0 where
  committed : Commit
  failed : Err → Bool → Commit

pub record Artifact : Type 0 where
  pub kind : Bytes
  pub bytes : Bytes
  pub sha256 : Bytes

-- `result` is `none` for Go's nil map.
pub record Execution : Type 0 where
  pub events : List Bytes
  pub artifacts : List Artifact
  pub result : Option Fields
  pub failure_reason : Bytes

-- One call with its answer. An error that is nil is `none`.
pub data Call : Type 0 where
  load_journal : Option Err → Call
  save_journal : State → Commit → Call
  clear_journal : Commit → Call
  ensure_writable : Option Err → Call
  claim_next : Result Err (Option Claim) → Call
  heartbeat : Result Err (ℕ × Bool) → Call
  acknowledge_stopped : Claim → Option Err → Call
  send_events : List Bytes → Option Err → Call
  upload_artifact : Artifact → Result Err Bytes → Call
  complete : Fields → Option Err → Call
  prepare_workspace : Result Err Bytes → Call
  remove_workspace : Bytes → Option Err → Call
  create_sandbox : Fields → Bytes → Result Err (Option Bytes) → Call
  reconcile_sandbox : Bytes → Option Err → Call
  start_process : Option Err → Call
  wait_process : Result Err (ℤ × Bytes) → Call
  arm_watchdog : Bytes → ℕ → ℕ → Option Err → Call
  renew_watchdog : ℕ → Option Err → Call
  create_started : Option Err → Call
  create_finished : Bytes → Option Err → Call
  disarm_watchdog : Option Err → Call
  execute : Fields → Bytes → Result Err Execution → Call
  cleanup_executor : Option Err → Call
  renew_executor : ℕ → Option Err → Call

-- The calls so far, the newest first.
abbrev pub Trace : Type 0
Trace = List Call

-- What the journal file holds after a write.
abbrev pub rewritten : Option State → Option State → Commit → Option State
rewritten old new committed = new
rewritten old new (failed e true) = new
rewritten old new (failed e false) = old

-- The journal on disk after the calls of a trace.
unfoldable pub journal : Trace → Option State
journal [] = none
journal (save_journal s c ∷ t) = rewritten (journal t) (some s) c
journal (clear_journal c ∷ t) = rewritten (journal t) none c
journal (_ ∷ t) = journal t
