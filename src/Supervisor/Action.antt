-- ===== src/Supervisor/Action.antt =====
-- The supervisor's fields, the answers that its surroundings give, and actions that change both.
use shipmunk_runner.Prelude.{
  ℕ, ℤ, Bool, true, Bytes, Option, none, some, List, ◌∷◌, Result, ok, err,
}
use shipmunk_runner.Json.{Fields}
use shipmunk_runner.Claim.{Claim}
use shipmunk_runner.Journal.{State}
use shipmunk_runner.Supervisor.Calls.{Reason, Err, wrap, Call, Commit, Artifact, Execution, Trace}

-- `leaseGuard`. `cancelled`: `g.cancel` was called; `looping`: the goroutine of `loop` lives.
pub record Guard : Type 0 where
  pub state : State
  pub watchdog : Bool
  pub finished : Bool
  pub creation_pending : Bool
  pub reservation_pending : Bool
  pub cancelled : Bool
  pub looping : Bool

-- `blocked` of `Supervisor`, the attempt's guard, and the calls so far.
pub record World : Type 0 where
  pub blocked : Bool
  pub guard : Guard
  pub trace : Trace

-- Every answer may depend on all earlier calls. `has_…` are the nil tests on the fields; `ticks` is
-- how many ticks of the heartbeat loop come before the main goroutine's next call. `name` is
-- `Sandbox.Name`, which reads the claim's run, attempt and fence.
pub record Env : Type 0 where
  pub has_client : Bool
  pub has_state : Bool
  pub has_workspaces : Bool
  pub has_sandbox : Bool
  pub has_watchdog : Bool
  pub has_executor : Bool
  pub has_executor_lease : Bool
  pub path : Claim → Bytes
  pub name : Bytes → Bytes → ℤ → Result Err Bytes
  pub sanitize : Fields → Fields
  pub claim_from_manifest : Fields → ℕ → Result Err Claim
  pub decode_execution : Claim → ℤ → Bytes → Result Err Execution
  pub validate_result : Fields → Option Err
  pub encode_events : List Bytes → Option Err
  pub now : Trace → ℕ
  pub ticks : Trace → ℕ
  pub parent_err : Trace → Option Err
  pub attempt_err : Trace → Option Err
  pub timer_fired : Trace → Bool
  pub load : Trace → Option Err
  pub save : State → Trace → Commit
  pub clear : Trace → Commit
  pub writable : Trace → Option Err
  pub next_claim : Trace → Result Err (Option Claim)
  pub beat : Trace → Result Err (ℕ × Bool)
  pub acknowledge : Claim → Trace → Option Err
  pub send : List Bytes → Trace → Option Err
  pub upload : Artifact → Trace → Result Err Bytes
  pub deliver : Fields → Trace → Option Err
  pub prepare : Trace → Result Err Bytes
  pub remove : Bytes → Trace → Option Err
  pub create : Fields → Bytes → Trace → Result Err (Option Bytes)
  pub reconcile : Bytes → Trace → Option Err
  pub start : Trace → Option Err
  pub wait : Trace → Result Err (ℤ × Bytes)
  pub arm : Bytes → ℕ → ℕ → Trace → Option Err
  pub renew_watchdog : ℕ → Trace → Option Err
  pub begin_create : Trace → Option Err
  pub end_create : Bytes → Trace → Option Err
  pub disarm : Trace → Option Err
  pub run_executor : Fields → Bytes → Trace → Result Err Execution
  pub clean_executor : Trace → Option Err
  pub renew_executor : ℕ → Trace → Option Err

-- An action may fail; what it called and changed before stays.
abbrev pub Action : Type 0 → Type 0
Action A = World → Result Err A × World

module _ {A B : Type 0} where
  abbrev pub continue : Result Err A → (A → Action B) → Action B
  continue (ok a) f w = f a w
  continue (err e) f w = (err e, w)

  infixl 10 ◌>>=◌ ◌>>◌
  unfoldable pub ◌>>=◌ : Action A → (A → Action B) → Action B
  ◌>>=◌ m f w = let (r, w') = m w in continue r f w'

  abbrev pub ◌>>◌ : Action A → Action B → Action B
  m >> k = m >>= λ _. k

module _ {A : Type 0} where
  unfoldable pub pure : A → Action A
  pure a w = (ok a, w)

  unfoldable pub raise : Err → Action A
  raise e w = (err e, w)

  unfoldable pub lift : Result Err A → Action A
  lift r w = (r, w)

  unfoldable pub gets : (World → A) → Action A
  gets f w = (ok (f w), w)

  -- `r, err := m()` where the code goes on with the error in hand.
  unfoldable pub try : Action A → Action (Result Err A)
  try m w = let (r, w') = m w in (ok r, w')

  -- One call: its answer, which is entered in the trace.
  unfoldable pub ask : (Trace → A) → (A → Call) → Action A
  ask answer entry w = let a = answer w.trace in (ok a, record w { trace = entry a ∷ w.trace })

  unfoldable pub ask_result : (Trace → Result Err A) → (Result Err A → Call) → Action A
  ask_result answer entry w = let r = answer w.trace in (r, record w { trace = entry r ∷ w.trace })

abbrev pub Done : Type 0
Done = Unit {0}

abbrev pub failing : Option Err → Result Err Done
failing none = ok tt
failing (some e) = err e

abbrev pub commit_err : Commit → Option Err
commit_err Commit.committed = none
commit_err (Commit.failed e _) = some e

-- A call that returns only an error.
unfoldable pub ask_err : (Trace → Option Err) → (Option Err → Call) → Action Done
ask_err answer entry w =
    let e = answer w.trace in (failing e, record w { trace = entry e ∷ w.trace })

unfoldable pub ask_commit : (Trace → Commit) → (Commit → Call) → Action Done
ask_commit answer entry w =
    let c = answer w.trace in (failing (commit_err c), record w { trace = entry c ∷ w.trace })

unfoldable pub check : (World → Option Err) → Action Done
check f w = (failing (f w), w)

unfoldable pub set_guard : (Guard → Guard) → Action Done
set_guard f w = (ok tt, record w { guard = f w.guard })

unfoldable pub block : Action Done
block w = (ok tt, record w { blocked = true })

module _ {A : Type 0} where
  abbrev pub handle : Result Err A → (Err → Action A) → Action A
  handle (ok a) h w = (ok a, w)
  handle (err e) h w = h e w

  -- `if err := m(); err != nil { … }`.
  unfoldable pub recover : Action A → (Err → Action A) → Action A
  recover m h w = let (r, w') = m w in handle r h w'

  -- `return fmt.Errorf("…: %w", err)`.
  unfoldable pub wrapping : Reason → Action A → Action A
  unfolding recover raise
  wrapping r m = recover m (λ e. raise (wrap r e))
