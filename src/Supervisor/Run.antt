-- ===== src/Supervisor/Run.antt =====
-- `RunOnce`, `runClaim` and `publishExecution` of internal/supervisor/supervisor.go.
use shipmunk_runner.Prelude.{
  ℕ, zero, suc, ◌+◌, ◌-◌, min, ltb, length, take, drop, Bool, true, false, not, ◌&&◌, ◌||◌, Bytes,
  Option, none, some, List, [], ◌∷◌, Result, ok, err, codes, bytes_eq, int_eq, if◌then◌else◌, pos,
}
use shipmunk_runner.Json.{Value, Fields, end, field, str, null, obj, get_string, put}
use shipmunk_runner.Claim.{Claim}
use shipmunk_runner.Journal.{State}
use shipmunk_runner.Supervisor.Calls.{
  Err, message, join, wrap, restart_required, incomplete_dependencies, claimed_identity,
  persist_claim, acknowledgement_failed, creation_unconfirmed, prepared_workspace, no_process,
  no_result, invalid_result, uncertain, Artifact, Execution, claim_next, ensure_writable,
  send_events, upload_artifact, complete, prepare_workspace, create_sandbox, start_process,
  wait_process, execute,
}
use shipmunk_runner.Supervisor.Action.{
  Env, Action, Done, ◌>>=◌, ◌>>◌, pure, raise, lift, gets, try, ask_result, ask_err, check,
  set_guard, block, recover,
}
use shipmunk_runner.Supervisor.Lease.{
  live, save, yield, new_lease_guard, reserve, begin_create, created, finish_without_create, stop,
}
use shipmunk_runner.Supervisor.Recovery.{unconfirmed, acknowledge, cleanup, reconcile}

pub record ClaimResult : Type 0 where
  pub outcome : Bytes
  pub failure_reason : Bytes

pub record Outcome : Type 0 where
  pub worked : Bool
  pub run_id : Bytes
  pub attempt_id : Bytes
  pub result : Bytes
  pub failure_reason : Bytes

abbrev pub idle : Outcome
idle = record { worked = false; run_id = []; attempt_id = []; result = []; failure_reason = [] }

abbrev pub batch_size : ℕ
batch_size = 100

abbrev pub patch_reference : Bytes → Bytes → Value
patch_reference id sha =
    obj (field (codes "artifact_id") (str id) (field (codes "sha256") (str sha) end))

-- `patch = …` after the upload of one artifact.
abbrev pub patch_after : Value → Artifact → Bytes → Value
patch_after patch a id =
    if bytes_eq a.kind (codes "patch") then patch_reference id a.sha256 else patch

abbrev pub or_empty : Option Bytes → Bytes
or_empty none = []
or_empty (some s) = s

module _ (env : Env) where
  unfoldable pub encoded : List Bytes → Result Err Done
  encoded events = elim (env.encode_events events) [ none ↦ ok tt | some e ↦ err e ]

  unfoldable pub send_batch : List Bytes → Action Done
  unfolding encoded
  send_batch events = do
    lift (encoded events)
    yield env
    ask_err (env.send events) (send_events events)

  -- `for start := 0; start < len(events); start += 100`, with as much fuel as there are events.
  unfoldable pub send_from : ℕ → ℕ → List Bytes → Action Done
  unfolding send_batch
  send_from zero start events = pure tt
  send_from (suc f) start events =
      if ltb start (length events)
      then (send_batch (take (min (start + batch_size) (length events) - start) (drop start events))
          >>= λ _. send_from f (start + batch_size) events)
      else pure tt

  unfoldable pub upload_all : Value → List Artifact → Action Value
  upload_all patch [] = pure patch
  upload_all patch (a ∷ rest) =
      (yield env >> ask_result (env.upload a) (upload_artifact a)) >>= λ id.
      upload_all (patch_after patch a id) rest

  -- `complete` of lease.go: after an accepted completion no heartbeat is sent.
  unfoldable pub deliver : Fields → Action Done
  deliver result = do
    live env
    ask_err (env.deliver result) (complete result)
    set_guard (λ g. record g { finished = true })

  unfoldable pub validate : Fields → Result Err Done
  validate result = elim (env.validate_result result) [
    | none ↦ ok tt
    | some e ↦ err (wrap invalid_result e)
  ]

  -- The outcome is a string in every result that the schema accepts, so the Go assertion holds.
  unfoldable pub publish_result : Execution → Fields → Action ClaimResult
  unfolding validate
  publish_result e fields = do
    send_from (length e.events) 0 e.events
    patch ← upload_all null e.artifacts
    let result = put (codes "patch_artifact") patch fields
    lift (validate result)
    yield env
    deliver result
    pure (record {
      outcome = or_empty (get_string (codes "outcome") result);
      failure_reason = e.failure_reason;
    })

  unfoldable pub publish : Execution → Option Fields → Action ClaimResult
  unfolding publish_result
  publish e none = raise (message no_result)
  publish e (some fields) = publish_result e fields

  unfoldable pub run_process : Claim → Bytes → Action ClaimResult
  run_process claim id = do
    yield env
    created env id
    live env
    yield env
    ask_err env.start start_process
    yield env
    (code, output) ← ask_result env.wait wait_process
    yield env
    live env
    e ← lift (env.decode_execution claim code output)
    publish e e.result

  -- What a failed creation leaves: an uncertain one keeps the reservation.
  unfoldable pub abandon_create : Err → Action (Option Bytes)
  abandon_create e = if uncertain e then raise e else (yield env >> finish_without_create env e)

  unfoldable pub run_created : Claim → Option Bytes → Action ClaimResult
  run_created claim none = raise (message no_process)
  run_created claim (some id) = run_process claim id

  unfoldable pub run_named : Claim → Bytes → Bytes → Action ClaimResult
  unfolding abandon_create run_created
  run_named claim path name = do
    yield env
    recover (reserve env name) (λ e. yield env >> finish_without_create env e)
    yield env
    recover (begin_create env) (λ e. yield env >> finish_without_create env e)
    yield env
    process ←
        recover
          (ask_result (env.create (env.sanitize claim.manifest) path)
            (create_sandbox (env.sanitize claim.manifest) path))
          abandon_create
    run_created claim process

  unfoldable pub run_sandbox : Claim → Bytes → Action ClaimResult
  unfolding run_named
  run_sandbox claim path = do
    name ← lift (env.name claim.run_id claim.attempt_id claim.fence)
    run_named claim path name

  unfoldable pub run_executor : Claim → Bytes → Action ClaimResult
  run_executor claim path = do
    yield env
    e ←
        ask_result (env.run_executor (env.sanitize claim.manifest) path)
          (execute (env.sanitize claim.manifest) path)
    yield env
    live env
    publish e e.result

  unfoldable pub run_claim : Claim → Action ClaimResult
  run_claim claim = do
    yield env
    path ← ask_result env.prepare prepare_workspace
    if not (bytes_eq path (env.path claim))
        then raise (message prepared_workspace)
        else if env.has_executor
        then run_executor claim path
        else run_sandbox claim path

  unfoldable pub initial_state : Claim → State
  initial_state claim = record {
    run_id = claim.run_id;
    attempt_id = claim.attempt_id;
    fence = claim.fence;
    profile_id = get_string (codes "profile_id") claim.manifest;
    sandbox_id = none;
    lease_expires_at = claim.lease_expires_at;
    deadline = claim.deadline;
    workspace = env.path claim;
    refused_stopped_count = pos 0;
  }

  unfoldable pub same_identity : Claim → Claim → Bool
  same_identity a b =
      bytes_eq a.run_id b.run_id && bytes_eq a.attempt_id b.attempt_id && int_eq a.fence b.fence

  -- The validated copy of a claim keeps the lease that the client gave it.
  unfoldable pub validated : Claim → Result Err Claim → Option Claim
  unfolding same_identity
  validated claim (err _) = none
  validated claim (ok v) =
      if same_identity v claim
      then some (record v { lease_expires_at = claim.lease_expires_at })
      else none

  -- A claim that cannot be written is given back, and the supervisor asks for a restart.
  unfoldable pub abandon_claim : Claim → Err → Action Done
  abandon_claim claim e = do
    block
    recover (acknowledge env claim)
        (λ a. raise (join (wrap persist_claim e) (wrap acknowledgement_failed a)))
    raise (wrap persist_claim e)

  unfoldable pub report : Claim → Result Err ClaimResult → Action Outcome
  report claim (err e) = raise e
  report claim (ok r) = pure (record {
    worked = true;
    run_id = claim.run_id;
    attempt_id = claim.attempt_id;
    result = r.outcome;
    failure_reason = r.failure_reason;
  })

  abbrev pub pending_error : Result Err ClaimResult → Err
  pending_error (ok _) = message creation_unconfirmed
  pending_error (err e) = e

  -- After `runClaim`: a creation that is not settled keeps the journal, all else is cleaned up.
  unfoldable pub finish_claim : Claim → Result Err ClaimResult → Action Outcome
  unfolding report
  finish_claim claim r = do
    yield env
    stop env
    g ← gets (λ w. w.guard)
    if g.creation_pending || g.reservation_pending
        then raise (unconfirmed (pending_error r))
        else (cleanup env claim g.state g.watchdog >> report claim r)

  -- The lease guard did not start: the claim is cleaned up with the state that was first written.
  unfoldable pub abandon_lease : Claim → State → Err → Action Done
  abandon_lease claim state e = do cleanup env claim state false; raise e

  unfoldable pub run_claimed : Claim → Action Outcome
  unfolding initial_state abandon_claim abandon_lease finish_claim
  run_claimed claim = do
    let state = initial_state claim
    recover (save env state) (abandon_claim claim)
    recover (new_lease_guard env claim state) (abandon_lease claim state)
    r ← try (run_claim claim)
    finish_claim claim r

  unfoldable pub run_validated : Option Claim → Action Outcome
  run_validated none = do block; raise (message claimed_identity)
  run_validated (some claim) = run_claimed claim

  unfoldable pub run_next : Option Claim → Action Outcome
  unfolding validated run_validated
  run_next none = pure idle
  run_next (some claim) = do
    now ← gets (λ w. env.now w.trace)
    run_validated (validated claim (env.claim_from_manifest claim.manifest now))

  unfoldable pub complete_dependencies : Bool
  complete_dependencies =
      env.has_client
      && env.has_state
      && env.has_workspaces
      && (env.has_executor || (env.has_sandbox && env.has_watchdog))

  unfoldable pub run_once : Action Outcome
  unfolding complete_dependencies
  run_once = do
    blocked ← gets (λ w. w.blocked)
    if blocked
        then raise (message restart_required)
        else if not complete_dependencies
        then raise (message incomplete_dependencies)
        else do
          check (λ w. env.parent_err w.trace)
          reconcile env
          ask_err env.writable ensure_writable
          claim ← ask_result env.next_claim claim_next
          run_next claim
