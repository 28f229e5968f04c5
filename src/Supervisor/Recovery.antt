-- ===== src/Supervisor/Recovery.antt =====
-- `reconcile` and `cleanup` of internal/supervisor/supervisor.go: how a journaled attempt ends.
use shipmunk_runner.Prelude.{
  ℕ, pos, Bool, not, Bytes, Option, none, some, ◌==◌, ltb, codes, bytes_eq, format_int, int_ltb,
  int_incr, if◌then◌else◌,
}
use shipmunk_runner.Json.{Fields, end, field, str, number, arr, nil, null}
use shipmunk_runner.Claim.{Claim}
use shipmunk_runner.Journal.{State}
use shipmunk_runner.Supervisor.Calls.{
  Err, message, join, refused_stopped, cleanup_unconfirmed, create_uncertain, recovery_workspace,
  legacy_sandbox, recovery_container, status_of, journal, load_journal, clear_journal,
  acknowledge_stopped, complete, remove_workspace, reconcile_sandbox, disarm_watchdog,
  cleanup_executor,
}
use shipmunk_runner.Supervisor.Action.{
  Env, Action, Done, ◌>>=◌, ◌>>◌, pure, raise, lift, gets, ask, ask_err, ask_commit, recover,
}
use shipmunk_runner.Supervisor.Lease.{save, legacy_container_id}

abbrev pub settle_threshold : ℕ
settle_threshold = 3

-- `refusedStoppedAcknowledgement`: the first control-plane error is a 409.
unfoldable pub refused_acknowledgement : Err → Bool
refused_acknowledgement e = elim (status_of e) [ none ↦ Bool.false | some s ↦ s == 409 ]

-- `fmt.Errorf("%w: %w", ErrCleanupUnconfirmed, err)`.
abbrev pub unconfirmed : Err → Err
unconfirmed e = join (message cleanup_unconfirmed) e

unfoldable pub interrupted_result : Claim → Fields
interrupted_result c = field (codes "protocol_version") (str (codes "1.0")) (
    field (codes "run_id") (str c.run_id) (
      field (codes "attempt_id") (str c.attempt_id) (
        field (codes "fence") (number (format_int c.fence)) (
          field (codes "outcome") (str (codes "incomplete")) (
            field (codes "findings") (arr nil) (
              field (codes "tests") (arr nil) (
                field (codes "patch_artifact") null (
                  field (codes "usage") null (
                    field (codes "summary")
                      (str (
                        codes
                          "The runner stopped before this attempt reported a result. Stage: recovery. The sandbox was removed and the attempt was released."))
                      end)))))))))

-- The claim that a journal stands for.
unfoldable pub recovered_claim : State → Claim
recovered_claim s = record {
  run_id = s.run_id;
  attempt_id = s.attempt_id;
  fence = s.fence;
  lease_expires_at = s.lease_expires_at;
  deadline = s.deadline;
  manifest = elim s.profile_id [ none ↦ end | some p ↦ field (codes "profile_id") (str p) end ];
}

module _ (env : Env) where
  unfoldable pub confirmed : Action Done → Action Done
  unfolding recover raise
  confirmed m = recover m (λ e. raise (unconfirmed e))

  unfoldable pub acknowledge : Claim → Action Done
  acknowledge c = ask_err (env.acknowledge c) (acknowledge_stopped c)

  unfoldable pub clear : Action Done
  clear = ask_commit env.clear clear_journal

  unfoldable pub remove : Bytes → Action Done
  remove path = ask_err (env.remove path) (remove_workspace path)

  unfoldable pub clean_executor : Action Done
  clean_executor = ask_err env.clean_executor cleanup_executor

  unfoldable pub reconcile_container : Bytes → Action Done
  reconcile_container id = ask_err (env.reconcile id) (reconcile_sandbox id)

  unfoldable pub release_sandbox : Option Bytes → Action Done
  release_sandbox none = pure tt
  release_sandbox (some id) = confirmed (reconcile_container id)

  unfoldable pub release_watchdog : Bool → Action Done
  release_watchdog armed = if armed then confirmed (ask_err env.disarm disarm_watchdog) else pure tt

  -- `cleanup`: the resources, the watchdog, the workspace, the acknowledgement, and then the journal.
  unfoldable pub cleanup : Claim → State → Bool → Action Done
  cleanup claim state armed = do
    if env.has_executor then confirmed clean_executor else release_sandbox state.sandbox_id
    release_watchdog armed
    confirmed (remove state.workspace)
    confirmed (acknowledge claim)
    confirmed clear

  -- `reportInterrupted`: the result is best effort, the acknowledgement is not.
  unfoldable pub report_interrupted : Claim → Action Done
  report_interrupted claim = do
    now ← gets (λ w. env.now w.trace)
    if ltb now claim.lease_expires_at
        then (ask (env.deliver (interrupted_result claim)) (complete (interrupted_result claim))
            >> pure tt)
        else pure tt
    acknowledge claim

  -- A reserved name cannot tell a delayed create from a confirmed absence.
  unfoldable pub recover_container : Bytes → Bytes → Action Done
  recover_container id name =
      if bytes_eq id name
      then raise (unconfirmed (message create_uncertain))
      else if not (legacy_container_id id)
      then raise (message recovery_container)
      else confirmed (reconcile_container id)

  unfoldable pub recover_sandbox : Claim → Option Bytes → Action Done
  recover_sandbox claim none = pure tt
  recover_sandbox claim (some id) = do
    name ← lift (env.name claim.run_id claim.attempt_id claim.fence)
    recover_container id name

  unfoldable pub recover_executor : Option Bytes → Action Done
  recover_executor none = confirmed clean_executor
  recover_executor (some id) = raise (unconfirmed (message legacy_sandbox))

  -- Below the threshold the count is written, and the attempt stays journaled.
  unfoldable pub hold_refused : State → Err → Action Done
  hold_refused s e = do
    recover (save env s) (λ f. raise (unconfirmed (join e f)))
    raise (unconfirmed (join (refused_stopped s.refused_stopped_count settle_threshold) e))

  -- A refusal that the journal counts; the third one lets the recovery go on.
  unfoldable pub count_refusal : State → Err → Action Done
  count_refusal s e =
      let count = int_incr s.refused_stopped_count in
      if not (refused_acknowledgement e)
      then raise (unconfirmed e)
      else if int_ltb count (pos settle_threshold)
      then hold_refused (record s { refused_stopped_count = count }) e
      else pure tt

  unfoldable pub recover_attempt : State → Action Done
  recover_attempt s =
      let claim = recovered_claim s in
      if not (bytes_eq s.workspace (env.path claim)) then raise (message recovery_workspace) else do
        if env.has_executor
            then recover_executor s.sandbox_id
            else recover_sandbox claim s.sandbox_id
        confirmed (remove s.workspace)
        recover (report_interrupted claim) (count_refusal s)
        clear

  unfoldable pub recover_journal : Option State → Action Done
  recover_journal none = pure tt
  recover_journal (some s) = recover_attempt s

  unfoldable pub reconcile : Action Done
  reconcile = do
    ask_err env.load load_journal
    found ← gets (λ w. journal w.trace)
    recover_journal found
