-- ===== src/Supervisor/Frames/Cleaned.antt =====
-- What `cleanup` of internal/supervisor/supervisor.go leaves in the trace when it succeeds.
use shipmunk_runner.Prelude.{
  ◌≡◌, refl, ap, subst, Bool, true, false, Bytes, Option, none, some, sym, [], ◌∷◌, if◌then◌else◌,
}
use shipmunk_runner.Claim.{Claim}
use shipmunk_runner.Supervisor.Calls.{
  committed, Trace, complete, clear_journal, acknowledge_stopped, claim_next, remove_workspace,
  disarm_watchdog, cleanup_executor, reconcile_sandbox,
}
use shipmunk_runner.Supervisor.Action.{Env, World, Guard, Action, Done}
use shipmunk_runner.Supervisor.Recovery.{
  confirmed, acknowledge, clear, remove, clean_executor, reconcile_container, release_sandbox,
  release_watchdog, cleanup,
}
use shipmunk_runner.Supervisor.Triples.{
  Triple, Triple-pure, Triple-raise, Triple-before, Triple-after, Triple-recover, Triple-bind,
  Triple-ask_err, Triple-ask_commit,
}
use shipmunk_runner.Supervisor.Frames.{Any}

-- The result of the newest claim was accepted.
unfoldable pub delivered : Trace → Bool
delivered [] = false
delivered (complete _ none ∷ t) = true
delivered (claim_next _ ∷ t) = false
delivered (_ ∷ t) = delivered t

-- The trace with the call that releases what ran the attempt: the executor, where one is set, or else
-- the container that the state names.
abbrev pub with_resources : Bool → Option Bytes → Trace → Trace
with_resources true sandbox t = cleanup_executor none ∷ t
with_resources false none t = t
with_resources false (some id) t = reconcile_sandbox id none ∷ t

abbrev pub with_watchdog : Bool → Trace → Trace
with_watchdog true t = disarm_watchdog none ∷ t
with_watchdog false t = t

-- The calls of `cleanup` for what the lease guard holds, none of which failed, on the calls before.
abbrev pub with_cleanup : Env → Claim → Guard → Trace → Trace
with_cleanup env claim g t =
    clear_journal committed
    ∷ acknowledge_stopped claim none
    ∷ remove_workspace g.state.workspace none
    ∷ with_watchdog g.watchdog (with_resources env.has_executor g.state.sandbox_id t)

-- The newest calls, none of which failed, cleaned the executor where one is set, or else reconciled the
-- container that the guard's state names, disarmed the watchdog where the guard armed it, removed the
-- workspace of the guard's state, had the stopped attempt of this identity acknowledged, and cleared
-- the journal.
pub record IsReleased (env : Env) (run attempt : Bytes) (w : World) : Type 0 where
  pub claim : Claim
  pub before : Trace
  pub trace_eq : w.trace ≡ with_cleanup env claim w.guard before
  pub run_eq : claim.run_id ≡ run
  pub attempt_eq : claim.attempt_id ≡ attempt

abbrev pub Sent : World → Type 0
Sent w = delivered w.trace ≡ true

module _ (env : Env) where
  confirmed-Any :
      {P : World → Type 0} {Q : Done → World → Type 0} {m : Action Done}
      → Triple P m Q (λ _. Any)
      → Triple P (confirmed env m) Q (λ _. Any)
  unfolding confirmed
  confirmed-Any t = Triple-recover t (λ e. Triple-raise _ (λ w h. tt))

  module _ (g : Guard) where
    -- The result is delivered, the guard is `g` and the newest calls are these.
    abbrev Ends : (Trace → Trace) → World → Type 0
    Ends calls w = Sent w × ((w.guard ≡ g) × ((t : Trace) × (w.trace ≡ calls t)))

    release-Ends :
        (b : Bool) (o : Option Bytes)
        → Triple
            (Ends (λ t. t))
            (if b then confirmed env (clean_executor env) else release_sandbox env o)
            (λ _. Ends (with_resources b o))
            (λ _. Any)
    unfolding clean_executor release_sandbox reconcile_container delivered
    release-Ends true o = confirmed-Any (
        Triple-ask_err _ cleanup_executor
          (λ w (h, (k, (t, e))). (h, (k, (t, ap (λ t. cleanup_executor none ∷ t) e))))
          (λ e w h. tt))
    release-Ends false none = Triple-pure tt (λ w h. h)
    release-Ends false (some id) = confirmed-Any (
        Triple-ask_err _ (reconcile_sandbox id)
          (λ w (h, (k, (t, e))). (h, (k, (t, ap (λ t. reconcile_sandbox id none ∷ t) e))))
          (λ e w h. tt))

    release_watchdog-Ends :
        (armed : Bool) {calls : Trace → Trace}
        → Triple
            (Ends calls)
            (release_watchdog env armed)
            (λ _. Ends (λ t. with_watchdog armed (calls t)))
            (λ _. Any)
    unfolding release_watchdog delivered
    release_watchdog-Ends true {calls} = confirmed-Any (
        Triple-ask_err _ disarm_watchdog
          (λ w (h, (k, (t, e))). (h, (k, (t, ap (λ t. disarm_watchdog none ∷ t) e)))) (λ e w h. tt))
    release_watchdog-Ends false {calls} = Triple-pure tt (λ w h. h)

    remove-Ends :
        (path : Bytes) {calls : Trace → Trace}
        → Triple
            (Ends calls)
            (confirmed env (remove env path))
            (λ _. Ends (λ t. remove_workspace path none ∷ calls t))
            (λ _. Any)
    unfolding remove delivered
    remove-Ends path = confirmed-Any (
        Triple-ask_err _ (remove_workspace path)
          (λ w (h, (k, (t, e))). (h, (k, (t, ap (λ t. remove_workspace path none ∷ t) e))))
          (λ e w h. tt))

    acknowledge-Ends :
        (claim : Claim) {calls : Trace → Trace}
        → Triple
            (Ends calls)
            (confirmed env (acknowledge env claim))
            (λ _. Ends (λ t. acknowledge_stopped claim none ∷ calls t))
            (λ _. Any)
    unfolding acknowledge delivered
    acknowledge-Ends claim = confirmed-Any (
        Triple-ask_err _ (acknowledge_stopped claim)
          (λ w (h, (k, (t, e))). (h, (k, (t, ap (λ t. acknowledge_stopped claim none ∷ t) e))))
          (λ e w h. tt))

    clear-Ends :
        {calls : Trace → Trace}
        → Triple
            (Ends calls)
            (confirmed env (clear env))
            (λ _. Ends (λ t. clear_journal committed ∷ calls t))
            (λ _. Any)
    unfolding clear delivered
    clear-Ends = confirmed-Any (
        Triple-ask_commit _ clear_journal
          (λ w (h, (k, (t, e))). (h, (k, (t, ap (λ t. clear_journal committed ∷ t) e))))
          (λ e b w h. tt))

    released :
        (claim : Claim) (w : World)
        → Ends (with_cleanup env claim g) w
        → Sent w × IsReleased env claim.run_id claim.attempt_id w
    released claim w (h, (k, (t, e))) = (
      h,
      record {
        claim = claim;
        before = t;
        trace_eq = subst (λ x. w.trace ≡ with_cleanup env claim x t) (sym k) e;
        run_eq = refl;
        attempt_eq = refl;
      },
    )

    pub cleanup-Released :
        (claim : Claim)
        → Triple
            (λ w. Sent w × (w.guard ≡ g))
            (cleanup env claim g.state g.watchdog)
            (λ _ w. Sent w × IsReleased env claim.run_id claim.attempt_id w)
            (λ _. Any)
    unfolding cleanup
    cleanup-Released claim =
        Triple-after (λ a w h. released claim w h) (λ e w h. h)
          (Triple-before (λ w (h, k). (h, (k, (w.trace, refl))))
            (Triple-bind (release-Ends env.has_executor g.state.sandbox_id) λ _.
              Triple-bind (release_watchdog-Ends g.watchdog) λ _.
                Triple-bind (remove-Ends g.state.workspace)
                  λ _. Triple-bind (acknowledge-Ends claim) λ _. clear-Ends))
