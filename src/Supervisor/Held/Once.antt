-- ===== src/Supervisor/Held/Once.antt =====
-- `RunOnce` of internal/supervisor/supervisor.go, and a runner's life of restarts and crashes.
use shipmunk_runner.Prelude.{
  ◌≡◌, refl, ◌∙◌, subst, ap, false, not, Option, none, some, List, [], ◌∷◌, ◌++◌, Result, ok, err,
  ◌||◌, leb,
}
use shipmunk_runner.Journal.{State}
use shipmunk_runner.Claim.{Claim}
use shipmunk_runner.Supervisor.Calls.{Err, Call, Commit, Trace, journal}
use shipmunk_runner.Supervisor.Action.{Env, Guard, World}
use shipmunk_runner.Supervisor.Lease.{save, yield, stop, new_lease_guard}
use shipmunk_runner.Supervisor.Recovery.{acknowledge}
use shipmunk_runner.Supervisor.Run.{
  ClaimResult, Outcome, initial_state, run_claimed, abandon_claim, report, finish_claim,
  abandon_lease, run_validated, run_next, complete_dependencies, run_once,
}
use shipmunk_runner.Supervisor.Triples.{
  Triple, After, Triple-pure, Triple-raise, Triple-before, Triple-after, Triple-if, Triple-recover,
  Triple-bind, Triple-gets, Triple-try, Triple-check, Triple-set_guard, Triple-block,
  Triple-ask_result, Triple-ask_commit,
}
use shipmunk_runner.Supervisor.Held.{
  absent, live_after, IsHeld, IsSettled, AlwaysHeld, AlwaysHeld-now, Inv,
}
use shipmunk_runner.Supervisor.Held.Renewal.{Keeps-renew, Keeps-stop, Keeps-yield}
use shipmunk_runner.Supervisor.Held.Creation.{Anything, Nothing, any, Nothing-guard}
use shipmunk_runner.Supervisor.Held.Attempt.{Ends, claim_name, run_claim-Ends}
use shipmunk_runner.Supervisor.Held.Released.{History, Known, Quiet, Quiet-call, Quiet-err}
use shipmunk_runner.Supervisor.Held.Cleared.{cleanup-History, reconcile-Recovered}

module _ (env : Env) (claim : Claim) where
  abbrev E : World → Type 0
  E = Ends env (claim_name env claim)

  yield-Ends : Triple E (yield env) (λ _. E) (λ _. E)
  yield-Ends = record {
    at = λ w h.
        (Triple-after {Q = λ _. Inv env (claim_name env claim) h.live_end h.live_end Anything}
            (λ a w i. record { live_end = h.live_end; inv = i })
            (λ e w i. record { live_end = h.live_end; inv = i })
            (Keeps-yield env (claim_name env claim) h.live_end h.live_end (λ j h. h) Anything
              (λ g t h. h) (λ g h. h))).at
          w h.inv;
  }

  stop-Ends : Triple E (stop env) (λ _. E) (λ _. E)
  stop-Ends = record {
    at = λ w h.
        (Triple-after {Q = λ _. Inv env (claim_name env claim) h.live_end h.live_end Anything}
            (λ a w i. record { live_end = h.live_end; inv = i })
            (λ e w i. record { live_end = h.live_end; inv = i })
            (Keeps-stop env (claim_name env claim) h.live_end h.live_end (λ j h. h) Anything
              (λ g t h. h) (λ g h. h))).at
          w h.inv;
  }

  report-History :
      (r : Result Err ClaimResult)
      → Triple (Quiet env) (report env claim r) (λ _. History env) (λ _. History env)
  unfolding report
  report-History (ok r) = Triple-pure _ (λ w h. h.0)
  report-History (err e) = Triple-raise e (λ w h. h.0)

  finish_claim-History :
      (r : Result Err ClaimResult)
      → Triple E (finish_claim env claim r) (λ _. History env) (λ _. History env)
  unfolding finish_claim
  finish_claim-History r =
      Triple-after (λ a w h. h) (λ e w h. h)
        (Triple-bind (Triple-after (λ a w h. h) (λ e w h. h.inv.always) yield-Ends) λ _.
          Triple-bind (Triple-after (λ a w h. h) (λ e w h. h.inv.always) stop-Ends) λ _.
            Triple-gets _ λ g.
              Triple-if (g.creation_pending || g.reservation_pending)
                (λ _. Triple-raise _ (λ w h. h.0.inv.always))
                (λ p.
                  Triple-bind {Q = λ _. Quiet env}
                    (record {
                      at = λ w h.
                          (cleanup-History env claim g.state g.watchdog h.0.live_end (
                              subst (λ (g : Guard). IsSettled env h.0.live_end g.state) h.1
                                (h.0.inv.settled (
                                  ap (λ (g : Guard). g.creation_pending || g.reservation_pending)
                                    h.1
                                  ∙ p)))).at
                            w
                            (
                              h.0.inv.always,
                              h.0.inv.now,
                              subst (λ l. IsHeld env l (journal w.trace)) h.0.inv.now
                                  (AlwaysHeld-now env w.trace h.0.inv.always),
                            );
                    })
                    (λ _. report-History r)))

  abbrev Q : World → Type 0
  Q = Quiet env

  Known-absent : (w : World) → Q w → Known env absent w
  Known-absent w h = (h.0, h.1, tt)

  save_initial :
      (s : State) → Triple Q (save env s) (λ _ w. Q w × (journal w.trace ≡ some s)) (λ _. Q)
  unfolding save live_after journal
  save_initial s =
      Triple-ask_commit _ (Call.save_journal s)
        (λ w h. (Quiet-call env (Call.save_journal s Commit.committed) w h.1 h.0, refl))
        (λ e b w h. Quiet-call env (Call.save_journal s (Commit.failed e b)) w h.1 h.0)

  abandon_claim-Quiet :
      (e : Err) → Triple Q (abandon_claim env claim e) (λ _ _. ⊥) (λ _. History env)
  unfolding abandon_claim acknowledge live_after
  abandon_claim-Quiet e =
      Triple-after {E = λ _. Q} (λ a w h. h) (λ e w h. h.0)
        (Triple-bind {Q = λ _. Q} (Triple-block (λ w h. h)) λ _.
          Triple-bind {Q = λ _. Q}
            (Triple-recover (Quiet-err env _ (Call.acknowledge_stopped claim) (λ e t. refl))
              (λ a. Triple-raise _ (λ w h. h)))
            λ _. Triple-raise _ (λ w h. h))

  abandon_lease-Quiet :
      (s : State) (e : Err) → Triple Q (abandon_lease env claim s e) (λ _ _. ⊥) (λ _. History env)
  unfolding abandon_lease
  abandon_lease-Quiet s e =
      Triple-bind {Q = λ _. Q}
        (Triple-before Known-absent (cleanup-History env claim s false absent tt))
        λ _. Triple-raise _ (λ w h. h.0)

  abbrev N : World → Type 0
  N = Nothing env (claim_name env claim)

  quiet : (w : World) → N w → Q w
  quiet w h = (h.always, h.now)

  new_lease_guard-Nothing :
      Triple
        (λ w. Q w × (journal w.trace ≡ some (initial_state env claim)))
        (new_lease_guard env claim (initial_state env claim))
        (λ _. N)
        (λ _. Q)
  unfolding new_lease_guard initial_state
  new_lease_guard-Nothing = Triple-gets _ λ now.
      Triple-before (λ w h. h.0)
        (Triple-if (leb claim.lease_expires_at now) (λ _. Triple-raise _ (λ w h. h.0))
          (λ _.
            Triple-bind {Q = λ _. N}
              (Triple-set_guard _ (λ w h. record {
                always = h.0.0;
                now = h.0.1;
                present = rw h.1;
                journaled = tt;
                guarded = tt;
                name_eq = refl;
                settled = λ _. tt;
                also = tt;
              }))
              λ _.
                Triple-bind
                  (Triple-after (λ a w h. h) (λ e. quiet)
                    (Keeps-renew env (claim_name env claim) absent absent
                      (any env (claim_name env claim)) Anything (λ g t h. h) (λ g h. h)))
                  λ _.
                    Triple-set_guard _
                      (λ w h. Nothing-guard env (claim_name env claim) w _ h.name_eq h)))

  run_claimed-History : Triple Q (run_claimed env claim) (λ _. History env) (λ _. History env)
  unfolding run_claimed
  run_claimed-History =
      Triple-bind
        (Triple-recover (save_initial (initial_state env claim))
          (λ e. Triple-after (λ a w h. absurd h) (λ e w h. h) (abandon_claim-Quiet e)))
        λ _.
          Triple-bind
            (Triple-recover new_lease_guard-Nothing (λ e.
              Triple-after (λ a w h. absurd h) (λ e w h. h)
                (abandon_lease-Quiet (initial_state env claim) e)))
            λ _.
              Triple-try (run_claim-Ends env claim)
                (λ r. Triple-before (λ w. either r w) (finish_claim-History r))
    where
      either :
          (r : Result Err ClaimResult) (w : World)
          → After (λ (_ : ClaimResult). E) (λ _. E) r w
          → E w
      either (ok a) w h = h
      either (err e) w h = h

module _ (env : Env) where
  run_validated-History :
      (o : Option Claim)
      → Triple (Quiet env) (run_validated env o) (λ _. History env) (λ _. History env)
  unfolding run_validated
  run_validated-History none =
      Triple-bind {Q = λ _. Quiet env} (Triple-block (λ w h. h)) λ _. Triple-raise _ (λ w h. h.0)
  run_validated-History (some claim) = run_claimed-History env claim

  run_next-History :
      (o : Option Claim) → Triple (Quiet env) (run_next env o) (λ _. History env) (λ _. History env)
  unfolding run_next
  run_next-History none = Triple-pure _ (λ w h. h.0)
  run_next-History (some claim) =
      Triple-gets _ λ now. Triple-before (λ w h. h.0) (run_validated-History _)

  run_once-Triple : Triple (History env) (run_once env) (λ _. History env) (λ _. History env)
  unfolding run_once live_after
  run_once-Triple = Triple-gets _ λ blocked.
      Triple-before (λ w h. h.0)
        (Triple-if blocked (λ _. Triple-raise _ (λ w h. h))
          (λ _.
            Triple-if (not (complete_dependencies env)) (λ _. Triple-raise _ (λ w h. h))
              (λ _. Triple-bind (Triple-check _ (λ w h. h) (λ e w h. h)) λ _.
                Triple-bind (reconcile-Recovered env) λ _.
                  Triple-after (λ a w h. h) (λ e w h. h)
                    (Triple-bind {Q = λ _. Quiet env}
                      (Triple-after (λ a w h. h) (λ e w h. h.0)
                        (Quiet-err env _ Call.ensure_writable (λ e t. refl)))
                      λ _.
                        Triple-bind {Q = λ _. Quiet env}
                          (Triple-ask_result _ Call.claim_next
                            (λ o w h. Quiet-call env (Call.claim_next (ok o)) w h.1 h.0)
                            (λ e w h. (Quiet-call env (Call.claim_next (err e)) w h.1 h.0).0))
                          λ o. run_next-History o))))

  -- A supervisor process that starts over the journal of earlier ones.
  abbrev pub starting : Guard → Trace → World
  starting g t = record { blocked = false; guard = g; trace = t }

  -- The histories of a runner: each run goes on from the last one, and a crash keeps only the calls
  -- that were made before it.
  pub data Life : Trace → Type 0 where
    begin : Life []
    run : {t : Trace} (g : Guard) → Life t → Life (run_once env (starting g t)).1.trace
    crash : {t : Trace} (later : List Call) → Life (later ++ t) → Life t

  After-trace :
      (r : Result Err Outcome) (w : World)
      → After (λ (_ : Outcome). History env) (λ _. History env) r w
      → History env w
  After-trace (ok a) w h = h
  After-trace (err e) w h = h

  pub run_once-AlwaysHeld :
      (w : World) → AlwaysHeld env w.trace → AlwaysHeld env (run_once env w).1.trace
  run_once-AlwaysHeld w h =
      After-trace (run_once env w).0 (run_once env w).1 (run_once-Triple.at w h)

  earlier : (later : List Call) (t : Trace) → AlwaysHeld env (later ++ t) → AlwaysHeld env t
  earlier [] t h = h
  earlier (c ∷ later) t h = earlier later t h.1

  Life-AlwaysHeld : {t : Trace} → Life t → AlwaysHeld env t
  Life-AlwaysHeld begin = tt
  Life-AlwaysHeld (run {t} g l) = run_once-AlwaysHeld (starting g t) (Life-AlwaysHeld l)
  Life-AlwaysHeld (crash {t} later l) = earlier later t (Life-AlwaysHeld l)

  -- In every history of runs, restarts and crashes, with whatever answers from the outside, each
  -- container, unsettled creation or executor's resource that may still run is in the journal: a
  -- container by its identifier or its reserved name, an unsettled creation by its reserved name.
  pub Life-IsHeld : {t : Trace} → Life t → IsHeld env (live_after t) (journal t)
  Life-IsHeld {t} l = AlwaysHeld-now env t (Life-AlwaysHeld l)
