-- ===== src/Supervisor/Frames/Delivery.antt =====
-- The trace behind an `Outcome` of `RunOnce` in internal/supervisor/supervisor.go.
use shipmunk_runner.Prelude.{
  ◌≡◌, refl, subst, true, not, ◌||◌, Bytes, Option, none, some, Result, ok, err, bytes_eq,
}
use shipmunk_runner.Claim.{Claim}
use shipmunk_runner.Json.{Fields}
use shipmunk_runner.Supervisor.Calls.{Err, Execution, complete}
use shipmunk_runner.Supervisor.Action.{Env, World}
use shipmunk_runner.Supervisor.Lease.{live, yield, stop}
use shipmunk_runner.Supervisor.Run.{
  ClaimResult, Outcome, idle, deliver, publish, run_process, run_created, run_named, run_sandbox,
  run_executor, run_claim, report, finish_claim, run_claimed, run_validated, run_next, run_once,
  complete_dependencies,
}
use shipmunk_runner.Supervisor.Triples.{
  Triple, Keeps, After, Triple-pure, Triple-raise, Triple-before, Triple-after, Triple-if,
  Triple-bind, Triple-gets, Triple-try, Triple-set_guard, Triple-ask_err,
}
use shipmunk_runner.Supervisor.Frames.{Any, Triple-Any, frame_yield}
use shipmunk_runner.Supervisor.Frames.Cleaned.{delivered, IsReleased, Sent, cleanup-Released}

abbrev pub Worked : Env → Outcome → World → Type 0
Worked env o w =
    o.worked ≡ true → (delivered w.trace ≡ true) × IsReleased env o.run_id o.attempt_id w

module _ (env : Env) where
  yield-Sent : Keeps Sent (yield env)
  unfolding delivered
  yield-Sent =
      frame_yield env (λ t. delivered t ≡ true) (λ r t h. h) (λ s c t h. h) (λ n e t h. h)
        (λ n e t h. h)

  deliver-Sent : (result : Fields) → Triple Any (deliver env result) (λ _. Sent) (λ _. Any)
  unfolding deliver delivered
  deliver-Sent result = Triple-bind (Triple-Any (live env)) λ _.
      Triple-bind (Triple-ask_err _ (complete result) (λ w h. refl) (λ e w h. tt))
        λ _. Triple-set_guard _ (λ w h. h)

  publish-Sent :
      (e : Execution) (r : Option Fields) → Triple Any (publish env e r) (λ _. Sent) (λ _. Any)
  unfolding publish
  publish-Sent e none = Triple-raise _ (λ w h. tt)
  publish-Sent e (some fields) = Triple-bind (Triple-Any _) λ _. Triple-bind (Triple-Any _) λ patch.
      Triple-bind (Triple-Any _) λ _.
        Triple-bind (Triple-Any _) λ _. Triple-bind (deliver-Sent _) λ _. Triple-pure _ (λ w h. h)

  run_process-Sent :
      (claim : Claim) (id : Bytes) → Triple Any (run_process env claim id) (λ _. Sent) (λ _. Any)
  unfolding run_process
  run_process-Sent claim id = Triple-bind (Triple-Any _) λ _. Triple-bind (Triple-Any _) λ _.
      Triple-bind (Triple-Any _) λ _. Triple-bind (Triple-Any _) λ _.
        Triple-bind (Triple-Any _) λ _. Triple-bind (Triple-Any _) λ _.
          Triple-bind (Triple-Any _) λ answer. Triple-bind (Triple-Any _) λ _.
            Triple-bind (Triple-Any _) λ _. Triple-bind (Triple-Any _) λ e. publish-Sent e e.result

  run_created-Sent :
      (claim : Claim) (p : Option Bytes)
      → Triple Any (run_created env claim p) (λ _. Sent) (λ _. Any)
  unfolding run_created
  run_created-Sent claim none = Triple-raise _ (λ w h. tt)
  run_created-Sent claim (some id) = run_process-Sent claim id

  -- An attempt that ends without an error has delivered its result.
  run_claim-Sent : (claim : Claim) → Triple Any (run_claim env claim) (λ _. Sent) (λ _. Any)
  unfolding run_claim run_executor run_sandbox run_named
  run_claim-Sent claim = Triple-bind (Triple-Any _) λ _. Triple-bind (Triple-Any _) λ path.
      Triple-if (not (bytes_eq path (env.path claim))) (λ _. Triple-raise _ (λ w h. tt))
        (λ _.
          Triple-if env.has_executor
            (λ _. Triple-bind (Triple-Any _) λ _. Triple-bind (Triple-Any _) λ e.
              Triple-bind (Triple-Any _)
                λ _. Triple-bind (Triple-Any _) λ _. publish-Sent e e.result)
            (λ _. Triple-bind (Triple-Any _) λ name. Triple-bind (Triple-Any _) λ _.
              Triple-bind (Triple-Any _) λ _. Triple-bind (Triple-Any _) λ _.
                Triple-bind (Triple-Any _) λ _.
                  Triple-bind (Triple-Any _)
                    λ _. Triple-bind (Triple-Any _) λ p. run_created-Sent claim p))

  report-Worked :
      (claim : Claim) (r : ClaimResult)
      → Triple
          (λ w. Sent w × IsReleased env claim.run_id claim.attempt_id w)
          (report env claim (ok r))
          (Worked env)
          (λ _. Any)
  unfolding report
  report-Worked claim r = Triple-pure _ (λ w h e. h)

  finish_claim-Worked :
      (claim : Claim) (r : Result Err ClaimResult)
      → Triple
          (After (λ (_ : ClaimResult). Sent) (λ _. Any) r)
          (finish_claim env claim r)
          (Worked env)
          (λ _. Any)
  unfolding finish_claim stop
  finish_claim-Worked claim (ok r) =
      Triple-bind {Q = λ _. Sent} (Triple-after (λ a w h. h) (λ e w h. tt) yield-Sent) λ _.
        Triple-bind {Q = λ _. Sent} (Triple-set_guard _ (λ w h. h)) λ _. Triple-gets _ λ g.
          Triple-if (g.creation_pending || g.reservation_pending) (λ _. Triple-raise _ (λ w h. tt))
            (λ _. Triple-bind (cleanup-Released env g claim) λ _. report-Worked claim r)
  finish_claim-Worked claim (err e) = Triple-bind (Triple-Any _) λ _.
      Triple-bind (Triple-Any _) λ _. Triple-gets _ λ g.
        Triple-before (λ w h. tt)
          (Triple-if (g.creation_pending || g.reservation_pending) (λ _. Triple-raise _ (λ w h. tt))
            (λ _. Triple-bind (Triple-Any _) λ _. failed claim e))
    where
      failed :
          (claim : Claim) (e : Err) → Triple Any (report env claim (err e)) (Worked env) (λ _. Any)
      failed claim e = Triple-raise _ (λ w h. tt)

  run_claimed-Worked : (claim : Claim) → Triple Any (run_claimed env claim) (Worked env) (λ _. Any)
  unfolding run_claimed
  run_claimed-Worked claim = Triple-bind (Triple-Any _) λ _.
      Triple-bind (Triple-Any _) λ _. Triple-try (run_claim-Sent claim) (finish_claim-Worked claim)

  run_next-Worked : (o : Option Claim) → Triple Any (run_next env o) (Worked env) (λ _. Any)
  unfolding run_next
  run_next-Worked none = Triple-pure idle (λ w h e. cc)
  run_next-Worked (some claim) = Triple-gets _ λ now. Triple-before (λ w h. tt) (by_validation _)
    where
      by_validation : (o : Option Claim) → Triple Any (run_validated env o) (Worked env) (λ _. Any)
      by_validation none = Triple-bind (Triple-Any _) λ _. Triple-raise _ (λ w h. tt)
      by_validation (some c) = run_claimed-Worked c

  run_once-Triple : Triple Any (run_once env) (Worked env) (λ _. Any)
  unfolding run_once
  run_once-Triple = Triple-gets _ λ blocked.
      Triple-before (λ w h. h.0)
        (Triple-if blocked (λ _. Triple-raise _ (λ w h. h))
          (λ _.
            Triple-if (not (complete_dependencies env)) (λ _. Triple-raise _ (λ w h. h))
              (λ _. Triple-bind (Triple-Any _) λ _.
                Triple-bind (Triple-Any _)
                  λ _. Triple-bind (Triple-Any _) λ _. Triple-bind (Triple-Any _) run_next-Worked)))

  of_result :
      (r : Result Err Outcome) (w : World) (o : Outcome)
      → After (Worked env) (λ _. Any) r w
      → r ≡ ok o
      → Worked env o w
  of_result (ok a) w o h e = subst (λ x. Worked env x w) (ok_injective e) h
    where
      ok_injective : {a b : Outcome} → ◌≡◌ {A = Result Err Outcome} (ok a) (ok b) → a ≡ b
      ok_injective e = cc
  of_result (err x) w o h e = cc

  -- An outcome that says `Worked` comes after an accepted completion of the newest claim, and the last
  -- calls, none of which failed, are the whole cleanup of what the lease guard holds at the end: the
  -- executor cleaned where one is set, or else the container that the guard's state names reconciled,
  -- the watchdog disarmed where the guard armed it, the workspace of the guard's state removed, the
  -- stopped acknowledgement of that run and attempt accepted, and the journal cleared.
  pub run_once-Worked :
      (w : World) (o : Outcome)
      → (run_once env w).0 ≡ ok o
      → o.worked ≡ true
      → (delivered (run_once env w).1.trace ≡ true)
        × IsReleased env o.run_id o.attempt_id (run_once env w).1
  run_once-Worked w o e =
      of_result (run_once env w).0 (run_once env w).1 o (run_once-Triple.at w tt) e
