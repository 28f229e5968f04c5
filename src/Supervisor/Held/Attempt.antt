-- ===== src/Supervisor/Held/Attempt.antt =====
-- `runClaim` of internal/supervisor/supervisor.go: the guard and the journal at its end.
use shipmunk_runner.Prelude.{
  ◌≡◌, refl, true, false, not, Bytes, Option, none, some, ◌∷◌, Result, ok, err, is_some, bytes_eq,
}
use shipmunk_runner.Journal.{State}
use shipmunk_runner.Json.{Fields}
use shipmunk_runner.Claim.{Claim}
use shipmunk_runner.Supervisor.Calls.{Err, Call, Execution, uncertain, journal, execute}
use shipmunk_runner.Supervisor.Action.{Env, Guard, World, Done, ◌>>◌}
use shipmunk_runner.Supervisor.Lease.{yield, finish_without_create}
use shipmunk_runner.Supervisor.Run.{
  publish, run_process, abandon_create, run_created, run_named, run_sandbox, run_executor,
  run_claim,
}
use shipmunk_runner.Supervisor.Triples.{
  Triple, Triple-raise, Triple-lift, Triple-before, Triple-after, Triple-if, Triple-recover,
  Triple-bind, Triple-ask_result,
}
use shipmunk_runner.Supervisor.Held.{
  Live, absent, container, unsure, composite, live_after, IsHeld, Inv,
}
use shipmunk_runner.Supervisor.Held.Renewal.{
  Inv-also, Keeps-err, Keeps-result, Keeps-live, Keeps-yield,
}
use shipmunk_runner.Supervisor.Held.Creation.{
  Anything, IsReserving, Nothing, Inv-Nothing, any, Reserved, nothing_needed,
  finish_without_create-Nothing,
}
use shipmunk_runner.Supervisor.Held.Reservation.{
  Running, Made, Failed, reserve-Reserved, begin_create-Reserved, create-Made, created-Running,
}
use shipmunk_runner.Supervisor.Held.Published.{Same, same_held, yield-Same, publish-Same}

module _ (env : Env) (named : Result Err Bytes) where
  -- What an attempt leaves: the guard's state accounts for it once no creation is pending.
  pub record Ends (w : World) : Type 0 where
    pub live_end : Live
    pub inv : Inv env named live_end live_end Anything w

  ends : (l : Live) (w : World) → Inv env named l l Anything w → Ends w
  ends l w h = record { live_end = l; inv = h }

  publish-Ends :
      (l : Live) (e : Execution) (r : Option Fields)
      → Triple (Same env named l) (publish env e r) (λ _. Ends) (λ _. Ends)
  publish-Ends l e r = Triple-after (λ a. ends l) (λ e. ends l) (publish-Same env named l e r)

  run_executor-Ends :
      env.has_executor ≡ true
      → (claim : Claim) (path : Bytes)
      → Triple (Nothing env named) (run_executor env claim path) (λ _. Ends) (λ _. Ends)
  unfolding run_executor live_after journal
  run_executor-Ends x claim path =
      Triple-bind {Q = λ _. Nothing env named}
        (Triple-after (λ a w h. h) (λ e. ends absent) (yield-Same env named absent))
        λ _.
          Triple-bind {Q = λ _. Same env named composite}
            (Triple-ask_result _ (execute m path)
              (λ a w h. executed (execute m path (ok a)) w (rw h.now) refl h)
              (λ e w h. ends composite _ (executed (execute m path (err e)) w (rw h.now) refl h)))
            λ e.
              Triple-bind {Q = λ _. Same env named composite}
                (Triple-after (λ a w h. h) (λ e. ends composite) (yield-Same env named composite))
                λ _.
                  Triple-bind {Q = λ _. Same env named composite}
                    (Triple-after (λ a w h. h) (λ e. ends composite)
                      (Keeps-live env named composite composite (same_held env named composite)
                        Anything))
                    λ _. publish-Ends composite e e.result
    where
      m : Fields
      m = env.sanitize claim.manifest

      composite_held : (j : Option State) → is_some j ≡ true → IsHeld env composite j
      composite_held (some s) p = x
      composite_held none p = cc

      executed :
          (c : Call) (w : World)
          → live_after (c ∷ w.trace) ≡ composite
          → journal (c ∷ w.trace) ≡ journal w.trace
          → Nothing env named w
          → Same env named composite (record w { trace = c ∷ w.trace })
      executed c w el ej h = record {
        always = (rw (el, ej) (composite_held _ h.present), h.always);
        now = el;
        present = rw ej h.present;
        journaled = rw ej (composite_held _ h.present);
        guarded = x;
        name_eq = h.name_eq;
        settled = λ _. tt;
        also = tt;
      }

  module _ (sandboxed : env.has_executor ≡ false) (n : Bytes) (name_ok : named ≡ ok n) where
    abbrev Run : Bytes → (Guard → Type 0) → World → Type 0
    Run = Running env named sandboxed n name_ok

    run_process-Ends :
        (claim : Claim) (id : Bytes)
        → Triple (Run id IsReserving) (run_process env claim id) (λ _. Ends) (λ _. Ends)
    unfolding run_process live_after journal
    run_process-Ends claim id =
        Triple-bind {Q = λ _. Run id IsReserving}
          (Triple-after (λ a w h. h) (λ e. weaken)
            (Keeps-yield env named (container id) (container id) (λ j h. h) IsReserving (λ g t h. h)
              (λ g h. h)))
          λ _.
            Triple-bind {Q = λ _. Run id Anything}
              (Triple-after (λ a w h. h) (λ e. ends (container id))
                (created-Running env named sandboxed n name_ok id))
              λ _.
                Triple-after (λ a w h. h) (λ e. ends (container id))
                  (Triple-bind
                    (Keeps-live env named (container id) (container id) (λ j h. h) Anything)
                    λ _. Triple-bind (yield-Same env named (container id)) λ _.
                      Triple-bind
                        (Keeps-err env named (container id) (container id) (λ j h. h) Anything _
                          Call.start_process (λ e t. refl) (λ e t. refl))
                        λ _. Triple-bind (yield-Same env named (container id)) λ _.
                          Triple-bind
                            (Keeps-result env named (container id) (container id) (λ j h. h)
                              Anything _ Call.wait_process (λ e t. refl) (λ e t. refl))
                            λ answer. Triple-bind (yield-Same env named (container id)) λ _.
                              Triple-bind
                                (Keeps-live env named (container id) (container id) (λ j h. h)
                                  Anything)
                                λ _. Triple-bind (Triple-lift _ (λ a e w h. h) (λ e w h. h)) λ e.
                                  Triple-after (λ a. ends (container id)) (λ e w h. h)
                                    (publish-Same env named (container id) e e.result))
      where
        weaken : (w : World) → Run id IsReserving w → Ends w
        weaken w h = ends (container id) w (
            Inv-also env named (container id) (container id) (λ j h. h) IsReserving Anything w h tt)

    abandon_create-Ends :
        (e : Err)
        → Triple
            (Failed env named sandboxed n name_ok e)
            (abandon_create env e)
            (Made env named sandboxed n name_ok)
            (λ _. Ends)
    unfolding abandon_create
    abandon_create-Ends e =
        Triple-if (uncertain e)
          (λ u. Triple-raise e (λ w h.
            ends unsure w
              (Inv-also env named unsure unsure (λ j h. h) IsReserving Anything w (h.0 u) tt)))
          (λ u.
            Triple-before (λ w h. h.1 u)
              (Triple-after (λ a w h. h) (λ e. ends absent)
                (Triple-bind (yield-Same env named absent)
                  λ _. finish_without_create-Nothing env named _ e)))

    run_created-Ends :
        (claim : Claim) (p : Option Bytes)
        → Triple
            (Made env named sandboxed n name_ok p)
            (run_created env claim p)
            (λ _. Ends)
            (λ _. Ends)
    unfolding run_created
    run_created-Ends claim none = Triple-raise _ (λ w h.
        ends unsure w (Inv-also env named unsure unsure (λ j h. h) IsReserving Anything w h tt))
    run_created-Ends claim (some id) = run_process-Ends claim id

    abandon-Ends :
        (e : Err)
        → Triple
            (Nothing env named)
            (yield env >> finish_without_create env e)
            (λ (_ : Done). Reserved env named)
            (λ _. Ends)
    abandon-Ends e =
        Triple-after (λ a w h. h) (λ e. ends absent)
          (Triple-bind (yield-Same env named absent)
            λ _. finish_without_create-Nothing env named _ e)

    yield-Reserved : Triple (Reserved env named) (yield env) (λ _. Reserved env named) (λ _. Ends)
    yield-Reserved =
        Triple-after (λ a w h. h)
          (λ e w h. ends absent w (Inv-Nothing env named unsure IsReserving w h))
          (Keeps-yield env named absent unsure (nothing_needed env named) IsReserving (λ g t h. h)
            (λ g h. h))

    pub run_named-Ends :
        (claim : Claim) (path : Bytes)
        → Triple (Nothing env named) (run_named env claim path n) (λ _. Ends) (λ _. Ends)
    unfolding run_named
    run_named-Ends claim path =
        Triple-bind {Q = λ _. Nothing env named}
          (Triple-after (λ a w h. h) (λ e. ends absent) (yield-Same env named absent))
          λ _.
            Triple-bind
              (Triple-recover (reserve-Reserved env named sandboxed n name_ok) abandon-Ends)
              λ _. Triple-bind yield-Reserved λ _.
                Triple-bind
                  (Triple-recover (begin_create-Reserved env named sandboxed n name_ok)
                    abandon-Ends)
                  λ _. Triple-bind yield-Reserved λ _.
                    Triple-bind
                      (Triple-recover (create-Made env named sandboxed n name_ok _ path)
                        abandon_create-Ends)
                      λ p. run_created-Ends claim p

module _ (env : Env) (claim : Claim) where
  abbrev pub claim_name : Result Err Bytes
  claim_name = env.name claim.run_id claim.attempt_id claim.fence

  run_sandbox-Ends :
      env.has_executor ≡ false
      → (path : Bytes)
      → Triple
          (Nothing env claim_name)
          (run_sandbox env claim path)
          (λ _. Ends env claim_name)
          (λ _. Ends env claim_name)
  unfolding run_sandbox
  run_sandbox-Ends x path =
      Triple-bind {Q = λ n w. Nothing env claim_name w × (claim_name ≡ ok n)}
        (Triple-lift claim_name (λ n e w h. (h, e)) (λ e. ends env claim_name absent))
        λ n. record { at = λ w h. (run_named-Ends env claim_name x n h.1 claim path).at w h.0 }

  -- However the attempt goes, and whatever renewals come in between, it leaves nothing unknown.
  pub run_claim-Ends :
      Triple
        (Nothing env claim_name)
        (run_claim env claim)
        (λ _. Ends env claim_name)
        (λ _. Ends env claim_name)
  unfolding run_claim live_after journal
  run_claim-Ends =
      Triple-bind {Q = λ _. Nothing env claim_name}
        (Triple-after (λ a w h. h) (λ e. ends env claim_name absent)
          (yield-Same env claim_name absent))
        λ _.
          Triple-bind {Q = λ _. Nothing env claim_name}
            (Triple-after (λ a w h. h) (λ e. ends env claim_name absent)
              (Keeps-result env claim_name absent absent (any env claim_name) Anything _
                Call.prepare_workspace (λ e t. refl) (λ e t. refl)))
            λ path.
              Triple-if (not (bytes_eq path (env.path claim)))
                (λ _. Triple-raise _ (ends env claim_name absent))
                (λ _.
                  Triple-if env.has_executor (λ x. run_executor-Ends env claim_name x claim path)
                    (λ x. run_sandbox-Ends x path))
