-- ===== src/Supervisor/Held/Cleared.antt =====
-- `cleanup` and `reconcile` of internal/supervisor/supervisor.go: what they leave in the journal.
use shipmunk_runner.Prelude.{
  ◌≡◌, refl, ◌∙◌, subst, Bool, true, false, not, ltb, pos, int_ltb, int_incr, Bytes, Option, none,
  some, ok, bytes_eq,
}
use shipmunk_runner.Journal.{State}
use shipmunk_runner.Claim.{Claim}
use shipmunk_runner.Supervisor.Calls.{Err, Call, journal}
use shipmunk_runner.Supervisor.Action.{Env, World, Action}
use shipmunk_runner.Supervisor.Lease.{save, legacy_container_id}
use shipmunk_runner.Supervisor.Recovery.{
  refused_acknowledgement, recovered_claim, interrupted_result, acknowledge, clear, remove,
  release_sandbox, release_watchdog, cleanup, report_interrupted, recover_container,
  recover_sandbox, recover_executor, hold_refused, count_refusal, recover_attempt, recover_journal,
  reconcile, settle_threshold,
}
use shipmunk_runner.Supervisor.Triples.{
  Triple, Keeps, Triple-pure, Triple-raise, Triple-lift, Triple-before, Triple-after, Triple-if,
  Triple-recover, Triple-bind, Triple-gets, Triple-ask, Triple-ask_err,
}
use shipmunk_runner.Supervisor.Held.{
  Live, absent, container, unsure, composite, clash, live_after, IsHeld, IsSettled, AlwaysHeld-now,
}
use shipmunk_runner.Supervisor.Held.Released.{
  History, Known, Quiet, Quiet-call, Quiet-err, Quiet-commit, confirmed-Triple,
  clean_executor-Quiet, reconcile-Quiet, settled_none, settled_some, held_none, held_some,
}

module _ (env : Env) where
  Quiet-History :
      {A : Type 0} {P : World → Type 0} {Q : A → World → Type 0} {m : Action A}
      → Triple P m Q (λ _. Quiet env)
      → Triple P m Q (λ _. History env)
  Quiet-History t = Triple-after (λ a w h. h) (λ e w h. h.0) t

  Known-Quiet : (l : Live) (w : World) → l ≡ absent → Known env l w → Quiet env w
  Known-Quiet l w e h = (h.0, h.1 ∙ e)

  remove-Quiet : (path : Bytes) → Keeps (Quiet env) (remove env path)
  unfolding remove live_after
  remove-Quiet path = Quiet-err env _ (Call.remove_workspace path) (λ e t. refl)

  acknowledge-Quiet : (c : Claim) → Keeps (Quiet env) (acknowledge env c)
  unfolding acknowledge live_after
  acknowledge-Quiet c = Quiet-err env _ (Call.acknowledge_stopped c) (λ e t. refl)

  clear-Quiet : Keeps (Quiet env) (clear env)
  unfolding clear live_after
  clear-Quiet = Quiet-commit env _ Call.clear_journal (λ e t. refl)

  save-Quiet : (s : State) → Keeps (Quiet env) (save env s)
  unfolding save live_after
  save-Quiet s = Quiet-commit env _ (Call.save_journal s) (λ e t. refl)

  release_watchdog-Quiet : (armed : Bool) → Keeps (Quiet env) (release_watchdog env armed)
  unfolding release_watchdog live_after
  release_watchdog-Quiet armed =
      Triple-if armed
        (λ _. confirmed-Triple env (Quiet-err env _ Call.disarm_watchdog (λ e t. refl)))
        (λ _. Triple-pure tt (λ w h. h))

  release_sandbox-Quiet :
      env.has_executor ≡ false
      → (l : Live) (s : State) (o : Option Bytes) → IsSettled env l s
      → s.sandbox_id ≡ o
      → Triple (Known env l) (release_sandbox env o) (λ _. Quiet env) (λ _. History env)
  unfolding release_sandbox
  release_sandbox-Quiet x l s none f e =
      Triple-pure tt (λ w h. Known-Quiet l w (settled_none env x s l _ f e h.2) h)
  release_sandbox-Quiet x l s (some id) f e =
      reconcile-Quiet env l id (λ j h. settled_some env x s id l j f e h)

  -- From an attempt that the guard's state accounts for, a cleanup releases what runs before it
  -- clears the journal.
  pub cleanup-History :
      (claim : Claim) (s : State) (armed : Bool) (l : Live)
      → IsSettled env l s
      → Triple (Known env l) (cleanup env claim s armed) (λ _. Quiet env) (λ _. History env)
  unfolding cleanup
  cleanup-History claim s armed l f =
      Triple-bind
        (Triple-if env.has_executor (λ x. clean_executor-Quiet env x l)
          (λ x. release_sandbox-Quiet x l s s.sandbox_id f refl))
        λ _. Quiet-History (
          Triple-bind (release_watchdog-Quiet armed) λ _.
            Triple-bind (confirmed-Triple env (remove-Quiet s.workspace)) λ _.
              Triple-bind (confirmed-Triple env (acknowledge-Quiet claim))
                λ _. confirmed-Triple env clear-Quiet)

  report_interrupted-Quiet : (c : Claim) → Keeps (Quiet env) (report_interrupted env c)
  unfolding report_interrupted live_after
  report_interrupted-Quiet c = Triple-gets _ λ now.
      Triple-before (λ w h. h.0)
        (Triple-bind
          (Triple-if (ltb now c.lease_expires_at)
            (λ _.
              Triple-bind
                (Triple-ask {Q = λ _. Quiet env} _ (Call.complete (interrupted_result c))
                  (λ o w h. Quiet-call env (Call.complete (interrupted_result c) o) w h.1 h.0))
                λ _. Triple-pure tt (λ w h. h))
            (λ _. Triple-pure tt (λ w h. h)))
          λ _. acknowledge-Quiet c)

  count_refusal-Quiet : (s : State) (e : Err) → Keeps (Quiet env) (count_refusal env s e)
  unfolding count_refusal hold_refused
  count_refusal-Quiet s e =
      Triple-if (not (refused_acknowledgement e)) (λ _. Triple-raise _ (λ w h. h))
        (λ _.
          Triple-if (int_ltb (int_incr s.refused_stopped_count) (pos settle_threshold))
            (λ _.
              Triple-bind (Triple-recover (save-Quiet _) (λ f. Triple-raise _ (λ w h. h)))
                λ _. Triple-raise _ (λ w h. h))
            (λ _. Triple-pure tt (λ w h. h)))

  recover_container-Quiet :
      env.has_executor ≡ false
      → (l : Live) (s : State) (id n : Bytes) → s.sandbox_id ≡ some id
      → env.name s.run_id s.attempt_id s.fence ≡ ok n
      → Triple
          (λ w. Known env l w × IsHeld env l (some s))
          (recover_container env id n)
          (λ _. Quiet env)
          (λ _. History env)
  unfolding recover_container
  recover_container-Quiet x l s id n e q =
      Triple-if (bytes_eq id n) (λ _. Triple-raise _ (λ w h. h.0.0))
        (λ d.
          Triple-if (not (legacy_container_id id)) (λ _. Triple-raise _ (λ w h. h.0.0))
            (λ _. record {
              at = λ w h.
                  (reconcile-Quiet env l id (λ j _. held_some env x s id n l e q d h.1)).at w h.0;
            }))

  recover_sandbox-Quiet :
      env.has_executor ≡ false
      → (l : Live) (s : State) (o : Option Bytes) → s.sandbox_id ≡ o
      → Triple
          (λ w. Known env l w × IsHeld env l (some s))
          (recover_sandbox env (recovered_claim s) o)
          (λ _. Quiet env)
          (λ _. History env)
  unfolding recover_sandbox recovered_claim
  recover_sandbox-Quiet x l s none e =
      Triple-pure tt (λ w h. Known-Quiet l w (held_none env x s l e h.1) h.0)
  recover_sandbox-Quiet x l s (some id) e =
      Triple-bind
        {Q = λ n w.
          (Known env l w × IsHeld env l (some s)) × (env.name s.run_id s.attempt_id s.fence ≡ ok n)}
        (Triple-lift _ (λ n q w h. (h, q)) (λ e w h. h.0.0))
        λ n. record { at = λ w h. (recover_container-Quiet x l s id n e h.1).at w h.0 }

  recover_executor-Quiet :
      env.has_executor ≡ true
      → (l : Live) (o : Option Bytes)
      → Triple (Known env l) (recover_executor env o) (λ _. Quiet env) (λ _. History env)
  unfolding recover_executor
  recover_executor-Quiet x l none = clean_executor-Quiet env x l
  recover_executor-Quiet x l (some id) = Triple-raise _ (λ w h. h.0)

  recover_attempt-Quiet :
      (l : Live) (s : State)
      → Triple
          (λ w. Known env l w × IsHeld env l (some s))
          (recover_attempt env s)
          (λ _. Quiet env)
          (λ _. History env)
  unfolding recover_attempt
  recover_attempt-Quiet l s =
      Triple-if (not (bytes_eq s.workspace (env.path (recovered_claim s))))
        (λ _. Triple-raise _ (λ w h. h.0.0))
        (λ _.
          Triple-bind
            (Triple-if env.has_executor
              (λ x. Triple-before (λ w h. h.0) (recover_executor-Quiet x l s.sandbox_id))
              (λ x. recover_sandbox-Quiet x l s s.sandbox_id refl))
            λ _. Quiet-History (
              Triple-bind (confirmed-Triple env (remove-Quiet s.workspace)) λ _.
                Triple-bind
                  (Triple-recover (report_interrupted-Quiet (recovered_claim s))
                    (count_refusal-Quiet s))
                  λ _. clear-Quiet))

  held_nothing : (l : Live) → IsHeld env l none → l ≡ absent
  held_nothing absent h = refl
  held_nothing (container id) h = absurd h
  held_nothing unsure h = absurd h
  held_nothing composite h = absurd h
  held_nothing clash h = absurd h

  recover_journal-Quiet :
      (l : Live) (o : Option State)
      → Triple
          (λ w. Known env l w × IsHeld env l o)
          (recover_journal env o)
          (λ _. Quiet env)
          (λ _. History env)
  unfolding recover_journal
  recover_journal-Quiet l none = Triple-pure tt (λ w h. Known-Quiet l w (held_nothing l h.1) h.0)
  recover_journal-Quiet l (some s) = recover_attempt-Quiet l s

  -- A recovery that returns leaves nothing running; one that fails keeps what the journal holds.
  pub reconcile-Recovered : Triple (History env) (reconcile env) (λ _. Quiet env) (λ _. History env)
  unfolding reconcile live_after journal
  reconcile-Recovered =
      Triple-bind {Q = λ _. History env}
        (Triple-ask_err _ Call.load_journal (λ w h. (AlwaysHeld-now env w.trace h, h))
          (λ e w h. (AlwaysHeld-now env w.trace h, h)))
        λ _. Triple-gets _ λ found. record {
          at = λ w h. (recover_journal-Quiet (live_after w.trace) found).at w (
            (h.0, refl, AlwaysHeld-now env w.trace h.0),
            subst (IsHeld env (live_after w.trace)) h.1 (AlwaysHeld-now env w.trace h.0),
          );
        }
