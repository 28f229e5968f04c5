-- ===== src/Supervisor/Frames/Finished.antt =====
-- `complete` of internal/supervisor/lease.go and the rounds of the heartbeat loop after it.
use shipmunk_runner.Prelude.{ℕ, zero, suc, ◌≡◌, refl, true, none, ◌∷◌, Result, ok, err}
use shipmunk_runner.Json.{Fields}
use shipmunk_runner.Supervisor.Calls.{Err, Trace, complete}
use shipmunk_runner.Supervisor.Action.{Env, World, Done}
use shipmunk_runner.Supervisor.Lease.{live, renew, end_loop, tick, tick_times, yield}
use shipmunk_runner.Supervisor.Run.{deliver}
use shipmunk_runner.Supervisor.Triples.{
  Triple, Keeps, After, Triple-pure, Triple-before, Triple-if, Triple-recover, Triple-bind,
  Triple-gets, Triple-check, Triple-set_guard, Triple-ask_err,
}
use shipmunk_runner.Supervisor.Frames.{Any}

module _ (env : Env) (t : Trace) where
  abbrev Finished : World → Type 0
  Finished w = (w.trace ≡ t) × (w.guard.finished ≡ true)

  Finished-live : Keeps Finished (live env)
  unfolding live
  Finished-live = Triple-check _ (λ w h. h) (λ e w h. h)

  Finished-renew : Keeps Finished (renew env)
  unfolding renew
  Finished-renew = Triple-gets _ λ b.
      Triple-if b (λ _. Triple-pure tt (λ w h. h.0))
        (λ e. record { at = λ w h. cc (h.0.1, h.1, e) })

  Finished-tick : Keeps Finished (tick env)
  unfolding tick end_loop
  Finished-tick = Triple-gets _ λ looping.
      Triple-before (λ w h. h.0)
        (Triple-if looping
          (λ _.
            Triple-recover (Triple-bind Finished-live λ _. Finished-renew)
              (λ e. Triple-set_guard _ (λ w h. h)))
          (λ _. Triple-pure tt (λ w h. h)))

  Finished-times : (n : ℕ) → Keeps Finished (tick_times env n)
  unfolding tick_times
  Finished-times zero = Triple-pure tt (λ w h. h)
  Finished-times (suc n) = Triple-bind Finished-tick λ _. Finished-times n

  Finished-yield : Keeps Finished (yield env)
  unfolding yield
  Finished-yield = Triple-gets _ λ n. Triple-before (λ w h. h.0) (Finished-times n)

module _ (env : Env) (result : Fields) (w : World) where
  delivered_then :
      Triple
        (λ v. v.trace ≡ w.trace)
        (deliver env result)
        (λ _. Finished env (complete result none ∷ w.trace))
        (λ _. Any)
  unfolding deliver live
  delivered_then =
      Triple-bind {Q = λ _ v. v.trace ≡ w.trace} (Triple-check _ (λ v h. h) (λ e v h. tt)) λ _.
        Triple-bind {Q = λ _ v. v.trace ≡ complete result none ∷ w.trace}
          (Triple-ask_err _ (complete result) (λ v h. λ i. complete result none ∷ h i)
            (λ e v h. tt))
          λ _. Triple-set_guard _ (λ v h. (h, refl))

  Finished-of :
      (r : Result Err Done) (v : World)
      → After (λ _. Finished env (complete result none ∷ w.trace)) (λ _. Any) r v
      → r ≡ ok tt
      → Finished env (complete result none ∷ w.trace) v
  Finished-of (ok a) v h e = h
  Finished-of (err x) v h e = cc

  trace_of :
      (t : Trace) (r : Result Err Done) (v : World)
      → After (λ _. Finished env t) (λ _. Finished env t) r v
      → v.trace ≡ t
  trace_of t (ok a) v h = h.0
  trace_of t (err e) v h = h.0

  -- When the control plane has accepted a completion, that is the newest call, and however many
  -- rounds of the heartbeat loop follow, they call nothing.
  pub trace-deliver-yield :
      (deliver env result w).0 ≡ ok tt
      → (yield env (deliver env result w).1).1.trace ≡ complete result none ∷ w.trace
  trace-deliver-yield e =
      let v = (deliver env result w).1 in
      trace_of (complete result none ∷ w.trace) (yield env v).0 (yield env v).1 (
        (Finished-yield env (complete result none ∷ w.trace)).at v
          (Finished-of (deliver env result w).0 v (delivered_then.at w refl) e))
