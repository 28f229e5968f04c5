-- ===== src/Supervisor/Frames.antt =====
-- Properties of the trace that the heartbeat loop keeps, and actions that always end.
pub mod Cleaned
pub mod Delivery
pub mod Batches
pub mod Settlement
pub mod Finished
use shipmunk_runner.Prelude.{
  ℕ, zero, suc, ◌≡◌, refl, Bool, true, false, Option, none, some, ◌∷◌, Result, ok, err, leb,
  if◌then◌else◌,
}
use shipmunk_runner.Journal.{State}
use shipmunk_runner.Supervisor.Calls.{Err, Call, Commit, Trace}
use shipmunk_runner.Supervisor.Action.{Env, World, Action, Done, ask_err, ask_result}
use shipmunk_runner.Supervisor.Lease.{
  live, save, accept_lease, renew_watchdog_lease, renew_executor_lease, renew, end_loop, tick,
  tick_times, yield, stop,
}
use shipmunk_runner.Supervisor.Triples.{
  Triple, Keeps, After, Triple-pure, Triple-raise, Triple-before, Triple-if, Triple-recover,
  Triple-bind, Triple-gets, Triple-check, Triple-set_guard, Triple-ask_err, Triple-ask_commit,
  Triple-ask_result,
}

-- Nothing is claimed of where an action starts or ends.
abbrev pub Any : World → Type 0
Any w = Unit

Any-After : {A : Type 0} (r : Result Err A) (w : World) → After (λ (_ : A). Any) (λ _. Any) r w
Any-After (ok a) w = tt
Any-After (err e) w = tt

pub Triple-Any : {A : Type 0} (m : Action A) → Triple Any m (λ _. Any) (λ _. Any)
Triple-Any m = record { at = λ w h. Any-After (m w).0 (m w).1 }

module _ (env : Env) (R : Trace → Type 0)
    (beat : (r : Result Err (ℕ × Bool)) (t : Trace) → R t → R (Call.heartbeat r ∷ t))
    (saved : (s : State) (c : Commit) (t : Trace) → R t → R (Call.save_journal s c ∷ t))
    (watched : (n : ℕ) (e : Option Err) (t : Trace) → R t → R (Call.renew_watchdog n e ∷ t))
    (executed : (n : ℕ) (e : Option Err) (t : Trace) → R t → R (Call.renew_executor n e ∷ t)) where
  abbrev On : World → Type 0
  On w = R w.trace

  frame_live : Keeps On (live env)
  unfolding live
  frame_live = Triple-check _ (λ w h. h) (λ e w h. h)

  frame_accept : (t : ℕ) → Keeps On (accept_lease env t)
  unfolding accept_lease renew_watchdog_lease renew_executor_lease save
  frame_accept t = Triple-gets _ λ now.
      Triple-before (λ w h. h.0)
        (Triple-if (leb t now) (λ _. Triple-raise _ (λ w h. h))
          (λ _. Triple-gets _ λ g.
            Triple-before (λ w h. h.0)
              (Triple-bind
                (Triple-ask_commit _ (Call.save_journal (record g.state { lease_expires_at = t }))
                  (λ w h. saved _ _ w.trace h) (λ e b w h. saved _ _ w.trace h))
                λ _.
                  Triple-bind
                    (Triple-if g.watchdog
                      (λ _.
                        Triple-ask_err _ (Call.renew_watchdog t) (λ w h. watched t none w.trace h)
                          (λ e w h. watched t (some e) w.trace h))
                      (λ _. Triple-pure tt (λ w h. h)))
                    λ _.
                      Triple-bind
                        (Triple-if env.has_executor_lease
                          (λ _.
                            Triple-ask_err _ (Call.renew_executor t)
                              (λ w h. executed t none w.trace h)
                              (λ e w h. executed t (some e) w.trace h))
                          (λ _. Triple-pure tt (λ w h. h)))
                        λ _.
                          Triple-bind (Triple-check _ (λ w h. h) (λ e w h. h))
                            λ _. Triple-bind frame_live λ _. Triple-set_guard _ (λ w h. h))))

  frame_renew : Keeps On (renew env)
  unfolding renew
  frame_renew = Triple-gets _ λ finished.
      Triple-before (λ w h. h.0)
        (Triple-if finished (λ _. Triple-pure tt (λ w h. h))
          (λ _. Triple-bind frame_live λ _.
            Triple-bind
              (Triple-ask_result _ Call.heartbeat (λ a w h. beat (ok a) w.trace h)
                (λ e w h. beat (err e) w.trace h))
              λ answer.
                Triple-if answer.1 (λ _. Triple-raise _ (λ w h. h))
                  (λ _. Triple-bind frame_live λ _. frame_accept answer.0)))

  frame_tick : Keeps On (tick env)
  unfolding tick end_loop
  frame_tick = Triple-gets _ λ looping.
      Triple-before (λ w h. h.0)
        (Triple-if looping
          (λ _.
            Triple-recover (Triple-bind frame_live λ _. frame_renew)
              (λ e. Triple-set_guard _ (λ w h. h)))
          (λ _. Triple-pure tt (λ w h. h)))

  frame_times : (n : ℕ) → Keeps On (tick_times env n)
  unfolding tick_times
  frame_times zero = Triple-pure tt (λ w h. h)
  frame_times (suc n) = Triple-bind frame_tick λ _. frame_times n

  -- What the calls of a renewal keep, the whole heartbeat loop keeps.
  pub frame_yield : Keeps On (yield env)
  unfolding yield
  frame_yield = Triple-gets _ λ n. Triple-before (λ w h. h.0) (frame_times n)
