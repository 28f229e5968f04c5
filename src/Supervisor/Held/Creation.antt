-- ===== src/Supervisor/Held/Creation.antt =====
-- What is known of an attempt in which nothing runs, and how a creation is taken back.
use shipmunk_runner.Prelude.{
  ◌≡◌, refl, sym, ◌∙◌, ap, Bool, true, false, not, Bytes, Option, [], Result, is_some, ◌||◌,
}
use shipmunk_runner.Journal.{State}
use shipmunk_runner.Supervisor.Calls.{Err, Reason, Call, journal}
use shipmunk_runner.Supervisor.Action.{Env, Guard, World, Done}
use shipmunk_runner.Supervisor.Lease.{keep_pending, confirm_skipped, finish_without_create}
use shipmunk_runner.Supervisor.Triples.{
  Triple, Triple-pure, Triple-raise, Triple-before, Triple-if, Triple-recover, Triple-bind,
  Triple-gets, Triple-set_guard,
}
use shipmunk_runner.Supervisor.Held.{Live, absent, unsure, live_after, IsHeld, Inv}
use shipmunk_runner.Supervisor.Held.Renewal.{Inv-also, Keeps-err, Keeps-save}

pub not-or_true : (b : Bool) {c : Bool} → c ≡ true → (b || c) ≡ false → ⊥
not-or_true true e p = cc
not-or_true false e p = cc

abbrev pub Anything : Guard → Type 0
Anything g = Unit

abbrev pub IsReserving : Guard → Type 0
IsReserving g = g.reservation_pending ≡ true

module _ (env : Env) (named : Result Err Bytes) where
  -- Nothing runs, so the journal may hold anything.
  abbrev pub Nothing : World → Type 0
  Nothing = Inv env named absent absent Anything

  pub Inv-Nothing :
      (r : Live) (K : Guard → Type 0) (w : World) → Inv env named absent r K w → Nothing w
  Inv-Nothing r K w h = record {
    always = h.always;
    now = h.now;
    present = h.present;
    journaled = tt;
    guarded = tt;
    name_eq = h.name_eq;
    settled = λ _. tt;
    also = tt;
  }

  -- A change of the guard that keeps the attempt's identity, where nothing runs.
  pub Nothing-guard :
      (w : World) (g : Guard)
      → env.name g.state.run_id g.state.attempt_id g.state.fence ≡ named
      → Nothing w
      → Nothing (record w { guard = g })
  Nothing-guard w g e h = record {
    always = h.always;
    now = h.now;
    present = h.present;
    journaled = tt;
    guarded = tt;
    name_eq = e;
    settled = λ _. tt;
    also = tt;
  }

  abbrev pub any : (j : Option State) → IsHeld env absent j → IsHeld env absent j
  any j h = h

  keep_pending-fails :
      {Q : Done → World → Type 0} (r : Reason) (c e : Err)
      → Triple Nothing (keep_pending env r c e) Q (λ _. Nothing)
  unfolding keep_pending
  keep_pending-fails r c e =
      Triple-bind (Triple-set_guard {Q = λ _. Nothing} _ (λ w h. Nothing-guard w _ h.name_eq h))
        λ _. Triple-raise _ (λ w h. h)

  confirm_skipped-Nothing :
      (c : Err) (b : Bool) (K : Guard → Type 0)
      → Triple
          (Inv env named absent absent K)
          (confirm_skipped env c b)
          (λ _. Inv env named absent absent K)
          (λ _. Nothing)
  unfolding confirm_skipped live_after journal
  confirm_skipped-Nothing c b K =
      Triple-if b
        (λ _.
          Triple-recover
            (Keeps-err env named absent absent any K _ (Call.create_finished []) (λ e t. refl)
              (λ e t. refl))
            (λ e. Triple-before (Inv-Nothing absent K) (keep_pending-fails _ c e)))
        (λ _. Triple-pure tt (λ w h. h))

  -- Where nothing runs, a creation is taken back with nothing left running.
  pub finish_without_create-Nothing :
      {A : Type 0} (Q : A → World → Type 0) (c : Err)
      → Triple Nothing (finish_without_create env c) Q (λ _. Nothing)
  unfolding finish_without_create
  finish_without_create-Nothing Q c = Triple-gets _ λ g.
      Triple-if (not (is_some g.state.sandbox_id || g.reservation_pending))
        (λ _. Triple-raise c (λ w h. h.0))
        (λ _.
          Triple-before
            (λ w h. Inv-also env named absent absent any Anything (λ h. h ≡ g) w h.0 h.1)
            (Triple-bind (confirm_skipped-Nothing c _ (λ h. h ≡ g)) λ _.
              Triple-bind
                (Triple-recover (Keeps-save env named absent absent any (λ h. h ≡ g) _ (λ w h. tt))
                  (λ e. Triple-before (Inv-Nothing absent (λ h. h ≡ g)) (keep_pending-fails _ c e)))
                λ _.
                  Triple-bind
                    (Triple-set_guard {Q = λ _. Nothing} _ (λ w h.
                      Nothing-guard w _
                        (ap
                            (λ (g : Guard).
                              env.name g.state.run_id g.state.attempt_id g.state.fence)
                            (sym h.also)
                          ∙ h.name_eq)
                        (Inv-Nothing absent (λ h. h ≡ g) w h)))
                    λ _. Triple-raise c (λ w h. h)))

  -- A name is reserved in the journal and in the guard, and nothing runs.
  abbrev pub Reserved : World → Type 0
  Reserved = Inv env named absent unsure IsReserving

  abbrev pub nothing_needed : (j : Option State) → IsHeld env unsure j → IsHeld env absent j
  nothing_needed j h = tt

  -- A change of the guard's flags that keeps its state and the pending reservation.
  pub IsReserving-guard :
      (l r : Live) (w : World) (f : Guard → Guard)
      → (f w.guard).state ≡ w.guard.state
      → (f w.guard).reservation_pending ≡ true
      → Inv env named l r IsReserving w
      → Inv env named l r IsReserving (record w { guard = f w.guard })
  IsReserving-guard l r w f es ep h = record {
    always = h.always;
    now = h.now;
    present = h.present;
    journaled = h.journaled;
    guarded = rw es h.guarded;
    name_eq = rw es h.name_eq;
    settled = λ p. absurd (not-or_true ((f w.guard).creation_pending) ep p);
    also = ep;
  }
