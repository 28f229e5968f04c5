-- ===== src/Supervisor/Held/Reservation.antt =====
-- From the reserved name to the container: the steps of a creation in `runClaim`.
use shipmunk_runner.Prelude.{
  ◌≡◌, refl, sym, ◌∙◌, ap, true, false, not, Bytes, Option, none, some, ◌∷◌, Result, ok, err,
  is_some, ◌||◌, inl, inr,
}
use shipmunk_runner.Journal.{State}
use shipmunk_runner.Json.{Fields}
use shipmunk_runner.Supervisor.Calls.{Err, Call, Commit, uncertain, journal, create_sandbox}
use shipmunk_runner.Supervisor.Action.{Env, Guard, World, ask_result, wrapping}
use shipmunk_runner.Supervisor.Lease.{save, reserve, begin_create, created, full_container_id}
use shipmunk_runner.Supervisor.Triples.{
  Triple, Triple-raise, Triple-before, Triple-after, Triple-if, Triple-recover, Triple-bind,
  Triple-gets, Triple-set_guard, Triple-ask_commit, Triple-ask_result,
}
use shipmunk_runner.Supervisor.Held.{Live, absent, container, unsure, live_after, IsHeld, Inv}
use shipmunk_runner.Supervisor.Held.Renewal.{
  Inv-also, Inv-call, Inv-save, Keeps-err, Keeps-live, Keeps-save,
}
use shipmunk_runner.Supervisor.Held.Creation.{
  Anything, IsReserving, Nothing, Inv-Nothing, Nothing-guard, any, Reserved, nothing_needed,
  IsReserving-guard, not-or_true,
}

module _ (env : Env) (named : Result Err Bytes) where
  module _ (sandboxed : env.has_executor ≡ false) (n : Bytes) (name_ok : named ≡ ok n) where
    abbrev reserved_in : Guard → State
    reserved_in g = record g.state { sandbox_id = some n }

    abbrev Before : Guard → Guard → Type 0
    Before g h = (h.reservation_pending ≡ true) × (h.state ≡ g.state)

    abbrev Written : Guard → World → Type 0
    Written g w =
        Inv env named absent absent (Before g) w × (journal w.trace ≡ some (reserved_in g))

    set_pending :
        (g : Guard) (w : World)
        → Nothing env named w × (w.guard ≡ g)
        → Inv env named absent absent
            (Before g)
            (record w { guard = record w.guard { reservation_pending = true } })
    set_pending g w h =
        Inv-also env named absent absent (any env named) Anything (Before g) _
          (Nothing-guard env named w _ h.0.name_eq h.0) (refl, ap (λ (g : Guard). g.state) h.1)

    reserve_state :
        (g : Guard) (w : World)
        → Written g w
        → Reserved env named (record w { guard = record w.guard { state = reserved_in g } })
    reserve_state g w h =
        let e : env.name g.state.run_id g.state.attempt_id g.state.fence ≡ named =
          ap (λ (s : State). env.name s.run_id s.attempt_id s.fence) (sym h.0.also.1)
          ∙ h.0.name_eq in
        record {
          always = h.0.always;
          now = h.0.now;
          present = h.0.present;
          journaled = rw h.1 (sandboxed, (n, refl, e ∙ name_ok));
          guarded = (sandboxed, (n, refl, e ∙ name_ok));
          name_eq = e;
          settled = λ _. tt;
          also = h.0.also.0;
        }

    save_reserved :
        (g : Guard)
        → Triple
            (Inv env named absent absent (Before g))
            (save env (reserved_in g))
            (λ _. Written g)
            (λ _. Nothing env named)
    unfolding save live_after journal
    save_reserved g =
        Triple-ask_commit _ (Call.save_journal (reserved_in g))
          (λ w h. (
            Inv-save env named absent absent (any env named) (Before g) (reserved_in g)
                Commit.committed w tt h,
            refl,
          ))
          (λ e b w h. Inv-Nothing env named absent (Before g) _ (
            Inv-save env named absent absent (any env named) (Before g) (reserved_in g)
              (Commit.failed e b) w tt h))

    -- A reservation that is reported done is in the journal; a failed one leaves nothing running.
    pub reserve-Reserved :
        Triple
          (Nothing env named)
          (reserve env n)
          (λ _. Reserved env named)
          (λ _. Nothing env named)
    unfolding reserve live_after journal
    reserve-Reserved =
        Triple-bind (Keeps-live env named absent absent (any env named) Anything) λ _.
          Triple-gets _ λ g. Triple-bind (Triple-set_guard _ (set_pending g)) λ _.
            Triple-bind (save_reserved g) λ _.
              Triple-bind {Q = λ _. Reserved env named} (Triple-set_guard _ (reserve_state g)) λ _.
                Triple-after (λ a w h. h) (λ e w h. Inv-Nothing env named unsure IsReserving w h)
                  (Triple-bind
                    (Keeps-err env named absent unsure (nothing_needed env named) IsReserving _
                      (Call.arm_watchdog n g.state.lease_expires_at g.state.deadline) (λ e t. refl)
                      (λ e t. refl))
                    λ _.
                      Triple-bind {Q = λ _. Reserved env named}
                        (Triple-set_guard _ (λ w h.
                          IsReserving-guard env named absent unsure w
                            (λ g. record g { watchdog = true }) refl h.also h))
                        λ _.
                          Keeps-live env named absent unsure (nothing_needed env named) IsReserving)

    -- A creation begins only under a reservation.
    pub begin_create-Reserved :
        Triple
          (Reserved env named)
          (begin_create env)
          (λ _. Reserved env named)
          (λ _. Nothing env named)
    unfolding begin_create live_after journal
    begin_create-Reserved =
        Triple-after (λ a w h. h) (λ e w h. Inv-Nothing env named unsure IsReserving w h)
          (Triple-bind (Keeps-live env named absent unsure (nothing_needed env named) IsReserving)
            λ _. Triple-gets _ λ g.
              Triple-before (λ w h. h.0)
                (Triple-if (not g.watchdog || not (is_some g.state.sandbox_id))
                  (λ _. Triple-raise _ (λ w h. h))
                  (λ _.
                    Triple-bind {Q = λ _. Reserved env named}
                      (Triple-set_guard _ (λ w h.
                        IsReserving-guard env named absent unsure w
                          (λ g. record g { creation_pending = true }) refl h.also h))
                      λ _.
                        Triple-bind
                          (Keeps-err env named absent unsure (nothing_needed env named) IsReserving
                            _ Call.create_started (λ e t. refl) (λ e t. refl))
                          λ _.
                            Keeps-live env named absent unsure (nothing_needed env named)
                              IsReserving)))

    -- A container runs, and the reservation is still pending.
    abbrev pub Running : Bytes → (Guard → Type 0) → World → Type 0
    Running id K = Inv env named (container id) (container id) K

    abbrev pub Unsure : World → Type 0
    Unsure = Inv env named unsure unsure IsReserving

    held_as : (id : Bytes) (j : Option State) → IsHeld env unsure j → IsHeld env (container id) j
    held_as id (some s) h = (h.0, inr h.1)
    held_as id none h = h

    create_call :
        (l : Live) (c : Call) (w : World)
        → live_after (c ∷ w.trace) ≡ l
        → journal (c ∷ w.trace) ≡ journal w.trace
        → ((j : Option State) → IsHeld env unsure j → IsHeld env l j)
        → Reserved env named w
        → Inv env named l l IsReserving (record w { trace = c ∷ w.trace })
    create_call l c w el ej up h = record {
      always = (rw (el, ej) (up _ h.journaled), h.always);
      now = el;
      present = rw ej h.present;
      journaled = rw ej (up _ h.journaled);
      guarded = up _ h.guarded;
      name_eq = h.name_eq;
      settled = λ p. absurd (not-or_true w.guard.creation_pending h.also p);
      also = h.also;
    }

    create_failed :
        (c : Call) (w : World)
        → live_after (c ∷ w.trace) ≡ absent
        → journal (c ∷ w.trace) ≡ journal w.trace
        → Reserved env named w
        → Reserved env named (record w { trace = c ∷ w.trace })
    create_failed c w el ej h =
        Inv-call env named absent unsure (nothing_needed env named) IsReserving c w (el ∙ sym h.now)
          ej h

    abbrev pub Made : Option Bytes → World → Type 0
    Made none = Unsure
    Made (some id) = Running id IsReserving

    abbrev pub Failed : Err → World → Type 0
    Failed e w = (uncertain e ≡ true → Unsure w) × (uncertain e ≡ false → Nothing env named w)

    pub create-Made :
        (m : Fields) (path : Bytes)
        → Triple
            (Reserved env named)
            (ask_result (env.create m path) (create_sandbox m path))
            Made
            Failed
    unfolding live_after journal
    create-Made m path =
        Triple-ask_result _ (create_sandbox m path) (λ p w h. made p w h)
          (λ e w h. (
            λ u.
                create_call unsure (create_sandbox m path (err e)) w (rw (h.now, u)) refl (λ j x. x)
                  h,
            λ u.
                Inv-Nothing env named unsure IsReserving _
                  (create_failed (create_sandbox m path (err e)) w (rw (h.now, u)) refl h),
          ))
      where
        made :
            (p : Option Bytes) (w : World)
            → Reserved env named w
            → Made p (record w { trace = create_sandbox m path (ok p) ∷ w.trace })
        made none w h =
            create_call unsure (create_sandbox m path (ok none)) w (rw h.now) refl (λ j x. x) h
        made (some id) w h =
            create_call (container id) (create_sandbox m path (ok (some id))) w (rw h.now) refl
              (held_as id) h

    module _ (id : Bytes) where
      abbrev Created : Guard → Guard → Type 0
      Created g h = IsReserving h × (h ≡ g)

      set-Created :
          (g : Guard) (w : World)
          → Running id (Created g) w
          → Running id Anything (record w {
            guard = record w.guard {
              state = record g.state { sandbox_id = some id };
              creation_pending = false;
              reservation_pending = false;
            };
          })
      set-Created g w h = record {
        always = h.always;
        now = h.now;
        present = h.present;
        journaled = h.journaled;
        guarded = (sandboxed, inl refl);
        name_eq =
            ap (λ (g : Guard). env.name g.state.run_id g.state.attempt_id g.state.fence)
              (sym h.also.1)
            ∙ h.name_eq;
        settled = λ _. refl;
        also = tt;
      }

      -- The container's identifier takes the place of the reserved name.
      pub created-Running :
          Triple
            (Running id IsReserving)
            (created env id)
            (λ _. Running id Anything)
            (λ _. Running id Anything)
      unfolding created wrapping live_after journal
      created-Running = Triple-gets _ λ g.
          Triple-if (not g.creation_pending || not (full_container_id id))
            (λ _. Triple-raise _ (λ w h. forget w h.0))
            (λ _.
              Triple-before
                (λ w h.
                  Inv-also env named (container id) (container id) (λ j h. h) IsReserving
                    (Created g) w h.0 (h.0.also, h.1))
                (Triple-bind {Q = λ _. Running id (Created g)}
                  (Triple-recover
                    (Keeps-err env named (container id) (container id) (λ j h. h) (Created g) _
                      (Call.create_finished id) (λ e t. refl) (λ e t. refl))
                    (λ e. Triple-raise _ (forget_at g)))
                  λ _.
                    Triple-bind {Q = λ _. Running id (Created g)}
                      (Triple-recover
                        (Keeps-save env named (container id) (container id) (λ j h. h) (Created g) _
                          (λ w h. (sandboxed, inl refl)))
                        (λ e. Triple-raise _ (forget_at g)))
                      λ _. Triple-set_guard _ (set-Created g)))
        where
          forget : (w : World) → Running id IsReserving w → Running id Anything w
          forget w h =
              Inv-also env named (container id) (container id) (λ j h. h) IsReserving Anything w h
                tt

          forget_at : (g : Guard) (w : World) → Running id (Created g) w → Running id Anything w
          forget_at g w h =
              Inv-also env named (container id) (container id) (λ j h. h) (Created g) Anything w h
                tt
