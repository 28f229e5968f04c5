-- ===== src/Supervisor/Held/Renewal.antt =====
-- The operations of internal/supervisor/lease.go that change no resource.
use shipmunk_runner.Prelude.{
  ℕ, zero, suc, ◌≡◌, refl, sym, ◌∙◌, subst, ap, Bool, true, false, Bytes, Option, none, some, ◌∷◌,
  Result, ok, err, leb, is_some,
}
use shipmunk_runner.Journal.{State}
use shipmunk_runner.Supervisor.Calls.{
  Err, Call, Commit, Trace, journal, rewritten, committed, failed, save_journal,
}
use shipmunk_runner.Supervisor.Action.{Env, Guard, World, ask_err, ask_result}
use shipmunk_runner.Supervisor.Lease.{
  live, save, accept_lease, renew_watchdog_lease, renew_executor_lease, renew, end_loop, tick,
  tick_times, yield, stop,
}
use shipmunk_runner.Supervisor.Triples.{
  Keeps, Triple-pure, Triple-raise, Triple-before, Triple-after, Triple-if, Triple-recover,
  Triple-bind, Triple-gets, Triple-set_guard, Triple-check, Triple-ask_err, Triple-ask_commit,
  Triple-ask_result,
}
use shipmunk_runner.Supervisor.Held.{
  Live, absent, container, unsure, composite, clash, live_after, IsHeld, IsSettled, Inv,
}

-- A new lease in the state changes nothing that the invariant reads.
IsHeld-lease :
    (env : Env) (r : Live) (s : State) (t : ℕ)
    → IsHeld env r (some s)
    → IsHeld env r (some (record s { lease_expires_at = t }))
IsHeld-lease env absent s t h = h
IsHeld-lease env (container id) s t h = h
IsHeld-lease env unsure s t h = h
IsHeld-lease env composite s t h = h
IsHeld-lease env clash s t h = h

IsSettled-lease :
    (env : Env) (l : Live) (s : State) (t : ℕ)
    → IsSettled env l s
    → IsSettled env l (record s { lease_expires_at = t })
IsSettled-lease env absent s t h = h
IsSettled-lease env (container id) s t h = h
IsSettled-lease env unsure s t h = h
IsSettled-lease env composite s t h = h
IsSettled-lease env clash s t h = h

module _ (env : Env) (named : Result Err Bytes) (l r : Live)
    (covers : (j : Option State) → IsHeld env r j → IsHeld env l j) where
  module _ (K : Guard → Type 0) where
    abbrev I : World → Type 0
    I = Inv env named l r K

    -- A call that changes neither the resources nor the journal.
    pub Inv-call :
        (c : Call) (w : World)
        → live_after (c ∷ w.trace) ≡ live_after w.trace
        → journal (c ∷ w.trace) ≡ journal w.trace
        → I w
        → I (record w { trace = c ∷ w.trace })
    Inv-call c w el ej h = record {
      always = (rw (el, ej, h.now) (covers _ h.journaled), h.always);
      now = rw (el, h.now);
      present = rw ej h.present;
      journaled = rw ej h.journaled;
      guarded = h.guarded;
      name_eq = h.name_eq;
      settled = h.settled;
      also = h.also;
    }

    pub Keeps-err :
        (answer : Trace → Option Err) (entry : Option Err → Call)
        → ((e : Option Err) (t : Trace) → live_after (entry e ∷ t) ≡ live_after t)
        → ((e : Option Err) (t : Trace) → journal (entry e ∷ t) ≡ journal t)
        → Keeps I (ask_err answer entry)
    Keeps-err answer entry el ej =
        Triple-ask_err answer entry
          (λ w h. Inv-call (entry none) w (el none w.trace) (ej none w.trace) h)
          (λ e w h. Inv-call (entry (some e)) w (el (some e) w.trace) (ej (some e) w.trace) h)

    pub Keeps-result :
        {A : Type 0} (answer : Trace → Result Err A) (entry : Result Err A → Call)
        → ((e : Result Err A) (t : Trace) → live_after (entry e ∷ t) ≡ live_after t)
        → ((e : Result Err A) (t : Trace) → journal (entry e ∷ t) ≡ journal t)
        → Keeps I (ask_result answer entry)
    Keeps-result answer entry el ej =
        Triple-ask_result answer entry
          (λ a w h. Inv-call (entry (ok a)) w (el (ok a) w.trace) (ej (ok a) w.trace) h)
          (λ e w h. Inv-call (entry (err e)) w (el (err e) w.trace) (ej (err e) w.trace) h)

    pub Keeps-live : Keeps I (live env)
    unfolding live
    Keeps-live = Triple-check _ (λ w h. h) (λ e w h. h)

    rewritten_held :
        (s : State) (c : Commit) (j : Option State)
        → IsHeld env r (some s)
        → IsHeld env r j
        → IsHeld env r (rewritten j (some s) c)
    rewritten_held s committed j h k = h
    rewritten_held s (failed e true) j h k = h
    rewritten_held s (failed e false) j h k = k

    rewritten_present :
        (s : State) (c : Commit) (j : Option State)
        → is_some j ≡ true
        → is_some (rewritten j (some s) c) ≡ true
    rewritten_present s committed j h = refl
    rewritten_present s (failed e true) j h = refl
    rewritten_present s (failed e false) j h = h

    -- A write of a state that holds what the journal must hold.
    pub Inv-save :
        (s : State) (c : Commit) (w : World)
        → IsHeld env r (some s)
        → I w
        → I (record w { trace = save_journal s c ∷ w.trace })
    unfolding live_after journal
    Inv-save s c w hs h = record {
      always =
          (rw h.now (covers _ (rewritten_held s c (journal w.trace) hs h.journaled)), h.always);
      now = h.now;
      present = rewritten_present s c (journal w.trace) h.present;
      journaled = rewritten_held s c (journal w.trace) hs h.journaled;
      guarded = h.guarded;
      name_eq = h.name_eq;
      settled = h.settled;
      also = h.also;
    }

    pub Keeps-save :
        (s : State) → ((w : World) → I w → IsHeld env r (some s)) → Keeps I (save env s)
    unfolding save
    Keeps-save s hs =
        Triple-ask_commit (env.save s) (save_journal s) (λ w h. Inv-save s committed w (hs w h) h)
          (λ e b w h. Inv-save s (failed e b) w (hs w h) h)

  pub Inv-also :
      (K K' : Guard → Type 0) (w : World)
      → Inv env named l r K w
      → K' w.guard
      → Inv env named l r K' w
  Inv-also K K' w h k = record {
    always = h.always;
    now = h.now;
    present = h.present;
    journaled = h.journaled;
    guarded = h.guarded;
    name_eq = h.name_eq;
    settled = h.settled;
    also = k;
  }

  module _ (K : Guard → Type 0)
      (stable : (g : Guard) (t : ℕ)
        → K g
        → K (record g { state = record g.state { lease_expires_at = t } }))
      (ended : (g : Guard) → K g → K (record g { cancelled = true; looping = false })) where
    abbrev At : Guard → World → Type 0
    At g = Inv env named l r (λ h. K h × (h ≡ g))

    set_lease :
        (g : Guard) (t : ℕ) (w : World)
        → At g w
        → Inv env named l r K (record w {
          guard = record w.guard { state = record g.state { lease_expires_at = t } };
        })
    set_lease g t w h = record {
      always = h.always;
      now = h.now;
      present = h.present;
      journaled = h.journaled;
      guarded = IsHeld-lease env r g.state t (rw h.also.1 at h.guarded);
      name_eq =
          ap (λ (g : Guard). env.name g.state.run_id g.state.attempt_id g.state.fence)
            (sym h.also.1)
          ∙ h.name_eq;
      settled = λ p. IsSettled-lease env l g.state t (rw h.also.1 at (h.settled p));
      also =
          subst
            (λ (x : Guard). K (record w.guard { state = record x.state { lease_expires_at = t } }))
            h.also.1 (stable w.guard t h.also.0);
    }

    Keeps-renew_watchdog_lease :
        (g : Guard) (b : Bool) (t : ℕ) → Keeps (At g) (renew_watchdog_lease env b t)
    unfolding renew_watchdog_lease live_after journal
    Keeps-renew_watchdog_lease g b t =
        Triple-if b
          (λ _.
            Keeps-err (λ h. K h × (h ≡ g)) _ (Call.renew_watchdog t) (λ e t. refl) (λ e t. refl))
          (λ _. Triple-pure tt (λ w h. h))

    Keeps-renew_executor_lease : (g : Guard) (t : ℕ) → Keeps (At g) (renew_executor_lease env t)
    unfolding renew_executor_lease live_after journal
    Keeps-renew_executor_lease g t =
        Triple-if env.has_executor_lease
          (λ _.
            Keeps-err (λ h. K h × (h ≡ g)) _ (Call.renew_executor t) (λ e t. refl) (λ e t. refl))
          (λ _. Triple-pure tt (λ w h. h))

    drop-At : (g : Guard) (w : World) → At g w → Inv env named l r K w
    drop-At g w h = Inv-also (λ h. K h × (h ≡ g)) K w h h.also.0

    Keeps-accept_lease : (t : ℕ) → Keeps (Inv env named l r K) (accept_lease env t)
    unfolding accept_lease
    Keeps-accept_lease t = Triple-gets _ λ now.
        Triple-before (λ w h. h.0)
          (Triple-if (leb t now) (λ _. Triple-raise _ (λ w h. h))
            (λ _. Triple-gets _ λ g.
              Triple-before (λ w h. Inv-also K (λ h. K h × (h ≡ g)) w h.0 (h.0.also, h.1))
                (Triple-after (λ a w h. h) (λ e. drop-At g)
                  (Triple-bind
                    (Keeps-save (λ h. K h × (h ≡ g)) _
                      (λ w h. IsHeld-lease env r g.state t (rw h.also.1 at h.guarded)))
                    λ _. Triple-bind (Keeps-renew_watchdog_lease g g.watchdog t) λ _.
                      Triple-bind (Keeps-renew_executor_lease g t) λ _.
                        Triple-bind (Triple-check _ (λ w h. h) (λ e w h. h)) λ _.
                          Triple-bind (Keeps-live (λ h. K h × (h ≡ g)))
                            λ _. Triple-set_guard _ (set_lease g t)))))

    pub Keeps-renew : Keeps (Inv env named l r K) (renew env)
    unfolding renew live_after journal
    Keeps-renew = Triple-gets _ λ finished.
        Triple-before (λ w h. h.0)
          (Triple-if finished (λ _. Triple-pure tt (λ w h. h))
            (λ _. Triple-bind (Keeps-live K) λ _.
              Triple-bind (Keeps-result K _ Call.heartbeat (λ e t. refl) (λ e t. refl)) λ answer.
                Triple-if answer.1 (λ _. Triple-raise _ (λ w h. h))
                  (λ _. Triple-bind (Keeps-live K) λ _. Keeps-accept_lease answer.0)))

    set_ended :
        (w : World)
        → Inv env named l r K w
        → Inv env named l r K
            (record w { guard = record w.guard { cancelled = true; looping = false } })
    set_ended w h = record {
      always = h.always;
      now = h.now;
      present = h.present;
      journaled = h.journaled;
      guarded = h.guarded;
      name_eq = h.name_eq;
      settled = h.settled;
      also = ended w.guard h.also;
    }

    pub Keeps-stop : Keeps (Inv env named l r K) (stop env)
    unfolding stop
    Keeps-stop = Triple-set_guard _ set_ended

    Keeps-tick : Keeps (Inv env named l r K) (tick env)
    unfolding tick end_loop
    Keeps-tick = Triple-gets _ λ looping.
        Triple-before (λ w h. h.0)
          (Triple-if looping
            (λ _.
              Triple-recover (Triple-bind (Keeps-live K) λ _. Keeps-renew)
                (λ e. Triple-set_guard _ set_ended))
            (λ _. Triple-pure tt (λ w h. h)))

    Keeps-tick_times : (n : ℕ) → Keeps (Inv env named l r K) (tick_times env n)
    unfolding tick_times
    Keeps-tick_times zero = Triple-pure tt (λ w h. h)
    Keeps-tick_times (suc n) = Triple-bind Keeps-tick λ _. Keeps-tick_times n

    -- However many rounds of the heartbeat loop come in between, the invariant is kept.
    pub Keeps-yield : Keeps (Inv env named l r K) (yield env)
    unfolding yield
    Keeps-yield = Triple-gets _ λ n. Triple-before (λ w h. h.0) (Keeps-tick_times n)
