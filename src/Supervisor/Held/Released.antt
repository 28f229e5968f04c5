-- ===== src/Supervisor/Held/Released.antt =====
-- What is left running after the calls of `cleanup` and `reconcile` that release it.
use shipmunk_runner.Prelude.{
  ◌≡◌, refl, sym, ◌∙◌, true, false, Bytes, Option, none, some, ◌∷◌, ok, inl, inr, bytes_eq,
  bytes_eq_iff,
}
use shipmunk_runner.Journal.{State}
use shipmunk_runner.Supervisor.Calls.{
  Err, Call, Commit, Trace, journal, cleanup_executor, reconcile_sandbox,
}
use shipmunk_runner.Supervisor.Action.{Env, World, Action, Done, ask_err, ask_commit}
use shipmunk_runner.Supervisor.Recovery.{confirmed, clean_executor, reconcile_container}
use shipmunk_runner.Supervisor.Triples.{
  Triple, Keeps, Triple-raise, Triple-recover, Triple-ask_err, Triple-ask_commit,
}
use shipmunk_runner.Supervisor.Held.{
  Live, absent, container, unsure, composite, clash, after_cleanup, after_reconcile, live_after,
  IsHeld, IsSettled, IsReserved, AlwaysHeld,
}
use mathlib.Core.Bool.{false≢true}

module _ (env : Env) where
  abbrev pub History : World → Type 0
  History w = AlwaysHeld env w.trace

  -- `l` runs, and the journal holds it.
  abbrev pub Known : Live → World → Type 0
  Known l w = History w × (live_after w.trace ≡ l) × IsHeld env l (journal w.trace)

  abbrev pub Quiet : World → Type 0
  Quiet w = History w × (live_after w.trace ≡ absent)

  pub Quiet-call :
      (c : Call) (w : World)
      → live_after (c ∷ w.trace) ≡ absent
      → History w
      → Quiet (record w { trace = c ∷ w.trace })
  Quiet-call c w e h = ((rw e tt, h), e)

  pub Known-call :
      (l : Live) (c : Call) (w : World)
      → live_after (c ∷ w.trace) ≡ live_after w.trace
      → journal (c ∷ w.trace) ≡ journal w.trace
      → Known l w
      → Known l (record w { trace = c ∷ w.trace })
  Known-call l c w el ej h = ((rw (el, ej, h.1) h.2, h.0), el ∙ h.1, rw ej h.2)

  pub Quiet-err :
      (answer : Trace → Option Err) (entry : Option Err → Call)
      → ((e : Option Err) (t : Trace) → live_after (entry e ∷ t) ≡ live_after t)
      → Keeps Quiet (ask_err answer entry)
  Quiet-err answer entry el =
      Triple-ask_err answer entry (λ w h. Quiet-call (entry none) w (el none w.trace ∙ h.1) h.0)
        (λ e w h. Quiet-call (entry (some e)) w (el (some e) w.trace ∙ h.1) h.0)

  pub Quiet-commit :
      (answer : Trace → Commit) (entry : Commit → Call)
      → ((c : Commit) (t : Trace) → live_after (entry c ∷ t) ≡ live_after t)
      → Keeps Quiet (ask_commit answer entry)
  Quiet-commit answer entry el =
      Triple-ask_commit answer entry
        (λ w h. Quiet-call (entry Commit.committed) w (el Commit.committed w.trace ∙ h.1) h.0)
        (λ e b w h.
          Quiet-call (entry (Commit.failed e b)) w (el (Commit.failed e b) w.trace ∙ h.1) h.0)

  pub confirmed-Triple :
      {P : World → Type 0} {Q : Done → World → Type 0} {E : World → Type 0} {m : Action Done}
      → Triple P m Q (λ _. E)
      → Triple P (confirmed env m) Q (λ _. E)
  unfolding confirmed
  confirmed-Triple t = Triple-recover t (λ e. Triple-raise _ (λ w h. h))

  cleaned :
      env.has_executor ≡ true
      → (l : Live) (j : Option State) → IsHeld env l j
      → after_cleanup none l ≡ absent
  cleaned x absent j h = refl
  cleaned x composite j h = refl
  cleaned x (container id) (some s) h = cc h.0
  cleaned x (container id) none h = absurd h
  cleaned x unsure (some s) h = cc h.0
  cleaned x unsure none h = absurd h
  cleaned x clash j h = absurd h

  -- A confirmed cleanup of the executor leaves nothing running.
  pub clean_executor-Quiet :
      env.has_executor ≡ true
      → (l : Live)
      → Triple (Known l) (confirmed env (clean_executor env)) (λ _. Quiet) (λ _. History)
  unfolding clean_executor live_after journal
  clean_executor-Quiet x l = confirmed-Triple (
      Triple-ask_err _ cleanup_executor
        (λ w h. Quiet-call (cleanup_executor none) w (rw h.1 (cleaned x l _ h.2)) h.0)
        (λ e w h. (Known-call l (cleanup_executor (some e)) w refl refl h).0))

  reconcile-History :
      (l : Live) (id : Bytes) (e : Err) (w : World)
      → Known l w
      → History (record w { trace = reconcile_sandbox id (some e) ∷ w.trace })
  unfolding live_after journal
  reconcile-History l id e w h = (Known-call l (reconcile_sandbox id (some e)) w refl refl h).0

  -- The confirmed removal of the container that runs.
  pub reconcile-Quiet :
      (l : Live) (id : Bytes)
      → ((j : Option State) → IsHeld env l j → after_reconcile id none l ≡ absent)
      → Triple (Known l) (confirmed env (reconcile_container env id)) (λ _. Quiet) (λ _. History)
  unfolding reconcile_container live_after journal
  reconcile-Quiet l id f = confirmed-Triple (
      Triple-ask_err _ (reconcile_sandbox id)
        (λ w h. Quiet-call (reconcile_sandbox id none) w (rw h.1 (f _ h.2)) h.0)
        (λ e w h. reconcile-History l id e w h))

  bytes_eq_self : (s : Bytes) → bytes_eq s s ≡ true
  bytes_eq_self s = (bytes_eq_iff s s).1 refl

  removed : (id i : Bytes) → i ≡ id → after_reconcile i none (container id) ≡ absent
  removed id i e = rw (e, bytes_eq_self id)

  some_eq : {i j : Bytes} {o : Option Bytes} → o ≡ some i → o ≡ some j → i ≡ j
  some_eq p q = cc

  module _ (x : env.has_executor ≡ false) (s : State) where
    pub settled_none :
        (l : Live) (j : Option State)
        → IsSettled env l s
        → s.sandbox_id ≡ none
        → IsHeld env l j
        → l ≡ absent
    settled_none absent j f e h = refl
    settled_none composite (some _) f e h = cc
    settled_none composite none f e h = absurd h
    settled_none (container id) j f e h = cc
    settled_none unsure j f e h = absurd f
    settled_none clash j f e h = absurd f

    pub settled_some :
        (id : Bytes) (l : Live) (j : Option State)
        → IsSettled env l s
        → s.sandbox_id ≡ some id
        → IsHeld env l j
        → after_reconcile id none l ≡ absent
    settled_some id absent j f e h = refl
    settled_some id composite (some _) f e h = cc
    settled_some id composite none f e h = absurd h
    settled_some id (container i) j f e h = removed i id (some_eq e f)
    settled_some id unsure j f e h = absurd f
    settled_some id clash j f e h = absurd f

    pub held_none : (l : Live) → s.sandbox_id ≡ none → IsHeld env l (some s) → l ≡ absent
    held_none absent e h = refl
    held_none composite e h = cc
    held_none (container id) e (x, inl p) = cc
    held_none (container id) e (x, inr p) = cc p.1
    held_none unsure e h = cc h.1.1
    held_none clash e h = absurd h

    not_name :
        {l : Live} (id n : Bytes)
        → s.sandbox_id ≡ some id
        → env.name s.run_id s.attempt_id s.fence ≡ ok n
        → bytes_eq id n ≡ false
        → IsReserved env s
        → l ≡ absent
    not_name id n e q d (m, p, r) =
        let same : m ≡ n = cc in
        let e' : id ≡ n = some_eq e p ∙ same in
        absurd (false≢true (sym d ∙ (bytes_eq_iff id n).1 e'))

    -- An identifier that is not the reserved name is the container's.
    pub held_some :
        (id n : Bytes) (l : Live)
        → s.sandbox_id ≡ some id
        → env.name s.run_id s.attempt_id s.fence ≡ ok n
        → bytes_eq id n ≡ false
        → IsHeld env l (some s)
        → after_reconcile id none l ≡ absent
    held_some id n absent e q d h = refl
    held_some id n composite e q d h = cc
    held_some id n (container i) e q d (x, inl p) = removed i id (some_eq e p)
    held_some id n (container i) e q d (x, inr p) = not_name id n e q d p
    held_some id n unsure e q d h = not_name id n e q d h.1
    held_some id n clash e q d h = absurd h
