-- ===== src/Supervisor/Held.antt =====
-- What may still run after a history of calls, and what the journal must say of it.
pub mod Renewal
pub mod Creation
pub mod Reservation
pub mod Published
pub mod Attempt
pub mod Released
pub mod Cleared
pub mod Once
use shipmunk_runner.Prelude.{
  ◌≡◌, refl, Bool, true, false, Bytes, Option, none, some, List, [], ◌∷◌, Result, ok, err, ◌⊎◌,
  bytes_eq, ◌||◌, is_some, if◌then◌else◌, ℤ,
}
use shipmunk_runner.Json.{Fields}
use shipmunk_runner.Journal.{State}
use shipmunk_runner.Supervisor.Calls.{
  Err, Call, Trace, Execution, uncertain, journal, create_sandbox, reconcile_sandbox, execute,
  cleanup_executor,
}
use shipmunk_runner.Supervisor.Action.{Env, Guard, World}

-- A container with its identifier, a creation with an unknown end, the resources of a composite
-- executor, or a second creation beside one of these.
pub data Live : Type 0 where
  absent : Live
  container : Bytes → Live
  unsure : Live
  composite : Live
  clash : Live

-- After `Create`, with nothing there before.
abbrev pub after_create : Result Err (Option Bytes) → Live
after_create (ok (some id)) = container id
after_create (ok none) = unsure
after_create (err e) = if uncertain e then unsure else absent

abbrev pub create_over : Live → Result Err (Option Bytes) → Live
create_over absent r = after_create r
create_over _ r = clash

abbrev pub after_execute : Live → Live
after_execute absent = composite
after_execute _ = clash

abbrev pub after_reconcile : Bytes → Option Err → Live → Live
after_reconcile id none (container j) = if bytes_eq id j then absent else container j
after_reconcile id _ l = l

abbrev pub after_cleanup : Option Err → Live → Live
after_cleanup none composite = absent
after_cleanup _ l = l

-- What runs after the calls of a trace.
unfoldable pub live_after : Trace → Live
live_after [] = absent
live_after (create_sandbox _ _ r ∷ t) = create_over (live_after t) r
live_after (execute _ _ _ ∷ t) = after_execute (live_after t)
live_after (reconcile_sandbox id e ∷ t) = after_reconcile id e (live_after t)
live_after (cleanup_executor e ∷ t) = after_cleanup e (live_after t)
live_after (_ ∷ t) = live_after t

module _ (env : Env) where
  -- The journal holds the reserved name of its attempt.
  abbrev pub IsReserved : State → Type 0
  IsReserved s =
      (n : Bytes) × (s.sandbox_id ≡ some n) × (env.name s.run_id s.attempt_id s.fence ≡ ok n)

  -- Whatever may run is in the journal: a container by its identifier or by its reserved name, a
  -- creation with an unknown end by its reserved name.
  abbrev pub IsHeld : Live → Option State → Type 0
  IsHeld absent j = Unit
  IsHeld (container id) (some s) =
      (env.has_executor ≡ false) × ((s.sandbox_id ≡ some id) ⊎ IsReserved s)
  IsHeld unsure (some s) = (env.has_executor ≡ false) × IsReserved s
  IsHeld composite (some s) = env.has_executor ≡ true
  IsHeld _ _ = ⊥

  -- At every moment of a history, so also where the process was killed.
  abbrev pub AlwaysHeld : Trace → Type 0
  AlwaysHeld [] = Unit
  AlwaysHeld (c ∷ t) = IsHeld (live_after (c ∷ t)) (journal (c ∷ t)) × AlwaysHeld t

  -- What the guard's state must say once no creation is pending.
  abbrev pub IsSettled : Live → State → Type 0
  IsSettled (container id) s = s.sandbox_id ≡ some id
  IsSettled unsure s = ⊥
  IsSettled clash s = ⊥
  IsSettled _ s = Unit

  -- Between two calls of an attempt with the name `named`: `l` runs, and the journal and the guard
  -- hold what `r` wants; `K` is what else is known of the guard.
  pub record Inv (named : Result Err Bytes) (l r : Live) (K : Guard → Type 0) (w : World)
      : Type 0 where
    pub always : AlwaysHeld w.trace
    pub now : live_after w.trace ≡ l
    pub present : is_some (journal w.trace) ≡ true
    pub journaled : IsHeld r (journal w.trace)
    pub guarded : IsHeld r (some w.guard.state)
    pub name_eq : env.name w.guard.state.run_id w.guard.state.attempt_id w.guard.state.fence ≡ named
    pub settled :
        (w.guard.creation_pending || w.guard.reservation_pending) ≡ false
        → IsSettled l w.guard.state
    pub also : K w.guard

  pub AlwaysHeld-now : (t : Trace) → AlwaysHeld t → IsHeld (live_after t) (journal t)
  unfolding live_after journal
  AlwaysHeld-now [] h = tt
  AlwaysHeld-now (c ∷ t) h = h.0
