-- ===== src/Sandbox/Watch/Guarded.antt =====
-- How the watchdog's loop in internal/sandbox/watchdog.go goes on, and how it returns.
use shipmunk_runner.Prelude.{
  ℕ, ◌≤◌, ◌<◌, ◌≡◌, refl, ap, subst, ltb, not, Bytes, Option, some, List, [], ◌∷◌, ◌++◌, ℤ, inl,
  inr, arith, Bool-cases, All,
}
use shipmunk_runner.Sandbox.Watch.{
  Watch, Turn, Next, watching, ended, Ending, turn, run_watch, and_next, Arming, lease_of,
  deadline_of, new_watch, run_watchdog_command,
}
use shipmunk_runner.Sandbox.Watch.Kept.{IsWatch, Returns, Keeps, Handled, Timely, turn-Handled}

-- The turns by which a watchdog goes on from one watch to another, each read before the lease that it
-- has by then ends.
pub data Watched (name : Bytes) (deadline : ℕ) : Watch → List Turn → Watch → Type 0 where
  no_turn : {w : Watch} → Watched name deadline w [] w
  in_time :
      {w u : Watch} {ts : List Turn} (v : Watch) (t : Turn)
      → t.now < w.lease
      → turn name deadline w t ≡ watching v
      → Watched name deadline v ts u
      → Watched name deadline w (t ∷ ts) u

-- The turn at which the loop returned, with the watch that it had reached.
pub record Returned (name : Bytes) (deadline : ℕ) (w : Watch) (ts : List Turn) (e : Ending)
    : Type 0 where
  pub before : List Turn
  pub at : Turn
  pub after : List Turn
  pub state : Watch
  pub turns_eq : ts ≡ before ++ (at ∷ after)
  pub reached : Watched name deadline w before state
  pub timely : Timely state at (ended e)
  pub kept : IsWatch deadline state
  pub returns : Returns name state at e

abbrev pub Guarded : Bytes → ℕ → Watch → List Turn → Next → Type 0
Guarded name deadline w ts (watching v) =
    Keeps deadline w v × Watched name deadline w ts v × All (λ t. t.now < deadline) ts
Guarded name deadline w ts (ended e) = Returned name deadline w ts e

module _ (name : Bytes) (deadline : ℕ) where
  step_back :
      (w v : Watch) (t : Turn) (ts : List Turn)
      → turn name deadline w t ≡ watching v
      → Keeps deadline w v
      → t.now < w.lease
      → w.lease ≤ deadline
      → (n : Next) → Guarded name deadline v ts n
      → Guarded name deadline w (t ∷ ts) n
  unfolding run_watch
  step_back w v t ts e k now within (watching u) g = (
    record { longer = omega (arith, k.longer, g.0.longer); kept = g.0.kept },
    in_time v t now e g.1,
    (omega arith, g.2),
  )
  step_back w v t ts e k now within (ended x) g = record {
    before = t ∷ g.before;
    at = g.at;
    after = g.after;
    state = g.state;
    turns_eq = ap (λ ts. t ∷ ts) g.turns_eq;
    reached = in_time v t now e g.reached;
    timely = g.timely;
    kept = g.kept;
    returns = g.returns;
  }

  after_turn :
      (w : Watch) (t : Turn) (ts : List Turn)
      → IsWatch deadline w
      → ((v : Watch)
          → IsWatch deadline v
          → Guarded name deadline v ts (run_watch name deadline v ts))
      → (n : Next) → turn name deadline w t ≡ n
      → Handled name deadline w t n
      → Timely w t n
      → Guarded name deadline w (t ∷ ts) (and_next n (λ v. run_watch name deadline v ts))
  unfolding run_watch
  after_turn w t ts i rest (watching v) e h early =
      step_back w v t ts e h early i.within (run_watch name deadline v ts) (rest v h.kept)
  after_turn w t ts i rest (ended x) e h early = record {
    before = [];
    at = t;
    after = ts;
    state = w;
    turns_eq = refl;
    reached = no_turn;
    timely = early;
    kept = i;
    returns = h;
  }

  run_watch-Guarded :
      (w : Watch) (ts : List Turn)
      → IsWatch deadline w
      → Guarded name deadline w ts (run_watch name deadline w ts)
  unfolding run_watch
  run_watch-Guarded w [] i = (record { longer = omega arith; kept = i }, no_turn, tt)
  run_watch-Guarded w (t ∷ ts) i =
      let (h, early) = turn-Handled name deadline w t i in
      after_turn w t ts i (λ v k. run_watch-Guarded v ts k) (turn name deadline w t) refl h early

pub new_watch-IsWatch : (deadline lease : ℕ) → lease ≤ deadline → IsWatch deadline (new_watch lease)
new_watch-IsWatch deadline lease h = record {
  within = h;
  settled = λ e. cc;
  named = refl;
  shaped = refl;
}

-- While the watchdog still watches, every turn was read before the lease that it had by then, and so
-- before the deadline; its lease has not been shortened and ends by the deadline. Where it has returned,
-- it did so at a turn that it reached by such turns, and but for a cleanup within its lease too. If it
-- went on to a cleanup, that is given the confirmed container, and a creation in flight if there is one.
-- If it returned with no cleanup, then no creation was in flight and the confirmed container, or where
-- none is confirmed the name, was absent; or an acknowledgement could not be written. The confirmed
-- container has a full identifier, and a finished creation is not in flight.
pub run_watchdog_command-Guarded :
    (name : Bytes) (deadline lease : ℤ) (a : Arming) (ts : List Turn) (n : Next)
    → run_watchdog_command name deadline lease a ts ≡ some n
    → Guarded name (deadline_of a deadline) (new_watch (lease_of a deadline lease)) ts n
unfolding run_watchdog_command
run_watchdog_command-Guarded name deadline lease a ts n h =
    let first = lease_of a deadline lease in
    elim (Bool-cases (not (ltb a.now first))) [
      | inl late ↦ cc (rw late at h)
      | inr early ↦ elim (Bool-cases (not a.ready)) [
        | inl dumb ↦ cc (rw dumb at (rw early at h))
        | inr ready ↦
            subst (Guarded name (deadline_of a deadline) (new_watch first) ts)
              (some_injective (rw ready at (rw early at h)))
              (run_watch-Guarded name (deadline_of a deadline) (new_watch first) ts
                (new_watch-IsWatch (deadline_of a deadline) first (ground arith)))
      ]
    ]
  where
    some_injective : {m n : Next} → ◌≡◌ {A = Option Next} (some m) (some n) → m ≡ n
    some_injective e = cc
