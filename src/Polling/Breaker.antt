-- ===== src/Polling/Breaker.antt =====
-- When the loop still polls: what its rounds cannot have been.
use shipmunk_runner.Prelude.{
  ℕ, ◌+◌, ◌<◌, ◌≡◌, refl, ap, subst, ◌∙◌, Bool, true, false, not, ◌&&◌, List, [], ◌∷◌, ◌++◌, Result,
  ok, err, arith, leb, inl, inr, Bool-cases, All, if◌then◌else◌,
}
use shipmunk_runner.Supervisor.Calls.{Err, uncertain, is_unconfirmed, has_refused}
use shipmunk_runner.Supervisor.Run.{Outcome}
use shipmunk_runner.Polling.{
  Poller, Round, Next, exit, again, start, classified, delivered_ok, count_failure, after_answer,
  poll, run_supervised, and_then, failure_bound,
}

again_eq : {p q : Poller} → again p ≡ again q → p ≡ q
again_eq e = cc

-- The failures that a list of rounds adds.
unfoldable pub count_classified : List Round → ℕ
count_classified [] = 0
count_classified (r ∷ rs) = (if classified r.answer then 1 else 0) + count_classified rs

-- A round that resets the count: a delivered result that does not point at the runner.
unfoldable pub healthy : Round → Bool
healthy r = not (classified r.answer) && delivered_ok r.answer

abbrev pub NoneHealthy : List Round → Type 0
NoneHealthy = All (λ r. healthy r ≡ false)

after_answer_failures :
    (once : Bool) (p q : Poller) (slept : Bool) (r : Result Err Outcome)
    → after_answer once p slept r ≡ again q
    → q.failures ≡ p.failures
unfolding after_answer
after_answer_failures once p q slept (err e) h = ground arith
after_answer_failures once p q slept (ok o) h = ground arith

poll_failures :
    (once : Bool) (p q : Poller) (r : Round)
    → poll once p r ≡ again q
    → (q.failures ≡ count_failure p.failures r.answer) × (q.failures < failure_bound)
unfolding poll
poll_failures once p q r h =
    let n = count_failure p.failures r.answer in
    elim (Bool-cases (leb failure_bound n)) [
      | inl high ↦ cc (rw high at h)
      | inr low ↦
          let e : q.failures ≡ n =
            after_answer_failures once (record p { failures = n }) q r.slept r.answer
              (rw low at h) in
          (e, rw e (ground arith))
    ]

-- A round that goes on with an error: one that may be tried again in the same process.
after_answer_retryable :
    (p q : Poller) (slept : Bool) (e : Err)
    → after_answer false p slept (err e) ≡ again q
    → (is_unconfirmed e ≡ true) × (has_refused e ≡ false) × (uncertain e ≡ false)
unfolding after_answer
after_answer_retryable p q slept e h = ground arith

and_then_again :
    (n : Next) (f : Poller → Next) {q : Poller}
    → and_then n f ≡ again q
    → (p : Poller) × (n ≡ again p) × (f p ≡ again q)
and_then_again (exit c) f h = cc
and_then_again (again p) f h = (p, refl, h)

pub run_supervised-append :
    (once : Bool) (p : Poller) (a b : List Round) {q : Poller}
    → run_supervised once p (a ++ b) ≡ again q
    → (m : Poller) × (run_supervised once p a ≡ again m) × (run_supervised once m b ≡ again q)
unfolding run_supervised
run_supervised-append once p [] b h = (p, refl, h)
run_supervised-append once p (r ∷ a) b h =
    let (v, first, rest) = and_then_again (poll once p r) (λ q. run_supervised once q (a ++ b)) h in
    let (m, before, after) = run_supervised-append once v a b rest in
    (m, ap (λ n. and_then n (λ q. run_supervised once q a)) first ∙ before, after)

count_step :
    (n : ℕ) (r : Round)
    → healthy r ≡ false
    → count_failure n r.answer ≡ n + (if classified r.answer then 1 else 0)
unfolding count_failure healthy
count_step n r h = ground arith

count_run :
    (once : Bool) (p q : Poller) (rs : List Round)
    → NoneHealthy rs
    → p.failures < failure_bound
    → run_supervised once p rs ≡ again q
    → (q.failures ≡ p.failures + count_classified rs) × (q.failures < failure_bound)
unfolding run_supervised count_classified
count_run once p q [] hs small h =
    let e = ap (λ (p : Poller). p.failures) (again_eq h) in (omega arith, omega arith)
count_run once p q (r ∷ rs) hs small h =
    let (v, first, rest) = and_then_again (poll once p r) (λ q. run_supervised once q rs) h in
    let step = poll_failures once p v r first in
    let tail = count_run once v q rs hs.1 step.1 rest in
    (omega (arith, step.0, tail.0, count_step p.failures r hs.0), tail.1)

failures_small :
    (once : Bool) (p q : Poller) (rs : List Round)
    → p.failures < failure_bound
    → run_supervised once p rs ≡ again q
    → q.failures < failure_bound
unfolding run_supervised
failures_small once p q [] small h =
    let e = ap (λ (p : Poller). p.failures) (again_eq h) in omega arith
failures_small once p q (r ∷ rs) small h =
    let (v, first, rest) = and_then_again (poll once p r) (λ q. run_supervised once q rs) h in
    failures_small once v q rs (poll_failures once p v r first).1 rest

-- While the loop still polls, no stretch of its rounds without a delivered result that does not
-- point at the runner holds three failures that do: with the third one the loop has stopped.
pub breaker_bound :
    (once : Bool) (a b c : List Round) (q : Poller)
    → run_supervised once start (a ++ (b ++ c)) ≡ again q
    → NoneHealthy b
    → count_classified b < failure_bound
breaker_bound once a b c q h hs =
    let (m, before, after) = run_supervised-append once start a (b ++ c) h in
    let (v, stretch, _) = run_supervised-append once m b c after in
    let small = failures_small once start m a (omega arith) before in
    let e = count_run once m v b hs small stretch in omega (arith, e.0, e.1)

unconfirmed_poll :
    (p q : Poller) (r : Round) (e : Err)
    → r.answer ≡ err e
    → poll false p r ≡ again q
    → (is_unconfirmed e ≡ true) × (has_refused e ≡ false) × (uncertain e ≡ false)
unfolding poll
unconfirmed_poll p q r e a h =
    elim (Bool-cases (leb failure_bound (count_failure p.failures r.answer))) [
      | inl high ↦ cc (rw high at h)
      | inr low ↦
          after_answer_retryable (record p { failures = count_failure p.failures r.answer }) q
            r.slept e
            (subst
              (λ (x : Result Err Outcome).
                after_answer false (record p { failures = count_failure p.failures r.answer })
                  r.slept x
                ≡ again q)
              a (rw low at h))
    ]

-- Where the loop goes on after an error, the cleanup was unconfirmed, no refused stopped report is
-- behind it and no uncertain creation: those two are never tried again in the same process.
pub retried_error :
    (a b : List Round) (r : Round) (e : Err) (q : Poller)
    → run_supervised false start (a ++ r ∷ b) ≡ again q
    → r.answer ≡ err e
    → (is_unconfirmed e ≡ true) × (has_refused e ≡ false) × (uncertain e ≡ false)
unfolding run_supervised
retried_error a b r e q h x =
    let (m, _, after) = run_supervised-append false start a (r ∷ b) h in
    let (v, first, _) = and_then_again (poll false m r) (λ q. run_supervised false q b) after in
    unconfirmed_poll m v r e x first
