-- ===== src/Polling.antt =====
-- The supervised loop of internal/command/runner_runtime.go: when polling goes on, pauses or stops.
-- The lines that it prints are not modelled.
pub mod Breaker
pub mod Pauses
use shipmunk_runner.Prelude.{
  ℕ, ◌+◌, ◌*◌, Bool, true, false, not, ◌&&◌, ◌||◌, Bytes, codes, Option, none, some, List, [], ◌∷◌,
  Result, ok, err, ltb, leb, bytes_eq, is_some, if◌then◌else◌,
}
use shipmunk_runner.Supervisor.Calls.{
  Err, status_of, uncertain, is_unconfirmed, has_refused, has_network,
}
use shipmunk_runner.Supervisor.Run.{Outcome}

-- `consecutiveRunnerFailureBound`, and the pauses in nanoseconds.
abbrev pub failure_bound : ℕ
failure_bound = 3

abbrev pub base_pause : ℕ
base_pause = 2_000_000_000

abbrev pub pause_cap : ℕ
pause_cap = 120_000_000_000

-- `failureCause`; `nothing` is the empty string of a fresh backoff.
pub data Cause : Type 0 where
  nothing refused transport other : Cause

pub record Backoff : Type 0 where
  pub cause : Cause
  pub streak : ℕ
  pub pause : ℕ

abbrev pub no_backoff : Backoff
no_backoff = record { cause = nothing; streak = 0; pause = 0 }

unfoldable pub failure_cause : Err → Cause
failure_cause e =
    if has_refused e
    then refused
    else if is_some (status_of e) || has_network e
    then transport
    else other

unfoldable pub cause_eq : Cause → Cause → Bool
cause_eq nothing nothing = true
cause_eq refused refused = true
cause_eq transport transport = true
cause_eq other other = true
cause_eq _ _ = false

abbrev pub grow : ℕ → ℕ
grow p = if ltb p pause_cap then (if ltb pause_cap (p * 2) then pause_cap else p * 2) else p

-- `transportBackoff.report`: what it does to the backoff.
unfoldable pub report : Backoff → Cause → Backoff
unfolding cause_eq
report b c =
    if not (cause_eq c b.cause)
    then record { cause = c; streak = 1; pause = base_pause }
    else record b { streak = b.streak + 1; pause = grow b.pause }

unfoldable pub retryable : Err → Bool
retryable e = is_unconfirmed e && not (has_refused e) && not (uncertain e)

-- The reasons of internal/codex that point at the runner.
unfoldable pub is_runner_reason : Bytes → Bool
is_runner_reason r =
    bytes_eq r (codes "malformed_output")
    || bytes_eq r (codes "missing_result")
    || bytes_eq r (codes "invalid_result")
    || bytes_eq r (codes "invalid_output_schema")

-- `runnerClassifiedFailure`: whether the attempt's failure points at the runner itself.
unfoldable pub classified : Result Err Outcome → Bool
unfolding is_runner_reason
classified (err e) =
    is_unconfirmed e && not (has_refused e || is_some (status_of e) || has_network e)
classified (ok o) = o.worked && is_runner_reason o.failure_reason

-- The exit code of a delivered outcome; `none` is an unsupported one.
unfoldable pub outcome_code : Bytes → Option ℕ
outcome_code r =
    if bytes_eq r (codes "findings")
      || bytes_eq r (codes "no_findings")
      || bytes_eq r (codes "changes_proposed")
    then some 0
    else if bytes_eq r (codes "incomplete") || bytes_eq r (codes "needs_input")
    then some 1
    else none

pub record Poller : Type 0 where
  pub failures : ℕ
  pub backoff : Backoff

abbrev pub start : Poller
start = record { failures = 0; backoff = no_backoff }

-- One call of `RunOnce` with its answer, and whether the pause after it ran to its end.
pub record Round : Type 0 where
  pub answer : Result Err Outcome
  pub slept : Bool

pub data Next : Type 0 where
  exit : ℕ → Next
  again : Poller → Next

abbrev pub delivered_ok : Result Err Outcome → Bool
delivered_ok (ok o) = o.worked
delivered_ok (err _) = false

unfoldable pub count_failure : ℕ → Result Err Outcome → ℕ
count_failure n r = if classified r then n + 1 else if delivered_ok r then 0 else n

abbrev pub pause_then : Bool → Poller → Next
pause_then slept p = if slept then again p else exit 1

abbrev pub finish_outcome : Bool → Poller → Option ℕ → Next
finish_outcome once p none = exit 1
finish_outcome once p (some code) = if once then exit code else again p

unfoldable pub after_answer : Bool → Poller → Bool → Result Err Outcome → Next
unfolding retryable failure_cause outcome_code
after_answer once p slept (err e) =
    if retryable e && not once
    then pause_then slept (record p { backoff = report p.backoff (failure_cause e) })
    else exit 1
after_answer once p slept (ok o) =
    let p' = record p { backoff = no_backoff } in
    if o.worked
    then finish_outcome once p' (outcome_code o.result)
    else if once
    then exit 0
    else pause_then slept p'

-- One round of `runSupervised`.
unfoldable pub poll : Bool → Poller → Round → Next
unfolding count_failure after_answer
poll once p r =
    let n = count_failure p.failures r.answer in
    if leb failure_bound n
    then exit 1
    else after_answer once (record p { failures = n }) r.slept r.answer

abbrev pub and_then : Next → (Poller → Next) → Next
and_then (exit c) f = exit c
and_then (again p) f = f p

-- The loop over the answers of its rounds; `again` means that it still polls after them.
unfoldable pub run_supervised : Bool → Poller → List Round → Next
unfolding poll
run_supervised once p [] = again p
run_supervised once p (r ∷ rest) = and_then (poll once p r) (λ q. run_supervised once q rest)
