-- ===== src/Tests/Polling.antt =====
-- Runs of the supervised loop: rounds that fail, an idle one and a delivered result.
use shipmunk_runner.Prelude.{
  ◌≡◌, refl, true, false, codes, List, [], ◌∷◌, ◌++◌, ok, err, bytes_eq, ◌*◌, ◌^◌, ◌<◌,
}
use shipmunk_runner.Supervisor.Calls.{
  other, Err, message, network, uncertain, status_of, has_refused, is_unconfirmed, has_network,
}
use shipmunk_runner.Supervisor.Recovery.{unconfirmed}
use shipmunk_runner.Polling.{
  Poller, Round, again, start, run_supervised, classified, failure_bound, transport, no_backoff,
  report, base_pause, cause_eq, poll, count_failure, after_answer, retryable, failure_cause,
  is_runner_reason, outcome_code,
}
use shipmunk_runner.Polling.Breaker.{healthy, count_classified, breaker_bound, retried_error}
use shipmunk_runner.Polling.Pauses.{reports, capped, reports_lem}

abbrev unreachable : Err
unreachable = unconfirmed network

abbrev untold : Err
untold = unconfirmed (message (other 0))

abbrev bad_round : Round
bad_round = record { answer = err untold; slept = true }

abbrev lost_round : Round
lost_round = record { answer = err unreachable; slept = true }

abbrev good_round : Round
good_round = record {
  answer = ok (record {
    worked = true;
    run_id = codes "r";
    attempt_id = codes "a";
    result = codes "findings";
    failure_reason = [];
  });
  slept = true;
}

abbrev two_bad : List Round
two_bad = bad_round ∷ lost_round ∷ bad_round ∷ []

abbrev still : Poller
still = record { failures = 0; backoff = no_backoff }

goes_on : run_supervised false start (good_round ∷ (two_bad ++ (good_round ∷ []))) ≡ again still
unfolding run_supervised poll count_failure after_answer retryable failure_cause is_runner_reason
    outcome_code classified report bytes_eq cause_eq is_unconfirmed has_refused status_of
    has_network uncertain
goes_on = refl

breaker_bound_example : count_classified two_bad < failure_bound
unfolding healthy classified count_classified is_unconfirmed has_refused status_of has_network
breaker_bound_example =
    breaker_bound false (good_round ∷ []) two_bad (good_round ∷ []) still goes_on
      (refl, (refl, (refl, tt)))

retried_error_example :
    (is_unconfirmed untold ≡ true) × (has_refused untold ≡ false) × (uncertain untold ≡ false)
retried_error_example =
    retried_error (good_round ∷ bad_round ∷ lost_round ∷ []) (good_round ∷ []) bad_round untold
      still goes_on refl

reports_lem_example :
    reports 7 no_backoff transport
    ≡ record { cause = transport; streak = 8; pause = capped (base_pause * 2 ^ 7) }
unfolding cause_eq
reports_lem_example = reports_lem 7 no_backoff transport refl
