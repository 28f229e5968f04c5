-- ===== src/Tests/Supervision.antt =====
-- A supervisor whose surroundings do what is asked, and one whose stopped reports are refused.
use shipmunk_runner.Prelude.{
  pos, ◌≡◌, refl, true, false, Bytes, codes, none, some, List, [], ◌∷◌, ◌++◌, ok, bytes_eq,
}
use shipmunk_runner.Supervisor
use shipmunk_runner.Json.{Fields, end, field, str, get_string, put}
use shipmunk_runner.Claim.{Claim}
use shipmunk_runner.Journal.{State}
use shipmunk_runner.Supervisor.Calls.{
  Err, message, stopped, control_plane, Trace, committed, journal, send_events, Execution, Artifact,
  uncertain, status_of,
}
use shipmunk_runner.Supervisor.Action.{
  Env, World, Guard, pure, raise, lift, gets, try, ask, ask_result, ask_err, ask_commit, check,
  set_guard, block, recover, wrapping, ◌>>=◌,
}
use shipmunk_runner.Supervisor.Lease.{
  live, save, renew, tick, tick_times, yield, new_lease_guard, reserve, begin_create, created,
  full_container_id, legacy_container_id, stop,
}
use shipmunk_runner.Supervisor.Recovery.{
  refused_acknowledgement, recovered_claim, confirmed, acknowledge, clear, remove,
  reconcile_container, release_sandbox, release_watchdog, cleanup, reconcile, recover_journal,
}
use shipmunk_runner.Supervisor.Run.{
  Outcome, send_from, upload_all, deliver, publish, run_process, run_named, run_sandbox, run_claim,
  run_claimed, run_next, run_once,
}
use shipmunk_runner.Supervisor.Held.{live_after, IsHeld}
use shipmunk_runner.Supervisor.Held.Once.{Life, starting, Life-IsHeld}
use shipmunk_runner.Supervisor.Frames.Cleaned.{delivered, IsReleased}
use shipmunk_runner.Supervisor.Frames.Delivery.{run_once-Worked}
use shipmunk_runner.Supervisor.Frames.Batches.{IsBatched, sent, sent-send_from}
use shipmunk_runner.Supervisor.Frames.Settlement.{
  Refuses, counted, recoveries, third_refusal_settles,
}
use shipmunk_runner.Supervisor.Frames.Finished.{trace-deliver-yield}

abbrev attempt : Bytes
attempt = codes "01k4w000000000000000000002"

abbrev the_claim : Claim
the_claim = record {
  run_id = codes "01k4w000000000000000000001";
  attempt_id = attempt;
  fence = pos 7;
  lease_expires_at = 100;
  deadline = 1000;
  manifest = end;
}

abbrev place : Claim → Bytes
place c = codes "/w/" ++ c.attempt_id

abbrev id : Bytes
id = codes "0123456789abcdef0123456789abcdef0123456789abcdef0123456789abcdef"

abbrev the_result : Fields
the_result = field (codes "outcome") (str (codes "completed")) end

abbrev the_execution : Execution
the_execution = record {
  events = codes "{}" ∷ codes "[]" ∷ [];
  artifacts = [];
  result = some the_result;
  failure_reason = [];
}

-- Every call succeeds, and one round of the heartbeat loop comes before each.
abbrev pub calm : Env
calm = record {
  has_client = true;
  has_state = true;
  has_workspaces = true;
  has_sandbox = true;
  has_watchdog = true;
  has_executor = false;
  has_executor_lease = false;
  path = place;
  name = λ r a f. ok (codes "shipmunk-" ++ a);
  sanitize = λ m. m;
  claim_from_manifest = λ m n. ok the_claim;
  decode_execution = λ c code out. ok the_execution;
  validate_result = λ r. none;
  encode_events = λ es. none;
  now = λ t. 50;
  ticks = λ t. 1;
  parent_err = λ t. none;
  attempt_err = λ t. none;
  timer_fired = λ t. false;
  load = λ t. none;
  save = λ s t. committed;
  clear = λ t. committed;
  writable = λ t. none;
  next_claim = λ t. ok (some the_claim);
  beat = λ t. ok (90, false);
  acknowledge = λ c t. none;
  send = λ es t. none;
  upload = λ a t. ok (codes "artifact");
  deliver = λ r t. none;
  prepare = λ t. ok (place the_claim);
  remove = λ p t. none;
  create = λ m p t. ok (some id);
  reconcile = λ i t. none;
  start = λ t. none;
  wait = λ t. ok (pos 0, codes "{}");
  arm = λ n l d t. none;
  renew_watchdog = λ l t. none;
  begin_create = λ t. none;
  end_create = λ i t. none;
  disarm = λ t. none;
  run_executor = λ m p t. ok the_execution;
  clean_executor = λ t. none;
  renew_executor = λ l t. none;
}

abbrev the_state : State
the_state = record {
  run_id = the_claim.run_id;
  attempt_id = attempt;
  fence = pos 7;
  profile_id = none;
  sandbox_id = none;
  lease_expires_at = 100;
  deadline = 1000;
  workspace = place the_claim;
  refused_stopped_count = pos 0;
}

abbrev unused : Guard
unused = record {
  state = the_state;
  watchdog = false;
  finished = false;
  creation_pending = false;
  reservation_pending = false;
  cancelled = false;
  looping = true;
}

abbrev fresh_world : World
fresh_world = starting calm unused []

abbrev done : Outcome
done = record {
  worked = true;
  run_id = the_claim.run_id;
  attempt_id = attempt;
  result = codes "completed";
  failure_reason = [];
}

calm_works : (run_once calm fresh_world).0 ≡ ok done
unfolding run_once reconcile recover_journal run_next run_claimed run_claim run_sandbox run_named
    run_process publish send_from upload_all deliver live save renew tick tick_times yield
    new_lease_guard reserve begin_create created full_container_id stop cleanup release_sandbox
    release_watchdog reconcile_container confirmed remove acknowledge clear journal pure raise lift
    gets try ask ask_result ask_err ask_commit check set_guard block recover wrapping ◌>>=◌
    get_string put bytes_eq
calm_works = refl

run_once-Worked_example :
    (delivered (run_once calm fresh_world).1.trace ≡ true)
    × IsReleased calm done.run_id done.attempt_id (run_once calm fresh_world).1
run_once-Worked_example = run_once-Worked calm fresh_world done calm_works refl

Life-IsHeld_example :
    IsHeld calm
      (live_after (run_once calm fresh_world).1.trace)
      (journal (run_once calm fresh_world).1.trace)
Life-IsHeld_example = Life-IsHeld calm (Life.run unused Life.begin)

trace-deliver-yield_example :
    (yield calm (deliver calm the_result fresh_world).1).1.trace
    ≡ Supervisor.Calls.complete the_result none ∷ []
unfolding deliver live check ask_err set_guard ◌>>=◌
trace-deliver-yield_example = trace-deliver-yield calm the_result fresh_world refl

abbrev many : List Bytes
many = codes "1" ∷ codes "2" ∷ codes "3" ∷ []

sent-send_from_example :
    (sent (send_from calm 3 0 many fresh_world).1.trace ≡ many)
    × IsBatched (send_from calm 3 0 many fresh_world).1.trace
unfolding send_from sent live save renew tick tick_times yield pure raise lift gets ask_result
    ask_err ask_commit check set_guard recover ◌>>=◌
sent-send_from_example = sent-send_from calm many fresh_world tt refl

abbrev refusing : Env
refusing = record calm { acknowledge = λ c t. some (control_plane 409) }

abbrev container_state : State
container_state = record the_state { sandbox_id = some id }

abbrev journaled : World
journaled = starting refusing unused (Supervisor.Calls.save_journal container_state committed ∷ [])

refusing-Refuses : Refuses refusing container_state (control_plane 409)
unfolding refused_acknowledgement status_of recovered_claim bytes_eq legacy_container_id
    full_container_id
refusing-Refuses = record {
  loads = λ t. refl;
  saves = λ s t. refl;
  clears = λ t. refl;
  cleans = λ t. refl;
  removes = λ p t. refl;
  refuses = λ c t. refl;
  conflict = refl;
  own_path = refl;
  reconciles = λ i t. refl;
  resolved = (refl, refl, (codes "shipmunk-" ++ attempt, refl, refl));
}

third_refusal_settles_example :
    (journal (recoveries 1 refusing journaled).trace ≡ some (counted container_state 1))
    × (journal (recoveries 2 refusing journaled).trace ≡ some (counted container_state 2))
    × (journal (recoveries 3 refusing journaled).trace ≡ none)
unfolding journal
third_refusal_settles_example =
    third_refusal_settles refusing container_state (control_plane 409) journaled refusing-Refuses
      refl
