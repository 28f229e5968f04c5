-- ===== src/Tests/Journal.antt =====
-- A journal that is written and read again.
use shipmunk_runner.Prelude.{
  ℕ, ◌≡◌, refl, true, Bytes, codes, Option, none, some, ok, ℤ, pos, parse_int, format_int, bytes_eq,
}
use shipmunk_runner.Journal.{State}
use shipmunk_runner.Journal.Valid.{is_valid_state, is_ulid, is_sandbox_id, is_workspace}
use shipmunk_runner.Journal.Codec.{load_state, state_object}
use shipmunk_runner.Journal.Saved.{load_state-state_object}

abbrev reserved_state : State
reserved_state = record {
  run_id = codes "01k4w000000000000000000001";
  attempt_id = codes "01k4w000000000000000000002";
  fence = pos 7;
  profile_id = none;
  sandbox_id = some (codes "shipmunk-01k4w000000000000000000002");
  lease_expires_at = 100;
  deadline = 1000;
  workspace = codes "/var/w/01k4w000000000000000000002-7";
  refused_stopped_count = pos 2;
}

-- Times as plain numbers.
abbrev format_time : ℕ → Bytes
format_time t = format_int (pos t)

abbrev natural : Option ℤ → Option ℕ
natural (some (pos n)) = some n
natural _ = none

abbrev parse_time : Bytes → Option ℕ
parse_time s = natural (parse_int s)

reserved_state_valid : is_valid_state reserved_state ≡ true
unfolding is_valid_state is_ulid is_sandbox_id is_workspace bytes_eq format_int
reserved_state_valid = refl

load_state-state_object_example :
    load_state parse_time (state_object format_time reserved_state) ≡ ok reserved_state
unfolding parse_int format_int
load_state-state_object_example =
    load_state-state_object parse_time format_time reserved_state reserved_state_valid refl refl
