-- ===== src/Tests/Claiming.antt =====
-- A claim from a manifest, and the state that is written for it.
use shipmunk_runner.Prelude.{
  false, not, ◌&&◌, ◌==◌, ℕ, ◌≡◌, refl, true, Bytes, codes, bytes_eq, Option, some, ◌++◌, ok, pos,
  parse_int, format_int,
}
use shipmunk_runner.Json.{Fields, end, field, str, number, get, get_string}
use shipmunk_runner.Claim.{Claim}
use shipmunk_runner.Claim.Manifest.{
  claim_from_validated_manifest, is_utc_timestamp, positive_integer,
}
use shipmunk_runner.Sandbox.{container_name, is_container_name}
use shipmunk_runner.Sandbox.Reserved.{container_name_lem}
use shipmunk_runner.Supervisor.Lease.{legacy_container_id}
use shipmunk_runner.Journal.Valid.{
  is_sandbox_id, is_valid_state, none_or, is_ulid, is_workspace, workspace_name,
}
use shipmunk_runner.Supervisor.Action.{Env}
use shipmunk_runner.Supervisor.Run.{initial_state}
use shipmunk_runner.Supervisor.Journaled.{initial_state-valid}
use shipmunk_runner.Tests.Supervision.{calm}

abbrev a_manifest : Fields
a_manifest = field (codes "protocol_version") (str (codes "1.0")) (
    field (codes "run_id") (str (codes "01k4w000000000000000000001")) (
      field (codes "attempt_id") (str (codes "01k4w000000000000000000002")) (
        field (codes "fence") (number (codes "7"))
          (field (codes "deadline") (str (codes "2026-01-02T03:04:05.6Z")) end))))

abbrev the_time : Bytes → Option ℕ
the_time s = some 1000

abbrev from_it : Claim
from_it = record {
  run_id = codes "01k4w000000000000000000001";
  attempt_id = codes "01k4w000000000000000000002";
  fence = pos 7;
  lease_expires_at = 45_000_000_050;
  deadline = 1000;
  manifest = a_manifest;
}

abbrev named_place : Claim → Bytes
named_place c = codes "/w/" ++ workspace_name c.attempt_id c.fence

abbrev placing : Env
placing = record calm { path = named_place }

claims : claim_from_validated_manifest the_time a_manifest 50 ≡ ok from_it
unfolding claim_from_validated_manifest is_ulid is_utc_timestamp positive_integer get bytes_eq
    parse_int
claims = refl

initial_state-valid_example : is_valid_state (initial_state placing from_it) ≡ (
    none_or is_ulid (get_string (codes "profile_id") a_manifest)
    && not (from_it.deadline == 0)
    && is_workspace (workspace_name from_it.attempt_id from_it.fence) (placing.path from_it))
initial_state-valid_example = initial_state-valid placing the_time a_manifest 50 from_it claims

its_state_is_valid : is_valid_state (initial_state placing from_it) ≡ true
unfolding is_valid_state initial_state is_workspace is_ulid get get_string bytes_eq format_int
its_state_is_valid = refl

abbrev its_name : Bytes
its_name = codes "shipmunk-01k4w000000000000000000002-7"

named : container_name from_it ≡ some its_name
unfolding container_name is_container_name is_ulid format_int
named = refl

container_name_lem_example :
    (is_sandbox_id its_name ≡ true) × (legacy_container_id its_name ≡ false)
container_name_lem_example = container_name_lem from_it its_name named
