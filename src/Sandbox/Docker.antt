-- ===== src/Sandbox/Docker.antt =====
-- internal/sandbox/docker.go and the cleanup of internal/sandbox/watchdog.go: the calls of Docker that
-- inspect, stop and remove a container.
pub mod Safe
pub mod Cleaning
use shipmunk_runner.Prelude.{
  ℕ, zero, suc, ◌==◌, Bool, true, false, not, ◌&&◌, ◌||◌, Bytes, codes, bytes_eq, Option, none,
  some, List, [], ◌∷◌, ◌++◌, ℤ, pos, format_int, parse_int, drop, is_some, if◌then◌else◌,
}
use shipmunk_runner.Protocol.Numbers.{strip_prefix}
use shipmunk_runner.Journal.Valid.{is_ulid, int_between}
use shipmunk_runner.Mediation.Requests.{max_safe_integer}
use shipmunk_runner.Supervisor.Lease.{legacy_container_id}
use shipmunk_runner.Sandbox.{is_container_name, container_prefix}
use shipmunk_runner.Sandbox.Watch.{is_empty}

-- `containerInspection`, with the labels as their lookup, and what `inspect` gives.
pub record Inspection : Type 0 where
  pub id : Bytes
  pub name : Bytes
  pub labels : Bytes → Bytes
  pub running : Bool

pub data Inspected : Type 0 where
  missing unreadable : Inspected
  shown : Inspection → Inspected

-- The calls of Docker with their answers, the newest first.
pub data Call : Type 0 where
  inspected : Bytes → Inspected → Call
  stop : Bytes → Call
  kill : Bytes → Bool → Call
  remove : Bytes → Bool → Call

abbrev pub Trace : Type 0
Trace = List Call

-- Docker, whose answers may depend on all that was called.
pub record Docker : Type 0 where
  pub inspect : Trace → Bytes → Inspected
  pub kill_ok : Trace → Bool
  pub remove_ok : Trace → Bool

abbrev pub Owner : Type 0
Owner = Inspection → Bytes → Bool

-- `strings.TrimPrefix(inspection.Name, "/")`.
abbrev pub trim_slash : Bytes → Bytes
trim_slash [] = []
trim_slash (c ∷ s) = if c == b'/' then s else c ∷ s

abbrev pub is_label : Inspection → Bytes → Bytes → Bool
is_label i key value = bytes_eq (i.labels key) value

abbrev pub has_prefix : Bytes → Bytes → Bool
has_prefix p s = is_some (strip_prefix p s)

-- An identifier that Docker's own begins with.
abbrev pub is_identifier_of : Inspection → Bytes → Bool
is_identifier_of i id = legacy_container_id id && (bytes_eq i.id id || has_prefix id i.id)

abbrev positive_fence : Option ℤ → Option ℤ
positive_fence none = none
positive_fence (some z) = if int_between 1 max_safe_integer z then some z else none

abbrev owned_by_name : Inspection → Bytes → Option ℤ → Bool
owned_by_name i id none = false
owned_by_name i id (some fence) =
    let expected =
      container_prefix ++ (i.labels (codes "shipmunk.attempt") ++ (b'-' ∷ format_int fence)) in
    bytes_eq (trim_slash i.name) expected
    && (if is_container_name id then bytes_eq id expected else is_identifier_of i id)

-- `ownsSandboxIdentifier`.
unfoldable pub owns_sandbox_identifier : Owner
unfolding bytes_eq strip_prefix is_ulid parse_int format_int is_container_name legacy_container_id
owns_sandbox_identifier i id =
    is_label i (codes "shipmunk.runner") (codes "true")
    && is_ulid (i.labels (codes "shipmunk.run"))
    && is_ulid (i.labels (codes "shipmunk.attempt"))
    && owned_by_name i id (positive_fence (parse_int (i.labels (codes "shipmunk.fence"))))

-- `profileNamePattern`.
abbrev rest_is_ulid : Option Bytes → Bool
rest_is_ulid none = false
rest_is_ulid (some r) = is_ulid r

abbrev is_profile_name : Bytes → Bool
is_profile_name s = rest_is_ulid (strip_prefix (codes "shipmunk-profile-") s)

-- `ownsProfileSandboxIdentifier`.
unfoldable pub owns_profile_sandbox_identifier : Owner
unfolding bytes_eq strip_prefix is_ulid legacy_container_id
owns_profile_sandbox_identifier i id =
    let name = trim_slash i.name in
    is_label i (codes "shipmunk.profile-runtime") (codes "true")
    && is_label i (codes "shipmunk.profile-sandbox") name
    && is_profile_name name
    && (if is_profile_name id then bytes_eq id name else is_identifier_of i id)

-- The owner of `cleanupCodexWatchdog` for one of the resources of a name.
unfoldable pub owns_codex : Bytes → Bytes → Owner
unfolding bytes_eq strip_prefix legacy_container_id
owns_codex name resource i id =
    is_label i (codes "shipmunk.codex") (codes "true")
    && is_label i (codes "shipmunk.codex-owner") name
    && (bytes_eq id resource || is_identifier_of i id)

abbrev pub is_gone : Inspected → Bool
is_gone missing = true
is_gone _ = false

-- How a cleanup ends: by nil, by an error, or not within its rounds.
pub data Cleaned : Type 0 where
  gone refused retrying : Cleaned

-- The tombstone of a profile's creation that is uncertain, which stays.
unfoldable pub is_reservation : Bytes → Inspection → Bool
unfolding bytes_eq
is_reservation name i =
    is_label i (codes "shipmunk.profile-create-reservation") (codes "true")
    && is_label i (codes "shipmunk.profile-runtime") (codes "true")
    && is_label i (codes "shipmunk.profile-sandbox") name
    && bytes_eq (trim_slash i.name) name

module _ (d : Docker) where
  abbrev pub look : Bytes → Trace → Inspected × Trace
  look id t = (d.inspect t id, inspected id (d.inspect t id) ∷ t)

  abbrev pub confirm : Bytes → Trace → Bool × Trace
  confirm id t = (is_gone (look id t).0, (look id t).1)

  -- `rm --force`, and the inspections that confirm it.
  unfoldable pub remove_container : Bytes → Trace → Bool × Trace
  remove_container id t =
      let t' = remove id (d.remove_ok t) ∷ t in
      let first = look id t' in
      if d.remove_ok t
      then confirm id t'
      else if is_gone first.0
      then confirm id first.1
      else (false, first.1)

  module _ (owns : Owner) where
    abbrev pub after_kill : Bytes → Inspected × Trace → Bool × Trace
    after_kill id (missing, t) = (true, t)
    after_kill id (unreadable, t) = (false, t)
    after_kill id (shown i, t) =
        if not (owns i id) || i.running then (false, t) else remove_container id t

    abbrev pub after_stop : Bytes → Inspected × Trace → Bool × Trace
    after_stop id (missing, t) = (true, t)
    after_stop id (unreadable, t) = (false, t)
    after_stop id (shown i, t) =
        if not (owns i id)
        then (false, t)
        else if i.running
        then after_kill id (look id (kill id (d.kill_ok t) ∷ t))
        else remove_container id t

    -- `removeOwnedWith`: whether it returns nil.
    unfoldable pub remove_owned_with : Bytes → Inspection → Trace → Bool × Trace
    unfolding remove_container
    remove_owned_with id i t =
        if not (owns i id)
        then (false, t)
        else if i.running
        then after_stop id (look id (stop id ∷ t))
        else remove_container id t

    module _ (name : Bytes) (in_flight : Bool) where
      abbrev pub named : Bytes → Bytes
      named observed_id = if is_empty observed_id then name else observed_id

      abbrev pub removed :
          (Bytes → Trace → Cleaned × Trace) → Bytes → Bool × Trace → Cleaned × Trace
      removed again id (true, t) = (gone, t)
      removed again id (false, t) = again id t

      abbrev pub on_shown :
          (Bytes → Trace → Cleaned × Trace) → Bytes → Inspection → Trace → Cleaned × Trace
      on_shown again observed_id i t =
          if is_reservation name i
          then (gone, t)
          else if not (owns i (named observed_id)) || not (bytes_eq (trim_slash i.name) name)
          then (refused, t)
          else removed again (if is_empty observed_id then i.id else observed_id)
              (remove_owned_with i.id i t)

      abbrev pub on_look :
          (Bool → Bytes → Trace → Cleaned × Trace)
          → Bool
          → Bytes
          → Inspected × Trace
          → Cleaned × Trace
      on_look again observed observed_id (missing, t) =
          if not in_flight || observed then (gone, t) else again observed observed_id t
      on_look again observed observed_id (unreadable, t) = again observed observed_id t
      on_look again observed observed_id (shown i, t) = on_shown (again true) observed_id i t

      -- The loop of `cleanupWatchdogSandboxWithOwner`, on so many rounds.
      unfoldable pub cleanup_rounds : ℕ → Bool → Bytes → Trace → Cleaned × Trace
      unfolding remove_owned_with is_reservation bytes_eq
      cleanup_rounds zero observed observed_id t = (retrying, t)
      cleanup_rounds (suc n) observed observed_id t =
          on_look (cleanup_rounds n) observed observed_id (look (named observed_id) t)

      unfoldable pub cleanup_sandbox : ℕ → Bytes → Trace → Cleaned × Trace
      unfolding cleanup_rounds
      cleanup_sandbox n confirmed_id = cleanup_rounds n false confirmed_id
