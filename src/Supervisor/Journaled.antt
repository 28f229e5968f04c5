-- ===== src/Supervisor/Journaled.antt =====
-- The state that `RunOnce` of internal/supervisor/supervisor.go writes for a claim, as the journal of
-- internal/attemptstate/store.go validates it.
use shipmunk_runner.Prelude.{
  Holds, and_then, subst, ap, ℕ, ◌+◌, ◌==◌, ◌≡◌, refl, leb, Bool, true, false, not, ◌&&◌, Bytes,
  codes, Option, none, some, Result, ok, err, ℤ, pos, negsuc, parse_int, Bool-cases, inl, inr,
  arith,
}
use shipmunk_runner.Json.{Value, Fields, null, bool, str, number, arr, obj, get, get_string}
use shipmunk_runner.Claim.{Claim}
use shipmunk_runner.Claim.Manifest.{
  Rejection, bad_run_id, bad_attempt_id, bad_fence, string_field, positive_integer, ranged, ulid_or,
  version_or, utc_time, or_reject, local_lease, claim_from_validated_manifest,
}
use shipmunk_runner.Journal.Valid.{
  is_valid_state, is_ulid, none_or, is_workspace, workspace_name, int_between,
}
use shipmunk_runner.Mediation.Requests.{max_safe_integer}
use shipmunk_runner.Supervisor.Action.{Env}
use shipmunk_runner.Supervisor.Run.{initial_state}

abbrev IsUlid : Bytes → Type 0
IsUlid s = is_ulid s ≡ true

abbrev IsFence : ℤ → Type 0
IsFence n = int_between 1 max_safe_integer n ≡ true

ulid_or-Holds : (r : Rejection) (o : Option Bytes) → Holds IsUlid (ulid_or r o)
ulid_or-Holds r none = tt
ulid_or-Holds r (some s) = elim (Bool-cases (is_ulid s)) [ inl e ↦ rw e e | inr e ↦ rw e tt ]

ranged-Holds : (n : Option ℤ) → Holds IsFence (or_reject bad_fence (ranged n))
ranged-Holds none = tt
ranged-Holds (some (negsuc n)) = tt
ranged-Holds (some (pos n)) = elim (Bool-cases (leb 1 n && leb n max_safe_integer)) [
  | inl e ↦ rw e e
  | inr e ↦ rw e tt
]

positive_integer-Holds :
    (v : Option Value) → Holds IsFence (or_reject bad_fence (positive_integer v))
unfolding positive_integer
positive_integer-Holds none = tt
positive_integer-Holds (some (number s)) = ranged-Holds (parse_int s)
positive_integer-Holds (some null) = tt
positive_integer-Holds (some (bool b)) = tt
positive_integer-Holds (some (str s)) = tt
positive_integer-Holds (some (arr s)) = tt
positive_integer-Holds (some (obj s)) = tt

without : (p d w : Bool) → (p && true && true && d && w && true) ≡ (p && d && w)
without false d w = refl
without true false w = refl
without true true false = refl
without true true true = refl

-- What a claim from the manifest `m` at the time `now` is.
record FromManifest (m : Fields) (now : ℕ) (c : Claim) : Type 0 where
  run : is_ulid c.run_id ≡ true
  attempt : is_ulid c.attempt_id ≡ true
  fence : int_between 1 max_safe_integer c.fence ≡ true
  lease : c.lease_expires_at ≡ now + local_lease
  manifest : c.manifest ≡ m

from_manifest :
    (parse : Bytes → Option ℕ) (m : Fields) (now : ℕ)
    → Holds (FromManifest m now) (claim_from_validated_manifest parse m now)
unfolding claim_from_validated_manifest
from_manifest parse m now =
    versioned (version_or (string_field (get (codes "protocol_version") m)))
      (ulid_or bad_run_id (string_field (get (codes "run_id") m)))
      (ulid_or bad_attempt_id (string_field (get (codes "attempt_id") m)))
      (or_reject bad_fence (positive_integer (get (codes "fence") m)))
      (utc_time parse (string_field (get (codes "deadline") m)))
      (ulid_or-Holds bad_run_id (string_field (get (codes "run_id") m)))
      (ulid_or-Holds bad_attempt_id (string_field (get (codes "attempt_id") m)))
      (positive_integer-Holds (get (codes "fence") m))
  where
    versioned :
        (v : Result Rejection Bool) (r a : Result Rejection Bytes) (f : Result Rejection ℤ)
        (d : Result Rejection ℕ)
        → Holds IsUlid r
        → Holds IsUlid a
        → Holds IsFence f
        → Holds (FromManifest m now) (
            and_then v λ _. and_then r λ run_id. and_then a λ attempt_id. and_then f λ fence.
              and_then d λ deadline. ok (record {
                run_id = run_id;
                attempt_id = attempt_id;
                fence = fence;
                lease_expires_at = now + local_lease;
                deadline = deadline;
                manifest = m;
              }))
    versioned (err e) r a f d hr ha hf = tt
    versioned (ok v) (err e) a f d hr ha hf = tt
    versioned (ok v) (ok r) (err e) f d hr ha hf = tt
    versioned (ok v) (ok r) (ok a) (err e) d hr ha hf = tt
    versioned (ok v) (ok r) (ok a) (ok f) (err e) hr ha hf = tt
    versioned (ok v) (ok r) (ok a) (ok f) (ok d) hr ha hf = record {
      run = hr;
      attempt = ha;
      fence = hf;
      lease = refl;
      manifest = refl;
    }

-- The journal takes the first state that is written for a claim from a manifest exactly when the
-- manifest names no profile or one by a ULID, the deadline is not the zero time, and the workspace is
-- one of the attempt's name: whatever else the journal checks, the manifest's own checks imply.
pub initial_state-valid :
    (env : Env) (parse : Bytes → Option ℕ) (m : Fields) (now : ℕ) (c : Claim)
    → claim_from_validated_manifest parse m now ≡ ok c
    → is_valid_state (initial_state env c) ≡ (
        none_or is_ulid (get_string (codes "profile_id") m)
        && not (c.deadline == 0)
        && is_workspace (workspace_name c.attempt_id c.fence) (env.path c))
unfolding is_valid_state initial_state
initial_state-valid env parse m now c h =
    let f = subst (Holds (FromManifest m now)) h (from_manifest parse m now) in
    let lease : (c.lease_expires_at == 0) ≡ false = (let e = f.lease in ground arith) in
    let profile : none_or is_ulid (get_string (codes "profile_id") c.manifest)
        ≡ none_or is_ulid (get_string (codes "profile_id") m) =
      ap (λ x. none_or is_ulid (get_string (codes "profile_id") x)) f.manifest in
    rw f.run (
      rw f.attempt (
        rw f.fence (
          rw lease (
            rw profile (
              without (none_or is_ulid (get_string (codes "profile_id") m)) (not (c.deadline == 0))
                (is_workspace (workspace_name c.attempt_id c.fence) (env.path c)))))))
