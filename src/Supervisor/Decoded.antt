-- ===== src/Supervisor/Decoded.antt =====
-- What `DecodeExecution` of internal/supervisor/execution.go lets through.
use shipmunk_runner.Prelude.{◌≤◌, ◌≡◌, length, Bool, true, false, codes, some, [], All}
use shipmunk_runner.Json.{Fields, str, get}
use shipmunk_runner.Claim.{Claim}
use shipmunk_runner.Supervisor.Calls.{Artifact, Execution}
use shipmunk_runner.Supervisor.Decode.{
  Contracts, is_artifact, patches, is_changes, validate_pre_upload,
}

module _ (contracts : Contracts) where
  abbrev IsGenuine : Artifact → Type 0
  IsGenuine a = is_artifact contracts a.kind a.bytes a.sha256 ≡ true

  -- What an execution that is let through promises: its artifacts are what their hashes say and of a
  -- known kind and size, and there is at most one patch, and none but for a proposed change; where
  -- the executable failed it has no events, no artifacts and the outcome `incomplete`.
  pub record IsAccepted (failed : Bool) (x : Execution) : Type 0 where
    pub genuine : All (λ a. is_artifact contracts a.kind a.bytes a.sha256 ≡ true) x.artifacts
    pub one_patch : length (patches contracts x.artifacts) ≤ 1
    pub published : Fields
    pub result : x.result ≡ some published
    pub compatible :
        is_changes contracts published ≡ false → length (patches contracts x.artifacts) ≡ 0
    pub valid : validate_pre_upload contracts published x.artifacts ≡ true
    pub silent : failed ≡ true → (x.events ≡ []) × (x.artifacts ≡ [])
    pub incomplete :
        failed ≡ true → get (codes "outcome") published ≡ some (str (codes "incomplete"))
