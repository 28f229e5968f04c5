-- ===== src/Tests/Reviewing.antt =====
-- A review of two small snapshots.
use shipmunk_runner.Prelude.{
  codes, bytes_eq, false, ◌≡◌, refl, some, Bytes, ◌∷◌, [], ok, err, Result,
}
use shipmunk_runner.Codex.Coverage.{Coverage}
use shipmunk_runner.Codex.Structured.{Structured}
use shipmunk_runner.Codex.Review.{FileState, ReviewEvidence, contains_path, validate_review_result}
use shipmunk_runner.Codex.Review.Covered.{paths}
use shipmunk_runner.Codex.Patch.{
  Snapshot, Tools, PatchError, changed_at, build_review_evidence, safe_repository_path,
}
use shipmunk_runner.Codex.Patch.Changes.{review_covers_changes}

abbrev file : Bytes → FileState
file s = record { hash = s; mode = codes "100644"; contents = s }

abbrev old_files : Snapshot
old_files = (codes "x", file (codes "one")) ∷ (codes "y", file (codes "same")) ∷ []

abbrev new_files : Snapshot
new_files =
    (codes "y", file (codes "same"))
    ∷ (codes "x", file (codes "two"))
    ∷ (codes "a", file (codes "new"))
    ∷ []

abbrev small_tools : Tools
small_tools = record { generate = λ b a r. ok (codes "diff"); sha256_hex = λ s. s }

abbrev base_sha : Bytes
base_sha = codes "0123456789abcdef0123456789abcdef01234567"

abbrev head_sha : Bytes
head_sha = codes "76543210fedcba9876543210fedcba9876543210"

abbrev evidence_or : Result PatchError ReviewEvidence → ReviewEvidence
evidence_or (ok ev) = ev
evidence_or (err e) = record {
  baseline_sha = [];
  head_sha = [];
  changed_files = [];
  baseline_index = [];
  head_index = [];
}

abbrev evidence : ReviewEvidence
evidence = evidence_or (build_review_evidence small_tools base_sha head_sha old_files new_files)

built_test : build_review_evidence small_tools base_sha head_sha old_files new_files ≡ ok evidence
unfolding build_review_evidence bytes_eq
built_test = refl

changed_test : evidence.changed_files ≡ codes "a" ∷ codes "x" ∷ []
unfolding build_review_evidence bytes_eq
changed_test = refl

abbrev all_reviewed : Coverage
all_reviewed = record {
  files =
      record { path = codes "x"; status = codes "reviewed"; reason = []; evidence = [] }
      ∷ record { path = codes "a"; status = codes "reviewed"; reason = []; evidence = [] }
      ∷ [];
  context_gaps = [];
}

abbrev no_findings : Structured
no_findings = record {
  summary = codes "ok";
  outcome = codes "no_findings";
  charter_version = codes "1";
  findings = [];
  questions = [];
  coverage = some all_reviewed;
  verification_state = codes "none";
  tests = [];
}

passed_test : validate_review_result no_findings (some evidence) ≡ ok tt
unfolding validate_review_result build_review_evidence bytes_eq
passed_test = refl

review_covers_changes_example :
    (coverage : Coverage) × (some all_reviewed ≡ some coverage)
    × ((p : Bytes) → contains_path p (paths coverage.files) ≡ changed_at p old_files new_files)
review_covers_changes_example =
    review_covers_changes small_tools base_sha head_sha old_files new_files evidence no_findings
      built_test passed_test

git_path_test : safe_repository_path (codes "a/.git/b") ≡ false
unfolding safe_repository_path bytes_eq
git_path_test = refl
