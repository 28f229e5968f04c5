-- ===== src/Codex/Review.antt =====
-- internal/codex/review_evidence.go: the result of a review against the snapshots that it cites.
pub mod Sets
pub mod Covered
pub mod Checked
use shipmunk_runner.Prelude.{
  ℕ, suc, ◌+◌, ◌==◌, ltb, leb, length, Bool, true, false, not, ◌&&◌, ◌||◌, Bytes, codes, bytes_eq,
  valid_utf8, Option, none, some, List, [], ◌∷◌, if◌then◌else◌, Result, ok, err, and_then,
}
use shipmunk_runner.Codex.Evidence.{EvidenceRef}
use shipmunk_runner.Codex.Finding.{Finding, Question}
use shipmunk_runner.Codex.Coverage.{Coverage, CoverageFile}
use shipmunk_runner.Codex.Structured.{Structured}

-- `fileState`, and what is kept of it.
pub record FileState : Type 0 where
  pub hash : Bytes
  pub mode : Bytes
  pub contents : Bytes

pub record LineIndex : Type 0 where
  pub lines : ℕ
  pub binary : Bool

-- `map[string]reviewLineIndex`.
abbrev pub Index : Type 0
Index = List (Bytes × LineIndex)

pub record ReviewEvidence : Type 0 where
  pub baseline_sha : Bytes
  pub head_sha : Bytes
  pub changed_files : List Bytes
  pub baseline_index : Index
  pub head_index : Index

-- The errors by their texts.
pub data ReviewError : Type 0 where
  no_evidence bad_charter bad_verification no_coverage : ReviewError
  unplanned_file repeated_file omitted_file : ReviewError
  gap_without_findings unreviewed_without_findings : ReviewError
  absent_path binary_file lines_exceeded unchanged_relation : ReviewError

abbrev pub review_charter_version : Bytes
review_charter_version = codes "1"

-- `countLines`.
unfoldable pub count_lines : Bytes → ℕ
count_lines [] = 1
count_lines (c ∷ s) = let rest = count_lines s in if c == 10 then suc rest else rest

-- `buildLineIndex`.
unfoldable pub build_line_index : List (Bytes × FileState) → Index
unfolding count_lines valid_utf8
build_line_index [] = []
build_line_index ((path, s) ∷ states) =
    (path, record { lines = count_lines s.contents; binary = not (valid_utf8 s.contents) })
    ∷ build_line_index states

unfoldable pub index_of : Bytes → Index → Option LineIndex
unfolding bytes_eq
index_of path [] = none
index_of path ((p, i) ∷ is) = if bytes_eq p path then some i else index_of path is

-- `resolveSnapshot`, and `lookup`.
unfoldable pub lookup : ReviewEvidence → Bytes → Bytes → Option LineIndex
unfolding bytes_eq index_of
lookup r sha path =
    if bytes_eq sha r.baseline_sha
    then index_of path r.baseline_index
    else if bytes_eq sha r.head_sha
    then index_of path r.head_index
    else none

-- A set of paths, as a list.
unfoldable pub contains_path : Bytes → List Bytes → Bool
unfolding bytes_eq
contains_path p [] = false
contains_path p (q ∷ qs) = bytes_eq q p || contains_path p qs

unfoldable pub insert_path : Bytes → List Bytes → List Bytes
unfolding contains_path
insert_path p ps = if contains_path p ps then ps else p ∷ ps

-- `changedFileSet`.
unfoldable pub path_set : List Bytes → List Bytes
unfolding insert_path
path_set [] = []
path_set (p ∷ ps) = insert_path p (path_set ps)

abbrev pub check_if : Bool → ReviewError → Result ReviewError (Unit {0})
check_if true e = err e
check_if false e = ok tt

-- The loop of `validateCoverageFileSet`: the paths that were seen.
unfoldable pub seen_files :
    List CoverageFile → List Bytes → List Bytes → Result ReviewError (List Bytes)
unfolding contains_path
seen_files [] planned seen = ok seen
seen_files (f ∷ fs) planned seen =
    and_then (check_if (not (contains_path f.path planned)) unplanned_file) λ _.
      and_then (check_if (contains_path f.path seen) repeated_file)
        λ _. seen_files fs planned (f.path ∷ seen)

unfoldable pub validate_coverage_file_set :
    List CoverageFile → List Bytes → Result ReviewError (Unit {0})
unfolding seen_files
validate_coverage_file_set files planned =
    and_then (seen_files files planned [])
      λ seen. check_if (not (length seen == length planned)) omitted_file

abbrev pub check_entry : Option LineIndex → ℕ → Result ReviewError (Unit {0})
check_entry none last = err absent_path
check_entry (some i) last =
    and_then (check_if i.binary binary_file) λ _. check_if (ltb i.lines last) lines_exceeded

-- `validateEvidenceRefs`.
unfoldable pub validate_evidence_refs :
    List EvidenceRef → ReviewEvidence → Result ReviewError (Unit {0})
unfolding lookup
validate_evidence_refs [] review = ok tt
validate_evidence_refs (r ∷ rs) review =
    and_then (check_entry (lookup review r.snapshot r.path) r.line_end)
      λ _. validate_evidence_refs rs review

-- `citesChangedFile`.
unfoldable pub cites_changed_file : List EvidenceRef → List Bytes → Bool
unfolding contains_path
cites_changed_file [] changed = false
cites_changed_file (r ∷ rs) changed = contains_path r.path changed || cites_changed_file rs changed

abbrev pub any_unreviewed : List CoverageFile → Bool
any_unreviewed [] = false
any_unreviewed (f ∷ fs) = bytes_eq f.status (codes "unreviewed") || any_unreviewed fs

unfoldable pub check_no_findings : Structured → Coverage → Result ReviewError (Unit {0})
unfolding bytes_eq
check_no_findings r c =
    if bytes_eq r.outcome (codes "no_findings")
    then and_then (check_if (ltb 0 (length c.context_gaps)) gap_without_findings)
        (λ _. check_if (any_unreviewed c.files) unreviewed_without_findings)
    else ok tt

unfoldable pub check_files : List CoverageFile → ReviewEvidence → Result ReviewError (Unit {0})
unfolding validate_evidence_refs
check_files [] review = ok tt
check_files (f ∷ fs) review =
    and_then (validate_evidence_refs f.evidence review) λ _. check_files fs review

-- A finding that the change brought in or touched.
abbrev pub is_of_change : Finding → Bool
is_of_change f = bytes_eq f.relation (codes "introduced") || bytes_eq f.relation (codes "modified")

unfoldable pub check_findings : List Finding → ReviewEvidence → Result ReviewError (Unit {0})
unfolding validate_evidence_refs cites_changed_file path_set
check_findings [] review = ok tt
check_findings (f ∷ fs) review = and_then (validate_evidence_refs f.evidence review) λ _.
    and_then
      (check_if
        (is_of_change f && not (cites_changed_file f.evidence (path_set review.changed_files)))
        unchanged_relation)
      λ _. check_findings fs review

unfoldable pub check_questions : List Question → ReviewEvidence → Result ReviewError (Unit {0})
unfolding validate_evidence_refs
check_questions [] review = ok tt
check_questions (q ∷ qs) review =
    and_then (validate_evidence_refs q.evidence review) λ _. check_questions qs review

unfoldable pub check_covered :
    Structured → Option Coverage → ReviewEvidence → Result ReviewError (Unit {0})
unfolding validate_coverage_file_set check_no_findings check_files check_findings check_questions
    path_set
check_covered r none review = err no_coverage
check_covered r (some c) review =
    and_then (validate_coverage_file_set c.files (path_set review.changed_files)) λ _.
      and_then (check_no_findings r c) λ _.
        and_then (check_files c.files review)
          λ _. and_then (check_findings r.findings review) λ _. check_questions r.questions review

-- `validateReviewResult`.
unfoldable pub validate_review_result :
    Structured → Option ReviewEvidence → Result ReviewError (Unit {0})
unfolding check_covered bytes_eq
validate_review_result r none = err no_evidence
validate_review_result r (some review) =
    and_then (check_if (not (bytes_eq r.charter_version review_charter_version)) bad_charter) λ _.
      and_then (check_if (not (bytes_eq r.verification_state (codes "none"))) bad_verification)
        λ _. check_covered r r.coverage review
