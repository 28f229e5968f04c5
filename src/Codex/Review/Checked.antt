-- ===== src/Codex/Review/Checked.antt =====
-- The results that `validateReviewResult` of internal/codex/review_evidence.go lets through.
use shipmunk_runner.Prelude.{
  ◌≤◌, ◌≡◌, refl, ◌∙◌, ltb, length, true, false, not, ◌&&◌, Bytes, codes, bytes_eq, bytes_eq_iff,
  Option, none, some, List, [], ◌∷◌, All, arith, Result, ok, err, and_then,
}
use shipmunk_runner.Codex.Evidence.{EvidenceRef}
use shipmunk_runner.Codex.Finding.{Finding, Question}
use shipmunk_runner.Codex.Coverage.{Coverage, CoverageFile}
use shipmunk_runner.Codex.Structured.{Structured}
use shipmunk_runner.Codex.Review.{
  LineIndex, ReviewEvidence, ReviewError, review_charter_version, lookup, contains_path, path_set,
  validate_coverage_file_set, check_entry, validate_evidence_refs, cites_changed_file,
  any_unreviewed, check_no_findings, check_files, is_of_change, check_findings, check_questions,
  check_covered, validate_review_result, unchanged_relation, gap_without_findings,
  unreviewed_without_findings, bad_charter, bad_verification, binary_file, lines_exceeded,
}
use shipmunk_runner.Codex.Review.Covered.{paths, check_if_ok, after_check, set_covered}
use shipmunk_runner.Codex.Review.Sets.{AreDistinct, contains-path_set}

-- A reference to lines that a text file of a snapshot has.
abbrev pub IsCited : ReviewEvidence → EvidenceRef → Type 0
IsCited review r =
    (i : LineIndex) × (lookup review r.snapshot r.path ≡ some i)
    × (i.binary ≡ false)
    × (r.line_end ≤ i.lines)

abbrev pub CitesChange : ReviewEvidence → Finding → Type 0
CitesChange review f =
    is_of_change f ≡ true → cites_changed_file f.evidence review.changed_files ≡ true

pub record ReviewIsChecked (r : Structured) (review : ReviewEvidence) : Type 0 where
  pub coverage : Coverage
  pub given : r.coverage ≡ some coverage
  pub covered :
      (p : Bytes) → contains_path p (paths coverage.files) ≡ contains_path p review.changed_files
  pub once : AreDistinct (paths coverage.files)
  pub files : All (λ f. All (IsCited review) f.evidence) coverage.files
  pub findings : All (λ f. All (IsCited review) f.evidence) r.findings
  pub related : All (CitesChange review) r.findings
  pub questions : All (λ q. All (IsCited review) q.evidence) r.questions
  pub complete :
      r.outcome ≡ codes "no_findings"
      → (coverage.context_gaps ≡ []) × (any_unreviewed coverage.files ≡ false)

after_unit :
    (r : Result ReviewError (Unit {0})) (f : Unit {0} → Result ReviewError (Unit {0}))
    → and_then r f ≡ ok tt
    → (r ≡ ok tt) × (f tt ≡ ok tt)
after_unit (err e) f h = cc h
after_unit (ok u) f h = (refl, h)

entry-IsCited :
    (review : ReviewEvidence) (r : EvidenceRef) (o : Option LineIndex)
    → lookup review r.snapshot r.path ≡ o
    → check_entry o r.line_end ≡ ok tt
    → IsCited review r
entry-IsCited review r none e k = cc k
entry-IsCited review r (some i) e k =
    let (text, l) = after_check i.binary binary_file _ tt k in
    let fits : ltb i.lines r.line_end ≡ false =
      check_if_ok (ltb i.lines r.line_end) lines_exceeded l in
    (i, e, text, ground arith)

refs-IsCited :
    (rs : List EvidenceRef) (review : ReviewEvidence)
    → validate_evidence_refs rs review ≡ ok tt
    → All (IsCited review) rs
unfolding validate_evidence_refs
refs-IsCited [] review h = tt
refs-IsCited (r ∷ rs) review h =
    let (e, rest) = after_unit (check_entry (lookup review r.snapshot r.path) r.line_end) _ h in
    (entry-IsCited review r (lookup review r.snapshot r.path) refl e, refs-IsCited rs review rest)

files-IsCited :
    (fs : List CoverageFile) (review : ReviewEvidence)
    → check_files fs review ≡ ok tt
    → All (λ f. All (IsCited review) f.evidence) fs
unfolding check_files
files-IsCited [] review h = tt
files-IsCited (f ∷ fs) review h =
    let (e, rest) = after_unit (validate_evidence_refs f.evidence review) _ h in
    (refs-IsCited f.evidence review e, files-IsCited fs review rest)

questions-IsCited :
    (qs : List Question) (review : ReviewEvidence)
    → check_questions qs review ≡ ok tt
    → All (λ q. All (IsCited review) q.evidence) qs
unfolding check_questions
questions-IsCited [] review h = tt
questions-IsCited (q ∷ qs) review h =
    let (e, rest) = after_unit (validate_evidence_refs q.evidence review) _ h in
    (refs-IsCited q.evidence review e, questions-IsCited qs review rest)

cites_set :
    (rs : List EvidenceRef) (ps : List Bytes)
    → cites_changed_file rs (path_set ps) ≡ cites_changed_file rs ps
unfolding cites_changed_file
cites_set [] ps = refl
cites_set (r ∷ rs) ps = rw (contains-path_set r.path ps) (rw (cites_set rs ps) refl)

findings_checked :
    (fs : List Finding) (review : ReviewEvidence)
    → check_findings fs review ≡ ok tt
    → All (λ f. All (IsCited review) f.evidence) fs × All (CitesChange review) fs
unfolding check_findings
findings_checked [] review h = (tt, tt)
findings_checked (f ∷ fs) review h =
    let (e, rest) = after_unit (validate_evidence_refs f.evidence review) _ h in
    let cites = cites_changed_file f.evidence (path_set review.changed_files) in
    let (c, last) = after_check (is_of_change f && not cites) unchanged_relation _ tt rest in
    let (all, changes) = findings_checked fs review last in
    let here : CitesChange review f = λ m.
      let q : cites_changed_file f.evidence (path_set review.changed_files) ≡ true = ground arith in
      rw (cites_set f.evidence review.changed_files) at q in
    ((refs-IsCited f.evidence review e, all), (here, changes))

no_gaps : (gaps : List Bytes) → ltb 0 (length gaps) ≡ false → gaps ≡ []
no_gaps [] h = refl
no_gaps (g ∷ gs) h = absurd (ground arith)

no_findings_complete :
    (r : Structured) (c : Coverage)
    → check_no_findings r c ≡ ok tt
    → r.outcome ≡ codes "no_findings"
    → (c.context_gaps ≡ []) × (any_unreviewed c.files ≡ false)
unfolding check_no_findings
no_findings_complete r c h o =
    let q : bytes_eq r.outcome (codes "no_findings") ≡ true =
      (bytes_eq_iff r.outcome (codes "no_findings")).1 o in
    let (g, u) =
      after_check (ltb 0 (length c.context_gaps)) gap_without_findings _ tt (rw q at h) in
    (no_gaps c.context_gaps g, check_if_ok (any_unreviewed c.files) unreviewed_without_findings u)

covered-checked :
    (r : Structured) (o : Option Coverage) (review : ReviewEvidence)
    → r.coverage ≡ o
    → check_covered r o review ≡ ok tt
    → ReviewIsChecked r review
unfolding check_covered
covered-checked r none review e h = cc h
covered-checked r (some c) review e h =
    let (a, h1) =
      after_unit (validate_coverage_file_set c.files (path_set review.changed_files)) _ h in
    let (b, h2) = after_unit (check_no_findings r c) _ h1 in
    let (fs, h3) = after_unit (check_files c.files review) _ h2 in
    let (gs, qs) = after_unit (check_findings r.findings review) _ h3 in
    let (cited, related) = findings_checked r.findings review gs in
    let (members, once) = set_covered c.files (path_set review.changed_files) a in
    record {
      coverage = c;
      given = e;
      covered = λ p. members p ∙ contains-path_set p review.changed_files;
      once = once;
      files = files-IsCited c.files review fs;
      findings = cited;
      related = related;
      questions = questions-IsCited r.questions review qs;
      complete = no_findings_complete r c b;
    }

-- A review's result that passes covers exactly the changed files, each of them once. Every reference in
-- it is to a text file of one of the two snapshots and ends within the lines of that file. A finding that
-- the change introduced or modified cites a changed file. Without findings, all files are reviewed and
-- there are no gaps.
pub validate_review_result-ReviewIsChecked :
    (r : Structured) (review : ReviewEvidence)
    → validate_review_result r (some review) ≡ ok tt
    → ReviewIsChecked r review
unfolding validate_review_result
validate_review_result-ReviewIsChecked r review h =
    let (_, h1) =
      after_check (not (bytes_eq r.charter_version review_charter_version)) bad_charter _ tt h in
    let (_, h2) =
      after_check (not (bytes_eq r.verification_state (codes "none"))) bad_verification _ tt h1 in
    covered-checked r r.coverage review refl h2
