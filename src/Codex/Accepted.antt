-- ===== src/Codex/Accepted.antt =====
-- What the readers of findings, questions and coverage of internal/codex/parser.go accept.
use shipmunk_runner.Prelude.{
  ◌≤◌, ◌≡◌, refl, ◌∙◌, ap, ◌==◌, leb, length, Bool, true, false, not, ◌&&◌, ◌||◌, Bytes, codes,
  bytes_eq, Option, none, some, List, [], ◌∷◌, All, arith, if◌then◌else◌, is_some, Given,
  bind-Given, then-Given, require-Given, traverse, traverse-Given, traverse-length, and-Given,
}
use shipmunk_runner.Json.{Value, Fields, get, has_key, field_count}
use shipmunk_runner.Codex.Fields.{bounded_string, array_of, object_of, exact_object}
use shipmunk_runner.Codex.Paths.{valid_relative_path}
use shipmunk_runner.Codex.Relative.{IsPlain, valid_relative_path_iff}
use shipmunk_runner.Codex.Evidence.{parse_references}
use shipmunk_runner.Codex.Sound.{AreRefs, IsBounded, IsBounded-Given, references-Given}
use shipmunk_runner.Codex.Finding.{
  Finding, Question, finding_of, parse_finding, question_of, parse_question, evidence_field,
  keys_and, finding_keys, word_of, categories, severities, relations, title_of, anchor_field,
  max_material,
}
use shipmunk_runner.Codex.Coverage.{
  Coverage, CoverageFile, file_of, parse_coverage_file, coverage_of, parse_coverage, reason_field,
  same, gap_of, coverage_keys,
}

abbrev pub FindingIsSound : Finding → Type 0
FindingIsSound f = AreRefs 1 5 f.evidence

abbrev pub QuestionIsSound : Question → Type 0
QuestionIsSound q = AreRefs 0 5 q.evidence

-- A file that was not reviewed has a reason, and no other file has one.
pub record FileIsSound (f : CoverageFile) : Type 0 where
  pub evidence : AreRefs 0 5 f.evidence
  pub below : IsPlain f.path
  pub reasoned : (length f.reason == 0) ≡ not (bytes_eq f.status (codes "unreviewed"))

finding_of-Given : (fs : Fields) → Given FindingIsSound (finding_of fs)
unfolding finding_of
finding_of-Given fs =
    let P = FindingIsSound in
    require-Given P (keys_and finding_keys (codes "anchor") fs) _ (λ _.
      then-Given P (word_of 32 categories (get (codes "category") fs)) _ (λ category _.
        then-Given P (title_of (get (codes "title") fs)) _ (λ title _.
          then-Given P (word_of 16 severities (get (codes "severity") fs)) _ (λ severity _.
            then-Given P (word_of 16 relations (get (codes "relation") fs)) _ (λ relation _.
              then-Given P (bounded_string max_material (get (codes "scenario") fs)) _
                (λ scenario _.
                  then-Given P (bounded_string max_material (get (codes "consequence") fs)) _
                    (λ consequence _.
                      then-Given P (bounded_string max_material (get (codes "action") fs)) _
                        (λ action _.
                          then-Given P (bounded_string 8192 (get (codes "explanation") fs)) _
                            (λ explanation _.
                              bind-Given P (parse_references 1 5 (get (codes "evidence") fs)) _
                                (references-Given 1 5 (get (codes "evidence") fs))
                                (λ evidence h.
                                  then-Given P (anchor_field (get (codes "anchor") fs)) _
                                    (λ anchor _. h)))))))))))

pub parse_finding-Given : (v : Value) → Given FindingIsSound (parse_finding v)
unfolding parse_finding
parse_finding-Given v =
    then-Given FindingIsSound (object_of (some v)) finding_of (λ fs _. finding_of-Given fs)

evidence_field-Given : (v : Option Value) → Given (AreRefs 0 5) (evidence_field v)
unfolding evidence_field
evidence_field-Given none = (tt, omega arith, omega arith)
evidence_field-Given (some v) = references-Given 0 5 (some v)

pub parse_question-Given : (v : Value) → Given QuestionIsSound (parse_question v)
unfolding parse_question
parse_question-Given v =
    let P = QuestionIsSound in
    then-Given P (object_of (some v)) question_of (λ fs _.
      require-Given P
        (keys_and (codes "topic" ∷ codes "question" ∷ codes "why_material" ∷ []) (codes "evidence")
          fs)
        _
        (λ _. then-Given P (bounded_string 200 (get (codes "topic") fs)) _ (λ topic _.
          then-Given P (bounded_string max_material (get (codes "question") fs)) _ (λ question _.
            then-Given P (bounded_string max_material (get (codes "why_material") fs)) _ (λ why _.
              bind-Given P (evidence_field (get (codes "evidence") fs)) _
                (evidence_field-Given (get (codes "evidence") fs)) (λ evidence h. h))))))

same_lem : (a b : Bool) → same a b ≡ true → a ≡ b
same_lem true true h = refl
same_lem false false h = refl
same_lem true false h = cc h
same_lem false true h = cc h

pub both :
    {A : Type 0} (P : A → Type 0) (f : Value → Option A)
    → ((v : Value) → Given P (f v))
    → (vs : List Value) → Given (λ ys. All P ys × (length ys ≡ length vs)) (traverse f vs)
both P f h vs =
    and-Given (All P) (λ ys. length ys ≡ length vs) (traverse f vs) (traverse-Given P f h vs)
      (traverse-length f vs)

reason_field-Given :
    (v : Option Value) → Given (λ r. (length r == 0) ≡ not (is_some v)) (reason_field v)
unfolding reason_field
reason_field-Given none = refl
reason_field-Given (some v) = nonempty (bounded_string 500 (some v)) (IsBounded-Given 500 (some v))
  where
    nonempty : (o : Option Bytes) → Given (IsBounded 500) o → Given (λ r. (length r == 0) ≡ false) o
    nonempty none h = tt
    nonempty (some s) h = h.0

file_of-Given : (fs : Fields) → Given FileIsSound (file_of fs)
unfolding file_of has_key
file_of-Given fs =
    let P = FileIsSound in
    let reason = get (codes "reason") fs in
    then-Given P (bounded_string 1024 (get (codes "path") fs)) _ (λ path _.
      then-Given P (bounded_string 16 (get (codes "status") fs)) _ (λ status _.
        require-Given P (bytes_eq status (codes "reviewed") || bytes_eq status (codes "unreviewed"))
          _
          (λ _.
            require-Given P
              (if has_key (codes "reason") fs then field_count fs == 4 else field_count fs == 3) _
              (λ _.
                require-Given P
                  (same (has_key (codes "reason") fs) (bytes_eq status (codes "unreviewed"))) _
                  (λ s.
                    bind-Given P (parse_references 0 5 (get (codes "evidence") fs)) _
                      (references-Given 0 5 (get (codes "evidence") fs))
                      (λ evidence e.
                        bind-Given P (reason_field reason) _ (reason_field-Given reason) (λ r k.
                          require-Given P (valid_relative_path path) _ (λ v. record {
                            evidence = e;
                            below = (valid_relative_path_iff path).0 v;
                            reasoned =
                                k
                                ∙ ap not (
                                    same_lem (is_some reason) (bytes_eq status (codes "unreviewed"))
                                      s);
                          }))))))))

parse_coverage_file-Given : (v : Value) → Given FileIsSound (parse_coverage_file v)
unfolding parse_coverage_file
parse_coverage_file-Given v =
    then-Given FileIsSound (object_of (some v)) file_of (λ fs _. file_of-Given fs)

-- At most 300 files and 20 gaps.
pub record CoverageIsSound (c : Coverage) : Type 0 where
  pub files : All FileIsSound c.files
  pub few : length c.files ≤ 300
  pub few_gaps : length c.context_gaps ≤ 20

coverage_of-Given : (fs : Fields) → Given CoverageIsSound (coverage_of fs)
unfolding coverage_of
coverage_of-Given fs =
    let P = CoverageIsSound in
    then-Given P (array_of (get (codes "files") fs)) _ (λ fs' _.
      then-Given P (array_of (get (codes "context_gaps") fs)) _ (λ gs _.
        require-Given P (leb (length fs') 300 && leb (length gs) 20) _ (λ b.
          bind-Given P (traverse parse_coverage_file fs') _
            (both FileIsSound parse_coverage_file parse_coverage_file-Given fs')
            (λ files h. bind-Given P (traverse gap_of gs) _ (traverse-length gap_of gs) (λ gaps k.
              let a : length fs' ≤ 300 = ground arith in
              let c : length gs ≤ 20 = ground arith in
              record {
                files = h.0;
                few = omega (arith, a, h.1);
                few_gaps = omega (arith, c, k);
              })))))

pub parse_coverage-Given : (v : Value) → Given CoverageIsSound (parse_coverage v)
unfolding parse_coverage
parse_coverage-Given v =
    then-Given CoverageIsSound (exact_object coverage_keys (some v)) coverage_of
      (λ fs _. coverage_of-Given fs)
