-- ===== src/Codex/Results.antt =====
-- What `parseResult` of internal/codex/parser.go accepts.
use shipmunk_runner.Prelude.{
  ℕ, ◌≤◌, ◌≡◌, refl, sym, subst, leb, length, true, false, ◌&&◌, Bytes, codes, bytes_eq,
  bytes_eq_iff, Option, none, some, List, [], ◌∷◌, All, Bool-cases, inl, inr, arith, Given,
  bind-Given, then-Given, require-Given, Given_some, traverse,
}
use shipmunk_runner.Json.{Value, Fields, get}
use shipmunk_runner.Protocol.Decode.{decode}
use shipmunk_runner.Codex.Fields.{bounded_string, array_of, object_of}
use shipmunk_runner.Codex.Accepted.{
  FindingIsSound, QuestionIsSound, CoverageIsSound, parse_finding-Given, parse_question-Given,
  parse_coverage-Given, both,
}
use shipmunk_runner.Codex.Finding.{Finding, Question, parse_finding, parse_question, parse_test}
use shipmunk_runner.Codex.Coverage.{Coverage, parse_coverage}
use shipmunk_runner.Codex.Structured.{
  Structured, parse_result, result_of, completed_result, extended_result, incomplete_result,
  fits_outcome, is_extended, is_outcome, allowed_keys, only_keys, must_be_empty, questions_of,
  required_coverage, optional_coverage, given_coverage, drop_null_fields, max_result_bytes,
}

-- No coverage, or a sound one.
abbrev CoverageFits : Option Coverage → Type 0
CoverageFits none = Unit
CoverageFits (some c) = CoverageIsSound c

abbrev IsCovered : Option Coverage → Type 0
IsCovered none = ⊥
IsCovered (some c) = Unit

-- Findings and questions as the outcome has them, each of them with sound references.
pub record ResultIsSound (r : Structured) : Type 0 where
  pub findings : All FindingIsSound r.findings
  pub questions : All QuestionIsSound r.questions
  pub coverage : CoverageFits r.coverage
  pub few : length r.findings ≤ 100
  pub few_questions : length r.questions ≤ 20
  pub found : r.outcome ≡ codes "findings" → 1 ≤ length r.findings
  pub clean : must_be_empty r.outcome ≡ true → r.findings ≡ []
  pub covered : is_extended r.outcome ≡ true → IsCovered r.coverage
  pub silent : is_extended r.outcome ≡ false → r.questions ≡ []

-- What holds of a result before its coverage and questions are read.
record IsBase (r : Structured) : Type 0 where
  findings : All FindingIsSound r.findings
  few : length r.findings ≤ 100
  found : r.outcome ≡ codes "findings" → 1 ≤ length r.findings
  clean : must_be_empty r.outcome ≡ true → r.findings ≡ []
  no_questions : r.questions ≡ []
  no_coverage : r.coverage ≡ none

questions_of-Given :
    (v : Option Value) → Given (λ qs. All QuestionIsSound qs × (length qs ≤ 20)) (questions_of v)
unfolding questions_of
questions_of-Given none = (tt, omega arith)
questions_of-Given (some v) =
    let P = λ (qs : List Question). All QuestionIsSound qs × (length qs ≤ 20) in
    then-Given P (array_of (some v)) _ (λ vs _. require-Given P (leb (length vs) 20) _ (λ b.
      let e : length vs ≤ 20 = ground arith in
      fewer (length vs) e (traverse parse_question vs)
        (both QuestionIsSound parse_question parse_question-Given vs)))
  where
    fewer :
        (n : ℕ)
        → n ≤ 20
        → (o : Option (List Question)) → Given (λ qs. All QuestionIsSound qs × (length qs ≡ n)) o
        → Given (λ qs. All QuestionIsSound qs × (length qs ≤ 20)) o
    fewer n b none h = tt
    fewer n b (some qs) h = (h.0, omega (arith, b, h.1))

required_coverage-Given : (v : Option Value) → Given CoverageIsSound (required_coverage v)
unfolding required_coverage
required_coverage-Given none = tt
required_coverage-Given (some v) = parse_coverage-Given v

extended_result-Given :
    (fs : Fields) (r : Structured)
    → IsBase r
    → is_extended r.outcome ≡ true
    → Given ResultIsSound (extended_result fs r)
unfolding extended_result
extended_result-Given fs r b x =
    let P = ResultIsSound in
    then-Given P (bounded_string 8 (get (codes "charter_version") fs)) _ (λ charter _.
      then-Given P (bounded_string 16 (get (codes "verification_state") fs)) _ (λ state _.
        require-Given P (bytes_eq state (codes "none")) _ (λ _.
          bind-Given P (required_coverage (get (codes "coverage") fs)) _
            (required_coverage-Given (get (codes "coverage") fs))
            (λ coverage c.
              bind-Given P (questions_of (get (codes "questions") fs)) _
                (questions_of-Given (get (codes "questions") fs))
                (λ questions q. record {
                  findings = b.findings;
                  questions = q.0;
                  coverage = c;
                  few = b.few;
                  few_questions = q.1;
                  found = b.found;
                  clean = b.clean;
                  covered = λ _. tt;
                  silent = λ n. cc (x, n);
                })))))

optional_coverage-Given : (v : Option Value) → Given CoverageFits (optional_coverage v)
unfolding optional_coverage
optional_coverage-Given none = tt
optional_coverage-Given (some v) = given (parse_coverage v) (parse_coverage-Given v)
  where
    given : (o : Option Coverage) → Given CoverageIsSound o → Given CoverageFits (given_coverage o)
    given none h = tt
    given (some c) h = h

-- A result that is not of the two extended outcomes.
plain_result :
    (r : Structured) (c : Option Coverage)
    → IsBase r
    → is_extended r.outcome ≡ false
    → CoverageFits c
    → ResultIsSound (record r { coverage = c })
plain_result r c b x k = record {
  findings = b.findings;
  questions = rw b.no_questions tt;
  coverage = k;
  few = b.few;
  few_questions = rw b.no_questions (omega arith);
  found = b.found;
  clean = b.clean;
  covered = λ e. cc (x, e);
  silent = λ _. b.no_questions;
}

completed_result-Given :
    (fs : Fields) (r : Structured) → IsBase r → Given ResultIsSound (completed_result fs r)
unfolding completed_result incomplete_result
completed_result-Given fs r b = elim (Bool-cases (is_extended r.outcome)) [
  | inl x ↦ rw x (extended_result-Given fs r b x)
  | inr x ↦ elim (Bool-cases (bytes_eq r.outcome (codes "incomplete"))) [
    | inl i ↦ rw x (
        rw i (
          bind-Given ResultIsSound (optional_coverage (get (codes "coverage") fs)) _
            (optional_coverage-Given (get (codes "coverage") fs)) (λ c k. plain_result r c b x k)))
    | inr i ↦ rw x (rw i (plain_result r r.coverage b x (rw b.no_coverage tt)))
  ]
]

fits_found :
    (outcome : Bytes) (n : ℕ) → fits_outcome outcome n ≡ true → outcome ≡ codes "findings" → 1 ≤ n
unfolding fits_outcome
fits_found outcome n h e =
    let eq : bytes_eq outcome (codes "findings") ≡ true =
      (bytes_eq_iff outcome (codes "findings")).1 e in
    ground arith

fits_clean :
    (outcome : Bytes) (n : ℕ) → fits_outcome outcome n ≡ true → must_be_empty outcome ≡ true → n ≡ 0
unfolding fits_outcome
fits_clean outcome n h e = ground arith

fits_few : (outcome : Bytes) (n : ℕ) → fits_outcome outcome n ≡ true → n ≤ 100
unfolding fits_outcome
fits_few outcome n h = ground arith

no_items : (fs : List Finding) (n : ℕ) → length fs ≡ n → n ≡ 0 → fs ≡ []
no_items [] n h e = refl
no_items (f ∷ fs) n h e = absurd (omega (arith, h, e))

result_of-Given : (fs : Fields) → Given ResultIsSound (result_of fs)
unfolding result_of
result_of-Given fs =
    let P = ResultIsSound in
    then-Given P (bounded_string 16384 (get (codes "summary") fs)) _ (λ summary _.
      then-Given P (bounded_string 64 (get (codes "outcome") fs)) _ (λ outcome _.
        require-Given P (is_outcome outcome) _ (λ _.
          require-Given P (only_keys (allowed_keys outcome) fs) _ (λ _.
            then-Given P (array_of (get (codes "findings") fs)) _ (λ vs _.
              then-Given P (array_of (get (codes "tests") fs)) _ (λ ts _.
                require-Given P (fits_outcome outcome (length vs) && leb (length ts) 100) _ (λ b.
                  let fits : fits_outcome outcome (length vs) ≡ true = ground arith in
                  let few = fits_few outcome (length vs) fits in
                  bind-Given P (traverse parse_finding vs) _
                    (both FindingIsSound parse_finding parse_finding-Given vs)
                    (λ findings h. then-Given P (traverse parse_test ts) _ (λ tests _.
                      completed_result-Given fs _ (record {
                        findings = h.0;
                        few = omega (arith, few, h.1);
                        found = λ e.
                            subst (λ n. 1 ≤ n) (sym h.1) (fits_found outcome (length vs) fits e);
                        clean = λ e.
                            no_items findings (length vs) h.1
                              (fits_clean outcome (length vs) fits e);
                        no_questions = refl;
                        no_coverage = refl;
                      }))))))))))

-- Each reference of an accepted result is to lines, in order and numbered from 1 to at most
-- 2^53 - 1, of a file below the repository, in a snapshot named by 40 hexadecimal digits. A result with the
-- outcome `findings` has 1 to 100 findings, each with 1 to 5 references; one with the outcome
-- `no_findings`, `incomplete` or `needs_input` has none. The outcomes `findings` and `no_findings`
-- come with the coverage, and only they with questions, at most 20. Covered files are at most 300,
-- below the repository, and have a reason exactly where they were not reviewed.
pub parse_result-ResultIsSound :
    (raw : Bytes) (r : Structured) → parse_result raw ≡ some r → ResultIsSound r
unfolding parse_result
parse_result-ResultIsSound raw r e =
    Given_some ResultIsSound
      (then-Given ResultIsSound (decode max_result_bytes raw) _ (λ v _.
        then-Given ResultIsSound (object_of (some v)) _
          (λ fs _. result_of-Given (drop_null_fields fs))))
      e
