-- ===== src/Codex/Review/Covered.antt =====
-- `validateCoverageFileSet` of internal/codex/review_evidence.go: the covered files are the planned ones.
use shipmunk_runner.Prelude.{
  ◌≤◌, ◌≡◌, inl, inr, refl, sym, ap, ◌∙◌, subst, ◌==◌, length, Bool, true, false, not, ◌||◌, Bytes,
  bytes_eq, bytes_eq_iff, List, [], ◌∷◌, Bool-cases, arith, Result, ok, err, and_then, and_then_ok,
}
use shipmunk_runner.Codex.Coverage.{CoverageFile}
use shipmunk_runner.Codex.Review.{
  ReviewError, contains_path, check_if, seen_files, validate_coverage_file_set, unplanned_file,
  repeated_file, omitted_file,
}
use shipmunk_runner.Codex.Review.Sets.{AreDistinct, all_covered}

abbrev pub paths : List CoverageFile → List Bytes
paths [] = []
paths (f ∷ fs) = f.path ∷ paths fs

pub check_if_ok : (b : Bool) (e : ReviewError) → check_if b e ≡ ok tt → b ≡ false
check_if_ok true e h = cc h
check_if_ok false e h = refl

pub after_check :
    {B : Type 0} (b : Bool) (e : ReviewError) (f : Unit {0} → Result ReviewError B) (out : B)
    → and_then (check_if b e) f ≡ ok out
    → (b ≡ false) × (f tt ≡ ok out)
after_check true e f out h = cc h
after_check false e f out h = (refl, h)

-- What the loop over the covered files has seen.
record Seen (files : List CoverageFile) (planned before after : List Bytes) : Type 0 where
  members :
      (p : Bytes)
      → contains_path p after ≡ (contains_path p (paths files) || contains_path p before)
  distinct : AreDistinct before → AreDistinct after
  fresh : (p : Bytes) → contains_path p (paths files) ≡ true → contains_path p before ≡ false
  once : AreDistinct (paths files)
  inside : (p : Bytes) → contains_path p (paths files) ≡ true → contains_path p planned ≡ true

abbrev value_or : List Bytes → Result ReviewError (List Bytes) → List Bytes
value_or d (ok ps) = ps
value_or d (err e) = d

or_swap : (a b c : Bool) → (b || (a || c)) ≡ ((a || b) || c)
or_swap true true c = refl
or_swap true false c = refl
or_swap false true c = refl
or_swap false false c = refl

files-Seen :
    (fs : List CoverageFile) (planned before after : List Bytes)
    → seen_files fs planned before ≡ ok after
    → Seen fs planned before after
unfolding seen_files contains_path
files-Seen [] planned before after h =
    let same : before ≡ after = ap (value_or before) h in
    subst (λ a. Seen [] planned before a) same
      (record {
        members = λ p. refl;
        distinct = λ d. d;
        fresh = λ p m. cc m;
        once = tt;
        inside = λ p m. cc m;
      })
files-Seen (f ∷ fs) planned before after h =
    let (in_plan, h1) = after_check (not (contains_path f.path planned)) unplanned_file _ after h in
    let (new, h2) = after_check (contains_path f.path before) repeated_file _ after h1 in
    let s : Seen fs planned (f.path ∷ before) after =
      files-Seen fs planned (f.path ∷ before) after h2 in
    let own : bytes_eq f.path f.path ≡ true = (bytes_eq_iff f.path f.path).1 refl in
    record {
      members = λ p.
          s.members p
          ∙ or_swap (bytes_eq f.path p) (contains_path p (paths fs)) (contains_path p before);
      distinct = λ d. s.distinct (new, d);
      fresh = λ p m. elim (Bool-cases (bytes_eq f.path p)) [
        | inl e ↦ subst (λ q. contains_path q before ≡ false) ((bytes_eq_iff f.path p).0 e) new
        | inr e ↦
            let rest : contains_path p (paths fs) ≡ true = ground arith in
            let n : contains_path p (f.path ∷ before) ≡ false = s.fresh p rest in ground arith
      ];
      once = (
        elim (Bool-cases (contains_path f.path (paths fs))) [
          | inl e ↦
              let n : contains_path f.path (f.path ∷ before) ≡ false = s.fresh f.path e in
              absurd (ground arith)
          | inr e ↦ e
        ],
        s.once,
      );
      inside = λ p m. elim (Bool-cases (bytes_eq f.path p)) [
        | inl e ↦
            subst (λ q. contains_path q planned ≡ true) ((bytes_eq_iff f.path p).0 e) (ground arith)
        | inr e ↦ s.inside p (ground arith)
      ];
    }

or_false : (a : Bool) → (a || false) ≡ a
or_false true = refl
or_false false = refl

same_truth : (a b : Bool) → (a ≡ true → b ≡ true) → (b ≡ true → a ≡ true) → a ≡ b
same_truth true b h k = sym (h refl)
same_truth false true h k = k refl
same_truth false false h k = refl

-- The covered files are the planned set.
pub set_covered :
    (fs : List CoverageFile) (planned : List Bytes)
    → validate_coverage_file_set fs planned ≡ ok tt
    → ((p : Bytes) → contains_path p (paths fs) ≡ contains_path p planned) × AreDistinct (paths fs)
unfolding validate_coverage_file_set contains_path
set_covered fs planned h =
    let (after, e, l) = and_then_ok (seen_files fs planned []) _ tt h in
    let s : Seen fs planned [] after = files-Seen fs planned [] after e in
    let n : not (length after == length planned) ≡ false =
      check_if_ok (not (length after == length planned)) omitted_file l in
    let few : length planned ≤ length after = ground arith in
    let read : (p : Bytes) → contains_path p after ≡ contains_path p (paths fs) =
      λ p. s.members p ∙ or_false (contains_path p (paths fs)) in
    let inside : (p : Bytes) → contains_path p after ≡ true → contains_path p planned ≡ true =
      λ p m. s.inside p (sym (read p) ∙ m) in
    (
      λ p.
          same_truth (contains_path p (paths fs)) (contains_path p planned) (s.inside p)
            (λ m. sym (read p) ∙ all_covered after planned (s.distinct tt) inside few p m),
      s.once,
    )
