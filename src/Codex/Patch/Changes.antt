-- ===== src/Codex/Patch/Changes.antt =====
-- The changed files of internal/codex/patch.go, and a review of them.
use shipmunk_runner.Prelude.{
  ◌+◌, ◌≡◌, refl, sym, ap, ◌∙◌, subst, ltb, length, Bool, true, false, ◌&&◌, ◌||◌, Bytes, bytes_eq,
  bytes_eq_iff, Option, some, List, [], ◌∷◌, ◌++◌, Bool-cases, inl, inr, Result, ok, err, and_then,
  and_then_ok,
}
use shipmunk_runner.Codex.Coverage.{Coverage}
use shipmunk_runner.Codex.Structured.{Structured}
use shipmunk_runner.Codex.Evidence.{is_snapshot}
use shipmunk_runner.Codex.Review.{ReviewEvidence, contains_path, validate_review_result}
use shipmunk_runner.Codex.Review.Covered.{paths}
use shipmunk_runner.Codex.Review.Checked.{ReviewIsChecked, validate_review_result-ReviewIsChecked}
use shipmunk_runner.Codex.Patch.{
  Snapshot, sort_paths, all_paths, FileChange, Patch, PatchError, changed_at, change_of, add_change,
  collect_changes, max_changed_files, Tools, is_empty_list, same, verified, collect_snapshot_patch,
  change_paths, patch_paths, build_review_evidence,
}
use shipmunk_runner.Codex.Patch.Listed.{contains-sort_paths, or_assoc, unlisted_unchanged}

abbrev changes_or : List FileChange → Result PatchError (List FileChange) → List FileChange
changes_or d (ok cs) = cs
changes_or d (err e) = d

or_false : (a : Bool) → (a || false) ≡ a
or_false true = refl
or_false false = refl

and_false : (a : Bool) → (a && false) ≡ false
and_false true = refl
and_false false = refl

repeated : (d s : Bool) → ((d && true) || (s && d)) ≡ d
repeated true s = refl
repeated false s = and_false s

join_change :
    (c b q s d : Bool) → (q ≡ true → b ≡ d) → ((c || (b && q)) || (s && d)) ≡ (c || ((q || s) && d))
join_change true b q s d h = refl
join_change false b true s d h = rw (h refl) (repeated d s)
join_change false b false s d h = rw (and_false b) refl

change_added :
    (p q : Bytes) (cs : List FileChange) (c : FileChange)
    → c.path ≡ q
    → contains_path p (change_paths (cs ++ (c ∷ [])))
      ≡ (contains_path p (change_paths cs) || bytes_eq q p)
unfolding contains_path
change_added p q [] c h = rw h (or_false (bytes_eq q p))
change_added p q (d ∷ ds) c h =
    ap (λ b. bytes_eq d.path p || b) (change_added p q ds c h)
    ∙ or_assoc (bytes_eq d.path p) (contains_path p (change_paths ds)) (bytes_eq q p)

added_path :
    (b : Bool) (p : Bytes) (cs more : List FileChange) (c : FileChange)
    → add_change b cs c ≡ ok more
    → contains_path p (change_paths more)
      ≡ (contains_path p (change_paths cs) || (b && bytes_eq c.path p))
added_path false p cs more c h =
    ap (λ o. contains_path p (change_paths (changes_or cs o))) (sym h)
    ∙ sym (or_false (contains_path p (change_paths cs)))
added_path true p cs more c h = elim (Bool-cases (ltb max_changed_files (length cs + 1))) [
  | inl l ↦ cc (rw l at h)
  | inr l ↦
      ap (λ o. contains_path p (change_paths (changes_or cs o))) (sym (rw l at h))
      ∙ change_added p c.path cs c refl
]

-- The changes are those of the listed paths that differ.
collected :
    (before after : Snapshot) (ps : List Bytes) (cs out : List FileChange) (p : Bytes)
    → collect_changes before after ps cs ≡ ok out
    → contains_path p (change_paths out)
      ≡ (contains_path p (change_paths cs) || (contains_path p ps && changed_at p before after))
unfolding collect_changes contains_path
collected before after [] cs out p h =
    subst (λ o. contains_path p (change_paths o) ≡ (contains_path p (change_paths cs) || false))
      (ap (changes_or cs) h) (sym (or_false (contains_path p (change_paths cs))))
collected before after (q ∷ qs) cs out p h =
    let (more, a, rest) =
      and_then_ok (add_change (changed_at q before after) cs (change_of q before after)) _ out h in
    collected before after qs more out p rest
    ∙ ap (λ b. b || (contains_path p qs && changed_at p before after))
        (added_path (changed_at q before after) p cs more (change_of q before after) a)
    ∙ join_change (contains_path p (change_paths cs)) (changed_at q before after) (bytes_eq q p)
        (contains_path p qs) (changed_at p before after)
        (λ m. ap (λ r. changed_at r before after) ((bytes_eq_iff q p).0 m))

listed_changes :
    (before after : Snapshot) (out : List FileChange) (p : Bytes)
    → collect_changes before after (all_paths before after) [] ≡ ok out
    → contains_path p (change_paths out) ≡ changed_at p before after
unfolding contains_path
listed_changes before after out p h =
    collected before after (all_paths before after) [] out p h
    ∙ elim (Bool-cases (contains_path p (all_paths before after))) [
      | inl e ↦ rw e refl
      | inr e ↦ rw e (sym (unlisted_unchanged p before after e))
    ]

both_true : (a b : Bool) → same a b ≡ true → b ≡ true → a ≡ true
both_true true b h k = refl
both_true false true h k = cc h
both_true false false h k = k

abbrev files_or : List Bytes → Result PatchError ReviewEvidence → List Bytes
files_or d (ok ev) = ev.changed_files
files_or d (err e) = d

no_changes :
    (cs : List FileChange) (p : Bytes)
    → is_empty_list cs ≡ true
    → contains_path p (change_paths cs) ≡ false
unfolding contains_path
no_changes [] p h = refl
no_changes (c ∷ cs) p h = cc h

abbrev paths_or : List Bytes → Result PatchError (Option Patch) → List Bytes
paths_or ps (ok out) = patch_paths out
paths_or ps (err e) = ps

verified_paths :
    (tools : Tools) (patch : Bytes) (cs : List FileChange) (r : Result PatchError Bytes)
    (out : Option Patch)
    → and_then r (verified tools patch cs) ≡ ok out
    → patch_paths out ≡ change_paths cs
unfolding verified
verified_paths tools patch cs (err e) out h = cc h
verified_paths tools patch cs (ok g) out h = elim (Bool-cases (bytes_eq patch g)) [
  | inl e ↦ sym (ap (paths_or (change_paths cs)) (rw e at h))
  | inr e ↦ cc (rw e at h)
]

-- The files of a collected patch are those that differ between the snapshots.
patch_changes :
    (tools : Tools) (before after : Snapshot) (patch : Bytes) (renames : Bool) (out : Option Patch)
    (p : Bytes)
    → collect_snapshot_patch tools before after patch renames ≡ ok out
    → contains_path p (patch_paths out) ≡ changed_at p before after
unfolding collect_snapshot_patch contains_path
patch_changes tools before after patch renames out p h =
    let (cs, c, rest) =
      and_then_ok (collect_changes before after (all_paths before after) []) _ out h in
    elim (Bool-cases (same (is_empty_list cs) (is_empty_list patch))) [
      | inr s ↦ cc (rw s at rest)
      | inl s ↦ elim (Bool-cases (is_empty_list patch)) [
        | inl e ↦
            let nothing : is_empty_list cs ≡ true =
              both_true (is_empty_list cs) (is_empty_list patch) s e in
            let read : patch_paths out ≡ [] = sym (ap (paths_or []) (rw e at rw s at rest)) in
            rw read (sym (no_changes cs p nothing) ∙ listed_changes before after cs p c)
        | inr e ↦
            let read : patch_paths out ≡ change_paths cs =
              verified_paths tools patch cs (tools.generate before after renames) out
                (rw e at rw s at rest) in
            rw read (listed_changes before after cs p c)
      ]
    ]

evidence_changes :
    (tools : Tools) (base head : Bytes) (before after : Snapshot) (ev : ReviewEvidence) (p : Bytes)
    → build_review_evidence tools base head before after ≡ ok ev
    → contains_path p ev.changed_files ≡ changed_at p before after
unfolding build_review_evidence
evidence_changes tools base head before after ev p h =
    elim (Bool-cases (is_snapshot base && is_snapshot head)) [
      | inr e ↦ cc (rw e at h)
      | inl e ↦
          let (g, _, h1) = and_then_ok (tools.generate before after false) _ ev (rw e at h) in
          let (o, k, h2) =
            and_then_ok (collect_snapshot_patch tools before after g false) _ ev h1 in
          let read : sort_paths (patch_paths o) ≡ ev.changed_files = ap (files_or []) h2 in
          subst (λ ps. contains_path p ps ≡ changed_at p before after) read
            (contains-sort_paths p (patch_paths o) ∙ patch_changes tools before after g false o p k)
    ]

-- A review's result that passes against the evidence of two snapshots covers exactly the files that differ
-- between them, in their contents' hash, in their mode, or by being in one of the two only.
pub review_covers_changes :
    (tools : Tools) (base head : Bytes) (before after : Snapshot) (ev : ReviewEvidence)
    (r : Structured)
    → build_review_evidence tools base head before after ≡ ok ev
    → validate_review_result r (some ev) ≡ ok tt
    → (coverage : Coverage) × (r.coverage ≡ some coverage)
      × ((p : Bytes) → contains_path p (paths coverage.files) ≡ changed_at p before after)
review_covers_changes tools base head before after ev r h k =
    let checked : ReviewIsChecked r ev = validate_review_result-ReviewIsChecked r ev k in
    (
      checked.coverage,
      checked.given,
      λ p. checked.covered p ∙ evidence_changes tools base head before after ev p h,
    )
