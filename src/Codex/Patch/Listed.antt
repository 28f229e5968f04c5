-- ===== src/Codex/Patch/Listed.antt =====
-- The sorted paths of two snapshots, as internal/codex/patch.go lists them.
use shipmunk_runner.Prelude.{
  ◌≡◌, refl, sym, ap, ◌∙◌, Bool, true, false, ◌||◌, Bytes, bytes_eq, bytes_eq_iff, Option, none,
  some, is_some, List, [], ◌∷◌, ◌++◌, Bool-cases, inl, inr, arith,
}
use shipmunk_runner.Codex.Review.{contains_path}
use shipmunk_runner.Codex.Patch.{
  Snapshot, state_of, bytes_ltb, insert_sorted, sort_paths, paths_of, new_paths, all_paths,
  changed_at,
}

or_swap : (a b c : Bool) → (a || (b || c)) ≡ (b || (a || c))
or_swap true true c = refl
or_swap true false c = refl
or_swap false true c = refl
or_swap false false c = refl

contains-insert_sorted :
    (p q : Bytes) (qs : List Bytes)
    → contains_path p (insert_sorted q qs) ≡ (bytes_eq q p || contains_path p qs)
unfolding contains_path insert_sorted
contains-insert_sorted p q [] = refl
contains-insert_sorted p q (r ∷ rs) = elim (Bool-cases (bytes_ltb r q)) [
  | inl e ↦ rw e (
      ap (λ b. bytes_eq r p || b) (contains-insert_sorted p q rs)
      ∙ or_swap (bytes_eq r p) (bytes_eq q p) (contains_path p rs))
  | inr e ↦ rw e refl
]

pub contains-sort_paths :
    (p : Bytes) (qs : List Bytes) → contains_path p (sort_paths qs) ≡ contains_path p qs
unfolding contains_path sort_paths
contains-sort_paths p [] = refl
contains-sort_paths p (q ∷ qs) =
    contains-insert_sorted p q (sort_paths qs)
    ∙ ap (λ b. bytes_eq q p || b) (contains-sort_paths p qs)

pub or_assoc : (a b c : Bool) → (a || (b || c)) ≡ ((a || b) || c)
or_assoc true b c = refl
or_assoc false b c = refl

contains_append :
    (p : Bytes) (xs ys : List Bytes)
    → contains_path p (xs ++ ys) ≡ (contains_path p xs || contains_path p ys)
unfolding contains_path
contains_append p [] ys = refl
contains_append p (x ∷ xs) ys =
    ap (λ b. bytes_eq x p || b) (contains_append p xs ys)
    ∙ or_assoc (bytes_eq x p) (contains_path p xs) (contains_path p ys)

-- A path that no list of paths has is in neither snapshot.
has_state : (p : Bytes) (ss : Snapshot) → is_some (state_of p ss) ≡ contains_path p (paths_of ss)
unfolding contains_path state_of
has_state p [] = refl
has_state p ((q, s) ∷ ss) = elim (Bool-cases (bytes_eq q p)) [
  | inl e ↦ rw e refl
  | inr e ↦ rw e (has_state p ss)
]

not_new :
    (p : Bytes) (ss : Snapshot) (seen : List Bytes)
    → contains_path p seen ≡ false
    → contains_path p (new_paths ss seen) ≡ false
    → contains_path p (paths_of ss) ≡ false
unfolding contains_path new_paths
not_new p [] seen h k = refl
not_new p ((q, s) ∷ ss) seen h k = elim (Bool-cases (contains_path q seen)) [
  | inl e ↦ elim (Bool-cases (bytes_eq q p)) [
    | inl f ↦ let eq : q ≡ p = (bytes_eq_iff q p).0 f in cc (rw eq at e, h)
    | inr f ↦ rw f (not_new p ss seen h (rw e at k))
  ]
  | inr e ↦
      let k' : (bytes_eq q p || contains_path p (new_paths ss seen)) ≡ false = rw e at k in
      let f : bytes_eq q p ≡ false = ground arith in
      let rest : contains_path p (new_paths ss seen) ≡ false = ground arith in
      rw f (not_new p ss seen h rest)
]

none_of : {A : Type 0} (o : Option A) → is_some o ≡ false → o ≡ none
none_of none h = refl
none_of (some a) h = cc h

pub unlisted_unchanged :
    (p : Bytes) (before after : Snapshot)
    → contains_path p (all_paths before after) ≡ false
    → changed_at p before after ≡ false
unfolding all_paths changed_at
unlisted_unchanged p before after h =
    let news = new_paths after (paths_of before) in
    let split : (contains_path p (paths_of before) || contains_path p news) ≡ false =
      sym (contains_append p (paths_of before) news)
      ∙ sym (contains-sort_paths p (paths_of before ++ news))
      ∙ h in
    let old : contains_path p (paths_of before) ≡ false = ground arith in
    let new : contains_path p news ≡ false = ground arith in
    let a : state_of p before ≡ none = none_of (state_of p before) (has_state p before ∙ old) in
    let b : state_of p after ≡ none =
      none_of (state_of p after) (has_state p after ∙ not_new p after (paths_of before) old new) in
    rw a (rw b refl)
