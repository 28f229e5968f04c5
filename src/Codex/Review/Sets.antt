-- ===== src/Codex/Review/Sets.antt =====
-- Sets of paths: as many distinct members of a set as the set has are all of them.
use shipmunk_runner.Prelude.{
  suc, ◌≤◌, ◌≡◌, inl, inr, refl, ap, ◌∙◌, subst, length, true, false, ◌||◌, Bytes, bytes_eq,
  bytes_eq_iff, List, [], ◌∷◌, Bool-cases, arith, if◌then◌else◌,
}
use shipmunk_runner.Codex.Review.{contains_path, insert_path, path_set}

abbrev pub AreDistinct : List Bytes → Type 0
AreDistinct [] = Unit
AreDistinct (p ∷ ps) = (contains_path p ps ≡ false) × AreDistinct ps

-- The set without a path.
remove_path : Bytes → List Bytes → List Bytes
remove_path p [] = []
remove_path p (q ∷ qs) = let rest = remove_path p qs in if bytes_eq q p then qs else q ∷ rest

length-remove_path :
    (p : Bytes) (qs : List Bytes)
    → contains_path p qs ≡ true
    → suc (length (remove_path p qs)) ≡ length qs
unfolding contains_path remove_path
length-remove_path p [] h = cc h
length-remove_path p (q ∷ qs) h = elim (Bool-cases (bytes_eq q p)) [
  | inl e ↦ rw e refl
  | inr e ↦
      let rest : contains_path p qs ≡ true = ground arith in
      rw e (ap suc (length-remove_path p qs rest))
]

-- Another path stays.
contains-remove_path :
    (p q : Bytes) (qs : List Bytes)
    → bytes_eq p q ≡ false
    → contains_path q qs ≡ true
    → contains_path q (remove_path p qs) ≡ true
unfolding contains_path remove_path
contains-remove_path p q [] n h = cc h
contains-remove_path p q (r ∷ rs) n h = elim (Bool-cases (bytes_eq r p)) [
  | inl e ↦
      let same : r ≡ p = (bytes_eq_iff r p).0 e in
      let other : bytes_eq r q ≡ false = rw same n in
      let rest : contains_path q rs ≡ true = ground arith in rw e rest
  | inr e ↦ elim (Bool-cases (bytes_eq r q)) [
    | inl f ↦ rw e (rw f refl)
    | inr f ↦
        let rest : contains_path q rs ≡ true = ground arith in
        rw e (rw f (contains-remove_path p q rs n rest))
  ]
]

member_other :
    (p q : Bytes) (ps : List Bytes)
    → contains_path p ps ≡ false
    → contains_path q ps ≡ true
    → bytes_eq p q ≡ false
member_other p q ps h k = elim (Bool-cases (bytes_eq p q)) [
  | inl e ↦ let same : p ≡ q = (bytes_eq_iff p q).0 e in cc (rw same at h, k)
  | inr e ↦ e
]

pub all_covered :
    (ps qs : List Bytes)
    → AreDistinct ps
    → ((p : Bytes) → contains_path p ps ≡ true → contains_path p qs ≡ true)
    → length qs ≤ length ps
    → (q : Bytes) → contains_path q qs ≡ true
    → contains_path q ps ≡ true
unfolding contains_path
all_covered [] [] d h l q k = k
all_covered [] (r ∷ rs) d h l q k = absurd (omega (arith, l))
all_covered (p ∷ ps) qs d h l q k = elim (Bool-cases (bytes_eq p q)) [
  | inl e ↦ rw e refl
  | inr e ↦
      let own : bytes_eq p p ≡ true = (bytes_eq_iff p p).1 refl in
      let in_qs : contains_path p qs ≡ true = h p (rw own refl) in
      let shorter : length (remove_path p qs) ≤ length ps =
        omega (arith, l, length-remove_path p qs in_qs) in
      let inside : (r : Bytes)
          → contains_path r ps ≡ true
          → contains_path r (remove_path p qs) ≡ true =
        λ r m.
          let n : bytes_eq p r ≡ false = member_other p r ps d.0 m in
          contains-remove_path p r qs n (h r (rw n m)) in
      rw e
        (all_covered ps (remove_path p qs) d.1 inside shorter q (contains-remove_path p q qs e k))
]

-- The set of a list has its members.
contains-insert_path :
    (p q : Bytes) (ps : List Bytes)
    → contains_path q (insert_path p ps) ≡ (bytes_eq p q || contains_path q ps)
unfolding insert_path contains_path
contains-insert_path p q ps = elim (Bool-cases (contains_path p ps)) [
  | inl e ↦ elim (Bool-cases (bytes_eq p q)) [
    | inl f ↦
        let same : p ≡ q = (bytes_eq_iff p q).0 f in
        let there : contains_path q ps ≡ true = subst (λ r. contains_path r ps ≡ true) same e in
        rw e (rw f (rw there refl))
    | inr f ↦ rw e (rw f refl)
  ]
  | inr e ↦ rw e refl
]

pub contains-path_set :
    (q : Bytes) (ps : List Bytes) → contains_path q (path_set ps) ≡ contains_path q ps
unfolding path_set contains_path
contains-path_set q [] = refl
contains-path_set q (p ∷ ps) =
    contains-insert_path p q (path_set ps) ∙ ap (λ b. bytes_eq p q || b) (contains-path_set q ps)
