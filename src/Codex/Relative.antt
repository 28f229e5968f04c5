-- ===== src/Codex/Relative.antt =====
-- `validRelativePath` of internal/codex/parser.go against the segments of the path.
use shipmunk_runner.Prelude.{
  ℕ, zero, suc, ◌==◌, ◌≡◌, refl, ap, sym, ◌∙◌, ◌↔◌, Bool, true, false, Bytes, codes, bytes_eq,
  bytes_eq_iff, List, [], ◌∷◌, ◌++◌, All, Bool-cases, inl, inr, arith, subst,
}
use mathlib.Core.List.{append_assoc, append-nil}
use shipmunk_runner.Archive.Text.{has_byte, split, all_but_last}
use shipmunk_runner.Archive.Header.{starts_with_slash, is_unsafe_segment, any_unsafe}
use shipmunk_runner.Archive.Segments.{split_no_slash}
use shipmunk_runner.Codex.Runes.{contains_c0}
use shipmunk_runner.Codex.Paths.{
  Cleaned, IsName, clean, back, is_skipped, clean_step, clean_from, nowhere, with_ups, dots, join,
  rooted_text, starts_with_up, is_below, valid_relative_path, split_cons, split-join, join-split,
}

safe_step :
    (rooted : Bool) (c : Cleaned) (s : Bytes)
    → is_unsafe_segment s ≡ false
    → clean_step rooted c s ≡ record c { names = c.names ++ (s ∷ []) }
unfolding bytes_eq
safe_step rooted c s h =
    let kept : is_skipped s ≡ false = ground arith in
    let below : bytes_eq s dots ≡ false = ground arith in rw kept (rw below refl)

-- Safe segments are appended one by one.
clean_safe :
    (rooted : Bool) (c : Cleaned) (ss : List Bytes)
    → any_unsafe ss ≡ false
    → clean_from rooted c ss ≡ record c { names = c.names ++ ss }
unfolding bytes_eq
clean_safe rooted c [] h = ap (λ ns. record c { names = ns }) (sym (append-nil c.names))
clean_safe rooted c (s ∷ ss) h =
    let here : is_unsafe_segment s ≡ false = ground arith in
    let rest : any_unsafe ss ≡ false = ground arith in
    let next : Cleaned = record c { names = c.names ++ (s ∷ []) } in
    let step : clean_step rooted c s ≡ next = safe_step rooted c s here in
    rw step (
      clean_safe rooted next ss rest
      ∙ ap (λ ns. record c { names = ns }) (append_assoc c.names (s ∷ []) ss))

pub safe_not_rooted : (p : Bytes) → any_unsafe (split p) ≡ false → starts_with_slash p ≡ false
safe_not_rooted [] h = refl
safe_not_rooted (c ∷ p) h = elim (Bool-cases (c == b'/')) [ inl e ↦ cc (rw e at h) | inr e ↦ e ]

append-IsName :
    (ns : List Bytes) (s : Bytes) → All IsName ns → IsName s → All IsName (ns ++ (s ∷ []))
append-IsName [] s h k = (k, tt)
append-IsName (n ∷ ns) s h k = (h.0, append-IsName ns s h.1 k)

all_but_last-All : (ns : List Bytes) → All IsName ns → All IsName (all_but_last ns)
all_but_last-All [] h = tt
all_but_last-All (n ∷ []) h = tt
all_but_last-All (n ∷ m ∷ ns) h = (h.0, all_but_last-All (m ∷ ns) h.1)

back-IsName : (ups : ℕ) (ns : List Bytes) → All IsName ns → All IsName (back false ups ns).names
back-IsName ups [] h = tt
back-IsName ups (n ∷ ns) h = all_but_last-All (n ∷ ns) h

clean_step-IsName :
    (c : Cleaned) (s : Bytes)
    → All IsName c.names
    → has_byte b'/' s ≡ false
    → All IsName (clean_step false c s).names
unfolding bytes_eq
clean_step-IsName c s h k = elim (Bool-cases (is_skipped s)) [
  | inl e ↦ rw e h
  | inr e ↦ elim (Bool-cases (bytes_eq s dots)) [
    | inl d ↦ rw e (rw d (back-IsName c.ups c.names h))
    | inr d ↦
        let safe : is_unsafe_segment s ≡ false = ground arith in
        rw e (rw d (append-IsName c.names s h (safe, k)))
  ]
]

clean_from-IsName :
    (c : Cleaned) (ss : List Bytes)
    → All IsName c.names
    → All (λ s. has_byte b'/' s ≡ false) ss
    → All IsName (clean_from false c ss).names
clean_from-IsName c [] h k = h
clean_from-IsName c (s ∷ ss) h k =
    clean_from-IsName (clean_step false c s) ss (clean_step-IsName c s h k.0) k.1

names_safe : (ns : List Bytes) → All IsName ns → any_unsafe ns ≡ false
names_safe [] h = refl
names_safe (n ∷ ns) h = let rest = names_safe ns h.1 in let here = h.0.0 in ground arith

up_form : (p : Bytes) → starts_with_up p ≡ true → (s : Bytes) × (p ≡ b'.' ∷ b'.' ∷ b'/' ∷ s)
up_form [] h = cc h
up_form (a ∷ []) h = cc h
up_form (a ∷ b ∷ []) h = cc h
up_form (a ∷ b ∷ c ∷ s) h =
    let ea : a ≡ b'.' = ground arith in
    let eb : b ≡ b'.' = ground arith in
    let ec : c ≡ b'/' = ground arith in (s, rw ea (rw eb (rw ec refl)))

not_below : (ts : List Bytes) → is_below (join (dots ∷ ts)) ≡ true → ⊥
unfolding bytes_eq
not_below [] h = cc h
not_below (t ∷ ts) h = cc h

-- A path that is joined from names is below the directory, and its names are safe.
names_below :
    (ups : ℕ) (ns : List Bytes) (p : Bytes)
    → All IsName ns
    → rooted_text false (with_ups ups ns) ≡ p
    → is_below p ≡ true
    → any_unsafe (split p) ≡ false
unfolding bytes_eq
names_below zero [] p h e k = cc (subst (λ q. is_below q ≡ true) (sym e) k)
names_below zero (n ∷ ns) p h e k =
    subst (λ q. any_unsafe (split q) ≡ false) e (rw (split-join n ns h) (names_safe (n ∷ ns) h))
names_below (suc ups) ns p h e k =
    absurd (not_below (with_ups ups ns) (subst (λ q. is_below q ≡ true) (sym e) k))

module _ (p : Bytes) where
  abbrev pub IsPlain : Type 0
  IsPlain = (has_byte 92 p ≡ false) × (contains_c0 p ≡ false) × (any_unsafe (split p) ≡ false)

  clean-IsPlain : any_unsafe (split p) ≡ false → clean p ≡ p
  unfolding clean
  clean-IsPlain h =
      let flat : starts_with_slash p ≡ false = safe_not_rooted p h in
      let (s, ss, e) = split_cons p in
      let whole : join (s ∷ ss) ≡ p = subst (λ segs. join segs ≡ p) e (join-split p) in
      rw flat (rw (clean_safe false nowhere (split p) h) (rw e whole))

  not_itself :
      any_unsafe (split p) ≡ false
      → (q : Bytes) → any_unsafe (split q) ≡ true
      → bytes_eq p q ≡ false
  not_itself h q u = elim (Bool-cases (bytes_eq p q)) [
    | inl e ↦ let same : p ≡ q = (bytes_eq_iff p q).0 e in cc (rw same at h, u)
    | inr e ↦ e
  ]

  no_ups : any_unsafe (split p) ≡ false → starts_with_up p ≡ false
  unfolding bytes_eq
  no_ups h = elim (Bool-cases (starts_with_up p)) [
    | inl e ↦ let (s, same) = up_form p e in cc (rw same at h)
    | inr e ↦ e
  ]

  plain-is_below : any_unsafe (split p) ≡ false → is_below p ≡ true
  unfolding bytes_eq
  plain-is_below h =
      let a : bytes_eq p (codes ".") ≡ false = not_itself h (codes ".") refl in
      let b : bytes_eq p dots ≡ false = not_itself h dots refl in
      rw a (rw b (rw (no_ups h) (rw (safe_not_rooted p h) refl)))

  plain-valid : IsPlain → valid_relative_path p ≡ true
  unfolding valid_relative_path
  plain-valid (a, b, h) =
      let same : clean p ≡ p = clean-IsPlain h in
      let eq : bytes_eq (clean p) p ≡ true = (bytes_eq_iff (clean p) p).1 same in
      let below : is_below (clean p) ≡ true =
        subst (λ q. is_below q ≡ true) (sym same) (plain-is_below h) in
      rw a (rw b (rw eq (rw below refl)))

  cleaned-safe : clean p ≡ p → is_below p ≡ true → any_unsafe (split p) ≡ false
  unfolding clean
  cleaned-safe e k =
      let flat : starts_with_slash p ≡ false = ground arith in
      let c : Cleaned = clean_from false nowhere (split p) in
      let text : rooted_text false (with_ups c.ups c.names) ≡ p = rw flat at e in
      names_below c.ups c.names p (clean_from-IsName nowhere (split p) tt (split_no_slash p)) text k

  valid-plain : valid_relative_path p ≡ true → IsPlain
  unfolding valid_relative_path
  valid-plain h =
      let a : has_byte 92 p ≡ false = ground arith in
      let b : contains_c0 p ≡ false = ground arith in
      let eq : bytes_eq (clean p) p ≡ true = ground arith in
      let same : clean p ≡ p = (bytes_eq_iff (clean p) p).0 eq in
      let below : is_below (clean p) ≡ true = ground arith in
      (a, b, cleaned-safe same (subst (λ q. is_below q ≡ true) same below))

-- `validRelativePath` accepts exactly the paths with no backslash and no control byte whose segments
-- between slashes are all names: not empty, not `.` and not `..`. Cleaning changes no such path.
pub valid_relative_path_iff : (p : Bytes) → (valid_relative_path p ≡ true) ↔ IsPlain p
valid_relative_path_iff p = (valid-plain p, plain-valid p)
