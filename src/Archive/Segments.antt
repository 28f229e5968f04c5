-- ===== src/Archive/Segments.antt =====
-- The paths that `archivePath` of internal/workspace/tar.go lets through.
use shipmunk_runner.Prelude.{
  Holds, ℕ, ◌≡◌, refl, ◌==◌, false, not, ◌||◌, Bytes, codes, bytes_eq, valid_utf8, List, [], ◌∷◌,
  Bool-cases, inl, inr, All, arith,
}
use shipmunk_runner.Archive.Text.{has_byte, begin_with, split}
use shipmunk_runner.Archive.Header.{
  is_empty, starts_with_slash, is_unsafe_segment, any_unsafe, checked_path, backslash,
}
use shipmunk_runner.Archive.Extract.{Write, make_directory, create_file, set_mode}

-- A name of a directory's entry: not empty, not the directory or its parent, and in one piece.
pub record IsSegment (s : Bytes) : Type 0 where
  pub not_empty : s ≡ [] → ⊥
  pub not_self : s ≡ codes "." → ⊥
  pub not_parent : s ≡ codes ".." → ⊥
  pub no_slash : has_byte b'/' s ≡ false
  pub no_backslash : has_byte 92 s ≡ false
  pub no_zero : has_byte 0 s ≡ false

abbrev pub path_of : Write → List Bytes
path_of (make_directory p) = p
path_of (create_file p _) = p
path_of (set_mode p _) = p

abbrev pub AllBelow : List Write → Type 0
AllBelow = All (λ w. All IsSegment (path_of w))

begin_with-All :
    (b c : ℕ) (ss : List Bytes)
    → (c == b) ≡ false
    → All (λ s. has_byte b s ≡ false) ss
    → All (λ s. has_byte b s ≡ false) (begin_with c ss)
begin_with-All b c [] e h = (rw e refl, tt)
begin_with-All b c (s ∷ ss) e h = (rw e h.0, h.1)

pub split_no_slash : (p : Bytes) → All (λ s. has_byte b'/' s ≡ false) (split p)
split_no_slash [] = (refl, tt)
split_no_slash (c ∷ p) = elim (Bool-cases (c == b'/')) [
  | inl e ↦ rw e (refl, split_no_slash p)
  | inr e ↦ rw e (begin_with-All b'/' c (split p) e (split_no_slash p))
]

split_none : (b : ℕ) (p : Bytes) → has_byte b p ≡ false → All (λ s. has_byte b s ≡ false) (split p)
split_none b [] h = (refl, tt)
split_none b (c ∷ p) h =
    let here : (c == b) ≡ false = ground arith in
    let rest : has_byte b p ≡ false = ground arith in
    elim (Bool-cases (c == b'/')) [
      | inl e ↦ rw e (refl, split_none b p rest)
      | inr e ↦ rw e (begin_with-All b c (split p) here (split_none b p rest))
    ]

segment :
    (s : Bytes)
    → is_unsafe_segment s ≡ false
    → has_byte b'/' s ≡ false
    → has_byte 92 s ≡ false
    → has_byte 0 s ≡ false
    → IsSegment s
unfolding bytes_eq
segment s e a b c = record {
  not_empty = λ h. cc (rw h at e);
  not_self = λ h. cc (rw h at e);
  not_parent = λ h. cc (rw h at e);
  no_slash = a;
  no_backslash = b;
  no_zero = c;
}

segments :
    (ss : List Bytes)
    → any_unsafe ss ≡ false
    → All (λ s. has_byte b'/' s ≡ false) ss
    → All (λ s. has_byte 92 s ≡ false) ss
    → All (λ s. has_byte 0 s ≡ false) ss
    → All IsSegment ss
segments [] e a b c = tt
segments (s ∷ ss) e a b c =
    let here : is_unsafe_segment s ≡ false = ground arith in
    let rest : any_unsafe ss ≡ false = ground arith in
    (segment s here a.0 b.0 c.0, segments ss rest a.1 b.1 c.1)

pub checked_path-Holds : (p : Bytes) → Holds (All IsSegment) (checked_path p)
unfolding checked_path
checked_path-Holds p =
    elim (Bool-cases (
      is_empty p
      || starts_with_slash p
      || has_byte backslash p
      || has_byte 0 p
      || not (valid_utf8 p))) [
        | inl e ↦ rw e tt
        | inr e ↦ elim (Bool-cases (any_unsafe (split p))) [
          | inl u ↦ rw e (rw u tt)
          | inr u ↦
              let b : has_byte 92 p ≡ false = ground arith in
              let z : has_byte 0 p ≡ false = ground arith in
              rw e (
                rw u
                  (segments (split p) u (split_no_slash p) (split_none 92 p b) (split_none 0 p z)))
        ]
      ]
