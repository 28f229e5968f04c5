-- ===== src/Codex/Paths.antt =====
-- `validRelativePath` of internal/codex/parser.go, with `path.Clean` of the standard library.
use shipmunk_runner.Prelude.{
  ℕ, zero, suc, ◌==◌, ◌≡◌, refl, ap, ◌∙◌, Bool, true, false, not, ◌&&◌, ◌||◌, Bytes, codes,
  bytes_eq, List, [], ◌∷◌, ◌++◌, All, Bool-cases, inl, inr, arith, if◌then◌else◌, subst,
}
use shipmunk_runner.Archive.Text.{has_byte, split, all_but_last}
use shipmunk_runner.Archive.Header.{is_empty, starts_with_slash, is_unsafe_segment}
use shipmunk_runner.Codex.Runes.{contains_c0}

-- The path so far: how many `..` it begins with, and the names after them.
pub record Cleaned : Type 0 where
  pub ups : ℕ
  pub names : List Bytes

abbrev pub dots : Bytes
dots = codes ".."

abbrev pub is_skipped : Bytes → Bool
is_skipped s = is_empty s || bytes_eq s (codes ".")

abbrev pub back : Bool → ℕ → List Bytes → Cleaned
back true ups [] = record { ups = ups; names = [] }
back false ups [] = record { ups = suc ups; names = [] }
back rooted ups (n ∷ ns) = record { ups = ups; names = all_but_last (n ∷ ns) }

abbrev pub clean_step : Bool → Cleaned → Bytes → Cleaned
clean_step rooted c s =
    if is_skipped s
    then c
    else if bytes_eq s dots
    then back rooted c.ups c.names
    else record c { names = c.names ++ (s ∷ []) }

abbrev pub clean_from : Bool → Cleaned → List Bytes → Cleaned
clean_from rooted c [] = c
clean_from rooted c (s ∷ ss) = clean_from rooted (clean_step rooted c s) ss

abbrev pub with_ups : ℕ → List Bytes → List Bytes
with_ups zero ns = ns
with_ups (suc k) ns = dots ∷ with_ups k ns

-- `strings.Join(segments, "/")`.
abbrev pub join : List Bytes → Bytes
join [] = []
join (s ∷ []) = s
join (s ∷ t ∷ ss) = s ++ (b'/' ∷ join (t ∷ ss))

abbrev pub rooted_text : Bool → List Bytes → Bytes
rooted_text true ss = b'/' ∷ join ss
rooted_text false [] = codes "."
rooted_text false (s ∷ ss) = join (s ∷ ss)

abbrev pub nowhere : Cleaned
nowhere = record { ups = 0; names = [] }

-- `path.Clean`.
unfoldable pub clean : Bytes → Bytes
unfolding bytes_eq
clean p =
    let c = clean_from (starts_with_slash p) nowhere (split p) in
    rooted_text (starts_with_slash p) (with_ups c.ups c.names)

abbrev pub starts_with_up : Bytes → Bool
starts_with_up (a ∷ b ∷ c ∷ s) = a == b'.' && b == b'.' && c == b'/'
starts_with_up _ = false

-- Neither the directory itself nor a path above it or at the root.
abbrev pub is_below : Bytes → Bool
is_below q =
    not (bytes_eq q (codes "."))
    && not (bytes_eq q dots)
    && not (starts_with_up q)
    && not (starts_with_slash q)

unfoldable pub valid_relative_path : Bytes → Bool
unfolding clean
valid_relative_path p =
    not (has_byte 92 p) && not (contains_c0 p) && bytes_eq (clean p) p && is_below (clean p)

-- A name between two slashes.
abbrev pub IsName : Bytes → Type 0
IsName s = (is_unsafe_segment s ≡ false) × (has_byte b'/' s ≡ false)

split_append : (s t : Bytes) → has_byte b'/' s ≡ false → split (s ++ (b'/' ∷ t)) ≡ s ∷ split t
split_append [] t h = refl
split_append (c ∷ s) t h =
    let here : (c == b'/') ≡ false = ground arith in
    let rest : has_byte b'/' s ≡ false = ground arith in rw here (rw (split_append s t rest) refl)

split_name : (s : Bytes) → has_byte b'/' s ≡ false → split s ≡ s ∷ []
split_name [] h = refl
split_name (c ∷ s) h =
    let here : (c == b'/') ≡ false = ground arith in
    let rest : has_byte b'/' s ≡ false = ground arith in rw here (rw (split_name s rest) refl)

-- Segments with no slash come back from the text that joins them.
pub split-join :
    (s : Bytes) (ss : List Bytes) → All IsName (s ∷ ss) → split (join (s ∷ ss)) ≡ s ∷ ss
split-join s [] h = split_name s h.0.1
split-join s (t ∷ ss) h =
    split_append s (join (t ∷ ss)) h.0.1 ∙ ap (λ ts. s ∷ ts) (split-join t ss h.1)

pub split_cons : (p : Bytes) → (s : Bytes) × (ss : List Bytes) × (split p ≡ s ∷ ss)
split_cons [] = ([], [], refl)
split_cons (c ∷ p) =
    let (s, ss, h) = split_cons p in
    elim (Bool-cases (c == b'/')) [
      | inl e ↦ ([], split p, rw e refl)
      | inr e ↦ (c ∷ s, ss, rw e (rw h refl))
    ]

join_begin : (c : ℕ) (s : Bytes) (ss : List Bytes) → join ((c ∷ s) ∷ ss) ≡ c ∷ join (s ∷ ss)
join_begin c s [] = refl
join_begin c s (t ∷ ss) = refl

join_first :
    (c : ℕ) (p s : Bytes) (ss : List Bytes)
    → split p ≡ s ∷ ss
    → join (s ∷ ss) ≡ p
    → join (split (c ∷ p)) ≡ c ∷ p
join_first c p s ss h k = elim (Bool-cases (c == b'/')) [
  | inl e ↦
      let slash : b'/' ≡ c = ground arith in
      rw e (rw h (ap (λ t. b'/' ∷ t) k ∙ ap (λ d. d ∷ p) slash))
  | inr e ↦ rw e (rw h (join_begin c s ss ∙ ap (λ t. c ∷ t) k))
]

-- The segments of a text, joined, are the text.
pub join-split : (p : Bytes) → join (split p) ≡ p
join-split [] = refl
join-split (c ∷ p) =
    let (s, ss, h) = split_cons p in
    join_first c p s ss h (subst (λ segs. join segs ≡ p) h (join-split p))
