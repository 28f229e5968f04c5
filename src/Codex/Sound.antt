-- ===== src/Codex/Sound.antt =====
-- What `parseEvidenceRef` of internal/codex/parser.go accepts, and the readers below it.
use shipmunk_runner.Prelude.{
  ℕ, ◌≤◌, ◌≡◌, ◌==◌, leb, length, true, false, not, ◌&&◌, Bytes, codes, Option, none, some, List,
  All, ℤ, pos, negsuc, parse_int, Bool-cases, inl, inr, arith, Given, bind-Given, then-Given,
  require-Given, traverse, traverse-Given, traverse-length,
}
use shipmunk_runner.Json.{Value, Fields, null, bool, number, str, arr, obj, get}
use shipmunk_runner.Mediation.Requests.{max_safe_integer}
use shipmunk_runner.Codex.Fields.{
  bounded_string, array_of, safe_natural, nonnegative_integer, above_zero, positive_number,
  exact_object,
}
use shipmunk_runner.Codex.Paths.{valid_relative_path}
use shipmunk_runner.Codex.Relative.{IsPlain, valid_relative_path_iff}
use shipmunk_runner.Codex.Evidence.{
  EvidenceRef, evidence_keys, is_snapshot, evidence_of, parse_evidence_ref, parse_references,
}

-- A reference names lines, in order, of a file below the repository, in a snapshot.
pub record IsRef (r : EvidenceRef) : Type 0 where
  pub hash : is_snapshot r.snapshot ≡ true
  pub below : IsPlain r.path
  pub short : length r.path ≤ 1024
  pub first : 1 ≤ r.line_start
  pub order : r.line_start ≤ r.line_end
  pub last : r.line_end ≤ max_safe_integer

abbrev pub IsBounded : ℕ → Bytes → Type 0
IsBounded limit s = ((length s == 0) ≡ false) × (length s ≤ limit)

pub IsBounded-Given :
    (limit : ℕ) (v : Option Value) → Given (IsBounded limit) (bounded_string limit v)
unfolding bounded_string
IsBounded-Given limit none = tt
IsBounded-Given limit (some null) = tt
IsBounded-Given limit (some (bool b)) = tt
IsBounded-Given limit (some (number s)) = tt
IsBounded-Given limit (some (arr vs)) = tt
IsBounded-Given limit (some (obj fs)) = tt
IsBounded-Given limit (some (str s)) =
    elim (Bool-cases (not (length s == 0) && leb (length s) limit)) [
      | inl e ↦
          let full : (length s == 0) ≡ false = ground arith in
          let h : length s ≤ limit = ground arith in rw e (full, h)
      | inr e ↦ rw e tt
    ]

safe_natural-Given : (z : Option ℤ) → Given (λ n. n ≤ max_safe_integer) (safe_natural z)
safe_natural-Given none = tt
safe_natural-Given (some (negsuc n)) = tt
safe_natural-Given (some (pos n)) = elim (Bool-cases (leb n max_safe_integer)) [
  | inl e ↦ let h : n ≤ max_safe_integer = ground arith in rw e h
  | inr e ↦ rw e tt
]

nonnegative-Given : (v : Option Value) → Given (λ n. n ≤ max_safe_integer) (nonnegative_integer v)
unfolding nonnegative_integer
nonnegative-Given none = tt
nonnegative-Given (some null) = tt
nonnegative-Given (some (bool b)) = tt
nonnegative-Given (some (number s)) = safe_natural-Given (parse_int s)
nonnegative-Given (some (arr vs)) = tt
nonnegative-Given (some (obj fs)) = tt
nonnegative-Given (some (str s)) = tt

abbrev IsLine : ℕ → Type 0
IsLine n = (1 ≤ n) × (n ≤ max_safe_integer)

above_zero-Given :
    (o : Option ℕ) → Given (λ n. n ≤ max_safe_integer) o → Given IsLine (above_zero o)
above_zero-Given none h = tt
above_zero-Given (some n) h = elim (Bool-cases (leb 1 n)) [
  | inl e ↦ let k : 1 ≤ n = ground arith in rw e (k, h)
  | inr e ↦ rw e tt
]

positive-Given : (v : Option Value) → Given IsLine (positive_number v)
unfolding positive_number
positive-Given v = above_zero-Given (nonnegative_integer v) (nonnegative-Given v)

evidence_of-Given : (fs : Fields) → Given IsRef (evidence_of fs)
unfolding evidence_of
evidence_of-Given fs =
    then-Given IsRef (bounded_string 40 (get (codes "snapshot") fs)) _ (λ snapshot _.
      bind-Given IsRef (bounded_string 1024 (get (codes "path") fs)) _
        (IsBounded-Given 1024 (get (codes "path") fs))
        (λ path short.
          bind-Given IsRef (positive_number (get (codes "line_start") fs)) _
            (positive-Given (get (codes "line_start") fs))
            (λ first f.
              bind-Given IsRef (positive_number (get (codes "line_end") fs)) _
                (positive-Given (get (codes "line_end") fs))
                (λ last l.
                  then-Given IsRef (bounded_string 500 (get (codes "reason") fs)) _ (λ reason _.
                    require-Given IsRef
                      (is_snapshot snapshot && valid_relative_path path && leb first last) _
                      (λ e.
                        let valid : valid_relative_path path ≡ true = ground arith in
                        record {
                          hash = ground arith;
                          below = (valid_relative_path_iff path).0 valid;
                          short = short.1;
                          first = f.0;
                          order = ground arith;
                          last = l.1;
                        }))))))

parse_evidence_ref-Given : (v : Value) → Given IsRef (parse_evidence_ref v)
unfolding parse_evidence_ref
parse_evidence_ref-Given v =
    then-Given IsRef (exact_object evidence_keys (some v)) evidence_of
      (λ fs _. evidence_of-Given fs)

-- So many references, each of them sound.
abbrev pub AreRefs : ℕ → ℕ → List EvidenceRef → Type 0
AreRefs low high rs = All IsRef rs × (low ≤ length rs) × (length rs ≤ high)

pub references-Given :
    (low high : ℕ) (v : Option Value) → Given (AreRefs low high) (parse_references low high v)
unfolding parse_references
references-Given low high v = then-Given (AreRefs low high) (array_of v) _ (λ vs _.
    require-Given (AreRefs low high) (leb low (length vs) && leb (length vs) high) _ (λ e.
      counted (traverse parse_evidence_ref vs) (length vs) (ground arith) (ground arith)
        (traverse-Given IsRef parse_evidence_ref parse_evidence_ref-Given vs)
        (traverse-length parse_evidence_ref vs)))
  where
    counted :
        (o : Option (List EvidenceRef)) (n : ℕ)
        → low ≤ n
        → n ≤ high
        → Given (All IsRef) o
        → Given (λ rs. length rs ≡ n) o
        → Given (AreRefs low high) o
    counted none n a b h k = tt
    counted (some rs) n a b h k = (h, omega (arith, a, k), omega (arith, b, k))
