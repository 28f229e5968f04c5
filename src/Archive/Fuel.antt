-- ===== src/Archive/Fuel.antt =====
-- The fuel of the loop of `paxAttributes` in internal/workspace/tar.go, and what cannot run out of any.
use shipmunk_runner.Prelude.{
  and_then, ℕ, zero, suc, ◌+◌, ◌-◌, ◌≤◌, ◌^◌, ◌==◌, length, length-drop, drop, Bool, true, false,
  not, ◌||◌, Bytes, bytes_eq, Option, none, some, valid_utf8, digits_from, List, [], ◌∷◌, Result,
  ok, err, Bool-cases, inl, inr, if◌then◌else◌, is_some, ltb, leb, arith,
}
use shipmunk_runner.Archive.Text.{
  trim_left, trim_right, has_byte, split, slice, index_byte, get_elem?,
}
use shipmunk_runner.Archive.Header.{
  Reason, out_of_fuel, archive_path, checked_path, entry_path, in_range, octal_from, is_padding,
  bad_size, bad_record_length, missing_path, is_empty, starts_with_slash, backslash, unsafe_path,
  any_unsafe, path_traversal, octal,
}
use shipmunk_runner.Archive.Extension.{
  pax_attributes, next_record, record_at, record_of, value_of, records_from, required, allowed_key,
  is_newline, is_record_length,
}

abbrev pub NotFuel : Reason → Type 0
NotFuel out_of_fuel = ⊥
NotFuel _ = Unit

-- A result that is not the end of a loop's fuel, with what holds of its value.
abbrev pub Ended {ℓ} : {A : Type ℓ} → (A → Type 0) → Result Reason A → Type 0
Ended P (ok a) = P a
Ended P (err e) = NotFuel e

abbrev pub Any {ℓ} : {A : Type ℓ} → A → Type 0
Any a = Unit

pub if-Ended {ℓ} :
    {A : Type ℓ} (P : A → Type 0) (b : Bool) (x y : Result Reason A)
    → Ended P x
    → Ended P y
    → Ended P (if b then x else y)
if-Ended P true x y h k = h
if-Ended P false x y h k = k

pub and_then-Ended {ℓ κ} :
    {A : Type ℓ} {B : Type κ} {P : A → Type 0} (Q : B → Type 0) (r : Result Reason A)
    (f : A → Result Reason B)
    → Ended P r
    → ((a : A) → P a → Ended Q (f a))
    → Ended Q (and_then r f)
and_then-Ended Q (ok a) f h k = k a h
and_then-Ended Q (err e) f h k = h

pub octal-Ended : (s : Bytes) → Ended Any (octal s)
unfolding octal
octal-Ended s = ranged (octal_from 0 (trim_left is_padding (trim_right is_padding s)))
  where
    ranged : (o : Option ℕ) → Ended Any (in_range o)
    ranged none = tt
    ranged (some n) = if-Ended Any (ltb n (2 ^ 62)) (ok n) (err bad_size) tt tt

pub archive_path-Ended :
    (header : Bytes) (flag : ℕ) (o : Option Bytes) → Ended Any (archive_path header flag o)
unfolding archive_path checked_path
archive_path-Ended header flag o =
    let p = entry_path header flag o in
    if-Ended (Any {A = List Bytes})
      (is_empty p
        || starts_with_slash p
        || has_byte backslash p
        || has_byte 0 p
        || not (valid_utf8 p))
      (err unsafe_path) (if any_unsafe (split p) then err path_traversal else ok (split p)) tt
      (if-Ended Any (any_unsafe (split p)) (err path_traversal) (ok (split p)) tt tt)

-- A record is longer than its length's digits and its blank.
abbrev Long : (ℕ × Bytes) → Type 0
Long (n, v) = 1 ≤ n

value_of-Ended :
    (n : ℕ) (key : Bytes) (seen : Bool) (text : Bytes) (i : Option ℕ)
    → 1 ≤ n
    → Ended Long (value_of n key seen text i)
value_of-Ended n key seen text none h = tt
value_of-Ended n key seen text (some i) h =
    if-Ended Long (not (bytes_eq (slice 0 i text) key) || seen) _ _ tt
      (if-Ended Long (not (valid_utf8 (drop (i + 1) text))) _ (ok (n, drop (i + 1) text)) tt h)

record_of-Ended :
    (rest key : Bytes) (seen : Bool) (space : ℕ) (o : Option ℕ)
    → Ended Long (record_of rest key seen space o)
record_of-Ended rest key seen space none = tt
record_of-Ended rest key seen space (some n) =
    elim (Bool-cases
      (leb n (space + 2) || ltb (length rest) n || not (is_newline (get_elem? rest (n - 1))))) [
        | inl e ↦ rw e tt
        | inr e ↦ let long : 1 ≤ n = ground arith in rw e (value_of-Ended n key seen _ _ long)
      ]

next_record-Ended : (rest key : Bytes) (seen : Bool) → Ended Long (next_record rest key seen)
unfolding next_record
next_record-Ended rest key seen = found (index_byte b' ' rest)
  where
    found : (o : Option ℕ) → Ended Long (record_at rest key seen o)
    found none = tt
    found (some space) =
        if-Ended Long (not (is_record_length (slice 0 space rest))) (err bad_record_length)
          (record_of rest key seen space (digits_from 0 (slice 0 space rest))) tt
          (record_of-Ended rest key seen space (digits_from 0 (slice 0 space rest)))

records_from-Ended :
    (f : ℕ) (rest key : Bytes) (o : Option Bytes)
    → length rest ≤ f
    → Ended Any (records_from f rest key o)
unfolding records_from
records_from-Ended f [] key o h = tt
records_from-Ended zero (c ∷ rest) key o h = absurd (omega arith)
records_from-Ended (suc f) (c ∷ rest) key o h =
    and_then-Ended {P = Long} Any (next_record (c ∷ rest) key (is_some o)) _
      (next_record-Ended (c ∷ rest) key (is_some o))
      (λ r long.
        records_from-Ended f (drop r.0 (c ∷ rest)) key (some r.1)
          (omega (arith, long, length-drop r.0 (c ∷ rest))))

pub pax_attributes-Ended : (content : Bytes) (flag : ℕ) → Ended Any (pax_attributes content flag)
unfolding pax_attributes
pax_attributes-Ended content flag =
    and_then-Ended {P = Any} Any (records_from (length content) content (allowed_key flag) none)
      (required flag)
      (records_from-Ended (length content) content (allowed_key flag) none (omega arith))
      (λ o h. found o)
  where
    found : (o : Option Bytes) → Ended Any (required flag o)
    found none = if-Ended Any (flag == b'x') (err missing_path) (ok none) tt tt
    found (some v) = tt
