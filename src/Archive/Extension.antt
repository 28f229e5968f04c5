-- ===== src/Archive/Extension.antt =====
-- `paxAttributes` of internal/workspace/tar.go. A type allows one key, and a key may not come twice,
-- so the map is the value of that key, if it has come.
use shipmunk_runner.Prelude.{
  and_then, ℕ, zero, suc, ◌+◌, ◌-◌, ltb, leb, ◌==◌, length, drop, Bool, true, false, not, ◌&&◌,
  ◌||◌, Bytes, codes, bytes_eq, Option, none, some, is_some, [], ◌∷◌, Result, ok, err, valid_utf8,
  digits_from, is_digit, if◌then◌else◌,
}
use shipmunk_runner.Archive.Text.{slice, index_byte, get_elem?}
use shipmunk_runner.Archive.Header.{
  Reason, bad_record_length, truncated_record, bad_record, bad_attribute, missing_path, out_of_fuel,
}

abbrev all_digits : Bytes → Bool
all_digits [] = true
all_digits (c ∷ s) = is_digit c && all_digits s

-- `^[1-9][0-9]{0,5}$`
abbrev pub is_record_length : Bytes → Bool
is_record_length [] = false
is_record_length (c ∷ s) = leb b'1' c && leb c b'9' && leb (length s) 5 && all_digits s

abbrev pub allowed_key : ℕ → Bytes
allowed_key flag = if flag == b'g' then codes "comment" else codes "path"

abbrev pub is_newline : Option ℕ → Bool
is_newline none = false
is_newline (some c) = c == 10

-- One text `key = value`, where `seen` says that the key has come before.
abbrev pub value_of : ℕ → Bytes → Bool → Bytes → Option ℕ → Result Reason (ℕ × Bytes)
value_of n key seen text none = err bad_record
value_of n key seen text (some i) =
    if not (bytes_eq (slice 0 i text) key) || seen
    then err bad_attribute
    else if not (valid_utf8 (drop (i + 1) text))
    then err bad_record
    else ok (n, drop (i + 1) text)

abbrev pub record_of : Bytes → Bytes → Bool → ℕ → Option ℕ → Result Reason (ℕ × Bytes)
record_of rest key seen space none = err truncated_record
record_of rest key seen space (some n) =
    if leb n (space + 2) || ltb (length rest) n || not (is_newline (get_elem? rest (n - 1)))
    then err truncated_record
    else value_of n key seen (slice (space + 1) (n - 1) rest)
        (index_byte b'=' (slice (space + 1) (n - 1) rest))

abbrev pub record_at : Bytes → Bytes → Bool → Option ℕ → Result Reason (ℕ × Bytes)
record_at rest key seen none = err bad_record_length
record_at rest key seen (some space) =
    if not (is_record_length (slice 0 space rest))
    then err bad_record_length
    else record_of rest key seen space (digits_from 0 (slice 0 space rest))

-- The record at the front: its length and its value.
unfoldable pub next_record : Bytes → Bytes → Bool → Result Reason (ℕ × Bytes)
unfolding digits_from
next_record rest key seen = record_at rest key seen (index_byte b' ' rest)

-- The records from `rest` on. A record has at least four bytes, so the payload's length is enough fuel.
unfoldable pub records_from : ℕ → Bytes → Bytes → Option Bytes → Result Reason (Option Bytes)
unfolding next_record
records_from f [] key found = ok found
records_from zero (c ∷ rest) key found = err out_of_fuel
records_from (suc f) (c ∷ rest) key found =
    and_then (next_record (c ∷ rest) key (is_some found))
      (λ (n, value). records_from f (drop n (c ∷ rest)) key (some value))

abbrev pub required : ℕ → Option Bytes → Result Reason (Option Bytes)
required flag none = if flag == b'x' then err missing_path else ok none
required flag (some v) = ok (some v)

unfoldable pub pax_attributes : Bytes → ℕ → Result Reason (Option Bytes)
unfolding records_from
pax_attributes payload flag =
    and_then (records_from (length payload) payload (allowed_key flag) none) (required flag)
