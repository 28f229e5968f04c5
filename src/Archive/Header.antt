-- ===== src/Archive/Header.antt =====
-- The header of an entry in internal/workspace/tar.go: its numbers, its checksum and its path.
use shipmunk_runner.Prelude.{
  ℕ, ◌+◌, ◌-◌, ◌*◌, ◌/◌, ◌^◌, ltb, leb, ◌==◌, length, Bool, true, false, not, ◌&&◌, ◌||◌, Bytes,
  codes, bytes_eq, Option, none, some, List, [], ◌∷◌, ◌++◌, Result, ok, err, valid_utf8,
  if◌then◌else◌,
}
use shipmunk_runner.Archive.Text.{slice, has_byte, get_elem?, trim_right, trim_left, split}

-- The errors by their texts.
pub data Reason : Type 0 where
  bad_destination context_done unused_extension bad_checksum bad_size over_limits truncated : Reason
  bad_extension unsafe_path path_traversal bad_record_length truncated_record bad_record : Reason
  bad_attribute missing_path special_file missing_end unwritable bad_gzip out_of_fuel : Reason

abbrev pub backslash : ℕ
backslash = 92

abbrev pub is_zero : ℕ → Bool
is_zero c = c == 0

abbrev pub is_padding : ℕ → Bool
is_padding c = c == b' ' || c == 0

-- The octal digits after those of `n`.
abbrev pub octal_from : ℕ → Bytes → Option ℕ
octal_from n [] = some n
octal_from n (c ∷ s) =
    let rest = octal_from (n * 8 + (c - b'0')) s in if leb b'0' c && leb c b'7' then rest else none

-- `strconv.ParseInt(s, 8, 63)`: no more than 2 ^ 62 - 1.
abbrev pub in_range : Option ℕ → Result Reason ℕ
in_range none = err bad_size
in_range (some n) = if ltb n (2 ^ 62) then ok n else err bad_size

unfoldable pub octal : Bytes → Result Reason ℕ
octal value =
    let trimmed = trim_left is_padding (trim_right is_padding value) in
    in_range (octal_from 0 trimmed)

abbrev sum : Bytes → ℕ
sum [] = 0
sum (c ∷ s) = c + sum s

-- The bytes of the header, with the checksum's own read as spaces.
abbrev checksum : Bytes → ℕ
checksum header = sum (slice 0 148 header) + 8 * b' ' + sum (slice 156 512 header)

unfoldable pub verify_checksum : Bytes → Bool
unfolding octal
verify_checksum header = elim (octal (slice 148 156 header)) [
  | ok n ↦ checksum header == n
  | err e ↦ false
]

abbrev pub padded_size : ℕ → ℕ
padded_size size = (size + 511) / 512 * 512

abbrev pub all_zero : Bytes → Bool
all_zero [] = true
all_zero (c ∷ s) = c == 0 && all_zero s

abbrev pub type_flag : Bytes → ℕ
type_flag header = elim (get_elem? header 156) [ some c ↦ c | none ↦ 0 ]

abbrev pub is_empty : Bytes → Bool
is_empty s = length s == 0

abbrev pub join_prefix : Bytes → Bytes → Bytes
join_prefix prefix name = if is_empty prefix then name else prefix ++ (b'/' ∷ name)

-- `strings.TrimSuffix(path, "/")`.
abbrev without_slash : Bytes → Bytes
without_slash [] = []
without_slash (c ∷ []) = if c == b'/' then [] else c ∷ []
without_slash (c ∷ d ∷ s) = c ∷ without_slash (d ∷ s)

abbrev pub starts_with_slash : Bytes → Bool
starts_with_slash [] = false
starts_with_slash (c ∷ s) = c == b'/'

abbrev pub is_unsafe_segment : Bytes → Bool
is_unsafe_segment s = is_empty s || bytes_eq s (codes ".") || bytes_eq s (codes "..")

abbrev pub any_unsafe : List Bytes → Bool
any_unsafe [] = false
any_unsafe (s ∷ ss) = is_unsafe_segment s || any_unsafe ss

unfoldable pub checked_path : Bytes → Result Reason (List Bytes)
checked_path path =
    if is_empty path
      || starts_with_slash path
      || has_byte backslash path
      || has_byte 0 path
      || not (valid_utf8 path)
    then err unsafe_path
    else if any_unsafe (split path)
    then err path_traversal
    else ok (split path)

abbrev header_path : Bytes → Bytes
header_path header =
    join_prefix (trim_right is_zero (slice 345 500 header))
      (trim_right is_zero (slice 0 100 header))

abbrev overridden : Option Bytes → Bytes → Bytes
overridden none path = path
overridden (some p) path = p

abbrev pub entry_path : Bytes → ℕ → Option Bytes → Bytes
entry_path header flag override =
    let path = overridden override (header_path header) in
    if flag == b'5' then without_slash path else path

-- `archivePath`, as the segments of the path.
unfoldable pub archive_path : Bytes → ℕ → Option Bytes → Result Reason (List Bytes)
unfolding checked_path
archive_path header flag override = checked_path (entry_path header flag override)
