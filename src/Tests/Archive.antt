-- ===== src/Tests/Archive.antt =====
-- An archive with one executable file, and one whose path leads out of the destination.
use shipmunk_runner.Prelude.{
  ℕ, zero, suc, ◌-◌, ◌≡◌, ◌≢◌, refl, true, false, Bytes, codes, none, [], ◌∷◌, ◌++◌, ok, err, pos,
  length, valid_utf8, bytes_eq,
}
use shipmunk_runner.Archive.Header.{
  path_traversal, out_of_fuel, octal, verify_checksum, checked_path, archive_path,
}
use shipmunk_runner.Archive.Extract.{
  FileSystem, make_directory, create_file, set_mode, entry_of, entry_size, write_entry,
  extract_from, extract, decompress,
}
use shipmunk_runner.Archive.Segments.{AllBelow}
use shipmunk_runner.Archive.Below.{extract-AllBelow}
use shipmunk_runner.Archive.Limits.{Within, extract-Within}
use shipmunk_runner.Archive.Ends.{extract_ends}

abbrev zeros : ℕ → Bytes
zeros zero = []
zeros (suc n) = 0 ∷ zeros n

abbrev padded : ℕ → Bytes → Bytes
padded n s = s ++ zeros (n - length s)

-- A header with the name, the checksum's digits and the type `0`, for three bytes of mode 755.
abbrev header : Bytes → Bytes → Bytes
header name sum =
    padded 100 name
    ++ (padded 24 (codes "0000755")
        ++ (padded 24 (codes "00000000003") ++ (padded 8 sum ++ (codes "0" ++ zeros 355))))

abbrev archive_of : Bytes → Bytes → Bytes
archive_of name sum = header name sum ++ (padded 512 (codes "hey") ++ zeros 1024)

abbrev good_archive : Bytes
good_archive = archive_of (codes "a/b") (codes "002626")

abbrev bad_archive : Bytes
bad_archive = archive_of (codes "../b") (codes "002621")

abbrev willing : FileSystem
willing = record {
  is_directory = true;
  gunzip = λ s. none;
  cancelled = λ ws s. false;
  perform = λ ws w. true;
}

good_extraction : extract willing (pos 0) (pos 0) good_archive ≡ (
  ok tt,
  set_mode (codes "a" ∷ codes "b" ∷ []) true
      ∷ create_file (codes "a" ∷ codes "b" ∷ []) (codes "hey")
      ∷ make_directory (codes "a" ∷ [])
      ∷ [],
)
unfolding extract decompress extract_from write_entry entry_of entry_size octal verify_checksum
    checked_path archive_path valid_utf8 bytes_eq
good_extraction = refl

bad_extraction : extract willing (pos 0) (pos 0) bad_archive ≡ (err path_traversal, [])
unfolding extract decompress extract_from write_entry entry_of entry_size octal verify_checksum
    checked_path archive_path valid_utf8 bytes_eq
bad_extraction = refl

extract-AllBelow_example : AllBelow (extract willing (pos 0) (pos 0) good_archive).1
extract-AllBelow_example = extract-AllBelow willing (pos 0) (pos 0) good_archive

extract-Within_example : Within 20_000 134_217_728 (extract willing (pos 0) (pos 0) good_archive).1
extract-Within_example = extract-Within willing (pos 0) (pos 0) good_archive

extract_ends_example : (extract willing (pos 5) (pos 4096) bad_archive).0 ≢ err out_of_fuel
extract_ends_example = extract_ends willing (pos 5) (pos 4096) bad_archive
