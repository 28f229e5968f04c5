-- ===== src/Archive/Below.antt =====
-- Where `Extract` of internal/workspace/tar.go writes.
use shipmunk_runner.Prelude.{
  Holds, and_then-Holds, and_then, ℕ, ◌==◌, length, take, ◌||◌, Bytes, Option, none, List, [], ◌∷◌,
  Result, ok, err, ℤ, Bool-cases, inl, inr, All, is_some, ltb,
}
use shipmunk_runner.Archive.Text.{all_but_last}
use shipmunk_runner.Archive.Header.{Reason, archive_path, entry_path, type_flag}
use shipmunk_runner.Archive.Extension.{pax_attributes}
use shipmunk_runner.Archive.Extract.{
  FileSystem, Write, make_directory, create_file, set_mode, Progress, Outcome, Entry, extension,
  directory, regular, and_next, do_write, write_mode, write_entry, is_extension_flag,
  extension_entry, named_entry, path_in, entry_of, entry_size, take_entry, extract, or_default,
  default_max_files, default_max_bytes, decompress,
}
use shipmunk_runner.Archive.Induction.{extract_decoded-keeps, Round}
use shipmunk_runner.Archive.Segments.{IsSegment, AllBelow, path_of, checked_path-Holds}

abbrev EntryBelow : Entry → Type 0
EntryBelow (extension _) = Unit
EntryBelow (directory name) = All IsSegment name
EntryBelow (regular name _ _) = All IsSegment name

named_entry-Holds :
    (header content : Bytes) (name : List Bytes)
    → All IsSegment name
    → Holds EntryBelow (named_entry header content name)
named_entry-Holds header content name h = elim (Bool-cases (type_flag header == b'5')) [
  | inl e ↦ rw e h
  | inr e ↦ elim (Bool-cases (type_flag header == 0 || type_flag header == b'0')) [
    | inl f ↦ rw e (rw f h)
    | inr f ↦ rw e (rw f tt)
  ]
]

extension_entry-Holds :
    (header content : Bytes) (pending : Option Bytes)
    → Holds EntryBelow (extension_entry header content pending)
extension_entry-Holds header content pending =
    elim (Bool-cases (is_some pending || ltb 65_536 (length content))) [
      | inl e ↦ rw e tt
      | inr e ↦ rw e (
          extended (archive_path header (type_flag header) none)
            (pax_attributes content (type_flag header)))
    ]
  where
    extended :
        (r : Result Reason (List Bytes)) (a : Result Reason (Option Bytes))
        → Holds EntryBelow (and_then r (λ _. and_then a (λ v. ok (path_in (type_flag header) v))))
    extended (err e) a = tt
    extended (ok n) (err e) = tt
    extended (ok n) (ok v) = tt

entry_of-Holds :
    (header content : Bytes) (pending : Option Bytes)
    → Holds EntryBelow (entry_of header content pending)
unfolding entry_of archive_path
entry_of-Holds header content pending = elim (Bool-cases (is_extension_flag (type_flag header))) [
  | inl e ↦ rw e (extension_entry-Holds header content pending)
  | inr e ↦ rw e (
      and_then-Holds EntryBelow (archive_path header (type_flag header) pending)
        (named_entry header content)
        (checked_path-Holds (entry_path header (type_flag header) pending))
        (λ name h. named_entry-Holds header content name h))
]

all_but_last-All : (ss : List Bytes) → All IsSegment ss → All IsSegment (all_but_last ss)
all_but_last-All [] h = tt
all_but_last-All (s ∷ []) h = tt
all_but_last-All (s ∷ t ∷ ss) h = (h.0, all_but_last-All (t ∷ ss) h.1)

module _ (fs : FileSystem) where
  do_write-AllBelow :
      (w : Write) (ws : List Write)
      → All IsSegment (path_of w)
      → AllBelow ws
      → AllBelow (do_write fs w ws).1
  do_write-AllBelow w ws h k = elim (Bool-cases (fs.perform ws w)) [
    | inl e ↦ rw e (h, k)
    | inr e ↦ rw e (h, k)
  ]

  and_next-AllBelow :
      (o : Outcome) (f : List Write → Outcome)
      → AllBelow o.1
      → ((ws : List Write) → AllBelow ws → AllBelow (f ws).1)
      → AllBelow (and_next o f).1
  and_next-AllBelow (err e, ws) f h k = h
  and_next-AllBelow (ok d, ws) f h k = k ws h

  write_mode-AllBelow :
      (name : List Bytes) (mode : Result Reason ℕ) (ws : List Write)
      → All IsSegment name
      → AllBelow ws
      → AllBelow (write_mode fs name mode ws).1
  write_mode-AllBelow name (err e) ws h k = k
  write_mode-AllBelow name (ok m) ws h k = do_write-AllBelow (set_mode name _) ws h k

  write_entry-AllBelow :
      (e : Entry) (ws : List Write) → EntryBelow e → AllBelow ws → AllBelow (write_entry fs e ws).1
  unfolding write_entry
  write_entry-AllBelow (extension _) ws h k = k
  write_entry-AllBelow (directory name) ws h k = do_write-AllBelow (make_directory name) ws h k
  write_entry-AllBelow (regular name content mode) ws h k =
      and_next-AllBelow (do_write fs (make_directory (all_but_last name)) ws) _
        (do_write-AllBelow (make_directory (all_but_last name)) ws (all_but_last-All name h) k)
        (λ ws k.
          and_next-AllBelow (do_write fs (create_file name content) ws) _
            (do_write-AllBelow (create_file name content) ws h k)
            (λ ws k. write_mode-AllBelow name mode ws h k))

  take_entry-Round :
      (files bytes : ℕ) (header body : Bytes) (p : Progress)
      → AllBelow p.written
      → Holds
          (Round fs files bytes (λ p. AllBelow p.written) AllBelow p)
          (take_entry fs files bytes header body p)
  take_entry-Round files bytes header body p h =
      taken (entry_size files bytes header body p)
        (λ size. entry_of header (take size body) p.pending)
        (λ size. entry_of-Holds header (take size body) p.pending)
    where
      with_entry :
          (size : ℕ) (r : Result Reason Entry)
          → Holds EntryBelow r
          → Holds
              (Round fs files bytes (λ p. AllBelow p.written) AllBelow p)
              (and_then r (λ e. ok (size, e)))
      with_entry size (err e) k = tt
      with_entry size (ok e) k =
          let below = write_entry-AllBelow e p.written k h in (below, λ _. below)

      taken :
          (r : Result Reason ℕ) (f : ℕ → Result Reason Entry)
          → ((size : ℕ) → Holds EntryBelow (f size))
          → Holds
              (Round fs files bytes (λ p. AllBelow p.written) AllBelow p)
              (and_then r (λ size. and_then (f size) (λ e. ok (size, e))))
      taken (err e) f k = tt
      taken (ok size) f k = with_entry size (f size) (k size)

  -- Whatever the archive holds, each file and directory that is written has a path below the
  -- destination: none of its segments is empty, `.` or `..`, or holds a slash, a backslash or a zero.
  pub extract-AllBelow :
      (files bytes : ℤ) (archive : Bytes) → AllBelow (extract fs files bytes archive).1
  unfolding extract
  extract-AllBelow files bytes archive =
      let m = or_default files default_max_files in
      let n = or_default bytes default_max_bytes in
      extract_decoded-keeps fs m n (λ p. AllBelow p.written) AllBelow (λ p h. h)
        (λ header body p h. take_entry-Round m n header body p h) tt tt (decompress fs archive n)
