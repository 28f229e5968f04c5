-- ===== src/Archive/Limits.antt =====
-- How much `Extract` of internal/workspace/tar.go writes.
use shipmunk_runner.Prelude.{
  Holds, and_then, ℕ, ◌+◌, ◌-◌, ◌≤◌, ◌==◌, length, length-take, take, ◌||◌, Bytes, Option, none,
  List, [], ◌∷◌, Result, ok, err, ℤ, Bool-cases, inl, inr, is_some, ltb, arith,
}
use shipmunk_runner.Archive.Text.{all_but_last, slice}
use shipmunk_runner.Archive.Header.{
  Reason, archive_path, type_flag, octal, padded_size, verify_checksum,
}
use shipmunk_runner.Archive.Extension.{pax_attributes}
use shipmunk_runner.Archive.Extract.{
  FileSystem, Write, make_directory, create_file, set_mode, Progress, Outcome, Entry, extension,
  directory, regular, and_next, do_write, write_mode, write_entry, is_extension_flag,
  extension_entry, named_entry, path_in, entry_of, entry_size, within_limits, take_entry, extract,
  or_default, default_max_files, default_max_bytes, decompress,
}
use shipmunk_runner.Archive.Induction.{extract_decoded-keeps, Round}

-- The files that are created, and the bytes that are written to them.
pub file_count : List Write → ℕ
file_count [] = 0
file_count (make_directory _ ∷ ws) = file_count ws
file_count (create_file _ _ ∷ ws) = file_count ws + 1
file_count (set_mode _ _ ∷ ws) = file_count ws

pub byte_count : List Write → ℕ
byte_count [] = 0
byte_count (make_directory _ ∷ ws) = byte_count ws
byte_count (create_file _ content ∷ ws) = byte_count ws + length content
byte_count (set_mode _ _ ∷ ws) = byte_count ws

abbrev pub Within : ℕ → ℕ → List Write → Type 0
Within a b ws = (file_count ws ≤ a) × (byte_count ws ≤ b)

abbrev content_size : Entry → ℕ
content_size (extension _) = 0
content_size (directory _) = 0
content_size (regular _ content _) = length content

Within-weaken : {a b c d : ℕ} (ws : List Write) → Within a b ws → a ≤ c → b ≤ d → Within c d ws
Within-weaken ws h p q = (omega (arith, h.0), omega (arith, h.1))

Within-empty : (a b : ℕ) → Within a b []
unfolding file_count byte_count
Within-empty a b = (omega arith, omega arith)

module _ (fs : FileSystem) where
  do_write-Within :
      (w : Write) (ws : List Write) {a b : ℕ}
      → Within a b (w ∷ ws)
      → Within a b (do_write fs w ws).1
  do_write-Within w ws h = elim (Bool-cases (fs.perform ws w)) [ inl e ↦ rw e h | inr e ↦ rw e h ]

  and_next-Within :
      (o : Outcome) (f : List Write → Outcome) {a b c d : ℕ}
      → Within a b o.1
      → a ≤ c
      → b ≤ d
      → ((ws : List Write) → Within a b ws → Within c d (f ws).1)
      → Within c d (and_next o f).1
  and_next-Within (err e, ws) f h p q k = Within-weaken ws h p q
  and_next-Within (ok t, ws) f h p q k = k ws h

  write_mode-Within :
      (name : List Bytes) (mode : Result Reason ℕ) (ws : List Write) {a b : ℕ}
      → Within a b ws
      → Within a b (write_mode fs name mode ws).1
  unfolding file_count byte_count
  write_mode-Within name (err e) ws h = h
  write_mode-Within name (ok m) ws h = do_write-Within (set_mode name _) ws h

  write_entry-Within :
      (e : Entry) (ws : List Write) {a b : ℕ}
      → Within a b ws
      → Within (a + 1) (b + content_size e) (write_entry fs e ws).1
  unfolding write_entry file_count byte_count
  write_entry-Within (extension _) ws h = Within-weaken ws h (omega arith) (omega arith)
  write_entry-Within (directory name) ws h =
      do_write-Within (make_directory name) ws (Within-weaken ws h (omega arith) (omega arith))
  write_entry-Within (regular name content mode) ws {a} {b} h =
      and_next-Within (do_write fs (make_directory (all_but_last name)) ws) _
        (do_write-Within (make_directory (all_but_last name)) ws h) (omega arith) (omega arith)
        (λ ws h.
          and_next-Within (do_write fs (create_file name content) ws) _
            (do_write-Within (create_file name content) ws {a = a + 1} {b = b + length content}
              (omega (arith, h.0), omega (arith, h.1)))
            (omega arith) (omega arith) (λ ws h. write_mode-Within name mode ws h))

  named_entry-Holds :
      (header content : Bytes) (n : ℕ) (name : List Bytes)
      → length content ≤ n
      → Holds (λ e. content_size e ≤ n) (named_entry header content name)
  named_entry-Holds header content n name h = elim (Bool-cases (type_flag header == b'5')) [
    | inl e ↦ rw e (omega arith)
    | inr e ↦ elim (Bool-cases (type_flag header == 0 || type_flag header == b'0')) [
      | inl f ↦ rw e (rw f h)
      | inr f ↦ rw e (rw f tt)
    ]
  ]

  extension_entry-Holds :
      (header content : Bytes) (pending : Option Bytes) (n : ℕ)
      → Holds (λ e. content_size e ≤ n) (extension_entry header content pending)
  extension_entry-Holds header content pending n =
      elim (Bool-cases (is_some pending || ltb 65_536 (length content))) [
        | inl e ↦ rw e tt
        | inr e ↦ rw e (
            extended (archive_path header (type_flag header) none)
              (pax_attributes content (type_flag header)))
      ]
    where
      extended :
          (r : Result Reason (List Bytes)) (a : Result Reason (Option Bytes))
          → Holds
              (λ e. content_size e ≤ n)
              (and_then r (λ _. and_then a (λ v. ok (path_in (type_flag header) v))))
      extended (err e) a = tt
      extended (ok m) (err e) = tt
      extended (ok m) (ok v) = omega arith

  entry_of-Holds :
      (header content : Bytes) (pending : Option Bytes) (n : ℕ)
      → length content ≤ n
      → Holds (λ e. content_size e ≤ n) (entry_of header content pending)
  unfolding entry_of
  entry_of-Holds header content pending n h =
      elim (Bool-cases (is_extension_flag (type_flag header))) [
        | inl e ↦ rw e (extension_entry-Holds header content pending n)
        | inr e ↦ rw e (named (archive_path header (type_flag header) pending))
      ]
    where
      named :
          (r : Result Reason (List Bytes))
          → Holds (λ e. content_size e ≤ n) (and_then r (named_entry header content))
      named (err e) = tt
      named (ok name) = named_entry-Holds header content n name h

abbrev Allowed : ℕ → ℕ → Bytes → Progress → ℕ → Type 0
Allowed m n body p size = (p.files + 1 ≤ m) × (p.total + size ≤ n)

within_limits-Holds :
    (m n : ℕ) (body : Bytes) (p : Progress) (size : ℕ)
    → p.total ≤ n
    → Holds (Allowed m n body p) (within_limits m n body p size)
within_limits-Holds m n body p size h =
    elim (Bool-cases (ltb m (p.files + 1) || ltb (n - p.total) size)) [
      | inl e ↦ rw e tt
      | inr e ↦ elim (Bool-cases (ltb (length body) size || ltb (length body) (padded_size size))) [
        | inl f ↦ rw e (rw f tt)
        | inr f ↦ rw e (rw f (ground arith, ground arith))
      ]
    ]

entry_size-Holds :
    (m n : ℕ) (header body : Bytes) (p : Progress)
    → p.total ≤ n
    → Holds (Allowed m n body p) (entry_size m n header body p)
unfolding entry_size
entry_size-Holds m n header body p h = elim (Bool-cases (verify_checksum header)) [
  | inl e ↦ rw e (sized (octal (slice 124 136 header)))
  | inr e ↦ rw e tt
]
  where
    sized :
        (r : Result Reason ℕ) → Holds (Allowed m n body p) (and_then r (within_limits m n body p))
    sized (err e) = tt
    sized (ok size) = within_limits-Holds m n body p size h

abbrev Counted : ℕ → ℕ → Progress → Type 0
Counted m n p = Within p.files p.total p.written × (p.files ≤ m) × (p.total ≤ n)

module _ (fs : FileSystem) (m n : ℕ) where
  taken-Round :
      (body : Bytes) (p : Progress) (size : ℕ) (r : Result Reason Entry)
      → Counted m n p
      → Allowed m n body p size
      → Holds (λ e. content_size e ≤ size) r
      → Holds (Round fs m n (Counted m n) (Within m n) p) (and_then r (λ e. ok (size, e)))
  taken-Round body p size (err e) h a k = tt
  taken-Round body p size (ok e) h a k =
      let w = write_entry-Within fs e p.written h.0 in
      (
        (omega (arith, w.0, a.0), omega (arith, w.1, a.1, k)),
        λ _. ((w.0, omega (arith, w.1, k)), a.0, a.1),
      )

  take_entry-Round :
      (header body : Bytes) (p : Progress)
      → Counted m n p
      → Holds (Round fs m n (Counted m n) (Within m n) p) (take_entry fs m n header body p)
  take_entry-Round header body p h =
      sized (entry_size m n header body p) (entry_size-Holds m n header body p h.2)
    where
      short : (size : ℕ) → length (take size body) ≤ size
      short size = omega (arith, length-take size body)

      sized :
          (r : Result Reason ℕ)
          → Holds (Allowed m n body p) r
          → Holds (Round fs m n (Counted m n) (Within m n) p) (
              and_then r
                (λ size. and_then (entry_of header (take size body) p.pending) (λ e. ok (size, e))))
      sized (err e) a = tt
      sized (ok size) a =
          taken-Round body p size (entry_of header (take size body) p.pending) h a
            (entry_of-Holds fs header (take size body) p.pending size (short size))

-- Whatever the archive holds, no more files are created than the limit on files, and no more bytes
-- are written to them than the limit on bytes; a limit that is not positive is the default.
pub extract-Within :
    (fs : FileSystem) (files bytes : ℤ) (archive : Bytes)
    → Within
        (or_default files default_max_files)
        (or_default bytes default_max_bytes)
        (extract fs files bytes archive).1
unfolding extract
extract-Within fs files bytes archive =
    let m = or_default files default_max_files in
    let n = or_default bytes default_max_bytes in
    extract_decoded-keeps fs m n (Counted m n) (Within m n)
      (λ p h. Within-weaken p.written h.0 h.1 h.2)
      (λ header body p h. take_entry-Round fs m n header body p h)
      ((Within-empty 0 0), omega arith, omega arith) (Within-empty m n) (decompress fs archive n)
