-- ===== src/Archive/Ends.antt =====
-- The fuel of the loops of `Extract` and `decompress` in internal/workspace/tar.go.
use shipmunk_runner.Prelude.{
  and_then, ℕ, zero, suc, ◌+◌, ◌-◌, ◌≤◌, ◌<◌, ◌≢◌, subst, ◌==◌, length, length-drop, take, drop,
  Bool, true, false, not, ◌||◌, Bytes, Option, none, some, ◌++◌, List, [], ◌∷◌, Result, ok, err, ℤ,
  Bool-cases, inl, inr, if◌then◌else◌, is_some, ltb, arith,
}
use shipmunk_runner.Archive.Text.{all_but_last, slice}
use shipmunk_runner.Archive.Header.{
  Reason, over_limits, truncated, bad_gzip, bad_checksum, bad_extension, special_file,
  bad_destination, out_of_fuel, archive_path, type_flag, octal, padded_size, verify_checksum,
  all_zero,
}
use shipmunk_runner.Archive.Extension.{pax_attributes}
use shipmunk_runner.Archive.Extract.{
  FileSystem, Write, make_directory, create_file, set_mode, Progress, Outcome, Entry, extension,
  directory, regular, and_next, do_write, write_mode, write_entry, extension_entry, named_entry,
  path_in, entry_of, entry_size, within_limits, take_entry, and_entry, end_of, extract_from,
  extract_decoded, extract, fresh, or_default, default_max_files, default_max_bytes, decompress,
  inflate, inflated, is_gzip, is_extension_flag, Read, stopped, more, finished, broken,
}
use shipmunk_runner.Archive.Fuel.{
  Ended, Any, if-Ended, and_then-Ended, octal-Ended, archive_path-Ended, pax_attributes-Ended,
}

-- The mode of an entry's header has been read or is malformed.
abbrev ModeEnded : Entry → Type 0
ModeEnded (extension _) = Unit
ModeEnded (directory _) = Unit
ModeEnded (regular _ _ mode) = Ended Any mode

named_entry-Ended :
    (header content : Bytes) (name : List Bytes) → Ended ModeEnded (named_entry header content name)
named_entry-Ended header content name =
    let mode = octal (slice 100 108 header) in
    if-Ended ModeEnded (type_flag header == b'5') (ok (directory name))
      (if type_flag header == 0 || type_flag header == b'0'
        then ok (regular name content mode)
        else err special_file)
      tt
      (if-Ended ModeEnded (type_flag header == 0 || type_flag header == b'0')
        (ok (regular name content mode)) (err special_file) (octal-Ended (slice 100 108 header)) tt)

extension_entry-Ended :
    (header content : Bytes) (pending : Option Bytes)
    → Ended ModeEnded (extension_entry header content pending)
extension_entry-Ended header content pending =
    let flag = type_flag header in
    let tail =
      and_then-Ended {P = Any} ModeEnded (archive_path header flag none)
        (λ _. and_then (pax_attributes content flag) (λ v. ok (path_in flag v)))
        (archive_path-Ended header flag none)
        (λ _ _.
          and_then-Ended {P = Any} ModeEnded (pax_attributes content flag)
            (λ v. ok (path_in flag v)) (pax_attributes-Ended content flag) (λ v _. tt)) in
    if-Ended ModeEnded (is_some pending || ltb 65_536 (length content)) (err bad_extension)
      (and_then (archive_path header flag none)
        (λ _. and_then (pax_attributes content flag) (λ v. ok (path_in flag v))))
      tt tail

entry_of-Ended :
    (header content : Bytes) (pending : Option Bytes)
    → Ended ModeEnded (entry_of header content pending)
unfolding entry_of
entry_of-Ended header content pending =
    if-Ended ModeEnded (is_extension_flag (type_flag header))
      (extension_entry header content pending)
      (and_then (archive_path header (type_flag header) pending) (named_entry header content))
      (extension_entry-Ended header content pending)
      (and_then-Ended {P = Any} ModeEnded (archive_path header (type_flag header) pending)
        (named_entry header content) (archive_path-Ended header (type_flag header) pending)
        (λ name _. named_entry-Ended header content name))

within_limits-Ended :
    (m n : ℕ) (body : Bytes) (p : Progress) (size : ℕ) → Ended Any (within_limits m n body p size)
within_limits-Ended m n body p size =
    let over = ltb m (p.files + 1) || ltb (n - p.total) size in
    let short = ltb (length body) size || ltb (length body) (padded_size size) in
    if-Ended Any over (err over_limits) (if short then err truncated else ok size) tt
      (if-Ended Any short (err truncated) (ok size) tt tt)

entry_size-Ended :
    (m n : ℕ) (header body : Bytes) (p : Progress) → Ended Any (entry_size m n header body p)
unfolding entry_size
entry_size-Ended m n header body p =
    if-Ended Any (not (verify_checksum header)) (err bad_checksum)
      (and_then (octal (slice 124 136 header)) (within_limits m n body p)) tt
      (and_then-Ended {P = Any} Any (octal (slice 124 136 header)) (within_limits m n body p)
        (octal-Ended (slice 124 136 header)) (λ size _. within_limits-Ended m n body p size))

abbrev TakenEnded : (ℕ × Entry) → Type 0
TakenEnded (size, e) = ModeEnded e

abbrev OutcomeEnded : Outcome → Type 0
OutcomeEnded (r, ws) = Ended Any r

module _ (fs : FileSystem) where
  take_entry-Ended :
      (m n : ℕ) (header body : Bytes) (p : Progress)
      → Ended TakenEnded (take_entry fs m n header body p)
  take_entry-Ended m n header body p =
      and_then-Ended {P = Any} TakenEnded (entry_size m n header body p) _
        (entry_size-Ended m n header body p)
        (λ size _.
          and_then-Ended {P = ModeEnded} TakenEnded (entry_of header (take size body) p.pending)
            (λ e. ok (size, e)) (entry_of-Ended header (take size body) p.pending) (λ e h. h))

  do_write-Ended : (w : Write) (ws : List Write) → OutcomeEnded (do_write fs w ws)
  do_write-Ended w ws = elim (Bool-cases (fs.perform ws w)) [ inl e ↦ rw e tt | inr e ↦ rw e tt ]

  and_next-Ended :
      (o : Outcome) (f : List Write → Outcome)
      → OutcomeEnded o
      → ((ws : List Write) → OutcomeEnded (f ws))
      → OutcomeEnded (and_next o f)
  and_next-Ended (err e, ws) f h k = h
  and_next-Ended (ok d, ws) f h k = k ws

  write_mode-Ended :
      (name : List Bytes) (mode : Result Reason ℕ) (ws : List Write)
      → Ended Any mode
      → OutcomeEnded (write_mode fs name mode ws)
  write_mode-Ended name (err e) ws h = h
  write_mode-Ended name (ok m) ws h = do_write-Ended (set_mode name _) ws

  write_entry-Ended :
      (e : Entry) (ws : List Write) → ModeEnded e → OutcomeEnded (write_entry fs e ws)
  unfolding write_entry
  write_entry-Ended (extension _) ws h = tt
  write_entry-Ended (directory name) ws h = do_write-Ended (make_directory name) ws
  write_entry-Ended (regular name content mode) ws h =
      and_next-Ended (do_write fs (make_directory (all_but_last name)) ws) _
        (do_write-Ended (make_directory (all_but_last name)) ws)
        (λ ws.
          and_next-Ended (do_write fs (create_file name content) ws) _
            (do_write-Ended (create_file name content) ws) (λ ws. write_mode-Ended name mode ws h))

  module _ (m n : ℕ) where
    and_entry-Ended :
        (p : Progress) (r : Result Reason (ℕ × Entry)) (f : ℕ → Progress → Outcome)
        → Ended TakenEnded r
        → ((size : ℕ) (q : Progress) → OutcomeEnded (f size q))
        → OutcomeEnded (and_entry fs m n p r f)
    and_entry-Ended p (err e) f h k = h
    and_entry-Ended p (ok (size, e)) f h k =
        and_next-Ended (write_entry fs e p.written) _ (write_entry-Ended e p.written h)
          (λ ws. k size _)

    end_of-Ended : (o : Option Bytes) → Ended Any (end_of fs m n o)
    end_of-Ended none = tt
    end_of-Ended (some v) = tt

    extract_from-Ended :
        (f : ℕ) (rest : Bytes) (p : Progress)
        → length rest < f
        → OutcomeEnded (extract_from fs m n f rest p)
    unfolding extract_from
    extract_from-Ended zero rest p h = absurd (omega arith)
    extract_from-Ended (suc f) rest p h = elim (Bool-cases (ltb (length rest) 512)) [
      | inl e ↦ rw e tt
      | inr e ↦
          let long : 512 ≤ length rest = ground arith in
          let next =
            and_entry-Ended p (take_entry fs m n (take 512 rest) (drop 512 rest) p) _
              (take_entry-Ended m n (take 512 rest) (drop 512 rest) p)
              (λ size q. extract_from-Ended f (drop (padded_size size) (drop 512 rest)) q (
                omega (
                  arith,
                  h,
                  long,
                  length-drop 512 rest,
                  length-drop (padded_size size) (drop 512 rest),
                ))) in
          elim (Bool-cases (fs.cancelled p.written rest)) [
            | inl c ↦ rw e (rw c tt)
            | inr c ↦ elim (Bool-cases (all_zero (take 512 rest))) [
              | inl z ↦ rw e (rw c (rw z (end_of-Ended p.pending)))
              | inr z ↦ rw e (rw c (rw z next))
            ]
          ]
    ]

inflate-Ended : (limit : ℕ) (acc : Bytes) (rs : List Read) → Ended Any (inflate limit acc rs)
unfolding inflate
inflate-Ended limit acc [] = tt
inflate-Ended limit acc (stopped ∷ rs) = tt
inflate-Ended limit acc (more s ∷ rs) =
    if-Ended Any (ltb limit (length acc + length s)) (err over_limits) (inflate limit (acc ++ s) rs)
      tt (inflate-Ended limit (acc ++ s) rs)
inflate-Ended limit acc (finished s ∷ rs) =
    if-Ended Any (ltb limit (length acc + length s)) (err over_limits) (ok (acc ++ s)) tt tt
inflate-Ended limit acc (broken s ∷ rs) =
    if-Ended (Any {A = Bytes}) (ltb limit (length acc + length s)) (err over_limits) (err bad_gzip)
      tt tt

inflated-Ended : (limit : ℕ) (o : Option (List Read)) → Ended Any (inflated limit o)
inflated-Ended limit none = tt
inflated-Ended limit (some rs) = inflate-Ended limit [] rs

decompress-Ended :
    (fs : FileSystem) (archive : Bytes) (limit : ℕ) → Ended Any (decompress fs archive limit)
unfolding decompress
decompress-Ended fs archive limit =
    if-Ended Any (not (is_gzip archive))
      (if ltb limit (length archive) then err over_limits else ok archive)
      (inflated limit (fs.gunzip archive))
      (if-Ended Any (ltb limit (length archive)) (err over_limits) (ok archive) tt tt)
      (inflated-Ended limit (fs.gunzip archive))

extract_decoded-Ended :
    (fs : FileSystem) (m n : ℕ) (r : Result Reason Bytes)
    → Ended Any r
    → OutcomeEnded (extract_decoded fs m n r)
extract_decoded-Ended fs m n (err e) h = h
extract_decoded-Ended fs m n (ok s) h =
    either (extract_from fs m n (suc (length s)) s fresh) fs.is_directory
      (extract_from-Ended fs m n (suc (length s)) s fresh (omega arith))
  where
    either :
        (o : Outcome) (b : Bool)
        → OutcomeEnded o
        → OutcomeEnded (if b then o else (err bad_destination, []))
    either o true k = k
    either o false k = tt

not_fuel : (o : Outcome) → OutcomeEnded o → o.0 ≢ err out_of_fuel
not_fuel (r, ws) h = λ e. subst (Ended Any) e h

-- The extraction comes to its end, whatever the archive and the file system: the fuel of its two
-- loops, the length of the archive and of an extension, is never what stops it.
pub extract_ends :
    (fs : FileSystem) (files bytes : ℤ) (archive : Bytes)
    → (extract fs files bytes archive).0 ≢ err out_of_fuel
unfolding extract
extract_ends fs files bytes archive =
    let m = or_default files default_max_files in
    let n = or_default bytes default_max_bytes in
    not_fuel (extract fs files bytes archive)
      (extract_decoded-Ended fs m n (decompress fs archive n) (decompress-Ended fs archive n))
