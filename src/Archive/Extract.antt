-- ===== src/Archive/Extract.antt =====
-- `Extract` and `decompress` of internal/workspace/tar.go. The file system is an argument: what each
-- of its calls answers may depend on all calls before it.
use shipmunk_runner.Prelude.{
  and_then, ℕ, zero, suc, ◌+◌, ◌-◌, ◌/◌, ◌%◌, ltb, ◌==◌, length, take, drop, Bool, false, not, ◌&&◌,
  ◌||◌, Bytes, Option, none, some, is_some, List, [], ◌∷◌, ◌++◌, Result, ok, err, ℤ, pos, negsuc,
  if◌then◌else◌,
}
use shipmunk_runner.Archive.Text.{slice, all_but_last}
use shipmunk_runner.Archive.Header.{
  Reason, context_done, unused_extension, bad_checksum, over_limits, truncated, bad_extension,
  special_file, missing_end, unwritable, bad_gzip, bad_destination, out_of_fuel, octal,
  verify_checksum, padded_size, all_zero, type_flag, archive_path,
}
use shipmunk_runner.Archive.Extension.{pax_attributes}

pub data Write : Type 0 where
  make_directory : List Bytes → Write
  create_file : List Bytes → Bytes → Write
  set_mode : List Bytes → Bool → Write

-- One read of the gzip reader: some bytes, and whether the stream goes on, ends or is broken.
pub data Read : Type 0 where
  stopped : Read
  more finished broken : Bytes → Read

pub record FileSystem : Type 0 where
  pub is_directory : Bool
  pub gunzip : Bytes → Option (List Read)
  pub cancelled : List Write → Bytes → Bool
  pub perform : List Write → Write → Bool

abbrev pub or_default : ℤ → ℕ → ℕ
or_default (pos zero) d = d
or_default (pos (suc n)) d = suc n
or_default (negsuc _) d = d

abbrev pub default_max_files : ℕ
default_max_files = 20_000

abbrev pub default_max_bytes : ℕ
default_max_bytes = 134_217_728

-- `decoded.Write` under the limit. A list of reads that ends before the stream does stands for a
-- reader that is still waiting, which the limit on the whole call ends.
unfoldable pub inflate : ℕ → Bytes → List Read → Result Reason Bytes
inflate limit acc [] = err context_done
inflate limit acc (stopped ∷ rs) = err context_done
inflate limit acc (more s ∷ rs) =
    let rest = inflate limit (acc ++ s) rs in
    if ltb limit (length acc + length s) then err over_limits else rest
inflate limit acc (finished s ∷ rs) =
    if ltb limit (length acc + length s) then err over_limits else ok (acc ++ s)
inflate limit acc (broken s ∷ rs) =
    if ltb limit (length acc + length s) then err over_limits else err bad_gzip

abbrev pub is_gzip : Bytes → Bool
is_gzip (a ∷ b ∷ s) = a == 0x1F && b == 0x8B
is_gzip _ = false

abbrev pub inflated : ℕ → Option (List Read) → Result Reason Bytes
inflated limit none = err bad_gzip
inflated limit (some rs) = inflate limit [] rs

unfoldable pub decompress : FileSystem → Bytes → ℕ → Result Reason Bytes
unfolding inflate
decompress fs archive limit =
    if not (is_gzip archive)
    then (if ltb limit (length archive) then err over_limits else ok archive)
    else inflated limit (fs.gunzip archive)

-- The loop's variables; `written` has the calls of the file system, the newest first.
pub record Progress : Type 0 where
  pub files : ℕ
  pub total : ℕ
  pub pending : Option Bytes
  pub written : List Write

abbrev pub fresh : Progress
fresh = record { files = 0; total = 0; pending = none; written = [] }

abbrev pub Done : Type 0
Done = Unit

abbrev pub Outcome : Type 0
Outcome = Result Reason Done × List Write

-- An entry past its checks. `regular` has its path, its content and the mode field's number.
pub data Entry : Type 0 where
  extension : Option Bytes → Entry
  directory : List Bytes → Entry
  regular : List Bytes → Bytes → Result Reason ℕ → Entry

abbrev pub is_extension_flag : ℕ → Bool
is_extension_flag flag = flag == b'g' || flag == b'x'

-- A global extension has comments alone, so it never has the key `path`.
abbrev pub path_in : ℕ → Option Bytes → Entry
path_in flag v = extension (if flag == b'x' then v else none)

abbrev pub extension_entry : Bytes → Bytes → Option Bytes → Result Reason Entry
extension_entry header content pending =
    if is_some pending || ltb 65_536 (length content)
    then err bad_extension
    else and_then (archive_path header (type_flag header) none) (λ _.
      and_then (pax_attributes content (type_flag header)) (λ v. ok (path_in (type_flag header) v)))

abbrev pub named_entry : Bytes → Bytes → List Bytes → Result Reason Entry
named_entry header content name =
    if type_flag header == b'5'
    then ok (directory name)
    else if type_flag header == 0 || type_flag header == b'0'
    then ok (regular name content (octal (slice 100 108 header)))
    else err special_file

unfoldable pub entry_of : Bytes → Bytes → Option Bytes → Result Reason Entry
unfolding archive_path octal pax_attributes
entry_of header content pending =
    if is_extension_flag (type_flag header)
    then extension_entry header content pending
    else and_then (archive_path header (type_flag header) pending) (named_entry header content)

-- The size of an entry that the limits and the archive's length allow.
abbrev pub within_limits : ℕ → ℕ → Bytes → Progress → ℕ → Result Reason ℕ
within_limits max_files max_bytes body p size =
    if ltb max_files (p.files + 1) || ltb (max_bytes - p.total) size
    then err over_limits
    else if ltb (length body) size || ltb (length body) (padded_size size)
    then err truncated
    else ok size

unfoldable pub entry_size : ℕ → ℕ → Bytes → Bytes → Progress → Result Reason ℕ
unfolding verify_checksum octal
entry_size max_files max_bytes header body p =
    if not (verify_checksum header)
    then err bad_checksum
    else and_then (octal (slice 124 136 header)) (within_limits max_files max_bytes body p)

abbrev pub next_pending : Option Bytes → Entry → Option Bytes
next_pending pending (extension none) = pending
next_pending pending (extension (some p)) = some p
next_pending pending (directory _) = none
next_pending pending (regular _ _ _) = none

abbrev pub and_next : Outcome → (List Write → Outcome) → Outcome
and_next (err e, ws) f = (err e, ws)
and_next (ok _, ws) f = f ws

abbrev pub progressed : Progress → ℕ → Option Bytes → List Write → Progress
progressed p size pending ws = record {
  files = p.files + 1;
  total = p.total + size;
  pending = pending;
  written = ws;
}

module _ (fs : FileSystem) where
  abbrev pub do_write : Write → List Write → Outcome
  do_write w ws = if fs.perform ws w then (ok tt, w ∷ ws) else (err unwritable, w ∷ ws)

  abbrev pub write_mode : List Bytes → Result Reason ℕ → List Write → Outcome
  write_mode name (err e) ws = (err e, ws)
  write_mode name (ok mode) ws = do_write (set_mode name (mode / 64 % 2 == 1)) ws

  unfoldable pub write_entry : Entry → List Write → Outcome
  write_entry (extension _) ws = (ok tt, ws)
  write_entry (directory name) ws = do_write (make_directory name) ws
  write_entry (regular name content mode) ws =
      and_next (do_write (make_directory (all_but_last name)) ws)
        (λ ws. and_next (do_write (create_file name content) ws) (write_mode name mode))

  module _ (max_files max_bytes : ℕ) where
    -- One entry: its checks, what it writes, and the loop's variables after it.
    abbrev pub take_entry : Bytes → Bytes → Progress → Result Reason (ℕ × Entry)
    take_entry header body p =
        and_then (entry_size max_files max_bytes header body p)
          (λ size. and_then (entry_of header (take size body) p.pending) (λ e. ok (size, e)))

    abbrev pub end_of : Option Bytes → Result Reason Done
    end_of none = ok tt
    end_of (some _) = err unused_extension

    abbrev pub and_entry : Progress → Result Reason (ℕ × Entry) → (ℕ → Progress → Outcome) → Outcome
    and_entry p (err e) f = (err e, p.written)
    and_entry p (ok (size, e)) f =
        and_next (write_entry e p.written)
          (λ ws. f size (progressed p size (next_pending p.pending e) ws))

    -- Each round takes 512 bytes at least, so the length of the archive is enough fuel.
    unfoldable pub extract_from : ℕ → Bytes → Progress → Outcome
    unfolding write_entry entry_size entry_of
    extract_from zero rest p = (err out_of_fuel, p.written)
    extract_from (suc f) rest p =
        let next =
          and_entry p (take_entry (take 512 rest) (drop 512 rest) p)
            (λ size q. extract_from f (drop (padded_size size) (drop 512 rest)) q) in
        if ltb (length rest) 512
        then (err missing_end, p.written)
        else if fs.cancelled p.written rest
        then (err context_done, p.written)
        else if all_zero (take 512 rest)
        then (end_of p.pending, p.written)
        else next

    abbrev pub extract_decoded : Result Reason Bytes → Outcome
    extract_decoded (err e) = (err e, [])
    extract_decoded (ok s) =
        if fs.is_directory then extract_from (suc (length s)) s fresh else (err bad_destination, [])

  unfoldable pub extract : ℤ → ℤ → Bytes → Outcome
  unfolding extract_from decompress
  extract files bytes archive =
      extract_decoded (or_default files default_max_files) (or_default bytes default_max_bytes)
        (decompress fs archive (or_default bytes default_max_bytes))
