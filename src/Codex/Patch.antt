-- ===== src/Codex/Patch.antt =====
-- internal/codex/patch.go: the changes between two snapshots, and the evidence that review_evidence.go
-- builds from them.
pub mod Listed
pub mod Changes
use shipmunk_runner.Prelude.{
  ℕ, suc, ◌+◌, ◌*◌, ◌==◌, ltb, leb, length, Bool, true, false, not, ◌&&◌, ◌||◌, Bytes, codes,
  bytes_eq, valid_utf8, Option, none, some, List, [], ◌∷◌, ◌++◌, if◌then◌else◌, Result, ok, err,
  and_then,
}
use shipmunk_runner.Json.{Fields, get}
use shipmunk_runner.Archive.Text.{has_byte, split}
use shipmunk_runner.Archive.Header.{starts_with_slash}
use shipmunk_runner.Codex.Fields.{string_of, one_of}
use shipmunk_runner.Codex.Evidence.{is_snapshot}
use shipmunk_runner.Codex.Review.{FileState, ReviewEvidence, build_line_index, contains_path}

abbrev pub max_changed_files : ℕ
max_changed_files = 200

abbrev pub max_path_bytes : ℕ
max_path_bytes = 1024

abbrev pub has_control : Bytes → Bool
has_control [] = false
has_control (c ∷ s) = ltb c 0x20 || c == 0x7F || has_control s

abbrev pub is_unsafe_part : Bytes → Bool
is_unsafe_part s =
    length s == 0
    || bytes_eq s (codes ".")
    || bytes_eq s (codes "..")
    || bytes_eq s (codes ".git")
    || has_control s

abbrev pub any_unsafe_part : List Bytes → Bool
any_unsafe_part [] = false
any_unsafe_part (s ∷ ss) = is_unsafe_part s || any_unsafe_part ss

-- `safeRepositoryPath`, where a path is absolute by its first slash.
unfoldable pub safe_repository_path : Bytes → Bool
unfolding valid_utf8 bytes_eq
safe_repository_path p =
    not
      (length p == 0 || ltb max_path_bytes (length p) || not (valid_utf8 p) || starts_with_slash p)
    && not (has_byte 92 p || has_byte b'"' p || has_byte 0 p || has_byte 13 p || has_byte 10 p)
    && not (any_unsafe_part (split p))

-- `map[string]fileState`.
abbrev pub Snapshot : Type 0
Snapshot = List (Bytes × FileState)

unfoldable pub state_of : Bytes → Snapshot → Option FileState
unfolding bytes_eq
state_of p [] = none
state_of p ((q, s) ∷ ss) = if bytes_eq q p then some s else state_of p ss

-- `<` on strings, and `sort.Strings`.
unfoldable pub bytes_ltb : Bytes → Bytes → Bool
bytes_ltb [] [] = false
bytes_ltb [] (y ∷ ys) = true
bytes_ltb (x ∷ xs) [] = false
bytes_ltb (x ∷ xs) (y ∷ ys) = ltb x y || (x == y && bytes_ltb xs ys)

unfoldable pub insert_sorted : Bytes → List Bytes → List Bytes
unfolding bytes_ltb
insert_sorted p [] = p ∷ []
insert_sorted p (q ∷ qs) =
    let rest = insert_sorted p qs in if bytes_ltb q p then q ∷ rest else p ∷ q ∷ qs

unfoldable pub sort_paths : List Bytes → List Bytes
unfolding insert_sorted
sort_paths [] = []
sort_paths (p ∷ ps) = insert_sorted p (sort_paths ps)

abbrev pub paths_of : Snapshot → List Bytes
paths_of [] = []
paths_of ((p, _) ∷ ss) = p ∷ paths_of ss

-- The paths of the second snapshot that the first does not have.
unfoldable pub new_paths : Snapshot → List Bytes → List Bytes
unfolding contains_path
new_paths [] seen = []
new_paths ((p, _) ∷ ss) seen =
    let rest = new_paths ss seen in if contains_path p seen then rest else p ∷ rest

unfoldable pub all_paths : Snapshot → Snapshot → List Bytes
unfolding sort_paths new_paths
all_paths before after = sort_paths (paths_of before ++ new_paths after (paths_of before))

pub record FileChange : Type 0 where
  pub path : Bytes
  pub before_sha256 : Option Bytes
  pub after_sha256 : Option Bytes
  pub before_mode : Option Bytes
  pub after_mode : Option Bytes

pub record Patch : Type 0 where
  pub diff : Bytes
  pub sha256 : Bytes
  pub changed_files : List FileChange

pub data PatchError : Type 0 where
  too_many_files not_representing not_complete not_generated bad_shas : PatchError

abbrev pub hash_of : Option FileState → Option Bytes
hash_of none = none
hash_of (some s) = some s.hash

abbrev pub mode_of : Option FileState → Option Bytes
mode_of none = none
mode_of (some s) = some s.mode

-- Whether `continue` leaves the path out; a path that neither has does not come up.
abbrev pub is_same : Option FileState → Option FileState → Bool
is_same (some a) (some b) = bytes_eq a.hash b.hash && bytes_eq a.mode b.mode
is_same none none = true
is_same _ _ = false

unfoldable pub changed_at : Bytes → Snapshot → Snapshot → Bool
unfolding state_of bytes_eq
changed_at p before after = not (is_same (state_of p before) (state_of p after))

abbrev pub change_of : Bytes → Snapshot → Snapshot → FileChange
unfolding state_of
change_of p before after = record {
  path = p;
  before_sha256 = hash_of (state_of p before);
  after_sha256 = hash_of (state_of p after);
  before_mode = mode_of (state_of p before);
  after_mode = mode_of (state_of p after);
}

-- `changes = append(changes, change)`, unless there are too many.
abbrev pub add_change : Bool → List FileChange → FileChange → Result PatchError (List FileChange)
add_change changed changes c =
    if not changed
    then ok changes
    else if ltb max_changed_files (length changes + 1)
    then err too_many_files
    else ok (changes ++ (c ∷ []))

-- The loop over the sorted paths.
unfoldable pub collect_changes :
    Snapshot → Snapshot → List Bytes → List FileChange → Result PatchError (List FileChange)
unfolding changed_at change_of
collect_changes before after [] changes = ok changes
collect_changes before after (p ∷ ps) changes =
    and_then (add_change (changed_at p before after) changes (change_of p before after))
      λ more. collect_changes before after ps more

-- git, and SHA-256.
pub record Tools : Type 0 where
  pub generate : Snapshot → Snapshot → Bool → Result PatchError Bytes
  pub sha256_hex : Bytes → Bytes

abbrev pub is_empty_list {ℓ} : {A : Type ℓ} → List A → Bool
is_empty_list [] = true
is_empty_list (_ ∷ _) = false

abbrev pub same : Bool → Bool → Bool
same true b = b
same false b = not b

abbrev pub change_paths : List FileChange → List Bytes
change_paths [] = []
change_paths (c ∷ cs) = c.path ∷ change_paths cs

abbrev pub patch_paths : Option Patch → List Bytes
patch_paths none = []
patch_paths (some p) = change_paths p.changed_files

module _ (tools : Tools) where
  abbrev pub verified : Bytes → List FileChange → Bytes → Result PatchError (Option Patch)
  unfolding bytes_eq
  verified patch changes generated =
      if bytes_eq patch generated
      then ok (
          some (record {
            diff = generated;
            sha256 = tools.sha256_hex generated;
            changed_files = changes;
          }))
      else err not_complete

  -- `collectSnapshotPatch`.
  unfoldable pub collect_snapshot_patch :
      Snapshot → Snapshot → Bytes → Bool → Result PatchError (Option Patch)
  unfolding collect_changes all_paths verified
  collect_snapshot_patch before after patch detect_renames =
      and_then (collect_changes before after (all_paths before after) []) λ changes.
        if not (same (is_empty_list changes) (is_empty_list patch))
        then err not_representing
        else if is_empty_list patch
        then ok none
        else and_then (tools.generate before after detect_renames) (verified patch changes)

  -- `buildReviewEvidence`, of the two snapshots that were read.
  unfoldable pub build_review_evidence :
      Bytes → Bytes → Snapshot → Snapshot → Result PatchError ReviewEvidence
  unfolding collect_snapshot_patch build_line_index is_snapshot sort_paths
  build_review_evidence base head before after =
      if not (is_snapshot base && is_snapshot head)
      then err bad_shas
      else and_then (tools.generate before after false) λ generated.
        and_then (collect_snapshot_patch before after generated false) λ patch. ok (record {
          baseline_sha = base;
          head_sha = head;
          changed_files = sort_paths (patch_paths patch);
          baseline_index = build_line_index before;
          head_index = build_line_index after;
        })
