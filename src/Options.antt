-- ===== src/Options.antt =====
-- internal/command/options.go: the validation of parsed options, with `net/url` as an argument.
pub mod Valid
use shipmunk_runner.Prelude.{
  ℕ, ◌+◌, ◌==◌, leb, length, Bool, true, false, not, ◌&&◌, ◌||◌, Bytes, codes, bytes_eq, Option,
  none, some, List, [], ◌∷◌, ◌++◌, if◌then◌else◌, Result, ok, err, and_then,
}
use shipmunk_runner.Archive.Text.{has_byte, split, trim_right}
use shipmunk_runner.Journal.Valid.{is_ulid}
use shipmunk_runner.Codex.Fields.{one_of}
use shipmunk_runner.Codex.Paths.{clean}

-- What `url.Parse` gives.
pub record Url : Type 0 where
  pub scheme : Bytes
  pub host : Bytes
  pub hostname : Bytes
  pub raw_query : Bytes
  pub fragment : Bytes
  pub opaque : Bytes
  pub has_user : Bool
  pub force_query : Bool

pub record RunnerOptions : Type 0 where
  pub base_url : Bytes
  pub token_file : Bytes
  pub state_dir : Bytes
  pub image : Bytes
  pub once : Bool
  pub driver : Bytes
  pub profiles_dir : Bytes
  pub repository_image : Bytes
  pub session_mode : Bytes
  pub discard_attempt : Bool
  pub confirmed : Bool

pub record ProfileOptions : Type 0 where
  pub base_url : Bytes
  pub token_file : Bytes
  pub profiles_dir : Bytes
  pub image : Bytes
  pub profile : Bytes
  pub operation : Bytes
  pub operation_id : Bytes
  pub json : Bool

-- The errors by their texts.
pub data OptionError : Type 0 where
  missing_options invalid_url insecure_url unsupported_driver profiles_required : OptionError
  split_installation unsupported_session exclusive_options stray_confirmation : OptionError
  invalid_profile invalid_operation_id unsupported_operation : OptionError

abbrev pub refuse_if : Bool → OptionError → Result OptionError (Unit {0})
refuse_if true e = err e
refuse_if false e = ok tt

abbrev pub is_blank : Bytes → Bool
is_blank s = length s == 0

-- `strings.EqualFold(host, "localhost")`: besides the ASCII letters the long s folds to an `s`.
abbrev pub ascii_lower : ℕ → ℕ
ascii_lower c = if leb b'A' c && leb c b'Z' then c + 32 else c

unfoldable pub folds_to : Bytes → Bytes → Bool
folds_to [] [] = true
folds_to (c ∷ s) (d ∷ t) = ascii_lower c == d && folds_to s t
folds_to _ _ = false

abbrev pub is_localhost : Bytes → Bool
unfolding folds_to
is_localhost host =
    folds_to host (codes "localhost")
    || folds_to host (codes "localho" ++ (0xC5 ∷ 0xBF ∷ b't' ∷ []))

-- `isLoopbackHostname`.
unfoldable pub is_loopback_hostname : Bytes → Bool
unfolding is_localhost bytes_eq
is_loopback_hostname host =
    is_localhost host || bytes_eq host (codes "127.0.0.1") || bytes_eq host (codes "::1")

abbrev pub is_odd_url : Url → Bytes → Bool
is_odd_url u s =
    is_blank u.host
    || u.has_user
    || not (is_blank u.raw_query)
    || u.force_query
    || not (is_blank u.fragment)
    || has_byte b'#' s
    || not (is_blank u.opaque)

unfoldable pub is_secure : Url → Bool
unfolding is_loopback_hostname bytes_eq
is_secure u =
    bytes_eq u.scheme (codes "https")
    || (bytes_eq u.scheme (codes "http") && is_loopback_hostname u.hostname)

abbrev pub has_blank : Bytes → Bool
has_blank s =
    has_byte 13 s
    || has_byte 10 s
    || has_byte 9 s
    || has_byte 0x20 s
    || has_byte 0 s
    || has_byte 92 s

abbrev pub check_url : Option Url → Bytes → Result OptionError (Unit {0})
unfolding is_secure
check_url none s = err invalid_url
check_url (some u) s = and_then (refuse_if (is_odd_url u s) invalid_url) λ _.
    and_then (refuse_if (not (is_secure u)) insecure_url) λ _. refuse_if (has_blank s) invalid_url

abbrev pub last_part : List Bytes → Bytes
last_part [] = []
last_part (s ∷ []) = s
last_part (s ∷ t ∷ ss) = last_part (t ∷ ss)

abbrev pub is_slash : ℕ → Bool
is_slash c = c == b'/'

-- `filepath.Base`, without the slashes at the end.
unfoldable pub base : Bytes → Bytes
base [] = codes "."
base (c ∷ s) =
    let trimmed = trim_right is_slash (c ∷ s) in
    if is_blank trimmed then codes "/" else last_part (split trimmed)

abbrev pub with_first : ℕ → Bytes → Bytes
with_first c (d ∷ t) = c ∷ d ∷ t
with_first c [] = if is_slash c then c ∷ [] else []

-- The text up to the last slash and with it, if there is one.
abbrev pub up_to_slash : Bytes → Bytes
up_to_slash [] = []
up_to_slash (c ∷ s) = with_first c (up_to_slash s)

-- `filepath.Dir`, and `filepath.Join` of a directory and a name.
unfoldable pub dir : Bytes → Bytes
unfolding clean
dir p = clean (up_to_slash p)

unfoldable pub join_path : Bytes → Bytes → Bytes
unfolding clean
join_path root name = clean (root ++ (b'/' ∷ name))

abbrev pub is_codex : RunnerOptions → Bool
is_codex o = bytes_eq o.driver (codes "codex")

-- Whether the installed token has the directories beside it.
unfoldable pub is_split : RunnerOptions → Bool
unfolding base dir join_path clean bytes_eq
is_split o =
    bytes_eq (base o.token_file) (codes "execution.token")
    && (not (bytes_eq (clean o.state_dir) (join_path (dir o.token_file) (codes "state")))
        || (is_codex o
            && not (
                bytes_eq (clean o.profiles_dir) (join_path (dir o.token_file) (codes "profiles")))))

abbrev pub with_repository : RunnerOptions → RunnerOptions
with_repository o =
    if is_blank o.repository_image then record o { repository_image = o.image } else o

abbrev pub is_missing : RunnerOptions → Bool
is_missing o =
    is_blank o.base_url || is_blank o.token_file || is_blank o.state_dir || is_blank o.image

module _ (parse_url : Bytes → Option Url) where
  -- `validateControlPlaneURL`.
  unfoldable pub validate_control_plane_url : Bytes → Result OptionError (Unit {0})
  unfolding check_url
  validate_control_plane_url s = check_url (parse_url s) s

  -- `validateRunnerOptions`: the options with the repository's image filled in.
  unfoldable pub validate_runner_options : RunnerOptions → Result OptionError RunnerOptions
  unfolding validate_control_plane_url one_of is_split bytes_eq
  validate_runner_options o = and_then (refuse_if (is_missing o) missing_options) λ _.
      and_then (validate_control_plane_url o.base_url) λ _.
        and_then
          (refuse_if (not (one_of o.driver (codes "fixture" ∷ codes "codex" ∷ [])))
            unsupported_driver)
          λ _. and_then (refuse_if (is_codex o && is_blank o.profiles_dir) profiles_required) λ _.
            and_then (refuse_if (is_split o) split_installation) λ _.
              and_then
                (refuse_if (not (one_of o.session_mode (codes "fresh" ∷ codes "resume" ∷ [])))
                  unsupported_session)
                λ _. and_then (refuse_if (o.discard_attempt && o.once) exclusive_options) λ _.
                  and_then (refuse_if (o.confirmed && not o.discard_attempt) stray_confirmation)
                    λ _. ok (with_repository o)

  abbrev pub is_missing_profile : ProfileOptions → Bool
  is_missing_profile o =
      is_blank o.base_url
      || is_blank o.token_file
      || is_blank o.profiles_dir
      || is_blank o.image
      || is_blank o.profile
      || is_blank o.operation
      || is_blank o.operation_id

  -- `validateProfileOptions`.
  unfoldable pub validate_profile_options : ProfileOptions → Result OptionError (Unit {0})
  unfolding validate_control_plane_url one_of is_ulid base dir join_path clean bytes_eq
  validate_profile_options o = and_then (refuse_if (is_missing_profile o) missing_options) λ _.
      and_then (validate_control_plane_url o.base_url) λ _.
        and_then (refuse_if (not (is_ulid o.profile)) invalid_profile) λ _.
          and_then (refuse_if (not (is_ulid o.operation_id)) invalid_operation_id) λ _.
            and_then
              (refuse_if
                (not (one_of o.operation (codes "login" ∷ codes "probe" ∷ codes "disconnect" ∷ [])))
                unsupported_operation)
              λ _.
                refuse_if
                  (bytes_eq (base o.token_file) (codes "profile.token")
                    && not (
                        bytes_eq (clean o.profiles_dir)
                          (join_path (dir o.token_file) (codes "profiles"))))
                  split_installation
