-- ===== src/Journal/Valid.antt =====
-- `validateState` of internal/attemptstate/store.go.
use shipmunk_runner.Prelude.{
  ℕ, ◌==◌, leb, length, Bool, true, false, not, ◌&&◌, ◌||◌, Bytes, bytes_eq, Option, none, some,
  List, [], ◌∷◌, ◌++◌, ℤ, pos, negsuc, format_int,
}
use shipmunk_runner.Archive.Text.{split}
use shipmunk_runner.Archive.Header.{any_unsafe}
use shipmunk_runner.Mediation.Requests.{max_safe_integer}
use shipmunk_runner.Journal.{State}

abbrev pub between : ℕ → ℕ → ℕ → Bool
between low high c = leb low c && leb c high

abbrev pub all_bytes : (ℕ → Bool) → Bytes → Bool
all_bytes is [] = true
all_bytes is (c ∷ s) = is c && all_bytes is s

-- `[0-9a-hjkmnp-tv-z]`
abbrev pub is_ulid_byte : ℕ → Bool
is_ulid_byte c =
    between b'0' b'9' c
    || between b'a' b'h' c
    || c == b'j'
    || c == b'k'
    || c == b'm'
    || c == b'n'
    || between b'p' b't' c
    || between b'v' b'z' c

-- `^[0-7][0-9a-hjkmnp-tv-z]{25}$`
unfoldable pub is_ulid : Bytes → Bool
is_ulid [] = false
is_ulid (c ∷ s) = between b'0' b'7' c && length s == 25 && all_bytes is_ulid_byte s

abbrev pub is_word_byte : ℕ → Bool
is_word_byte c = between b'A' b'Z' c || between b'a' b'z' c || between b'0' b'9' c

abbrev pub is_sandbox_byte : ℕ → Bool
is_sandbox_byte c = is_word_byte c || c == b'_' || c == b'.' || c == b'-'

-- `^[A-Za-z0-9][A-Za-z0-9_.-]{0,127}$`
unfoldable pub is_sandbox_id : Bytes → Bool
is_sandbox_id [] = false
is_sandbox_id (c ∷ s) = is_word_byte c && leb (length s) 127 && all_bytes is_sandbox_byte s

abbrev pub none_or : (Bytes → Bool) → Option Bytes → Bool
none_or is none = true
none_or is (some s) = is s

abbrev last_is : Bytes → List Bytes → Bool
last_is name [] = false
last_is name (s ∷ []) = bytes_eq s name
last_is name (s ∷ t ∷ ss) = last_is name (t ∷ ss)

-- `IsAbs(path) && Clean(path) == path && Base(path) == name`. `Clean` leaves an absolute path other
-- than `/` as it is where no segment after the first slash is empty, `.` or `..`; the base of `/` is
-- `/`, which is no workspace's name.
unfoldable pub is_workspace : Bytes → Bytes → Bool
unfolding bytes_eq
is_workspace name [] = false
is_workspace name (c ∷ rest) =
    c == b'/' && not (any_unsafe (split rest)) && last_is name (split rest)

abbrev pub workspace_name : Bytes → ℤ → Bytes
workspace_name attempt fence = attempt ++ (b'-' ∷ format_int fence)

abbrev pub max_refused_stopped_count : ℕ
max_refused_stopped_count = 1000

abbrev pub int_between : ℕ → ℕ → ℤ → Bool
int_between low high (pos n) = leb low n && leb n high
int_between low high (negsuc _) = false

-- `validateState` returns nil.
unfoldable pub is_valid_state : State → Bool
unfolding is_ulid is_sandbox_id is_workspace format_int
is_valid_state s =
    is_ulid s.run_id
    && is_ulid s.attempt_id
    && int_between 1 max_safe_integer s.fence
    && none_or is_ulid s.profile_id
    && none_or is_sandbox_id s.sandbox_id
    && not (s.lease_expires_at == 0)
    && not (s.deadline == 0)
    && is_workspace (workspace_name s.attempt_id s.fence) s.workspace
    && int_between 0 max_refused_stopped_count s.refused_stopped_count
