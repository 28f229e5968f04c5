-- ===== src/Sandbox.antt =====
-- internal/sandbox/docker.go: the name that a sandbox is reserved under.
mod AllBytes
pub mod Reserved
pub mod Input
pub mod Watch
pub mod Control
pub mod Docker
use shipmunk_runner.Prelude.{
  ℕ, ◌==◌, leb, length, Bool, true, false, not, ◌&&◌, ◌||◌, Bytes, codes, bytes_eq, Option, none,
  some, [], ◌∷◌, ◌++◌, ℤ, format_int, is_digit, take, drop, if◌then◌else◌,
}
use shipmunk_runner.Journal.Valid.{is_ulid, is_word_byte, all_bytes, is_sandbox_byte, int_between}
use shipmunk_runner.Mediation.Requests.{max_safe_integer}
use shipmunk_runner.Claim.{Claim}

abbrev pub container_prefix : Bytes
container_prefix = codes "shipmunk-"

abbrev pub text_of : Bytes → ℤ → Bytes
text_of attempt fence = container_prefix ++ (attempt ++ (b'-' ∷ format_int fence))

abbrev after_prefix : Bytes → Bytes → Option Bytes
after_prefix [] s = some s
after_prefix (p ∷ prefix) [] = none
after_prefix (p ∷ prefix) (c ∷ s) =
    let rest = after_prefix prefix s in if c == p then rest else none

-- `-[1-9][0-9]{0,15}$`
abbrev is_fence_suffix : Bytes → Bool
is_fence_suffix [] = false
is_fence_suffix (c ∷ []) = false
is_fence_suffix (c ∷ d ∷ s) =
    c == b'-' && (leb b'1' d && leb d b'9') && leb (length s) 15 && all_bytes is_digit s

abbrev is_suffix : Option Bytes → Bool
is_suffix none = false
is_suffix (some s) = is_ulid (take 26 s) && is_fence_suffix (drop 26 s)

-- `containerNamePattern`.
unfoldable pub is_container_name : Bytes → Bool
unfolding is_ulid
is_container_name s = is_suffix (after_prefix container_prefix s)

-- `Name`; `none` stands for its two errors.
unfoldable pub container_name : Claim → Option Bytes
unfolding is_container_name is_ulid format_int
container_name c =
    if not (is_ulid c.run_id)
      || not (is_ulid c.attempt_id)
      || not (int_between 1 max_safe_integer c.fence)
    then none
    else if not (is_container_name (text_of c.attempt_id c.fence))
    then none
    else some (text_of c.attempt_id c.fence)
