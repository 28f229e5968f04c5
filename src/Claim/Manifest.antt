-- ===== src/Claim/Manifest.antt =====
-- `claimFromValidatedManifest` of internal/protocol/claim.go. `parse` is `time.Parse` of an RFC 3339
-- text in UTC.
use shipmunk_runner.Prelude.{
  ℕ, ◌+◌, ◌==◌, leb, Bool, true, false, ◌&&◌, Bytes, codes, bytes_eq, Option, none, some, [], ◌∷◌,
  Result, ok, err, and_then, ℤ, pos, negsuc, parse_int, if◌then◌else◌, is_digit,
}
use shipmunk_runner.Json.{Value, Fields, str, number, get}
use shipmunk_runner.Claim.{Claim}
use shipmunk_runner.Journal.Valid.{is_ulid}
use shipmunk_runner.Mediation.Requests.{max_safe_integer}

pub data Rejection : Type 0 where
  bad_version bad_run_id bad_attempt_id bad_fence bad_deadline : Rejection

abbrev all_digits : Bytes → Bool
all_digits [] = true
all_digits (c ∷ s) = is_digit c && all_digits s

-- A text of digits, `0` in the shape standing for any digit, with the rest after it.
abbrev has_shape : Bytes → Bytes → Option Bytes
has_shape [] s = some s
has_shape (d ∷ shape) [] = none
has_shape (d ∷ shape) (c ∷ s) =
    let rest = has_shape shape s in
    if (if d == b'0' then is_digit c else c == d) then rest else none

-- `[0-9]+Z$` after a point.
abbrev is_fraction : Bool → Bytes → Bool
is_fraction some_digit [] = false
is_fraction some_digit (c ∷ []) = c == b'Z' && some_digit
is_fraction some_digit (c ∷ d ∷ s) = is_digit c && is_fraction true (d ∷ s)

abbrev ends_utc : Option Bytes → Bool
ends_utc none = false
ends_utc (some []) = false
ends_utc (some (c ∷ [])) = c == b'Z'
ends_utc (some (c ∷ d ∷ s)) = c == b'.' && is_fraction false (d ∷ s)

-- `utcTimestampPattern`.
unfoldable pub is_utc_timestamp : Bytes → Bool
is_utc_timestamp s = ends_utc (has_shape (codes "0000-00-00T00:00:00") s)

abbrev pub or_reject {ℓ} : {A : Type ℓ} → Rejection → Option A → Result Rejection A
or_reject r none = err r
or_reject r (some a) = ok a

-- `stringField`: a key that is there, with a string that is not empty.
abbrev pub string_field : Option Value → Option Bytes
string_field (some (str [])) = none
string_field (some (str (c ∷ s))) = some (c ∷ s)
string_field _ = none

abbrev pub in_range : ℤ → Option ℤ
in_range (pos n) = if leb 1 n && leb n max_safe_integer then some (pos n) else none
in_range (negsuc _) = none

abbrev pub ranged : Option ℤ → Option ℤ
ranged none = none
ranged (some n) = in_range n

unfoldable pub positive_integer : Option Value → Option ℤ
unfolding parse_int
positive_integer (some (number s)) = ranged (parse_int s)
positive_integer _ = none

abbrev pub ulid_or : Rejection → Option Bytes → Result Rejection Bytes
ulid_or r none = err r
ulid_or r (some s) = if is_ulid s then ok s else err r

abbrev pub version_or : Option Bytes → Result Rejection Bool
version_or none = err bad_version
version_or (some s) = if bytes_eq s (codes "1.0") then ok true else err bad_version

-- Forty-five seconds in nanoseconds.
abbrev pub local_lease : ℕ
local_lease = 45_000_000_000

module _ (parse : Bytes → Option ℕ) where
  abbrev pub utc_time : Option Bytes → Result Rejection ℕ
  utc_time none = err bad_deadline
  utc_time (some s) =
      if is_utc_timestamp s then or_reject bad_deadline (parse s) else err bad_deadline

  unfoldable pub claim_from_validated_manifest : Fields → ℕ → Result Rejection Claim
  unfolding get bytes_eq is_ulid positive_integer is_utc_timestamp
  claim_from_validated_manifest m now =
      and_then (version_or (string_field (get (codes "protocol_version") m))) λ version.
        and_then (ulid_or bad_run_id (string_field (get (codes "run_id") m))) λ run_id.
          and_then (ulid_or bad_attempt_id (string_field (get (codes "attempt_id") m)))
            λ attempt_id.
              and_then (or_reject bad_fence (positive_integer (get (codes "fence") m))) λ fence.
                and_then (utc_time (string_field (get (codes "deadline") m))) λ deadline.
                  ok (record {
                    run_id = run_id;
                    attempt_id = attempt_id;
                    fence = fence;
                    lease_expires_at = now + local_lease;
                    deadline = deadline;
                    manifest = m;
                  })
