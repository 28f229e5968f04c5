-- ===== src/Journal/Codec.antt =====
-- `loadLocked` after the JSON decoder, `stateFromObject` and `marshalState` of
-- internal/attemptstate/store.go. `parse` and `format` are the two directions of the package time.
use shipmunk_runner.Prelude.{
  ℕ, Bool, ◌||◌, Bytes, codes, bytes_eq, Option, none, some, Result, ok, err, and_then, ℤ,
  parse_int, format_int, if◌then◌else◌,
}
use shipmunk_runner.Json.{Value, Fields, end, field, null, str, number, obj, get}
use shipmunk_runner.Journal.{State}
use shipmunk_runner.Journal.Valid.{is_valid_state}

-- The errors by what they name.
pub data Problem : Type 0 where
  not_object invalid_state : Problem
  unsupported_field bad_field : Bytes → Problem

-- `stateFields`.
abbrev pub is_state_field : Bytes → Bool
is_state_field k =
    bytes_eq k (codes "run_id")
    || bytes_eq k (codes "attempt_id")
    || bytes_eq k (codes "fence")
    || bytes_eq k (codes "profile_id")
    || bytes_eq k (codes "sandbox_id")
    || bytes_eq k (codes "lease_expires_at")
    || bytes_eq k (codes "deadline")
    || bytes_eq k (codes "workspace")
    || bytes_eq k (codes "refused_stopped_count")

-- The check of the keys; a Go map's order is not fixed, and neither is which key is named.
unfoldable pub supported : Fields → Result Problem Fields → Result Problem Fields
unfolding bytes_eq
supported end r = r
supported (field k v fs) r =
    let rest = supported fs r in if is_state_field k then rest else err (unsupported_field k)

abbrev pub text_value : Bytes → Option Value → Result Problem Bytes
text_value k (some (str s)) = ok s
text_value k _ = err (bad_field k)

abbrev pub optional_value : Bytes → Option Value → Result Problem (Option Bytes)
optional_value k none = ok none
optional_value k (some null) = ok none
optional_value k (some (str s)) = ok (some s)
optional_value k _ = err (bad_field k)

abbrev pub or_bad {ℓ} : {A : Type ℓ} → Bytes → Option A → Result Problem A
or_bad k none = err (bad_field k)
or_bad k (some a) = ok a

abbrev pub integer_value : Bytes → Option Value → Result Problem ℤ
integer_value k (some (number s)) = or_bad k (parse_int s)
integer_value k _ = err (bad_field k)

module _ (parse : Bytes → Option ℕ) where
  abbrev pub time_value : Bytes → Option Value → Result Problem ℕ
  time_value k (some (str s)) = or_bad k (parse s)
  time_value k _ = err (bad_field k)

  unfoldable pub state_from_object : Fields → Result Problem State
  unfolding get bytes_eq parse_int
  state_from_object fs = and_then (text_value (codes "run_id") (get (codes "run_id") fs)) λ run_id.
      and_then (text_value (codes "attempt_id") (get (codes "attempt_id") fs)) λ attempt_id.
        and_then (integer_value (codes "fence") (get (codes "fence") fs)) λ fence.
          and_then (optional_value (codes "profile_id") (get (codes "profile_id") fs)) λ profile_id.
            and_then (optional_value (codes "sandbox_id") (get (codes "sandbox_id") fs))
              λ sandbox_id.
                and_then (time_value (codes "lease_expires_at") (get (codes "lease_expires_at") fs))
                  λ lease.
                    and_then (time_value (codes "deadline") (get (codes "deadline") fs)) λ deadline.
                      and_then (text_value (codes "workspace") (get (codes "workspace") fs))
                        λ workspace.
                          and_then
                            (integer_value (codes "refused_stopped_count")
                              (get (codes "refused_stopped_count") fs))
                            λ count. ok (record {
                              run_id = run_id;
                              attempt_id = attempt_id;
                              fence = fence;
                              profile_id = profile_id;
                              sandbox_id = sandbox_id;
                              lease_expires_at = lease;
                              deadline = deadline;
                              workspace = workspace;
                              refused_stopped_count = count;
                            })

  abbrev pub valid_only : State → Result Problem State
  valid_only s = if is_valid_state s then ok s else err invalid_state

  unfoldable pub load_state : Value → Result Problem State
  unfolding supported state_from_object is_valid_state
  load_state (obj fs) =
      and_then (supported fs (ok fs)) λ fs. and_then (state_from_object fs) valid_only
  load_state _ = err not_object

abbrev pub nullable : Option Bytes → Value
nullable none = null
nullable (some s) = str s

-- The object that `marshalState` encodes.
unfoldable pub state_object : (ℕ → Bytes) → State → Value
unfolding format_int
state_object format s = obj (
    field (codes "run_id") (str s.run_id) (
      field (codes "attempt_id") (str s.attempt_id) (
        field (codes "fence") (number (format_int s.fence)) (
          field (codes "profile_id") (nullable s.profile_id) (
            field (codes "sandbox_id") (nullable s.sandbox_id) (
              field (codes "lease_expires_at") (str (format s.lease_expires_at)) (
                field (codes "deadline") (str (format s.deadline)) (
                  field (codes "workspace") (str s.workspace) (
                    field (codes "refused_stopped_count")
                      (number (format_int s.refused_stopped_count)) end)))))))))
