-- ===== src/Journal/Saved.antt =====
-- A state of internal/attemptstate/store.go that is written and read again.
use shipmunk_runner.Prelude.{
  ℕ, ◌≤◌, ◌≡◌, refl, true, Bytes, codes, bytes_eq, Option, none, some, ok, ℤ, pos, negsuc,
  parse_int, format_int, arith, max_int64, parse_int-format_int,
}
use shipmunk_runner.Json.{get}
use shipmunk_runner.Mediation.Requests.{max_safe_integer}
use shipmunk_runner.Journal.{State}
use shipmunk_runner.Journal.Valid.{is_valid_state, int_between, max_refused_stopped_count}
use shipmunk_runner.Journal.Codec.{
  optional_value, nullable, supported, state_from_object, load_state, state_object,
}

parse_bounded :
    (low high : ℕ) (z : ℤ)
    → int_between low high z ≡ true
    → high ≤ max_int64
    → parse_int (format_int z) ≡ some z
parse_bounded low high (pos n) h k =
    let small : n ≤ high = ground arith in parse_int-format_int n (omega (arith, small, k))
parse_bounded low high (negsuc n) h k = cc

optional_value-nullable :
    (k : Bytes) (o : Option Bytes) → optional_value k (some (nullable o)) ≡ ok o
optional_value-nullable k none = refl
optional_value-nullable k (some s) = refl

valid_numbers :
    (s : State)
    → is_valid_state s ≡ true
    → (int_between 1 max_safe_integer s.fence ≡ true)
      × (int_between 0 max_refused_stopped_count s.refused_stopped_count ≡ true)
unfolding is_valid_state
valid_numbers s h = (ground arith, ground arith)

module _ (parse : Bytes → Option ℕ) (format : ℕ → Bytes) where
  -- A state that is valid, with times that the time format gives back, is read as it was written.
  pub load_state-state_object :
      (s : State)
      → is_valid_state s ≡ true
      → parse (format s.lease_expires_at) ≡ some s.lease_expires_at
      → parse (format s.deadline) ≡ some s.deadline
      → load_state parse (state_object format s) ≡ ok s
  unfolding load_state supported state_object state_from_object get bytes_eq
  load_state-state_object s h l d =
      let (f, c) = valid_numbers s h in
      rw (parse_bounded 1 max_safe_integer s.fence f (omega arith)) (
        rw (optional_value-nullable (codes "profile_id") s.profile_id) (
          rw (optional_value-nullable (codes "sandbox_id") s.sandbox_id) (
            rw l (
              rw d (
                rw
                  (parse_bounded 0 max_refused_stopped_count s.refused_stopped_count c
                    (omega arith))
                  (rw h refl))))))
