-- ===== src/Sandbox/Reserved.antt =====
-- The name of internal/sandbox/docker.go in the journal of internal/attemptstate/store.go, and in the
-- recovery of internal/supervisor/supervisor.go.
use shipmunk_runner.Prelude.{
  ℕ, suc, ◌+◌, ◌≤◌, ◌≡◌, subst, leb, length, length-append, Bool, true, false, not, ◌&&◌, ◌||◌,
  Bytes, Option, some, [], ◌∷◌, ◌++◌, ℤ, pos, negsuc, format_int, format_int-length, Bool-cases,
  inl, inr, arith,
}
use shipmunk_runner.Journal.Valid.{
  is_ulid, is_ulid_byte, all_bytes, is_sandbox_byte, is_sandbox_id, int_between,
}
use shipmunk_runner.Mediation.Requests.{max_safe_integer}
use shipmunk_runner.Claim.{Claim}
use shipmunk_runner.Supervisor.Lease.{legacy_container_id, all_lower_hex, is_lower_hex}
use shipmunk_runner.Sandbox.AllBytes.{all_bytes-append, all_bytes_weaken, all_bytes-decimal}
use shipmunk_runner.Sandbox.{text_of, container_prefix, container_name, is_container_name}

ulid_text : (s : Bytes) → is_ulid s ≡ true → (all_bytes is_sandbox_byte s ≡ true) × (length s ≡ 26)
unfolding is_ulid
ulid_text [] h = cc
ulid_text (c ∷ s) h =
    let here : is_sandbox_byte c ≡ true = ground arith in
    let rest : all_bytes is_ulid_byte s ≡ true = ground arith in
    let n : length s ≡ 25 = ground arith in
    (
      rw here (all_bytes_weaken is_ulid_byte is_sandbox_byte (λ c k. ground arith) s rest),
      omega (arith, n),
    )

fence_text :
    (z : ℤ)
    → int_between 1 max_safe_integer z ≡ true
    → (all_bytes is_sandbox_byte (format_int z) ≡ true) × (length (format_int z) ≤ 16)
unfolding format_int
fence_text (pos n) h =
    let small : n ≤ max_safe_integer = ground arith in
    (
      all_bytes-decimal is_sandbox_byte (λ d h. ground arith) (suc n) n,
      format_int-length 15 n (omega (arith, small)),
    )
fence_text (negsuc n) h = cc

name_text :
    (attempt : Bytes) (fence : Bytes)
    → (all_bytes is_sandbox_byte attempt ≡ true) × (length attempt ≡ 26)
    → (all_bytes is_sandbox_byte fence ≡ true) × (length fence ≤ 16)
    → is_sandbox_id (container_prefix ++ (attempt ++ (b'-' ∷ fence))) ≡ true
unfolding is_sandbox_id
name_text attempt fence a f =
    let bytes = all_bytes-append is_sandbox_byte attempt (b'-' ∷ fence) a.0 f.0 in
    let short : length (attempt ++ (b'-' ∷ fence)) + 8 ≤ 127 =
      omega (arith, length-append attempt (b'-' ∷ fence), a.1, f.1) in
    bounded (length (attempt ++ (b'-' ∷ fence))) short bytes
  where
    bounded :
        (n : ℕ) {b : Bool}
        → n + 8 ≤ 127
        → b ≡ true
        → (leb (suc (suc (suc (suc (suc (suc (suc (suc n)))))))) 127 && b) ≡ true
    bounded n h k = ground arith

not_legacy : (rest : Bytes) → legacy_container_id (b's' ∷ rest) ≡ false
unfolding legacy_container_id all_lower_hex is_lower_hex
not_legacy rest = ground arith

-- A name that `Name` gives is one that the journal takes as a sandbox's, and none that the recovery
-- could take for a container's identifier.
pub container_name_lem :
    (c : Claim) (n : Bytes)
    → container_name c ≡ some n
    → (is_sandbox_id n ≡ true) × (legacy_container_id n ≡ false)
unfolding container_name
container_name_lem c n h =
    elim (Bool-cases (
      not (is_ulid c.run_id)
      || not (is_ulid c.attempt_id)
      || not (int_between 1 max_safe_integer c.fence))) [
        | inl bad ↦ cc (rw bad at h)
        | inr good ↦ elim (Bool-cases (is_container_name (text_of c.attempt_id c.fence))) [
          | inr differs ↦ cc (rw differs at (rw good at h))
          | inl fits ↦
              let e : text_of c.attempt_id c.fence ≡ n =
                some_injective (rw fits at (rw good at h)) in
              let ulid : is_ulid c.attempt_id ≡ true = ground arith in
              let fence : int_between 1 max_safe_integer c.fence ≡ true = ground arith in
              subst (λ n. (is_sandbox_id n ≡ true) × (legacy_container_id n ≡ false)) e
                (
                  name_text c.attempt_id (format_int c.fence) (ulid_text c.attempt_id ulid)
                      (fence_text c.fence fence),
                  not_legacy _,
                )
        ]
      ]
  where
    some_injective : {a b : Bytes} → ◌≡◌ {A = Option Bytes} (some a) (some b) → a ≡ b
    some_injective e = cc
