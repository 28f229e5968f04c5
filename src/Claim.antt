-- ===== src/Claim.antt =====
-- The claim of internal/protocol/claim.go: one validated, fenced attempt.
pub mod Manifest
use shipmunk_runner.Prelude.{ℕ, ℤ, Bytes}
use shipmunk_runner.Json.{Fields}

-- An instant is the number of nanoseconds since Go's zero time.
pub record Claim : Type 0 where
  pub run_id : Bytes
  pub attempt_id : Bytes
  pub fence : ℤ
  pub lease_expires_at : ℕ
  pub deadline : ℕ
  pub manifest : Fields
