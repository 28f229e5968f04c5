-- ===== src/Journal.antt =====
-- The active-attempt journal of internal/attemptstate/store.go. A time is a natural number, and the
-- zero time is 0.
pub mod Valid
pub mod Codec
pub mod Saved
use shipmunk_runner.Prelude.{ℕ, ℤ, Bytes, Option}

-- `State`: the durable identity and recovery context for one fenced attempt.
pub record State : Type 0 where
  pub run_id : Bytes
  pub attempt_id : Bytes
  pub fence : ℤ
  pub profile_id : Option Bytes
  pub sandbox_id : Option Bytes
  pub lease_expires_at : ℕ
  pub deadline : ℕ
  pub workspace : Bytes
  pub refused_stopped_count : ℤ
