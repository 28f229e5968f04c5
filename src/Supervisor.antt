-- ===== src/Supervisor.antt =====
-- internal/supervisor: one supervised attempt at a time, from the claim to the confirmed cleanup.
pub mod Calls
pub mod Action
pub mod Lease
pub mod Recovery
pub mod Run
pub mod Decode
pub mod Decoded
pub mod Journaled
pub mod Triples
pub mod Held
pub mod Frames
