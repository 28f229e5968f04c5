-- ===== src/Tests.antt =====
-- Concrete inputs: the theorems applied to them, and runs that can be followed in the source.
mod Supervision
mod Polling
mod Mediation
mod Archive
mod Journal
mod Decoding
mod Claiming
mod Protocol
mod Codex
mod Contracts
mod Reviewing
mod Options
mod Watching
mod Cleaning
