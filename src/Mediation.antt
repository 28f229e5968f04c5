-- ===== src/Mediation.antt =====
-- internal/codex/mediation.go: one attempt's fence, ordering and budget of repository commands.
-- The mutex makes each request one step. What the JSON decoder reads is an argument, `decode`.
pub mod Requests
pub mod Encoding
pub mod Handle
pub mod History
pub mod Once
pub mod Answers
