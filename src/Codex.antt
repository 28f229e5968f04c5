-- ===== src/Codex.antt =====
-- internal/codex: parser.go, the stream of events that the native executable writes and the structured
-- result in it; review_evidence.go, the check of a review; patch.go, the changes between two snapshots.
pub mod Fields
pub mod Runes
pub mod Paths
pub mod Relative
pub mod Mirror
pub mod Failure
pub mod Usage
pub mod Evidence
pub mod Finding
pub mod Coverage
pub mod Structured
pub mod Events
pub mod Stream
pub mod Review
pub mod Patch
pub mod Sound
pub mod Accepted
pub mod Results
pub mod Nulls
