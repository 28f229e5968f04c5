-- ===== src/Archive.antt =====
-- internal/workspace/tar.go: the extraction of a source archive into a directory.
pub mod Text
pub mod Header
pub mod Extension
pub mod Extract
pub mod Induction
pub mod Segments
pub mod Below
pub mod Limits
pub mod Fuel
pub mod Ends
