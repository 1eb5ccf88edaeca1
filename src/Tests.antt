-- ===== src/Tests.antt =====
-- Concrete chunks, and the theorems applied to them.
pub mod Data
pub mod Fields
pub mod Indexes
pub mod Tracks
pub mod Payloads
pub mod Paths
pub mod Checksums
pub mod Playlists
pub mod Signatures
pub mod Removal
pub mod Refused
pub mod Classic
pub mod Vectors
pub mod Commits
pub mod Additions
