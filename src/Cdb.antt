-- ===== src/Cdb.antt =====
-- src/storage/binary/cdb.rs and cdb_edit.rs: the chunks of an iTunesCDB payload.
pub mod Chunk
pub mod Split
pub mod Hashab
pub mod Inspect
pub mod Index
pub mod Header
pub mod Tracks
pub mod Positions
pub mod Playlists
pub mod Removal
pub mod Addition
