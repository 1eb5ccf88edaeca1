-- ===== src/Hashab/Tables.antt =====
-- src/crypto/hashab/tables.rs
pub mod Stage1
pub mod Stage2
pub mod Bytes
pub mod Seeds
