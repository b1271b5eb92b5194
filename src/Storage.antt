-- ===== src/Storage.antt =====
-- src/storage: what a Raft node keeps on disk, and how it is laid out in bytes.
pub mod Codec
pub mod Redb
pub mod Simple
pub mod Reference
mod Tests
