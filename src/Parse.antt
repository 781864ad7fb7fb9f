-- ===== src/Parse.antt =====
-- packages/repack/src/parse.ts: where the sample data of a module file lies.
pub mod Bytes
pub mod Regions
pub mod Slots
pub mod Xm
pub mod Select
pub mod Pieces
pub mod Partition
pub mod Agree
pub mod Between
pub mod OnDisk
pub mod Numbering
pub mod Kept
