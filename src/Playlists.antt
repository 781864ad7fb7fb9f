-- ===== src/Playlists.antt =====
-- The messages of packages/playlists-web: their frames, links, beacons and guards.
pub mod Varint
pub mod Wire
pub mod Envelope
pub mod Link
pub mod Url
pub mod Strip
pub mod Fragment
pub mod Share
pub mod Recent
pub mod Distinct
pub mod Cooldown
pub mod Beacon
pub mod Hashes
pub mod Ledger
pub mod Heard
