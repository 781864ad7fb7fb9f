-- ===== src/Tree.antt =====
-- The later versions of packages/repack/src/dag.ts: the zero runs of a skeleton and the warm set.
pub mod Spans
pub mod Warm
pub mod Recipe
pub mod Enc
pub mod Zeroed
mod Runs
pub mod Model
pub mod Streamed
pub mod Build
pub mod Reassemble
mod Written
mod Restored
pub mod RoundTrip
mod Restore
pub mod Versions
pub mod Candidates
pub mod Normal
pub mod Fetch
pub mod Finish
pub mod Fetched
pub mod Total
pub mod Gated
mod Tests
pub mod Gate
