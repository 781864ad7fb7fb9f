-- ===== src/Dag.antt =====
-- packages/repack/src/dag.ts: a module file as a content-addressed DAG of blocks, and back (v1).
pub mod Store
pub mod Build
pub mod Reassemble
pub mod Buffer
pub mod Skeleton
pub mod Holds
pub mod Stored
pub mod Rebuild
pub mod RoundTrip
pub mod Integrity
pub mod Tamper
pub mod Prefetch
pub mod Pool
pub mod Prefetched
pub mod PoolEnds
