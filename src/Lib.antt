-- ===== src/Lib.antt =====
-- A verification library for packages/repack, where a tracker module file becomes a content-addressed
-- DAG of blocks and comes back byte by byte, for the fence of packages/ui that gates playback, and for
-- the messages of packages/playlists-web, by which peers exchange playlists.
--
-- The parts, and how they work together:
--   * cdc.ts cuts a byte buffer where a rolling hash meets a mask (cdcChunks).
--   * parse.ts finds the sample data in a module file: per format, regions for the v1 DAG
--     (sampleRegions) and slots with their layout for the later versions (sampleSlots).
--   * packages/ui's audio/fence.ts holds playback until the samples that an order needs have arrived.
--   * packages/playlists-web frames a playlist for the gossip (wire.ts) and for a link (link.ts), says
--     which playlists a peer holds (beacon.ts), and guards what a peer asks for (playlistlist.ts).
--   * dag.ts takes the file apart: buildDag and buildFlatDag split it by sampleRegions, chunk each
--     sample and the rest (the skeleton) with cdcChunks, and store the pieces under their hashes;
--     reassemble fetches, verifies and writes them back in place. buildDagV3 and buildDagV4 store the
--     decoded samples instead, with the mask that applyEnc needs to make the bytes on disk of them, and
--     the file with those bytes zeroed; buildDagV2 does so for a player, with no way back to the file, and
--     fetchV2 is its client; reassembleV3 and reassembleV4 write the samples over it.
--
-- Files:
--   * Common: numbers' tests, lists over the native numbers, integers, and results for code that throws.
--   * Cdc models packages/repack/src/cdc.ts; Cdc/Tiling and Cdc/Resync prove about it.
--   * Parse/Bytes, Regions, Slots, Xm and Select model packages/repack/src/parse.ts: the byte readers,
--     the locators extractMOD to extractS3M, the slot locators, the two locators of XM files, and
--     detectFormat, sampleRegions and sampleSlots. Parse/Pieces, Between,
--     Numbering and OnDisk hold the lemmas, Parse/Partition, Agree and Kept the theorems.
--   * Dag/Store, Build and Reassemble model the v1 half of packages/repack/src/dag.ts: rawBlock,
--     cborBlock, verifyBlock and fetchVerified; buildSkeleton, buildFromRegions, buildDag and
--     buildFlatDag; reassemble and allCids. Dag/Buffer, Skeleton, Holds, Stored and Rebuild hold the
--     lemmas, Dag/RoundTrip, Integrity and Tamper the theorems. Dag/Prefetch models prefetch, a pool of
--     concurrent fetches, as events that a state allows: a worker takes a CID, a fetch arrives. Dag/Pool
--     holds the lemmas, Dag/Prefetched and PoolEnds the theorems.
--   * Fence models packages/ui/src/audio/fence.ts, the class Fence with a record for its state: the
--     constructor is new_fence, the setters return the next state. Fence/Floor, Window, Ready,
--     Playable and Seconds prove about it, Fence/Tests runs it.
--   * Tree models the later versions in packages/repack/src/dag.ts. Tree/Spans, Warm, Recipe, Enc and
--     Zeroed: mergeSpans, requiredAtZero, the block of the builds that splits a skeleton at its zero runs
--     with assembleSkeletonV2, applyEnc with pickEnc, and buildSkeletonV2. Tree/Model, Streamed, Build and
--     Reassemble: buildDagV3, buildDagV4, reassembleV3 and reassembleV4, which are one function each over
--     `Leaves`, the bytes that a sample's chunks hold. Tree/Runs, Written, Restored, RoundTrip and Restore
--     hold the lemmas, Tree/Versions the theorems. Tree/Candidates and Normal model
--     buildDagV2, Tree/Fetch fetchV2. Tree/Finish, Total, Fetched, Gated and Gate prove about it.
--   * Playlists/Varint and Wire model packages/playlists-web/src/wire.ts, Link and Url link.ts, Beacon and
--     Ledger beacon.ts, Cooldown the class ReannounceCooldown of playlistlist.ts; Recent is the bounded
--     table of the last two. Each of Varint, Link, Ledger, Cooldown and Recent proves about what it
--     models; Envelope, Strip, Fragment, Share, Hashes, Heard and Distinct hold the other lemmas and theorems.
--   * Tests runs the theorems at concrete inputs.
--
-- Correspondence: a Uint8Array is the list of its bytes, a number of the source that is never
-- negative a natural number, null and undefined are `none`, an exception is `err`. A loop that
-- mutates `out`, `w` and `prevEnd` is a function that takes and returns them. The map `byCid` is its list of
-- entries in insertion order. Promises are awaited one after the other in the code modelled, so a
-- call that awaits is a plain call; in prefetch alone several are under way, and there the order is any. Where extractMOD pushes a region of a negative length, the length
-- here is 0: sampleRegions drops both.
--
-- Fuel: the chunker's outer loop gets as many rounds as the buffer has bytes, which is enough because
-- each chunk takes a byte at least when `min < max`; Math.log2 gets 53 halvings, enough for every
-- number a double holds exactly; the block scan of itCompressedSpan gets one round for each
-- frame; the binary search of floorIdx gets one for each checkpoint, since each round drops one at least; buildDagV2,
-- which calls itself where its gate asks for it, gets two calls, since the second passes the gate; a length of 32 bits is written in five
-- bytes, and read in as many rounds as the source allows, or as there are bytes ahead.
--
-- Parameters: the SHA-256 of multiformats and the dag-cbor codec are `Ipld`, and `IpldLaws` is what
-- is asked of them: the codec decodes what it encoded, and the hash has no collision; `TreeIpld` and
-- `TreeLaws` are the same for the later versions' blocks. The FLAC library of flac.ts is `Flac`, asked to
-- be lossless on whole frames. The seek tables
-- of seek.ts are any function's result; they are copied into the manifest.
--
-- TextEncoder and TextDecoder are `TextCodec`, btoa and atob `Base64` with the laws `Base64Laws`: the
-- padding is at most two signs up to a multiple of four, and atob gives the bytes back. The number of
-- arguments that a call of the engine takes is the parameter `limit`: in link.ts a spread of more bytes
-- throws a RangeError. Spread lists of CIDs in dag.ts are taken to be within it.
--
-- Not modelled: seek.ts, the FLAC library and the Kubo client of packages/repack; validatePlaylistMsg, the
-- JSON codecs, PeerRateLimiter (its tokens are floating point) and the network loop of
-- packages/playlists-web; and the rest of the packages and apps, which drive a browser, a network, a file system or a database.
pub mod Common
pub mod Cdc
pub mod Parse
pub mod Dag
pub mod Fence
pub mod Tree
pub mod Playlists
mod Tests
