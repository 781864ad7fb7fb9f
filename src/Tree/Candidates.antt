-- ===== src/Tree/Candidates.antt =====
-- buildDagV2 of packages/repack/src/dag.ts: its types, the samples that it streams, the plan it tightens,
-- and the bytes that a cold start needs.
use trackerstream.Common.{
  ℕ, ◌+◌, ◌*◌, Bool, false, not, ◌&&◌, ◌||◌, Option, none, some, List, [], ◌∷◌, ◌++◌, ◌==◌,
  if◌then◌else◌, length,
}
use trackerstream.Cdc.{CdcConfig}
use trackerstream.Parse.Bytes.{Format, SampleSlot}
use trackerstream.Fence.{Checkpoint}
use trackerstream.Dag.Store.{Cid, Block, lookup_block, same_cid}
use trackerstream.Dag.Build.{Ipld}
use trackerstream.Tree.Warm.{required_at_zero}
use trackerstream.Tree.Zeroed.{is_packed}
use trackerstream.Tree.Model.{DecodedSample, Plan, TreeStats}
use trackerstream.Tree.Streamed.{dump_of}

pub record SampleV2 : Type 0 where
  pub index : ℕ
  pub frames : ℕ
  pub channels : ℕ
  pub bit_depth : ℕ
  pub chunks : List Cid

pub record IndexV2 : Type 0 where
  pub samples : List SampleV2
  pub plan : Plan

pub record ManifestV2 : Type 0 where
  pub v : ℕ
  pub format : Format
  pub cdc : CdcConfig
  pub skeleton_chunks : List Cid
  pub skeleton_layout : List ℕ
  pub index : Option IndexV2
  pub index_root : Option Cid

pub record BuiltV2 : Type 0 where
  pub root : Cid
  pub manifest : ManifestV2
  pub blocks : List Block
  pub stats : TreeStats

-- The packages multiformats and @ipld/dag-cbor, as far as this version uses them.
pub record NormalIpld : Type 0 where
  pub base : Ipld
  pub encode_manifest : ManifestV2 → List ℕ
  pub decode_manifest : List ℕ → Option ManifestV2
  pub encode_index : IndexV2 → List ℕ
  pub decode_index : List ℕ → Option IndexV2

-- A slot whose length is that of its decoded sample.
pub record Candidate : Type 0 where
  pub slot : SampleSlot
  pub dump : DecodedSample

unfoldable pub candidates_of : List DecodedSample → List SampleSlot → List Candidate
candidates_of decoded [] = []
candidates_of decoded (s ∷ ss) =
    let rest = candidates_of decoded ss in
    elim (dump_of decoded s.index none) [
      | none ↦ rest
      | some dump ↦
          if length dump.pcm == 0 || not (length dump.pcm == s.length)
          then rest
          else record { slot = s; dump = dump } ∷ rest
    ]

unfoldable pub candidate_slots : List Candidate → List SampleSlot
candidate_slots [] = []
candidate_slots (c ∷ cs) = c.slot ∷ candidate_slots cs

unfoldable pub has_index : ℕ → List ℕ → Bool
has_index i [] = false
has_index i (s ∷ ss) = s == i || has_index i ss

-- `covered.has(index)`
unfoldable pub planned : ℕ → List Checkpoint → Bool
planned i [] = false
planned i (c ∷ cs) = has_index i c.samples || planned i cs

-- Which candidates are streamed: a compressed one only where the plan gates it.
unfoldable pub streamed_of : Bool → List Checkpoint → List Candidate → List Candidate
streamed_of no_compressed checkpoints [] = []
streamed_of no_compressed checkpoints (c ∷ cs) =
    let rest = streamed_of no_compressed checkpoints cs in
    if not (is_packed c.slot) || (not no_compressed && planned c.slot.index checkpoints)
    then c ∷ rest
    else rest

unfoldable pub indices : List Candidate → List ℕ
indices [] = []
indices (c ∷ cs) = c.slot.index ∷ indices cs

unfoldable pub only : List ℕ → List ℕ → List ℕ
only streamed [] = []
only streamed (i ∷ is) =
    let rest = only streamed is in if has_index i streamed then i ∷ rest else rest

-- The plan that names streamed slots alone; a checkpoint that has none is dropped.
unfoldable pub tighten : List ℕ → List Checkpoint → List Checkpoint
tighten streamed [] = []
tighten streamed (c ∷ cs) =
    let rest = tighten streamed cs in
    elim (only streamed c.samples) [
      | [] ↦ rest
      | i ∷ is ↦ record { order = c.order; samples = i ∷ is } ∷ rest
    ]

pub dump_bytes : List Candidate → ℕ
dump_bytes [] = 0
dump_bytes (c ∷ cs) = length c.dump.pcm + dump_bytes cs

-- `byIndex.get(ix)?.chunks ?? []`; of several samples with one index the last.
pub chunks_of : ℕ → List SampleV2 → List Cid → List Cid
chunks_of i [] found = found
chunks_of i (s ∷ ss) found = chunks_of i ss (if s.index == i then s.chunks else found)

pub add_cids : List Cid → List Cid → List Cid
add_cids [] seen = seen
add_cids (c ∷ cs) seen = add_cids cs (if known c seen then seen else seen ++ (c ∷ []))
  where
    known : Cid → List Cid → Bool
    known c [] = false
    known c (d ∷ ds) = same_cid d c || known c ds

pub add_required : List ℕ → List SampleV2 → List Cid → List Cid
add_required [] samples seen = seen
add_required (i ∷ is) samples seen =
    add_required is samples (add_cids (chunks_of i samples []) seen)

pub sum_bytes : List Cid → List Block → ℕ
sum_bytes [] blocks = 0
sum_bytes (c ∷ cs) blocks =
    let rest = sum_bytes cs blocks in
    elim (lookup_block blocks c) [ none ↦ rest | some bytes ↦ length bytes + rest ]

-- The bytes of the structure and of the samples that the start needs, each block once.
pub warm_bytes : List Cid → List Checkpoint → List SampleV2 → List Block → ℕ
warm_bytes structure checkpoints samples blocks =
    sum_bytes (add_required (required_at_zero checkpoints) samples (add_cids structure [])) blocks

-- COMPRESSED_STREAM_MIN_SAVING
abbrev pub compressed_stream_min_saving : ℕ
compressed_stream_min_saving = 128 * 1024
