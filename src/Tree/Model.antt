-- ===== src/Tree/Model.antt =====
-- The data of versions 3 and 4 in packages/repack/src/dag.ts. The two versions are the same statements
-- but for the bytes that a sample's leaves hold: here that part is `Leaves`. A sample of version 3 has no
-- `encCodec`; it stands as raw.
use trackerstream.Common.{ℕ, Bool, Option, List, ltb, ◌==◌, if◌then◌else◌, length}
use trackerstream.Cdc.{CdcConfig}
use trackerstream.Parse.Bytes.{Format}
use trackerstream.Fence.{Checkpoint}
use trackerstream.Dag.Store.{Cid, Block}
use trackerstream.Dag.Build.{OrderSeconds, Ipld}

-- A sample as libopenmpt decoded it.
pub record DecodedSample : Type 0 where
  pub index : ℕ
  pub frames : ℕ
  pub pcm : List ℕ

pub record Plan : Type 0 where
  pub order_seconds : List OrderSeconds
  pub checkpoints : List Checkpoint

pub record StreamSample : Type 0 where
  pub index : ℕ
  pub frames : ℕ
  pub channels : ℕ
  pub bit_depth : ℕ
  pub chunks : List Cid
  pub offset : ℕ
  pub enc : ℕ
  pub enc_codec : ℕ

pub record TreeIndex : Type 0 where
  pub samples : List StreamSample
  pub plan : Plan

pub record TreeManifest : Type 0 where
  pub v : ℕ
  pub format : Format
  pub cdc : CdcConfig
  pub original_length : ℕ
  pub skeleton_chunks : List Cid
  pub skeleton_layout : List ℕ
  pub index : Option TreeIndex
  pub index_root : Option Cid

pub record TreeStats : Type 0 where
  pub format : Format
  pub skeleton_bytes : ℕ
  pub streamed_samples : ℕ
  pub resident_samples : ℕ
  pub sample_bytes : ℕ
  pub num_chunks : ℕ
  pub unique_chunks : ℕ
  pub manifest_bytes : ℕ
  pub spilled : Bool

pub record BuiltTree : Type 0 where
  pub root : Cid
  pub manifest : TreeManifest
  pub blocks : List Block
  pub stats : TreeStats

-- The packages multiformats and @ipld/dag-cbor, as far as these versions use them.
pub record TreeIpld : Type 0 where
  pub base : Ipld
  pub encode_manifest : TreeManifest → List ℕ
  pub decode_manifest : List ℕ → Option TreeManifest
  pub encode_index : TreeIndex → List ℕ
  pub decode_index : List ℕ → Option TreeIndex

-- flacEncode and flacDecode of flac.ts, calls of a WebAssembly library; the channels and the bit depth
-- come behind the bytes.
pub record Flac : Type 0 where
  pub encode : List ℕ → ℕ → ℕ → List ℕ
  pub decode : List ℕ → ℕ → ℕ → List ℕ

-- The version, the leaves' bytes and `encCodec` for a sample's channels, bit depth and PCM, and back.
pub record Leaves : Type 0 where
  pub version : ℕ
  pub pack : ℕ → ℕ → List ℕ → List ℕ × ℕ
  pub unpack : ℕ → ℕ → ℕ → List ℕ → List ℕ

unfoldable pub raw_leaves : Leaves
raw_leaves = record {
  version = 3;
  pack = λ channels bit_depth pcm. (pcm, 0);
  unpack = λ codec channels bit_depth leaves. leaves;
}

-- The gate of buildDagV4, and decodeV4Sample.
unfoldable pub flac_leaves : Flac → Leaves
flac_leaves flac = record {
  version = 4;
  pack = λ channels bit_depth pcm.
      (let packed = flac.encode pcm channels bit_depth in
        if ltb (length packed) (length pcm) then (packed, 1) else (pcm, 0));
  unpack = λ codec channels bit_depth leaves.
      (if codec == 1 then flac.decode leaves channels bit_depth else leaves);
}
