-- ===== src/Dag/Build.antt =====
-- The v1 build of packages/repack/src/dag.ts: buildSkeleton, buildFromRegions, buildDag, buildFlatDag.
use trackerstream.Common.{
  ℕ, ◌+◌, ◌-◌, not, Option, none, some, List, [], ◌∷◌, ◌++◌, ltb, ◌==◌, if◌then◌else◌, length, take,
  drop, replicate,
}
use trackerstream.Common.Int.{ℤ, sub_ℕ}
use trackerstream.Common.Result.{Result, ok, err, ◌>>=◌, ◌>>◌, guard, or_throw}
use trackerstream.Cdc.{CdcConfig, cdc_chunks}
use trackerstream.Parse.Bytes.{Format, amiga_mod, it, s3m, xm, mptm, mo3, SampleRegion, Text, codes}
use trackerstream.Parse.Select.{sample_regions}
use trackerstream.Dag.Store.{
  Fault, out_of_range, unparseable, endless, Cid, Block, dag_cbor_code, add_block, make_block,
  raw_block,
}

-- `b.subarray(start, end)` for offsets that are not negative.
abbrev pub subarray : List ℕ → ℕ → ℕ → List ℕ
subarray b start end = take (end - start) (drop start b)

-- `out.set(part, w)`, which throws a RangeError where the part does not fit.
unfoldable pub set_range : List ℕ → List ℕ → ℕ → Result Fault (List ℕ)
set_range out part w =
    if ltb (length out) (w + length part)
    then err out_of_range
    else ok (take w out ++ (part ++ drop (w + length part) out))

pub record SampleEntry : Type 0 where
  pub offset : ℕ
  pub length : ℕ
  pub pcm_root : Cid

pub record PcmRoot : Type 0 where
  pub chunks : List Cid
  pub length : ℕ

-- A number of seconds is a float; it is only copied, so it stands here as its bit pattern.
pub record OrderSeconds : Type 0 where
  pub order : ℕ
  pub seconds : ℕ

pub record Checkpoint : Type 0 where
  pub order : ℕ
  pub samples : List ℕ

pub record SeekTable : Type 0 where
  pub order_seconds : List OrderSeconds
  pub checkpoints : List Checkpoint

pub record Manifest : Type 0 where
  pub v : ℕ
  pub format : Text
  pub original_length : ℕ
  pub cdc : CdcConfig
  pub skeleton_chunks : List Cid
  pub samples : List SampleEntry
  pub segment0 : Option (List ℕ)
  pub seek : Option SeekTable

-- What computeSeekTables finds, by sample offsets.
pub record SeekOffsets : Type 0 where
  pub segment0_offsets : List ℕ
  pub order_seconds : List OrderSeconds
  pub resident_offsets : List Checkpoint

-- The packages multiformats and @ipld/dag-cbor, as far as the build uses them.
pub record Ipld : Type 0 where
  pub sha256 : List ℕ → List ℕ
  pub encode_manifest : Manifest → List ℕ
  pub decode_manifest : List ℕ → Option Manifest
  pub encode_pcm_root : PcmRoot → List ℕ
  pub decode_pcm_root : List ℕ → Option PcmRoot

-- The state of a build: the map `byCid` and the count of chunks.
pub record Draft : Type 0 where
  pub blocks : List Block
  pub num_chunks : ℕ

pub record Stats : Type 0 where
  pub original_length : ℕ
  pub skeleton_bytes : ℕ
  pub sample_bytes : ℕ
  pub num_samples : ℕ
  pub num_chunks : ℕ
  pub unique_chunks : ℤ
  pub manifest_bytes : ℕ

pub record BuiltDag : Type 0 where
  pub root : Cid
  pub manifest : Manifest
  pub blocks : List Block
  pub stats : Stats

unfoldable pub total_length : List SampleRegion → ℕ
total_length [] = 0
total_length (r ∷ rs) = r.length + total_length rs

-- The loop of buildSkeleton over the regions, and the tail after it.
unfoldable pub fill_skeleton : List ℕ → List SampleRegion → List ℕ → ℕ → ℕ → Result Fault (List ℕ)
fill_skeleton file [] skel w prev_end = set_range skel (subarray file prev_end (length file)) w
fill_skeleton file (r ∷ rs) skel w prev_end = do
  let gap = subarray file prev_end r.offset
  skel' ← set_range skel gap w
  fill_skeleton file rs skel' (w + length gap) (r.offset + r.length)

-- A negative array length throws.
unfoldable pub build_skeleton : List ℕ → List SampleRegion → Result Fault (List ℕ)
build_skeleton file regions = do
  guard (not (ltb (length file) (total_length regions))) out_of_range
  fill_skeleton file regions (replicate (length file - total_length regions) 0) 0 0

-- The entry of `idxByOffset` for an offset: the last sample that begins there.
unfoldable pub index_of_offset : ℕ → List SampleEntry → ℕ → Option ℕ → Option ℕ
index_of_offset i [] o found = found
index_of_offset i (s ∷ ss) o found =
    index_of_offset (i + 1) ss o (if s.offset == o then some i else found)

unfoldable pub to_idx : List SampleEntry → List ℕ → List ℕ
to_idx samples [] = []
to_idx samples (o ∷ offs) =
    let rest = to_idx samples offs in
    elim (index_of_offset 0 samples o none) [ none ↦ rest | some i ↦ i ∷ rest ]

unfoldable pub to_checkpoints : List SampleEntry → List Checkpoint → List Checkpoint
to_checkpoints samples [] = []
to_checkpoints samples (c ∷ cs) =
    let rest = to_checkpoints samples cs in
    elim (to_idx samples c.samples) [
      | [] ↦ rest
      | i ∷ is ↦ record { order = c.order; samples = i ∷ is } ∷ rest
    ]

-- The block `if (regions.length)`: the optional tables of the manifest.
unfoldable pub bake_seek : Manifest → Option SeekOffsets → Manifest
bake_seek m none = m
bake_seek m (some t) = record m {
  segment0 = elim (to_idx m.samples t.segment0_offsets) [ [] ↦ none | i ∷ is ↦ some (i ∷ is) ];
  seek = elim (to_checkpoints m.samples t.resident_offsets) [
    | [] ↦ none
    | c ∷ cs ↦ some (record { order_seconds = t.order_seconds; checkpoints = c ∷ cs })
  ];
}

module _ (I : Ipld) where
  -- The loop of chunkToCids over the chunks.
  unfoldable pub add_chunks : List (List ℕ) → Draft → List Cid × Draft
  add_chunks [] d = ([], d)
  add_chunks (c ∷ cs) d =
      let b = raw_block I.sha256 c in
      let (cids, d') =
        add_chunks cs (record { blocks = add_block b d.blocks; num_chunks = d.num_chunks + 1 }) in
      (b.cid ∷ cids, d')

  unfoldable pub chunk_to_cids : CdcConfig → List ℕ → Draft → Result Fault (List Cid × Draft)
  chunk_to_cids cdc buf d = do
    chunks ← or_throw (cdc_chunks cdc buf) endless
    ok (add_chunks chunks d)

  -- The loop over the regions: the sample table.
  unfoldable pub add_samples :
      CdcConfig → List ℕ → List SampleRegion → Draft → Result Fault (List SampleEntry × Draft)
  add_samples cdc file [] d = ok ([], d)
  add_samples cdc file (r ∷ rs) d = do
    (chunks, d') ← chunk_to_cids cdc (subarray file r.offset (r.offset + r.length)) d
    let root =
        make_block I.sha256 dag_cbor_code
          (I.encode_pcm_root (record { chunks = chunks; length = r.length }))
    (samples, d'') ← add_samples cdc file rs (record d' { blocks = add_block root d'.blocks })
    ok (record { offset = r.offset; length = r.length; pcm_root = root.cid } ∷ samples, d'')

  -- The end of buildFromRegions: the manifest with its tables, its block, and the result.
  unfoldable pub finish_dag :
      List ℕ
      → Text
      → List SampleRegion
      → CdcConfig
      → Option SeekOffsets
      → List SampleEntry
      → List ℕ
      → List Cid
      → Draft
      → BuiltDag
  finish_dag file format regions cdc tables samples skeleton skeleton_chunks d =
      let plain : Manifest = record {
        v = 1;
        format = format;
        original_length = length file;
        cdc = cdc;
        skeleton_chunks = skeleton_chunks;
        samples = samples;
        segment0 = none;
        seek = none;
      } in
      let manifest = bake_seek plain (elim regions [ [] ↦ none | _ ↦ tables ]) in
      let manifest_block = make_block I.sha256 dag_cbor_code (I.encode_manifest manifest) in
      let blocks = add_block manifest_block d.blocks in
      record {
        root = manifest_block.cid;
        manifest = manifest;
        blocks = blocks;
        stats = record {
          original_length = length file;
          skeleton_bytes = length skeleton;
          sample_bytes = total_length regions;
          num_samples = length regions;
          num_chunks = d.num_chunks;
          unique_chunks = sub_ℕ (length blocks) (length samples + 1);
          manifest_bytes = length manifest_block.bytes;
        };
      }

  -- `compute_seek_tables` is computeSeekTables of seek.ts; the build is stated for any such function.
  module _ (compute_seek_tables : List ℕ → Text → Option SeekOffsets) where
    unfoldable pub build_from_regions :
        List ℕ → Text → List SampleRegion → CdcConfig → Result Fault BuiltDag
    build_from_regions file format regions cdc = do
      (samples, d) ← add_samples cdc file regions (record { blocks = []; num_chunks = 0 })
      skeleton ← build_skeleton file regions
      (skeleton_chunks, d') ← chunk_to_cids cdc skeleton d
      ok (
          finish_dag file format regions cdc (compute_seek_tables file format) samples skeleton
            skeleton_chunks d')

    format_name : Format → Text
    format_name amiga_mod = codes "mod"
    format_name it = codes "it"
    format_name s3m = codes "s3m"
    format_name xm = codes "xm"
    format_name mptm = codes "mptm"
    format_name mo3 = codes "mo3"

    unfoldable pub build_dag : List ℕ → CdcConfig → Result Fault BuiltDag
    unfolding format_name
    build_dag file cdc = do
      parsed ← or_throw (sample_regions file none) unparseable
      build_from_regions file (format_name parsed.format) parsed.regions cdc

    unfoldable pub build_flat_dag : List ℕ → Text → CdcConfig → Result Fault BuiltDag
    build_flat_dag file format cdc = build_from_regions file format [] cdc
