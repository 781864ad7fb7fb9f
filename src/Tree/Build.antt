-- ===== src/Tree/Build.antt =====
-- buildDagV3 and buildDagV4 of packages/repack/src/dag.ts.
use trackerstream.Common.{
  ℕ, ◌-◌, ◌*◌, not, Bool, true, false, Option, none, some, List, [], ◌∷◌, ltb, if◌then◌else◌,
  length,
}
use trackerstream.Common.Result.{Result, ok, ◌>>=◌, ◌>>◌, guard, or_throw}
use trackerstream.Cdc.{CdcConfig}
use trackerstream.Parse.Bytes.{Format, SampleSlot}
use trackerstream.Parse.Select.{sample_slots}
use trackerstream.Dag.Store.{
  Fault, unparseable, has_compressed, Block, dag_cbor_code, add_block, make_block,
}
use trackerstream.Dag.Build.{SeekOffsets, Draft, chunk_to_cids}
use trackerstream.Tree.Spans.{merge_spans}
use trackerstream.Tree.Recipe.{add_recipe}
use trackerstream.Tree.Zeroed.{build_skeleton_v2}
use trackerstream.Tree.Model.{
  BuiltTree, DecodedSample, Flac, Leaves, StreamSample, TreeIndex, TreeIpld, TreeManifest,
  TreeStats, flac_leaves, raw_leaves,
}
use trackerstream.Tree.Streamed.{
  Streamed, any_packed, make_plan, pcm_bytes, slots_of, streamed_slots,
}

-- INDEX_SPILL_BYTES
abbrev pub index_spill_bytes : ℕ
index_spill_bytes = 256 * 1024

module _ (T : TreeIpld) where
  -- The loop over the streamed slots: the sample table.
  unfoldable pub add_streamed :
      Leaves → CdcConfig → List Streamed → Draft → Result Fault (List StreamSample × Draft)
  add_streamed leaves cdc [] d = ok ([], d)
  add_streamed leaves cdc (st ∷ sts) d = do
    let (bytes, codec) = leaves.pack st.slot.channels st.slot.bit_depth st.dump.pcm
    (chunks, d') ← chunk_to_cids T.base cdc bytes d
    (samples, d'') ← add_streamed leaves cdc sts d'
    ok (
      record {
        index = st.slot.index;
        frames = st.dump.frames;
        channels = st.slot.channels;
        bit_depth = st.slot.bit_depth;
        chunks = chunks;
        offset = st.slot.offset;
        enc = st.enc;
        enc_codec = codec;
      }
          ∷ samples,
      d'',
    )

  -- The manifest's block, and the result.
  unfoldable pub finish_with : TreeManifest → TreeStats → List Block → Bool → BuiltTree
  finish_with manifest stats blocks spilled =
      let root = make_block T.base.sha256 dag_cbor_code (T.encode_manifest manifest) in
      let all = add_block root blocks in
      record {
        root = root.cid;
        manifest = manifest;
        blocks = all;
        stats = record stats {
          unique_chunks = length all;
          manifest_bytes = length root.bytes;
          spilled = spilled;
        };
      }

  -- The end of the build: the index is in the manifest, or in a block of its own where that is too long.
  unfoldable pub finish_tree : TreeManifest → TreeIndex → TreeStats → List Block → BuiltTree
  finish_tree plain index stats blocks =
      let whole = record plain { index = some index } in
      let first = make_block T.base.sha256 dag_cbor_code (T.encode_manifest whole) in
      let index_block = make_block T.base.sha256 dag_cbor_code (T.encode_index index) in
      if ltb index_spill_bytes (length first.bytes)
      then finish_with (record plain { index_root = some index_block.cid }) stats
          (add_block index_block blocks) true
      else finish_with whole stats blocks false

  module _ (compute_seek_tables : List ℕ → Format → Option SeekOffsets) where
    -- buildDagV3 and buildDagV4 behind the test for compressed samples.
    unfoldable pub build_streamed :
        Leaves
        → List ℕ
        → Format
        → List SampleSlot
        → List Streamed
        → CdcConfig
        → Result Fault BuiltTree
    build_streamed leaves file format slots streamed cdc = do
      let plan = make_plan (slots_of streamed) (compute_seek_tables file format)
      (samples, d) ← add_streamed leaves cdc streamed (record { blocks = []; num_chunks = 0 })
      let (skeleton, zero_spans) = build_skeleton_v2 file (slots_of streamed)
      ((chunks, layout), d') ←
          add_recipe T.base cdc skeleton (merge_spans zero_spans (length skeleton)) 0 d
      ok (
          finish_tree
            (record {
              v = leaves.version;
              format = format;
              cdc = cdc;
              original_length = length file;
              skeleton_chunks = chunks;
              skeleton_layout = layout;
              index = none;
              index_root = none;
            })
            (record { samples = samples; plan = plan })
            (record {
              format = format;
              skeleton_bytes = length skeleton;
              streamed_samples = length streamed;
              resident_samples = length slots - length streamed;
              sample_bytes = pcm_bytes streamed;
              num_chunks = d'.num_chunks;
              unique_chunks = 0;
              manifest_bytes = 0;
              spilled = false;
            })
            d'.blocks)

    unfoldable pub build_tree :
        Leaves → List ℕ → List DecodedSample → CdcConfig → Result Fault BuiltTree
    build_tree leaves file decoded cdc = do
      parsed ← or_throw (sample_slots file none) unparseable
      guard (not (any_packed parsed.slots)) has_compressed
      build_streamed leaves file parsed.format parsed.slots
          (streamed_slots file decoded parsed.slots) cdc

    unfoldable pub build_dag_v3 : List ℕ → List DecodedSample → CdcConfig → Result Fault BuiltTree
    build_dag_v3 = build_tree raw_leaves

    unfoldable pub build_dag_v4 :
        Flac → List ℕ → List DecodedSample → CdcConfig → Result Fault BuiltTree
    build_dag_v4 flac = build_tree (flac_leaves flac)
