-- ===== src/Tree/Normal.antt =====
-- buildDagV2 of packages/repack/src/dag.ts, with the gate that builds once more without compressed
-- samples where streaming them saves too little.
use trackerstream.Common.{
  ℕ, zero, suc, ◌+◌, ◌-◌, Bool, true, false, not, ◌&&◌, Option, none, some, List, [], ◌∷◌, ltb,
  if◌then◌else◌, length,
}
use trackerstream.Common.Result.{Result, ok, err, ◌>>=◌, or_throw}
use trackerstream.Cdc.{CdcConfig}
use trackerstream.Parse.Bytes.{Format}
use trackerstream.Parse.Select.{ParsedSlots, sample_slots}
use trackerstream.Dag.Store.{
  Fault, unparseable, endless, Cid, Block, dag_cbor_code, add_block, make_block,
}
use trackerstream.Dag.Build.{SeekOffsets, Draft, chunk_to_cids}
use trackerstream.Tree.Spans.{merge_spans}
use trackerstream.Tree.Recipe.{add_recipe}
use trackerstream.Tree.Zeroed.{build_skeleton_v2}
use trackerstream.Tree.Model.{DecodedSample, Plan, TreeStats}
use trackerstream.Tree.Streamed.{make_plan, any_packed}
use trackerstream.Tree.Build.{index_spill_bytes}
use trackerstream.Tree.Candidates.{
  BuiltV2, Candidate, IndexV2, ManifestV2, NormalIpld, SampleV2, candidate_slots, candidates_of,
  compressed_stream_min_saving, dump_bytes, indices, streamed_of, tighten, warm_bytes,
}

-- What a build has before its index: the sample table, the plan, the recipe and the blocks.
pub record Prepared : Type 0 where
  pub streamed : List Candidate
  pub samples : List SampleV2
  pub plan : Plan
  pub skeleton : List ℕ
  pub skeleton_chunks : List Cid
  pub skeleton_layout : List ℕ
  pub draft : Draft

module _ (T : NormalIpld) where
  unfoldable pub add_table :
      CdcConfig → List Candidate → Draft → Result Fault (List SampleV2 × Draft)
  add_table cdc [] d = ok ([], d)
  add_table cdc (c ∷ cs) d = do
    (chunks, d') ← chunk_to_cids T.base cdc c.dump.pcm d
    (samples, d'') ← add_table cdc cs d'
    ok (
      record {
        index = c.slot.index;
        frames = c.dump.frames;
        channels = c.slot.channels;
        bit_depth = c.slot.bit_depth;
        chunks = chunks;
      }
          ∷ samples,
      d'',
    )

  unfoldable pub end_v2 : ManifestV2 → TreeStats → List Block → Bool → BuiltV2
  end_v2 manifest stats blocks spilled =
      let root = make_block T.base.sha256 dag_cbor_code (T.encode_manifest manifest) in
      let all = add_block root blocks in
      record {
        root = root.cid;
        manifest = manifest;
        blocks = all;
        stats = record stats {
          unique_chunks = length all;
          manifest_bytes = length root.bytes;
          spilled = spilled;
        };
      }

  -- The index in the manifest, or in a block of its own where that is too long.
  unfoldable pub finish_v2 : ManifestV2 → IndexV2 → TreeStats → List Block → BuiltV2
  finish_v2 plain index stats blocks =
      let whole = record plain { index = some index } in
      let first = make_block T.base.sha256 dag_cbor_code (T.encode_manifest whole) in
      let index_block = make_block T.base.sha256 dag_cbor_code (T.encode_index index) in
      if ltb index_spill_bytes (length first.bytes)
      then end_v2 (record plain { index_root = some index_block.cid }) stats
          (add_block index_block blocks) true
      else end_v2 whole stats blocks false

  module _ (compute_seek_tables : List ℕ → Format → Option SeekOffsets) (cdc : CdcConfig)
      (file : List ℕ) (decoded : List DecodedSample) (parsed : ParsedSlots) where
    -- buildDagV2 up to the gate, for a value of `noCompressedStream`.
    unfoldable pub prepare : Bool → Result Fault Prepared
    prepare no_compressed = do
      let candidates = candidates_of decoded parsed.slots
      let full = make_plan (candidate_slots candidates) (compute_seek_tables file parsed.format)
      let streamed = streamed_of no_compressed full.checkpoints candidates
      (samples, d) ← add_table cdc streamed (record { blocks = []; num_chunks = 0 })
      let (skeleton, zero_spans) = build_skeleton_v2 file (candidate_slots streamed)
      ((chunks, layout), d') ←
          add_recipe T.base cdc skeleton (merge_spans zero_spans (length skeleton)) 0 d
      ok (record {
        streamed = streamed;
        samples = samples;
        plan = record full { checkpoints = tighten (indices streamed) full.checkpoints };
        skeleton = skeleton;
        skeleton_chunks = chunks;
        skeleton_layout = layout;
        draft = d';
      })

    -- Streaming compressed samples saves too little.
    unfoldable pub saves_little : Prepared → Bool
    saves_little p =
        any_packed (candidate_slots p.streamed)
        && ltb (length file) (
            warm_bytes p.skeleton_chunks p.plan.checkpoints p.samples p.draft.blocks
            + compressed_stream_min_saving)

    unfoldable pub finish_prepared : Prepared → BuiltV2
    finish_prepared p =
        finish_v2
          (record {
            v = 2;
            format = parsed.format;
            cdc = cdc;
            skeleton_chunks = p.skeleton_chunks;
            skeleton_layout = p.skeleton_layout;
            index = none;
            index_root = none;
          })
          (record { samples = p.samples; plan = p.plan })
          (record {
            format = parsed.format;
            skeleton_bytes = length p.skeleton;
            streamed_samples = length p.streamed;
            resident_samples = length parsed.slots - length p.streamed;
            sample_bytes = dump_bytes p.streamed;
            num_chunks = p.draft.num_chunks;
            unique_chunks = 0;
            manifest_bytes = 0;
            spilled = false;
          })
          p.draft.blocks

  module _ (compute_seek_tables : List ℕ → Format → Option SeekOffsets) (file : List ℕ)
      (decoded : List DecodedSample) (cdc : CdcConfig) where
    -- buildDagV2 for a value of `noCompressedStream`, on a number of calls; `endless` beyond them.
    unfoldable pub build_calls : ℕ → Bool → Result Fault BuiltV2
    build_calls zero no_compressed = err endless
    build_calls (suc calls) no_compressed = do
      parsed ← or_throw (sample_slots file none) unparseable
      p ← prepare compute_seek_tables cdc file decoded parsed no_compressed
      let again = build_calls calls true
      if not no_compressed && saves_little compute_seek_tables cdc file decoded parsed p
          then again
          else ok (finish_prepared compute_seek_tables cdc file decoded parsed p)

    -- The call itself, and one that its gate asks for.
    abbrev pub build_dag_v2 : Bool → Result Fault BuiltV2
    build_dag_v2 no_compressed = build_calls 2 no_compressed
