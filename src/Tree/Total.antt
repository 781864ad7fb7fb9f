-- ===== src/Tree/Total.antt =====
-- What comes before the gate of buildDagV2 in packages/repack/src/dag.ts always succeeds.
use trackerstream.Common.{
  ℕ, ◌-◌, ◌<◌, ◌≡◌, refl, Bool, Option, List, [], ◌∷◌, ltb, length, Bool-cases, inl, inr,
}
use trackerstream.Common.Result.{ok}
use trackerstream.Cdc.{CdcConfig}
use trackerstream.Parse.Bytes.{Format}
use trackerstream.Parse.Select.{ParsedSlots}
use trackerstream.Dag.Build.{SeekOffsets, Draft, chunk_to_cids}
use trackerstream.Tree.Spans.{merge_spans}
use trackerstream.Tree.Recipe.{add_recipe}
use trackerstream.Tree.Zeroed.{build_skeleton_v2}
use trackerstream.Tree.Model.{DecodedSample, Plan}
use trackerstream.Tree.Streamed.{make_plan}
use trackerstream.Tree.Candidates.{
  SampleV2, NormalIpld, Candidate, candidates_of, candidate_slots, streamed_of, indices, tighten,
}
use trackerstream.Tree.Normal.{Prepared, add_table, prepare}
use trackerstream.Cdc.Tiling.{cdc_chunks-tile}
use trackerstream.Dag.Build.{Ipld, add_chunks, subarray}
use trackerstream.Dag.Store.{Cid}
use trackerstream.Tree.Recipe.{add_segment}
use trackerstream.Tree.Spans.{Span}
use trackerstream.Common.{◌++◌, drop}

-- Chunking always succeeds, and so does a recipe, whatever its runs.
pub chunk_to_cids-total :
    (I : Ipld) (cdc : CdcConfig) (buf : List ℕ) (d : Draft)
    → cdc.min_size < cdc.max_size
    → (r : List Cid × Draft) × (chunk_to_cids I cdc buf d ≡ ok r)
unfolding chunk_to_cids
chunk_to_cids-total I cdc buf d wide =
    let (cs, run, _, _) = cdc_chunks-tile cdc buf wide in (add_chunks I cs d, rw run refl)

add_segment-total :
    (I : Ipld) (cdc : CdcConfig) (skeleton : List ℕ) (from to : ℕ) (d : Draft)
    → cdc.min_size < cdc.max_size
    → (r : List Cid × Draft) × (add_segment I cdc skeleton from to d ≡ ok r)
unfolding add_segment
add_segment-total I cdc skeleton from to d wide = elim (Bool-cases (ltb from to)) [
  | inl some_bytes ↦
      let (r, run) = chunk_to_cids-total I cdc (subarray skeleton from to) d wide in
      (r, rw (some_bytes, run) refl)
  | inr empty ↦ (([], d), rw empty refl)
]

pub add_recipe-total :
    (I : Ipld) (cdc : CdcConfig) (skeleton : List ℕ) (ss : List Span) (at : ℕ) (d : Draft)
    → cdc.min_size < cdc.max_size
    → (r : (List Cid × List ℕ) × Draft) × (add_recipe I cdc skeleton ss at d ≡ ok r)
unfolding add_recipe
add_recipe-total I cdc skeleton [] at d wide = elim (Bool-cases (ltb at (length skeleton))) [
  | inl some_bytes ↦
      let (r, run) = chunk_to_cids-total I cdc (drop at skeleton) d wide in
      (((r.0, length r.0 ∷ 0 ∷ []), r.1), rw (some_bytes, run) refl)
  | inr empty ↦ ((([], []), d), rw empty refl)
]
add_recipe-total I cdc skeleton (s ∷ ss) at d wide =
    let (r, run) = add_segment-total I cdc skeleton at s.start d wide in
    let (q, run') = add_recipe-total I cdc skeleton ss s.stop r.1 wide in
    (((r.0 ++ q.0.0, length r.0 ∷ (s.stop - s.start) ∷ q.0.1), q.1), rw (run, run') refl)

module _ (T : NormalIpld) where
  add_table-total :
      (cdc : CdcConfig) (cs : List Candidate) (d : Draft)
      → cdc.min_size < cdc.max_size
      → (r : List SampleV2 × Draft) × (add_table T cdc cs d ≡ ok r)
  unfolding add_table
  add_table-total cdc [] d wide = (([], d), refl)
  add_table-total cdc (c ∷ cs) d wide =
      let (r, run) = chunk_to_cids-total T.base cdc c.dump.pcm d wide in
      let (q, run') = add_table-total cdc cs r.1 wide in
      (
        (
          record {
            index = c.slot.index;
            frames = c.dump.frames;
            channels = c.slot.channels;
            bit_depth = c.slot.bit_depth;
            chunks = r.0;
          }
              ∷ q.0,
          q.1,
        ),
        rw (run, run') refl,
      )

  module _ (compute_seek_tables : List ℕ → Format → Option SeekOffsets) (cdc : CdcConfig)
      (wide : cdc.min_size < cdc.max_size) (file : List ℕ) (decoded : List DecodedSample) where
    pub prepare-total :
        (parsed : ParsedSlots) (no_compressed : Bool)
        → (p : Prepared) × (prepare T compute_seek_tables cdc file decoded parsed no_compressed
            ≡ ok p)
          × (p.streamed
              ≡ streamed_of no_compressed
                  (make_plan
                    (candidate_slots (candidates_of decoded parsed.slots))
                    (compute_seek_tables file parsed.format)).checkpoints
                  (candidates_of decoded parsed.slots))
    unfolding prepare
    prepare-total parsed no_compressed =
        let candidates : List Candidate = candidates_of decoded parsed.slots in
        let full : Plan =
          make_plan (candidate_slots candidates) (compute_seek_tables file parsed.format) in
        let streamed : List Candidate = streamed_of no_compressed full.checkpoints candidates in
        let sk : List ℕ = (build_skeleton_v2 file (candidate_slots streamed)).0 in
        let (r, run) = add_table-total cdc streamed (record { blocks = []; num_chunks = 0 }) wide in
        let (q, run') =
          add_recipe-total T.base cdc sk
            (merge_spans (build_skeleton_v2 file (candidate_slots streamed)).1 (length sk)) 0 r.1
            wide in
        (
          record {
            streamed = streamed;
            samples = r.0;
            plan = record full { checkpoints = tighten (indices streamed) full.checkpoints };
            skeleton = sk;
            skeleton_chunks = q.0.0;
            skeleton_layout = q.0.1;
            draft = q.1;
          },
          simp (run, run'),
          refl,
        )
