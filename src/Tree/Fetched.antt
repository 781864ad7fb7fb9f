-- ===== src/Tree/Fetched.antt =====
-- What fetchV2 of packages/repack/src/dag.ts gives of a tree that buildDagV2 made.
use trackerstream.Common.{
  ℕ, ◌-◌, ◌<◌, ◌≡◌, refl, ap, ◌∙◌, Bool, true, false, not, ◌&&◌, ◌||◌, Option, none, some, List, [],
  ◌∷◌, ◌==◌, length, arith, Bool-cases, Option-cases, inl, inr,
}
use trackerstream.Common.Result.{ok}
use trackerstream.Cdc.{CdcConfig}
use trackerstream.Parse.Bytes.{Format, SampleSlot}
use trackerstream.Parse.Select.{ParsedSlots, sample_slots}
use trackerstream.Fence.{Checkpoint}
use trackerstream.Dag.Store.{lookup_block}
use trackerstream.Dag.Build.{SeekOffsets, Draft}
use trackerstream.Dag.Holds.{Holds-Grows, fetch_verified-Serves}
use trackerstream.Dag.Rebuild.{fetch_parts-Holds}
use trackerstream.Tree.Spans.{Span, merge_spans, merge_spans-covered}
use trackerstream.Tree.Recipe.{add_recipe-Built}
use trackerstream.Tree.Zeroed.{Unpacked, is_packed, build_skeleton_v2}
use trackerstream.Tree.Runs.{merge_spans-ZeroRuns}
use trackerstream.Tree.Model.{DecodedSample, Plan, TreeStats}
use trackerstream.Tree.Streamed.{dump_of, make_plan, any_packed}
use trackerstream.Tree.Candidates.{
  ManifestV2, BuiltV2, NormalIpld, Candidate, candidates_of, candidate_slots, streamed_of, indices,
  tighten, dump_bytes,
}
use trackerstream.Tree.Normal.{
  Prepared, prepare, saves_little, finish_prepared, build_calls, build_dag_v2,
}
use trackerstream.Tree.Fetch.{FetchedV2, fetch_v2}
use trackerstream.Tree.Finish.{NormalLaws, fetched_of, add_table-TableKept, Ended, finish_v2-Ended}

candidates_of-any_packed :
    (decoded : List DecodedSample) (ss : List SampleSlot)
    → any_packed ss ≡ false
    → any_packed (candidate_slots (candidates_of decoded ss)) ≡ false
unfolding candidates_of candidate_slots any_packed
candidates_of-any_packed decoded [] h = refl
candidates_of-any_packed decoded (s ∷ ss) h = elim (Bool-cases (is_packed s)) [
  | inl packed ↦ cc (rw (packed, any_packed) at h)
  | inr plain ↦
      let rest = candidates_of-any_packed decoded ss (rw (plain, any_packed) at h) in
      elim (Option-cases (dump_of decoded s.index none)) [
        | inl no_dump ↦ rw (no_dump, candidates_of) rest
        | inr (dump, found) ↦
            elim (Bool-cases (length dump.pcm == 0 || not (length dump.pcm == s.length))) [
              | inl unfit ↦ rw (found, unfit, candidates_of) rest
              | inr fit ↦ rw (found, fit, plain, candidates_of) rest
            ]
      ]
]

plain_slot : (s : SampleSlot) → is_packed s ≡ false → s.compressed ≡ none
unfolding is_packed
plain_slot s h = elim (Option-cases s.compressed) [
  | inl empty ↦ empty
  | inr (c, packed) ↦ cc (rw packed at h)
]

-- Without compressed candidates, or with `noCompressedStream`, no compressed slot is streamed.
pub streamed_of-Unpacked :
    (no_compressed : Bool) (checkpoints : List Checkpoint) (cs : List Candidate)
    → (not no_compressed && any_packed (candidate_slots cs)) ≡ false
    → Unpacked (candidate_slots (streamed_of no_compressed checkpoints cs))
unfolding streamed_of candidate_slots any_packed
streamed_of-Unpacked no_compressed checkpoints [] h = tt
streamed_of-Unpacked true checkpoints (c ∷ cs) h = elim (Bool-cases (is_packed c.slot)) [
  | inl packed ↦ rw (packed, streamed_of) (streamed_of-Unpacked true checkpoints cs refl)
  | inr plain ↦
      rw (plain, streamed_of)
        (plain_slot c.slot plain, streamed_of-Unpacked true checkpoints cs refl)
]
streamed_of-Unpacked false checkpoints (c ∷ cs) h = elim (Bool-cases (is_packed c.slot)) [
  | inl packed ↦ cc (rw (packed, any_packed) at h)
  | inr plain ↦
      rw (plain, streamed_of)
        (
          plain_slot c.slot plain,
          streamed_of-Unpacked false checkpoints cs (rw (plain, any_packed) at h),
        )
]

and-false : (a : Bool) → (a && false) ≡ false
and-false true = refl
and-false false = refl

plain_candidates :
    (decoded : List DecodedSample) (parsed : ParsedSlots) (no_compressed : Bool)
    → (not no_compressed && any_packed parsed.slots) ≡ false
    → (not no_compressed && any_packed (candidate_slots (candidates_of decoded parsed.slots)))
      ≡ false
plain_candidates decoded parsed true h = refl
plain_candidates decoded parsed false h = candidates_of-any_packed decoded parsed.slots h

pub Unpacked-any_packed : (ss : List SampleSlot) → Unpacked ss → any_packed ss ≡ false
unfolding any_packed is_packed
Unpacked-any_packed [] u = refl
Unpacked-any_packed (s ∷ ss) (u, us) = rw u (Unpacked-any_packed ss us)

module _ (T : NormalIpld) (laws : NormalLaws T)
    (compute_seek_tables : List ℕ → Format → Option SeekOffsets) (verify : Bool) (cdc : CdcConfig)
    (wide : cdc.min_size < cdc.max_size) where
  module _ (file : List ℕ) (decoded : List DecodedSample) (parsed : ParsedSlots)
      (no_compressed : Bool) where
    -- The plan before it is tightened, and the slots that are streamed.
    abbrev pub full_plan : Plan
    full_plan =
        make_plan (candidate_slots (candidates_of decoded parsed.slots))
          (compute_seek_tables file parsed.format)

    abbrev pub streamed_slots_v2 : List Candidate
    streamed_slots_v2 =
        streamed_of no_compressed full_plan.checkpoints (candidates_of decoded parsed.slots)

    -- What a client gets: the zeroed file, the decoded samples and the tightened plan.
    abbrev pub delivered : ManifestV2 → FetchedV2
    delivered manifest = record {
      manifest = manifest;
      skeleton = (build_skeleton_v2 file (candidate_slots streamed_slots_v2)).0;
      samples = fetched_of streamed_slots_v2;
      plan = record full_plan {
        checkpoints = tighten (indices streamed_slots_v2) full_plan.checkpoints;
      };
    }

    -- The outcome of the part before the gate.
    record Ready : Type 0 where
      pub prepared : Prepared
      pub run : prepare T compute_seek_tables cdc file decoded parsed no_compressed ≡ ok prepared
      pub same_streamed : prepared.streamed ≡ streamed_slots_v2
      pub fetched :
          fetch_v2 T
            (lookup_block
              (finish_prepared T compute_seek_tables cdc file decoded parsed prepared).blocks)
            verify
            (finish_prepared T compute_seek_tables cdc file decoded parsed prepared).root
          ≡ ok (
              delivered
                (finish_prepared T compute_seek_tables cdc file decoded parsed prepared).manifest)

    prepare-Ready : Unpacked (candidate_slots streamed_slots_v2) → Ready
    unfolding prepare finish_prepared fetch_v2
    prepare-Ready u =
        let start : Draft = record { blocks = []; num_chunks = 0 } in
        let slots : List SampleSlot = candidate_slots streamed_slots_v2 in
        let sk : List ℕ = (build_skeleton_v2 file slots).0 in
        let spans : List Span = (build_skeleton_v2 file slots).1 in
        let runs = merge_spans spans (length sk) in
        let table = add_table-TableKept T laws verify cdc streamed_slots_v2 start wide tt in
        let (chunks, layout, d', parts, run, stored, _, back) =
          add_recipe-Built T.base laws.base cdc wide sk 0 runs 0 table.after (omega arith)
            (merge_spans-covered spans (length sk) 0).0 (merge_spans-ZeroRuns file slots u)
            table.certified in
        let p : Prepared = record {
          streamed = streamed_slots_v2;
          samples = table.samples;
          plan = record full_plan {
            checkpoints = tighten (indices streamed_slots_v2) full_plan.checkpoints;
          };
          skeleton = sk;
          skeleton_chunks = chunks;
          skeleton_layout = layout;
          draft = d';
        } in
        let dag : BuiltV2 = finish_prepared T compute_seek_tables cdc file decoded parsed p in
        let plain : ManifestV2 = record {
          v = 2;
          format = parsed.format;
          cdc = cdc;
          skeleton_chunks = chunks;
          skeleton_layout = layout;
          index = none;
          index_root = none;
        } in
        let stats : TreeStats = record {
          format = parsed.format;
          skeleton_bytes = length sk;
          streamed_samples = length p.streamed;
          resident_samples = length parsed.slots - length p.streamed;
          sample_bytes = dump_bytes p.streamed;
          num_chunks = d'.num_chunks;
          unique_chunks = 0;
          manifest_bytes = 0;
          spilled = false;
        } in
        let ended : Ended T laws verify plain (record { samples = table.samples; plan = p.plan })
            dag d'.blocks =
          finish_v2-Ended T laws verify plain (record { samples = table.samples; plan = p.plan })
            stats d'.blocks refl stored.certified in
        let (v, same_chunks, same_layout) = ended.kept in
        let right : (dag.manifest.v == 2) ≡ true = ground (arith, v) in
        let parts_read =
          fetch_parts-Holds T.base laws.base (lookup_block dag.blocks) verify chunks parts (
            Holds-Grows T.base.sha256 d'.blocks dag.blocks chunks parts ended.grows stored.holds) in
        let samples_read =
          table.fetched dag.blocks (λ k x e. ended.grows k x (stored.grows k x e)) in
        record {
          prepared = p;
          run = simp (table.run, run);
          same_streamed = refl;
          fetched = simp (
            fetch_verified-Serves T.base.sha256 (lookup_block dag.blocks) verify dag.root _
                ended.root,
            laws.manifest_back dag.manifest,
            right,
            ended.index_read,
            same_chunks,
            parts_read,
            same_layout,
            back,
            samples_read,
          );
        }

  -- On every file whose slots sampleSlots finds and all decoded samples, with `noCompressedStream` or
  -- where no slot is compressed: buildDagV2 succeeds, and fetchV2 over the tree's own blocks, with
  -- verification or without, returns the manifest, the zeroed file, the PCM and layout of every streamed
  -- sample, and the tightened plan (for chunk bounds with `min_size < max_size`, a dag-cbor that decodes
  -- what it encoded and a collision-free hash).
  pub build_dag_v2-fetch_v2 :
      (file : List ℕ) (decoded : List DecodedSample) (parsed : ParsedSlots) (no_compressed : Bool)
      → sample_slots file none ≡ some parsed
      → (not no_compressed && any_packed parsed.slots) ≡ false
      → (dag : BuiltV2) × (build_dag_v2 T compute_seek_tables file decoded cdc no_compressed
          ≡ ok dag)
        × (fetch_v2 T (lookup_block dag.blocks) verify dag.root
            ≡ ok (delivered file decoded parsed no_compressed dag.manifest))
  unfolding build_calls saves_little
  build_dag_v2-fetch_v2 file decoded parsed no_compressed found plain =
      let unpacked =
        streamed_of-Unpacked no_compressed (full_plan file decoded parsed no_compressed).checkpoints
          (candidates_of decoded parsed.slots)
          (plain_candidates decoded parsed no_compressed plain) in
      let r = prepare-Ready file decoded parsed no_compressed unpacked in
      let none_packed : any_packed (candidate_slots r.prepared.streamed) ≡ false =
        ap (λ s. any_packed (candidate_slots s)) r.same_streamed
        ∙ Unpacked-any_packed
            (candidate_slots (streamed_slots_v2 file decoded parsed no_compressed)) unpacked in
      (
        finish_prepared T compute_seek_tables cdc file decoded parsed r.prepared,
        simp (found, r.run, none_packed, and-false (not no_compressed)),
        r.fetched,
      )
