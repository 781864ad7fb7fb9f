-- ===== src/Tree/Restore.antt =====
-- A build of version 3 or 4 in packages/repack/src/dag.ts, followed by its reassembly.
use trackerstream.Common.{
  ℕ, ◌-◌, ◌<◌, ◌≡◌, refl, ◌∙◌, Bool, true, false, Option, none, List, [], ◌∷◌, ◌==◌, length, arith,
  All, Option-cases, inl, inr,
}
use trackerstream.Common.Result.{Result, ok}
use trackerstream.Cdc.{CdcConfig}
use trackerstream.Parse.Bytes.{Format, SampleSlot}
use trackerstream.Parse.Numbering.{Numbered}
use trackerstream.Dag.Store.{Fault, Block, lookup_block}
use trackerstream.Dag.Build.{SeekOffsets, Draft}
use trackerstream.Dag.Holds.{Holds, Holds-Grows, fetch_verified-Serves}
use trackerstream.Dag.Rebuild.{fetch_parts-Holds}
use trackerstream.Tree.Spans.{Span, merge_spans, merge_spans-covered}
use trackerstream.Tree.Recipe.{assemble_skeleton, add_recipe-Built}
use trackerstream.Tree.Zeroed.{Zeroed, is_packed, build_skeleton_v2, build_skeleton_v2-Zeroed}
use trackerstream.Tree.Runs.{merge_spans-ZeroRuns}
use trackerstream.Tree.Model.{TreeIndex, TreeManifest, TreeStats, BuiltTree, TreeIpld, Leaves}
use trackerstream.Tree.Streamed.{Streamed, slots_of, any_packed, make_plan, pcm_bytes}
use trackerstream.Tree.Build.{finish_tree, build_streamed}
use trackerstream.Tree.Reassemble.{reassemble_tree}
use trackerstream.Tree.Written.{
  Located, Exact, Exact-Unpacked, Lossless, TableHeld, TableHeld-Grows, add_streamed-TableStored,
}
use trackerstream.Tree.Restored.{Restored, write_streamed-Restored}
use trackerstream.Tree.RoundTrip.{TreeLaws, Finished, finish_tree-Finished}

module _ (T : TreeIpld) (laws : TreeLaws T) (verify : Bool) (leaves : Leaves) where
  -- A finished tree gives the file back, if its blocks serve the samples and the skeleton.
  Finished-reassemble_tree :
      (file sk : List ℕ) (sts : List Streamed) (plain : TreeManifest) (index : TreeIndex)
      (stats : TreeStats) (blocks : List Block) (parts : List (List ℕ)) (dag : BuiltTree)
      → Finished T laws plain index dag blocks
      → All (Exact file) sts
      → All (Lossless leaves) sts
      → TableHeld T laws.base leaves (lookup_block blocks) sts index.samples
      → Holds T.base.sha256 (lookup_block blocks) plain.skeleton_chunks parts
      → assemble_skeleton parts plain.skeleton_layout ≡ ok sk
      → plain.v ≡ leaves.version
      → plain.original_length ≡ length file
      → Restored file sts sk
      → reassemble_tree T (lookup_block dag.blocks) verify leaves dag.root ≡ ok (file, dag.manifest)
  unfolding reassemble_tree
  Finished-reassemble_tree file sk sts plain index stats blocks parts dag f x l h s back version
        size r =
      let (v, len, chunks, layout) = f.kept in
      let fetched =
        fetch_parts-Holds T.base laws.base (lookup_block dag.blocks) verify plain.skeleton_chunks
          parts
          (Holds-Grows T.base.sha256 blocks dag.blocks plain.skeleton_chunks parts f.grows s) in
      let written =
        write_streamed-Restored T laws.base leaves (lookup_block dag.blocks) verify file sts
          index.samples sk x l
          (TableHeld-Grows T laws.base leaves blocks dag.blocks sts index.samples f.grows h) r in
      let right : (dag.manifest.v == leaves.version) ≡ true = ground (arith, v, version) in
      let whole : (length sk == dag.manifest.original_length) ≡ true =
        ground (arith, len, size, r.0) in
      simp (
        fetch_verified-Serves T.base.sha256 (lookup_block dag.blocks) verify dag.root _ f.root,
        laws.manifest_back dag.manifest,
        right,
        f.index_read verify,
        chunks,
        fetched,
        layout,
        back,
        whole,
        written,
      )

pub Numbered-Located :
    (file : List ℕ) (low : ℕ) (ss : List SampleSlot)
    → Numbered (length file) low ss
    → any_packed ss ≡ false
    → All (Located (length file)) ss
unfolding any_packed is_packed
Numbered-Located file low [] n a = tt
Numbered-Located file low (s ∷ ss) (p, q, i, l, n) a = elim (Option-cases s.compressed) [
  | inl plain ↦ ((i, plain), Numbered-Located file s.index ss n (rw plain at a))
  | inr (c, packed) ↦ cc (rw packed at a)
]

module _ (T : TreeIpld) (laws : TreeLaws T)
    (compute_seek_tables : List ℕ → Format → Option SeekOffsets) (verify : Bool) (cdc : CdcConfig)
    (wide : cdc.min_size < cdc.max_size) where
  -- A build ends with a tree whose blocks alone give back the file and the manifest.
  abbrev pub TreeTrips : Leaves → List ℕ → Result Fault BuiltTree → Type 0
  TreeTrips leaves file built =
      (dag : BuiltTree) × (built ≡ ok dag)
      × (reassemble_tree T (lookup_block dag.blocks) verify leaves dag.root
          ≡ ok (file, dag.manifest))

  Zeroed-Restored :
      (file : List ℕ) (sts : List Streamed)
      → Zeroed file (slots_of sts)
      → Restored file sts (build_skeleton_v2 file (slots_of sts)).0
  Zeroed-Restored file sts z = (z.length_kept, λ x free. z.reads x ∙ rw free)

  pub build_streamed-TreeTrips :
      (leaves : Leaves) (file : List ℕ) (format : Format) (slots : List SampleSlot)
      (sts : List Streamed)
      → All (Exact file) sts
      → All (Lossless leaves) sts
      → TreeTrips leaves file
          (build_streamed T compute_seek_tables leaves file format slots sts cdc)
  unfolding build_streamed
  build_streamed-TreeTrips leaves file format slots sts x l =
      let start : Draft = record { blocks = []; num_chunks = 0 } in
      let u = Exact-Unpacked file sts x in
      let sk : List ℕ = (build_skeleton_v2 file (slots_of sts)).0 in
      let spans : List Span = (build_skeleton_v2 file (slots_of sts)).1 in
      let runs = merge_spans spans (length sk) in
      let table = add_streamed-TableStored T laws.base leaves cdc sts start wide tt in
      let (chunks, layout, d', parts, run, stored, _, back) =
        add_recipe-Built T.base laws.base cdc wide sk 0 runs 0 table.after (omega arith)
          (merge_spans-covered spans (length sk) 0).0 (merge_spans-ZeroRuns file (slots_of sts) u)
          table.certified in
      let plain : TreeManifest = record {
        v = leaves.version;
        format = format;
        cdc = cdc;
        original_length = length file;
        skeleton_chunks = chunks;
        skeleton_layout = layout;
        index = none;
        index_root = none;
      } in
      let index : TreeIndex = record {
        samples = table.samples;
        plan = make_plan (slots_of sts) (compute_seek_tables file format);
      } in
      let stats : TreeStats = record {
        format = format;
        skeleton_bytes = length sk;
        streamed_samples = length sts;
        resident_samples = length slots - length sts;
        sample_bytes = pcm_bytes sts;
        num_chunks = d'.num_chunks;
        unique_chunks = 0;
        manifest_bytes = 0;
        spilled = false;
      } in
      let finished =
        finish_tree-Finished T laws plain index stats d'.blocks refl stored.certified in
      (
        finish_tree T plain index stats d'.blocks,
        simp (table.run, run),
        Finished-reassemble_tree T laws verify leaves file sk sts plain index stats d'.blocks parts
            (finish_tree T plain index stats d'.blocks) finished x l
            (TableHeld-Grows T laws.base leaves table.after.blocks d'.blocks sts table.samples
              stored.grows table.held)
            stored.holds back refl refl
            (Zeroed-Restored file sts (build_skeleton_v2-Zeroed file (slots_of sts) u)),
      )
