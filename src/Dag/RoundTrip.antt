-- ===== src/Dag/RoundTrip.antt =====
-- reassemble gives back the file that buildFromRegions, buildDag or buildFlatDag took apart.
use mathlib.Core.List.{flatten}
use trackerstream.Common.{
  ℕ, ◌<◌, ◌≡◌, refl, Bool, Option, none, some, List, [], length, inl, inr, Option-cases, ◌⊎◌,
}
use trackerstream.Common.Result.{Result, ok, err}
use trackerstream.Cdc.{CdcConfig}
use trackerstream.Parse.Bytes.{SampleRegion, Text}
use trackerstream.Parse.Select.{ParsedRegions, sample_regions}
use trackerstream.Parse.Pieces.{Apart}
use trackerstream.Parse.Partition.{sample_regions-Apart}
use trackerstream.Dag.Store.{Fault, unparseable, Cid, lookup_block, dag_cbor_code}
use trackerstream.Dag.Build.{
  SampleEntry, Manifest, Ipld, BuiltDag, Draft, SeekOffsets, bake_seek, finish_dag,
  build_from_regions, build_dag, build_flat_dag,
}
use trackerstream.Dag.Reassemble.{reassemble}
use trackerstream.Dag.Skeleton.{outside, build_skeleton-outside}
use trackerstream.Dag.Holds.{Certified, Holds, Holds-Grows}
use trackerstream.Dag.Stored.{
  IpldLaws, SamplesHeld, SamplesHeld-Grows, add_samples-Stored, chunk_to_cids-Stored,
  add_block-Added,
}
use trackerstream.Dag.Rebuild.{reassemble-Held}

bake_seek-keeps :
    (m : Manifest) (t : Option SeekOffsets)
    → ((bake_seek m t).original_length ≡ m.original_length)
      × ((bake_seek m t).skeleton_chunks ≡ m.skeleton_chunks)
      × ((bake_seek m t).samples ≡ m.samples)
unfolding bake_seek
bake_seek-keeps m none = (refl, refl, refl)
bake_seek-keeps m (some t) = (refl, refl, refl)

module _ (I : Ipld) (laws : IpldLaws I) (verify : Bool) where
  -- The finished DAG gives the file back, if its blocks serve the samples and the skeleton.
  finish_dag-reassemble :
      (file : List ℕ) (format : Text) (regions : List SampleRegion) (cdc : CdcConfig)
      (tables : Option SeekOffsets) (samples : List SampleEntry) (cids : List Cid) (d : Draft)
      (parts : List (List ℕ))
      → Apart (length file) 0 regions
      → Certified I.sha256 d.blocks
      → Holds I.sha256 (lookup_block d.blocks) cids parts
      → flatten parts ≡ outside file 0 regions
      → SamplesHeld I laws (lookup_block d.blocks) file regions samples
      → (let dag =
            finish_dag I file format regions cdc tables samples (outside file 0 regions) cids d in
          reassemble I (lookup_block dag.blocks) verify dag.root ≡ ok (file, dag.manifest))
  unfolding finish_dag bake_seek
  finish_dag-reassemble file format regions cdc tables samples cids d parts a c h tiles held =
      let dag =
        finish_dag I file format regions cdc tables samples (outside file 0 regions) cids d in
      let (len, chunks, kept) =
        bake_seek-keeps
          (record {
            v = 1;
            format = format;
            original_length = length file;
            cdc = cdc;
            skeleton_chunks = cids;
            samples = samples;
            segment0 = none;
            seek = none;
          })
          (elim regions [ [] ↦ none | _ ↦ tables ]) in
      let added =
        add_block-Added I laws dag_cbor_code (I.encode_manifest dag.manifest) d.blocks c in
      reassemble-Held I laws (lookup_block dag.blocks) verify file regions dag.root dag.manifest
        parts a added.serves len
        (rw chunks (Holds-Grows I.sha256 d.blocks dag.blocks cids parts added.grows h)) tiles
        (rw kept
          (SamplesHeld-Grows I laws d.blocks dag.blocks file regions samples added.grows held))

module _ (I : Ipld) (laws : IpldLaws I) (compute_seek_tables : List ℕ → Text → Option SeekOffsets)
    (verify : Bool) (cdc : CdcConfig) (wide : cdc.min_size < cdc.max_size) where
  -- A build ends with a DAG whose blocks alone give back the file.
  abbrev pub RoundTrips : List ℕ → Result Fault BuiltDag → Type 0
  RoundTrips file built =
      (dag : BuiltDag) × (built ≡ ok dag)
      × (reassemble I (lookup_block dag.blocks) verify dag.root ≡ ok (file, dag.manifest))

  pub build_from_regions-RoundTrips :
      (file : List ℕ) (format : Text) (regions : List SampleRegion)
      → Apart (length file) 0 regions
      → RoundTrips file (build_from_regions I compute_seek_tables file format regions cdc)
  unfolding build_from_regions
  build_from_regions-RoundTrips file format regions a =
      let start : Draft = record { blocks = []; num_chunks = 0 } in
      let stored = add_samples-Stored I laws cdc file regions start wide tt in
      let (cids, d', parts, run, chunked, tiles) =
        chunk_to_cids-Stored I laws cdc (outside file 0 regions) stored.after wide
          stored.certified in
      (
        finish_dag I file format regions cdc (compute_seek_tables file format) stored.samples
            (outside file 0 regions) cids d',
        rw (stored.run, build_skeleton-outside file regions a, run),
        finish_dag-reassemble I laws verify file format regions cdc
            (compute_seek_tables file format) stored.samples cids d' parts a chunked.certified
            chunked.holds tiles
            (SamplesHeld-Grows I laws stored.after.blocks d'.blocks file regions stored.samples
              chunked.grows stored.held),
      )

  -- On every file, for chunk bounds with `min_size < max_size`, a dag-cbor that decodes what it encoded
  -- and a collision-free hash: buildFlatDag succeeds. So does
  -- buildDag where sampleRegions finds regions, and it throws "unparseable" where it returns null.
  -- A DAG that either built gives back, from its own blocks alone, exactly the file and the
  -- manifest, with verification or without.
  pub build_dag-reassemble :
      (file : List ℕ) (format : Text)
      → RoundTrips file (build_flat_dag I compute_seek_tables file format cdc)
        × (((sample_regions file none ≡ none)
              × (build_dag I compute_seek_tables file cdc ≡ err unparseable))
            ⊎ ((p : ParsedRegions) × (sample_regions file none ≡ some p)
                × RoundTrips file (build_dag I compute_seek_tables file cdc)))
  unfolding build_flat_dag build_dag
  build_dag-reassemble file format = (
    build_from_regions-RoundTrips file format [] tt,
    elim (Option-cases (sample_regions file none)) [
      | inl null ↦ inl (null, rw null)
      | inr (p, found) ↦ inr (
        p,
        found,
        rw found (
            build_from_regions-RoundTrips file _ p.regions
              (sample_regions-Apart file none p found).0),
      )
    ],
  )
