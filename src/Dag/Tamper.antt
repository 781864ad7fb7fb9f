-- ===== src/Dag/Tamper.antt =====
-- A DAG that buildFromRegions of dag.ts built, fetched from an untrusted server.
use trackerstream.Common.{ℕ, ◌<◌, ◌≡◌, true, Option, List, length}
use trackerstream.Common.Result.{ok}
use trackerstream.Cdc.{CdcConfig}
use trackerstream.Parse.Bytes.{SampleRegion, Text}
use trackerstream.Parse.Pieces.{Apart}
use trackerstream.Dag.Store.{BlockGetter, lookup_block}
use trackerstream.Dag.Build.{Manifest, Ipld, BuiltDag, SeekOffsets, build_from_regions}
use trackerstream.Dag.Reassemble.{reassemble}
use trackerstream.Dag.Stored.{IpldLaws}
use trackerstream.Dag.RoundTrip.{build_from_regions-RoundTrips}
use trackerstream.Dag.Integrity.{reassemble-Agree}

module _ (I : Ipld) (laws : IpldLaws I) (compute_seek_tables : List ℕ → Text → Option SeekOffsets)
    (cdc : CdcConfig) (wide : cdc.min_size < cdc.max_size) where
  -- For a file and ascending, disjoint regions inside it, whoever serves the blocks of the DAG that
  -- buildFromRegions built: a verified reassembly that succeeds returns exactly the file and the
  -- manifest (for chunk bounds with `min_size < max_size`, a dag-cbor that decodes what it encoded
  -- and a collision-free hash).
  pub build_from_regions-tamper :
      (file : List ℕ) (format : Text) (regions : List SampleRegion) (dag : BuiltDag)
      (get : BlockGetter) (r : List ℕ × Manifest)
      → Apart (length file) 0 regions
      → build_from_regions I compute_seek_tables file format regions cdc ≡ ok dag
      → reassemble I get true dag.root ≡ ok r
      → r ≡ (file, dag.manifest)
  build_from_regions-tamper file format regions dag get r a built served =
      let (dag', built', back) =
        build_from_regions-RoundTrips I laws compute_seek_tables true cdc wide file format regions
          a in
      let same : dag' ≡ dag = cc (built, built') in
      let back' : reassemble I (lookup_block dag.blocks) true dag.root ≡ ok (file, dag.manifest) =
        rw same at back in
      reassemble-Agree I laws get (lookup_block dag.blocks) dag.root r (file, dag.manifest) served
        back'
