-- ===== src/Tests/Dags.antt =====
-- The theorems on packages/repack/src/dag.ts, with a codec and a hash that have the laws asked for.
use trackerstream.Common.{ℕ, ◌≡◌, true, none, List, [], ◌∷◌, arith, Option, ◌⊎◌, some}
use trackerstream.Common.Result.{err}
use trackerstream.Cdc.{default_cdc}
use trackerstream.Parse.Bytes.{SampleRegion, Text, codes}
use trackerstream.Parse.Pieces.{Apart}
use trackerstream.Parse.Select.{ParsedRegions, sample_regions}
use trackerstream.Dag.Store.{unparseable, lookup_block}
use trackerstream.Dag.Build.{Manifest, SeekOffsets, build_from_regions, build_dag, build_flat_dag}
use trackerstream.Dag.RoundTrip.{RoundTrips, build_from_regions-RoundTrips, build_dag-reassemble}
use trackerstream.Dag.Tamper.{build_from_regions-tamper}
use trackerstream.Tests.Codec.{plain_ipld, plain_laws}

abbrev no_tables : List ℕ → Text → Option SeekOffsets
no_tables file format = none

abbrev file : List ℕ
file = 73 ∷ 77 ∷ 80 ∷ 77 ∷ 1 ∷ 2 ∷ 3 ∷ 4 ∷ 5 ∷ 6 ∷ []

build_dag-reassemble_example :
    RoundTrips plain_ipld plain_laws no_tables true default_cdc
      (omega arith)
      file
      (build_flat_dag plain_ipld no_tables file (codes "opus") default_cdc)
    × (((sample_regions file none ≡ none)
          × (build_dag plain_ipld no_tables file default_cdc ≡ err unparseable))
        ⊎ ((p : ParsedRegions) × (sample_regions file none ≡ some p)
            × RoundTrips plain_ipld plain_laws no_tables true default_cdc
                (omega arith)
                file
                (build_dag plain_ipld no_tables file default_cdc)))
build_dag-reassemble_example =
    build_dag-reassemble plain_ipld plain_laws no_tables true default_cdc (omega arith) file
      (codes "opus")

abbrev two_regions : List SampleRegion
two_regions = record { offset = 2; length = 3 } ∷ record { offset = 6; length = 2 } ∷ []

two_regions-Apart : Apart 10 0 two_regions
two_regions-Apart =
    (omega arith, (omega arith, omega arith), (omega arith, (omega arith, omega arith), tt))

-- The build at this file, and its reassembly from its own blocks.
abbrev built :
    RoundTrips plain_ipld plain_laws no_tables true default_cdc
      (omega arith)
      file
      (build_from_regions plain_ipld no_tables file (codes "it") two_regions default_cdc)
built =
    build_from_regions-RoundTrips plain_ipld plain_laws no_tables true default_cdc (omega arith)
      file (codes "it") two_regions two_regions-Apart

build_from_regions-tamper_example :
    ◌≡◌ {A = List ℕ × Manifest} (file, built.0.manifest) (file, built.0.manifest)
build_from_regions-tamper_example =
    build_from_regions-tamper plain_ipld plain_laws no_tables default_cdc (omega arith) file
      (codes "it") two_regions built.0 (lookup_block built.0.blocks) (file, built.0.manifest)
      two_regions-Apart built.1 built.2
