-- ===== src/Tests/Normals.antt =====
-- The theorems on version 2 of packages/repack/src/dag.ts, at the small IT file.
use trackerstream.Common.{◌≡◌, refl, true, false, none, some, arith, ◌⊎◌, All}
use trackerstream.Common.Result.{ok, err}
use trackerstream.Cdc.{default_cdc}
use trackerstream.Parse.Select.{ParsedSlots, sample_slots}
use trackerstream.Dag.Store.{unparseable, lookup_block}
use trackerstream.Tree.Candidates.{SampleV2, IndexV2, ManifestV2, NormalIpld, BuiltV2}
use trackerstream.Tree.Normal.{Prepared, prepare, build_dag_v2, build_calls, build_calls}
use trackerstream.Tree.Fetch.{fetch_v2}
use trackerstream.Tree.Finish.{NormalLaws}
use trackerstream.Tree.Fetched.{delivered, build_dag_v2-fetch_v2}
use trackerstream.Tree.Gated.{Named, table_indices, ungated, prepare-Named}
use trackerstream.Tree.Gate.{GatedResult, build_calls-gate}
use trackerstream.Tests.Codec.{
  Codec, number, both, through, list, optional, cid, cdc_config, decode, decode-print, plain_ipld,
  plain_laws,
}
use trackerstream.Tests.TreeCodec.{plan, format}
use trackerstream.Tests.Files.{file, parsed_slots, file_slots}
use trackerstream.Tests.Trees.{no_tables, decoded, not_packed}

abbrev sample_code : Codec SampleV2
sample_code =
    through (λ s. ((s.index, (s.frames, (s.channels, s.bit_depth))), s.chunks))
      (λ p. record {
        index = p.0.0;
        frames = p.0.1.0;
        channels = p.0.1.1.0;
        bit_depth = p.0.1.1.1;
        chunks = p.1;
      })
      (λ s. refl) (both (both number (both number (both number number))) (list cid))

abbrev index_code : Codec IndexV2
index_code =
    through (λ i. (i.samples, i.plan)) (λ p. record { samples = p.0; plan = p.1 }) (λ i. refl)
      (both (list sample_code) plan)

abbrev manifest_code : Codec ManifestV2
manifest_code =
    through
      (λ m. (
        (m.v, (m.format, m.cdc)),
        (m.skeleton_chunks, (m.skeleton_layout, (m.index, m.index_root))),
      ))
      (λ p. record {
        v = p.0.0;
        format = p.0.1.0;
        cdc = p.0.1.1;
        skeleton_chunks = p.1.0;
        skeleton_layout = p.1.1.0;
        index = p.1.1.1.0;
        index_root = p.1.1.1.1;
      })
      (λ m. refl)
      (both (both number (both format cdc_config))
        (both (list cid) (both (list number) (both (optional index_code) (optional cid)))))

normal_ipld : NormalIpld
normal_ipld = record {
  base = plain_ipld;
  encode_manifest = manifest_code.print;
  decode_manifest = decode manifest_code;
  encode_index = index_code.print;
  decode_index = decode index_code;
}

normal_laws : NormalLaws normal_ipld
unfolding normal_ipld
normal_laws = record {
  base = plain_laws;
  manifest_back = decode-print manifest_code;
  index_back = decode-print index_code;
}

build_dag_v2-fetch_v2_example :
    (dag : BuiltV2) × (build_dag_v2 normal_ipld no_tables file decoded default_cdc false ≡ ok dag)
    × (fetch_v2 normal_ipld (lookup_block dag.blocks) true dag.root
        ≡ ok (
            delivered normal_ipld normal_laws no_tables true default_cdc
              (omega arith)
              file
              decoded
              parsed_slots
              false
              dag.manifest))
build_dag_v2-fetch_v2_example =
    build_dag_v2-fetch_v2 normal_ipld normal_laws no_tables true default_cdc (omega arith) file
      decoded parsed_slots false file_slots not_packed

prepare-Named_example :
    (p : Prepared) × (prepare normal_ipld no_tables default_cdc file decoded parsed_slots false
      ≡ ok p)
    × All (Named (table_indices p.samples)) p.plan.checkpoints
    × All (λ c. ungated p.plan.checkpoints c ≡ false) p.streamed
prepare-Named_example =
    prepare-Named normal_ipld no_tables default_cdc (omega arith) file decoded parsed_slots false

build_calls-gate_example :
    ((sample_slots file none ≡ none)
      × (build_calls normal_ipld no_tables file decoded default_cdc 5 false ≡ err unparseable))
    ⊎ ((parsed : ParsedSlots) × (sample_slots file none ≡ some parsed)
        × GatedResult normal_ipld no_tables default_cdc (omega arith) file decoded 3 parsed false)
build_calls-gate_example =
    build_calls-gate normal_ipld no_tables default_cdc (omega arith) file decoded 3 false
