-- ===== src/Tests/Trees.antt =====
-- The theorems on versions 3 and 4 of packages/repack/src/dag.ts, at the small IT file.
use trackerstream.Common.{
  ℕ, ◌==◌, if◌then◌else◌, Bool-cases, inl, inr, ◌≡◌, refl, sym, true, false, Option, none, some,
  List, [], ◌∷◌, arith, ◌⊎◌, All,
}
use trackerstream.Common.Result.{ok, err}
use trackerstream.Cdc.{default_cdc}
use trackerstream.Parse.Bytes.{Format, same_text}
use trackerstream.Parse.Select.{ParsedSlots, sample_slots}
use trackerstream.Dag.Store.{unparseable, has_compressed, lookup_block}
use trackerstream.Dag.Build.{SeekOffsets}
use trackerstream.Dag.Holds.{same_text-eq}
use trackerstream.Tree.Zeroed.{is_packed}
use trackerstream.Tree.Enc.{bytes_per_sample, pick_among, pick_enc, apply_enc, flip_signs}
use trackerstream.Tree.Model.{DecodedSample, BuiltTree, Flac}
use trackerstream.Tree.Streamed.{any_packed, dump_of, streamed_slot, streamed_slots}
use trackerstream.Tree.Build.{build_dag_v3, build_dag_v4}
use trackerstream.Tree.Reassemble.{reassemble_v3, reassemble_v4}
use trackerstream.Tree.Versions.{
  Whole, FlacLossless, build_dag_v3-reassemble_v3, build_dag_v4-reassemble_v4,
}
use trackerstream.Tests.Files.{file, parsed_slots, file_slots}
use trackerstream.Tests.TreeCodec.{tree_ipld, tree_laws}

abbrev pub no_tables : List ℕ → Format → Option SeekOffsets
no_tables bytes format = none

-- The first sample as it is in the file, the second of another length, the third with the signs flipped.
abbrev pub decoded : List DecodedSample
decoded =
    record { index = 1; frames = 3; pcm = 7 ∷ 7 ∷ 7 ∷ [] }
    ∷ record { index = 2; frames = 1; pcm = 7 ∷ 7 ∷ [] }
    ∷ record { index = 3; frames = 3; pcm = 135 ∷ 135 ∷ 135 ∷ [] }
    ∷ []

-- A codec that writes three sevens as one byte, and everything else behind a byte of its own.
abbrev sevens : List ℕ
sevens = 7 ∷ 7 ∷ 7 ∷ []

abbrev decode_sevens : List ℕ → List ℕ
decode_sevens [] = []
decode_sevens (x ∷ xs) = if x == 9 then sevens else xs

abbrev flac : Flac
flac = record {
  encode = λ pcm channels bit_depth. if same_text pcm sevens then 9 ∷ [] else 8 ∷ pcm;
  decode = λ bytes channels bit_depth. decode_sevens bytes;
}

flac_lossless : FlacLossless flac
flac_lossless pcm channels bit_depth w = elim (Bool-cases (same_text pcm sevens)) [
  | inl all ↦ rw all (sym (same_text-eq pcm sevens all))
  | inr other ↦ rw other refl
]

pub not_packed : any_packed parsed_slots.slots ≡ false
unfolding any_packed is_packed
not_packed = refl

streamed_slots-Whole : All Whole (streamed_slots file decoded parsed_slots.slots)
unfolding bytes_per_sample streamed_slots streamed_slot dump_of pick_enc pick_among apply_enc
    flip_signs same_text
streamed_slots-Whole = (refl, (refl, tt))

build_dag_v3-reassemble_v3_example :
    ((sample_slots file none ≡ none)
      × (build_dag_v3 tree_ipld no_tables file decoded default_cdc ≡ err unparseable))
    ⊎ ((p : ParsedSlots) × (sample_slots file none ≡ some p)
        × (((any_packed p.slots ≡ true)
              × (build_dag_v3 tree_ipld no_tables file decoded default_cdc ≡ err has_compressed))
            ⊎ ((any_packed p.slots ≡ false)
                × (dag : BuiltTree) × (build_dag_v3 tree_ipld no_tables file decoded default_cdc
                    ≡ ok dag)
                × (reassemble_v3 tree_ipld (lookup_block dag.blocks) true dag.root
                    ≡ ok (file, dag.manifest)))))
build_dag_v3-reassemble_v3_example =
    build_dag_v3-reassemble_v3 tree_ipld tree_laws no_tables true default_cdc (omega arith) file
      decoded

build_dag_v4-reassemble_v4_example :
    (dag : BuiltTree) × (build_dag_v4 tree_ipld no_tables flac file decoded default_cdc ≡ ok dag)
    × (reassemble_v4 tree_ipld (lookup_block dag.blocks) true flac dag.root
        ≡ ok (file, dag.manifest))
build_dag_v4-reassemble_v4_example =
    build_dag_v4-reassemble_v4 tree_ipld tree_laws no_tables true default_cdc (omega arith) flac
      file decoded parsed_slots flac_lossless file_slots not_packed streamed_slots-Whole
