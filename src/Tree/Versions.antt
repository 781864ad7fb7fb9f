-- ===== src/Tree/Versions.antt =====
-- The round trips of versions 3 and 4 of packages/repack/src/dag.ts.
use trackerstream.Common.{
  ℕ, ◌*◌, ◌/◌, ◌%◌, ◌<◌, ◌≡◌, refl, Bool, true, false, Option, none, some, List, [], ◌∷◌, ltb,
  length, All, Bool-cases, Option-cases, inl, inr, ◌⊎◌,
}
use trackerstream.Common.Result.{ok, err}
use trackerstream.Cdc.{CdcConfig}
use trackerstream.Parse.Bytes.{Format}
use trackerstream.Parse.Select.{ParsedSlots, sample_slots}
use trackerstream.Parse.Numbering.{sample_slots-Numbered}
use trackerstream.Dag.Store.{unparseable, has_compressed, lookup_block}
use trackerstream.Dag.Build.{SeekOffsets}
use trackerstream.Tree.Model.{
  DecodedSample, BuiltTree, TreeIpld, Flac, Leaves, raw_leaves, flac_leaves,
}
use trackerstream.Tree.Streamed.{Streamed, streamed_slots, any_packed}
use trackerstream.Tree.Build.{build_tree, build_dag_v3, build_dag_v4}
use trackerstream.Tree.Reassemble.{reassemble_v3, reassemble_v4}
use trackerstream.Tree.Written.{streamed_slots-Exact, Lossless}
use trackerstream.Tree.RoundTrip.{TreeLaws}
use trackerstream.Tree.Restore.{TreeTrips, build_streamed-TreeTrips, Numbered-Located}

-- The PCM of a streamed sample is a whole number of frames.
abbrev pub Whole : Streamed → Type 0
Whole st = length st.dump.pcm % (st.slot.channels * (st.slot.bit_depth / 8)) ≡ 0

-- FLAC is lossless on whole frames.
abbrev pub FlacLossless : Flac → Type 0
FlacLossless flac =
    (pcm : List ℕ) (channels bit_depth : ℕ)
    → length pcm % (channels * (bit_depth / 8)) ≡ 0
    → flac.decode (flac.encode pcm channels bit_depth) channels bit_depth ≡ pcm

raw_leaves-Lossless : (sts : List Streamed) → All (Lossless raw_leaves) sts
unfolding raw_leaves
raw_leaves-Lossless [] = tt
raw_leaves-Lossless (st ∷ sts) = (refl, raw_leaves-Lossless sts)

flac_leaves-Lossless :
    (flac : Flac) (sts : List Streamed)
    → FlacLossless flac
    → All Whole sts
    → All (Lossless (flac_leaves flac)) sts
unfolding flac_leaves
flac_leaves-Lossless flac [] back w = tt
flac_leaves-Lossless flac (st ∷ sts) back (w, ws) =
    let channels : ℕ = st.slot.channels in
    let depth : ℕ = st.slot.bit_depth in
    let pcm : List ℕ = st.dump.pcm in
    (
      elim (Bool-cases (ltb (length (flac.encode pcm channels depth)) (length pcm))) [
        | inl shorter ↦ rw shorter (back pcm channels depth w)
        | inr longer ↦ rw longer refl
      ],
      flac_leaves-Lossless flac sts back ws,
    )

module _ (T : TreeIpld) (laws : TreeLaws T)
    (compute_seek_tables : List ℕ → Format → Option SeekOffsets) (verify : Bool) (cdc : CdcConfig)
    (wide : cdc.min_size < cdc.max_size) where
  streamed_slots-TreeTrips :
      (leaves : Leaves) (file : List ℕ) (decoded : List DecodedSample) (p : ParsedSlots)
      → sample_slots file none ≡ some p
      → any_packed p.slots ≡ false
      → All (Lossless leaves) (streamed_slots file decoded p.slots)
      → TreeTrips T laws compute_seek_tables verify cdc wide leaves file
          (build_tree T compute_seek_tables leaves file decoded cdc)
  unfolding build_tree
  streamed_slots-TreeTrips leaves file decoded p found plain l =
      let located =
        Numbered-Located file 0 p.slots (sample_slots-Numbered file none p found) plain in
      rw (found, plain)
        (build_streamed-TreeTrips T laws compute_seek_tables verify cdc wide leaves file p.format
          p.slots (streamed_slots file decoded p.slots)
          (streamed_slots-Exact file decoded p.slots located) l)

  -- On every file and all decoded samples, for chunk bounds with `min_size < max_size`, a dag-cbor that
  -- decodes what it encoded and a collision-free hash, one of three holds. sampleSlots returns null and
  -- buildDagV3 throws "unparseable"; or a slot is compressed and buildDagV3 throws for it; or buildDagV3
  -- succeeds, and reassembleV3 over the tree's own blocks, with verification or without, returns
  -- exactly the file and the manifest.
  pub build_dag_v3-reassemble_v3 :
      (file : List ℕ) (decoded : List DecodedSample)
      → ((sample_slots file none ≡ none)
          × (build_dag_v3 T compute_seek_tables file decoded cdc ≡ err unparseable))
        ⊎ ((p : ParsedSlots) × (sample_slots file none ≡ some p)
            × (((any_packed p.slots ≡ true)
                  × (build_dag_v3 T compute_seek_tables file decoded cdc ≡ err has_compressed))
                ⊎ ((any_packed p.slots ≡ false)
                    × (dag : BuiltTree) × (build_dag_v3 T compute_seek_tables file decoded cdc
                        ≡ ok dag)
                    × (reassemble_v3 T (lookup_block dag.blocks) verify dag.root
                        ≡ ok (file, dag.manifest)))))
  unfolding build_dag_v3 reassemble_v3 build_tree
  build_dag_v3-reassemble_v3 file decoded = elim (Option-cases (sample_slots file none)) [
    | inl null ↦ inl (null, rw null refl)
    | inr (p, found) ↦ inr (
      p,
      found,
      elim (Bool-cases (any_packed p.slots)) [
        | inl packed ↦ inl (packed, rw (found, packed) refl)
        | inr plain ↦
            let (dag, built, back) =
              streamed_slots-TreeTrips raw_leaves file decoded p found plain
                (raw_leaves-Lossless (streamed_slots file decoded p.slots)) in
            inr (plain, dag, built, back)
      ],
    )
  ]

  -- For every lossless FLAC, on every file whose slots sampleSlots finds, none of them compressed, and
  -- all decoded samples that are whole frames where they are streamed: buildDagV4 succeeds, and
  -- reassembleV4 over the tree's own blocks, with verification or without, returns exactly the file
  -- and the manifest, whichever samples went through FLAC (for chunk bounds with `min_size < max_size`,
  -- a dag-cbor that decodes what it encoded and a collision-free hash).
  pub build_dag_v4-reassemble_v4 :
      (flac : Flac) (file : List ℕ) (decoded : List DecodedSample) (p : ParsedSlots)
      → FlacLossless flac
      → sample_slots file none ≡ some p
      → any_packed p.slots ≡ false
      → All Whole (streamed_slots file decoded p.slots)
      → (dag : BuiltTree) × (build_dag_v4 T compute_seek_tables flac file decoded cdc ≡ ok dag)
        × (reassemble_v4 T (lookup_block dag.blocks) verify flac dag.root ≡ ok (file, dag.manifest))
  unfolding build_dag_v4 reassemble_v4
  build_dag_v4-reassemble_v4 flac file decoded p back found plain w =
      streamed_slots-TreeTrips (flac_leaves flac) file decoded p found plain
        (flac_leaves-Lossless flac (streamed_slots file decoded p.slots) back w)
