-- ===== src/Tree/Gate.antt =====
-- The gate of buildDagV2 in packages/repack/src/dag.ts: it asks for one more build at most, and for none
-- where streaming the compressed samples saves enough.
use trackerstream.Common.{
  ℕ, suc, ◌+◌, ◌≤◌, ◌<◌, ◌≡◌, refl, ap, ◌∙◌, Bool, true, false, Option, none, some, List, ltb,
  length, arith, Bool-cases, Option-cases, inl, inr, ◌⊎◌, ltb→lt,
}
use trackerstream.Common.Result.{ok, err}
use trackerstream.Cdc.{CdcConfig}
use trackerstream.Parse.Bytes.{Format}
use trackerstream.Parse.Select.{ParsedSlots, sample_slots}
use trackerstream.Dag.Store.{unparseable}
use trackerstream.Dag.Build.{SeekOffsets}
use trackerstream.Tree.Model.{DecodedSample}
use trackerstream.Tree.Streamed.{any_packed}
use trackerstream.Tree.Candidates.{NormalIpld, candidates_of, candidate_slots, warm_bytes}
use trackerstream.Tree.Normal.{Prepared, prepare, saves_little, finish_prepared, build_calls}
use trackerstream.Tree.Total.{prepare-total}
use trackerstream.Tree.Fetched.{streamed_of-Unpacked, Unpacked-any_packed}

-- What a client fetches before the first sound: the structure of the skeleton and the samples required
-- at the start.
abbrev pub warm_set : Prepared → ℕ
warm_set p = warm_bytes p.skeleton_chunks p.plan.checkpoints p.samples p.draft.blocks

-- A compressed sample is streamed.
abbrev pub streams_packed : Prepared → Bool
streams_packed p = any_packed (candidate_slots p.streamed)

module _ (T : NormalIpld) (compute_seek_tables : List ℕ → Format → Option SeekOffsets)
    (cdc : CdcConfig) (wide : cdc.min_size < cdc.max_size) (file : List ℕ)
    (decoded : List DecodedSample) where
  -- With `noCompressedStream` no compressed sample is streamed.
  prepare-plain :
      (parsed : ParsedSlots)
      → (p : Prepared) × (prepare T compute_seek_tables cdc file decoded parsed true ≡ ok p)
        × (streams_packed p ≡ false)
  prepare-plain parsed =
      let (p, run, same) = prepare-total T compute_seek_tables cdc wide file decoded parsed true in
      let unpacked = streamed_of-Unpacked true _ (candidates_of decoded parsed.slots) refl in
      (p, run, ap (λ s. any_packed (candidate_slots s)) same ∙ Unpacked-any_packed _ unpacked)

  -- What the call returns, given the slots: the first build where it streams no compressed sample or the
  -- bytes of its warm set and 128 KiB are at most the file's, and else the build with `noCompressedStream`.
  abbrev pub GatedResult : ℕ → ParsedSlots → Bool → Type 0
  GatedResult more parsed no_compressed =
      (first : Prepared) × (prepare T compute_seek_tables cdc file decoded parsed no_compressed
        ≡ ok first)
      × (((build_calls T compute_seek_tables file decoded cdc (suc (suc more)) no_compressed
              ≡ ok (finish_prepared T compute_seek_tables cdc file decoded parsed first))
            × ((streams_packed first ≡ false) ⊎ (warm_set first + 131072 ≤ length file)))
          ⊎ ((second : Prepared) × (prepare T compute_seek_tables cdc file decoded parsed true
                ≡ ok second)
              × (streams_packed second ≡ false)
              × (build_calls T compute_seek_tables file decoded cdc (suc (suc more)) no_compressed
                  ≡ ok (finish_prepared T compute_seek_tables cdc file decoded parsed second))
              × (no_compressed ≡ false)
              × (streams_packed first ≡ true)
              × (length file < warm_set first + 131072)))

  gate_cases :
      (more : ℕ) (parsed : ParsedSlots)
      → sample_slots file none ≡ some parsed
      → (no_compressed : Bool) → GatedResult more parsed no_compressed
  unfolding build_calls saves_little
  gate_cases more parsed found true =
      let (p, run, plain) = prepare-plain parsed in (p, run, inl (simp (found, run), inl plain))
  gate_cases more parsed found false =
      let (p, run, _) = prepare-total T compute_seek_tables cdc wide file decoded parsed false in
      let (q, run', plain) = prepare-plain parsed in
      elim (Bool-cases (streams_packed p)) [
        | inr unpacked ↦ (p, run, inl (simp (found, run, unpacked), inl unpacked))
        | inl packed ↦ elim (Bool-cases (ltb (length file) (warm_set p + 131072))) [
          | inl little ↦ (
            p,
            run,
            inr (
              q,
              run',
              plain,
              simp (found, run, packed, little, run'),
              refl,
              packed,
              ltb→lt (length file) (warm_set p + 131072) little,
            ),
          )
          | inr much ↦ (p, run, inl (simp (found, run, packed, much), inr (ground (arith, much))))
        ]
      ]

  -- For chunk bounds with `min_size < max_size`, on every file, all decoded samples and either value of
  -- `noCompressedStream`, and however many calls of itself beyond two are granted: buildDagV2 throws
  -- "unparseable" where sampleSlots returns null. Otherwise its result is that of the first build where this
  -- streams no compressed sample, or where the bytes to fetch before the first sound are at least 128 KiB
  -- fewer than the file's; and else that of the build with `noCompressedStream`, which streams none.
  pub build_calls-gate :
      (more : ℕ) (no_compressed : Bool)
      → ((sample_slots file none ≡ none)
          × (build_calls T compute_seek_tables file decoded cdc (suc (suc more)) no_compressed
              ≡ err unparseable))
        ⊎ ((parsed : ParsedSlots) × (sample_slots file none ≡ some parsed)
            × GatedResult more parsed no_compressed)
  unfolding build_calls saves_little
  build_calls-gate more no_compressed = elim (Option-cases (sample_slots file none)) [
    | inl null ↦ inl (null, rw null refl)
    | inr (parsed, found) ↦ inr (parsed, found, gate_cases more parsed found no_compressed)
  ]
