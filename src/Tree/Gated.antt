-- ===== src/Tree/Gated.antt =====
-- The plan that buildDagV2 of packages/repack/src/dag.ts makes, and the samples that it streams.
use trackerstream.Common.{
  ℕ, ◌≤◌, ◌<◌, ◌≡◌, refl, sym, ap, ◌∙◌, Bool, true, false, not, ◌&&◌, Option, List, [], ◌∷◌, ◌==◌,
  length, arith, All, Bool-cases, inl, inr, ◌⊎◌,
}
use mathlib.Core.Path.{subst}
use trackerstream.Common.Result.{ok, >>=-eq-ok}
use trackerstream.Cdc.{CdcConfig}
use trackerstream.Parse.Bytes.{Format}
use trackerstream.Parse.Select.{ParsedSlots}
use trackerstream.Fence.{Checkpoint}
use trackerstream.Dag.Build.{SeekOffsets, Draft, chunk_to_cids}
use trackerstream.Tree.Spans.{merge_spans}
use trackerstream.Tree.Recipe.{add_recipe}
use trackerstream.Tree.Zeroed.{is_packed, build_skeleton_v2}
use trackerstream.Tree.Model.{DecodedSample, Plan}
use trackerstream.Tree.Streamed.{make_plan}
use trackerstream.Tree.Total.{prepare-total}
use trackerstream.Tree.Candidates.{
  SampleV2, NormalIpld, Candidate, candidates_of, candidate_slots, has_index, planned, streamed_of,
  indices, only, tighten,
}
use trackerstream.Tree.Normal.{Prepared, add_table, prepare}

-- The indices of a sample table.
pub table_indices : List SampleV2 → List ℕ
table_indices [] = []
table_indices (s ∷ ss) = s.index ∷ table_indices ss

-- A checkpoint names a sample at least, and each that it names is in the list.
abbrev pub Named : List ℕ → Checkpoint → Type 0
Named streamed c = (1 ≤ length c.samples) × All (λ i. has_index i streamed ≡ true) c.samples

only-Named : (streamed is : List ℕ) → All (λ i. has_index i streamed ≡ true) (only streamed is)
unfolding only
only-Named streamed [] = tt
only-Named streamed (i ∷ is) = elim (Bool-cases (has_index i streamed)) [
  | inl hit ↦ rw hit (hit, only-Named streamed is)
  | inr miss ↦ rw miss (only-Named streamed is)
]

kept-cases : (is : List ℕ) → (is ≡ []) ⊎ ((i : ℕ) × (rest : List ℕ) × (is ≡ i ∷ rest))
kept-cases [] = inl refl
kept-cases (i ∷ is) = inr (i, is, refl)

tighten-Named :
    (streamed : List ℕ) (cs : List Checkpoint) → All (Named streamed) (tighten streamed cs)
unfolding tighten
tighten-Named streamed [] = tt
tighten-Named streamed (c ∷ cs) = elim (kept-cases (only streamed c.samples)) [
  | inl empty ↦ rw (empty, tighten) (tighten-Named streamed cs)
  | inr (i, is, some_kept) ↦
      let named : All (λ j. has_index j streamed ≡ true) (i ∷ is) =
        rw some_kept at (only-Named streamed c.samples) in
      rw (some_kept, tighten) ((omega arith, named), tighten-Named streamed cs)
]

has_index-only :
    (i : ℕ) (streamed is : List ℕ)
    → has_index i streamed ≡ true
    → has_index i is ≡ true
    → has_index i (only streamed is) ≡ true
unfolding has_index only
has_index-only i streamed [] s h = cc
has_index-only i streamed (j ∷ is) s h = elim (Bool-cases (j == i)) [
  | inl same ↦
      let e : j ≡ i = ground arith in
      let hit : has_index j streamed ≡ true = ap (λ k. has_index k streamed) e ∙ s in
      rw (hit, only) (rw (same, has_index) refl)
  | inr apart ↦
      let rest = has_index-only i streamed is s (rw (apart, has_index) at h) in
      elim (Bool-cases (has_index j streamed)) [
        | inl hit ↦ rw (hit, only) (rw (apart, has_index) rest)
        | inr miss ↦ rw (miss, only) rest
      ]
]

planned-tighten :
    (i : ℕ) (streamed : List ℕ) (cs : List Checkpoint)
    → has_index i streamed ≡ true
    → planned i cs ≡ true
    → planned i (tighten streamed cs) ≡ true
unfolding planned tighten has_index
planned-tighten i streamed [] s h = cc
planned-tighten i streamed (c ∷ cs) s h = elim (Bool-cases (has_index i c.samples)) [
  | inl here ↦
      let kept = has_index-only i streamed c.samples s here in
      elim (kept-cases (only streamed c.samples)) [
        | inl empty ↦ cc (rw (empty, has_index) at kept)
        | inr (j, is, some_kept) ↦
            let kept' : has_index i (j ∷ is) ≡ true = rw some_kept at kept in
            rw (some_kept, tighten) (rw (kept', planned) refl)
      ]
  | inr not_here ↦
      let rest = planned-tighten i streamed cs s (rw (not_here, planned) at h) in
      elim (kept-cases (only streamed c.samples)) [
        | inl empty ↦ rw (empty, tighten) rest
        | inr (j, is, some_kept) ↦ rw (some_kept, tighten) (ground (arith, rest))
      ]
]

-- The slot is compressed and its sample stands in no checkpoint.
abbrev pub ungated : List Checkpoint → Candidate → Bool
ungated checkpoints c = is_packed c.slot && not (planned c.slot.index checkpoints)

streamed_of-gated :
    (no_compressed : Bool) (checkpoints : List Checkpoint) (cs : List Candidate)
    → All (λ c. ungated checkpoints c ≡ false) (streamed_of no_compressed checkpoints cs)
unfolding streamed_of
streamed_of-gated no_compressed checkpoints [] = tt
streamed_of-gated true checkpoints (c ∷ cs) =
    let rest = streamed_of-gated true checkpoints cs in
    elim (Bool-cases (is_packed c.slot)) [
      | inr plain ↦ rw (plain, streamed_of) (rw plain refl, rest)
      | inl packed ↦ rw (packed, streamed_of) rest
    ]
streamed_of-gated false checkpoints (c ∷ cs) =
    let rest = streamed_of-gated false checkpoints cs in
    elim (Bool-cases (is_packed c.slot)) [
      | inr plain ↦ rw (plain, streamed_of) (rw plain refl, rest)
      | inl packed ↦ elim (Bool-cases (planned c.slot.index checkpoints)) [
        | inr loose ↦ rw (packed, loose, streamed_of) rest
        | inl gated ↦ rw (packed, gated, streamed_of) (rw (packed, gated) refl, rest)
      ]
    ]

-- Each streamed index is in the list of the streamed ones.
indices_in :
    (all : List ℕ) (cs : List Candidate)
    → ((i : ℕ) → has_index i (indices cs) ≡ true → has_index i all ≡ true)
    → All (λ c. has_index c.slot.index all ≡ true) cs
unfolding indices has_index
indices_in all [] sub = tt
indices_in all (c ∷ cs) sub =
    (sub c.slot.index (ground arith), indices_in all cs (λ i h. sub i (ground arith)))

gated_tightened :
    (streamed : List ℕ) (checkpoints : List Checkpoint) (cs : List Candidate)
    → All (λ c. has_index c.slot.index streamed ≡ true) cs
    → All (λ c. ungated checkpoints c ≡ false) cs
    → All (λ c. ungated (tighten streamed checkpoints) c ≡ false) cs
gated_tightened streamed checkpoints [] m g = tt
gated_tightened streamed checkpoints (c ∷ cs) (m, ms) (g, gs) = (
  elim (Bool-cases (is_packed c.slot)) [
    | inr plain ↦ rw plain refl
    | inl packed ↦ elim (Bool-cases (planned c.slot.index checkpoints)) [
      | inl gated ↦ rw (packed, planned-tighten c.slot.index streamed checkpoints m gated) refl
      | inr loose ↦ cc (rw (packed, loose) at g)
    ]
  ],
  gated_tightened streamed checkpoints cs ms gs,
)

module _ (T : NormalIpld) where
  add_table-indices :
      (cdc : CdcConfig) (cs : List Candidate) (d : Draft) (samples : List SampleV2) (d' : Draft)
      → add_table T cdc cs d ≡ ok (samples, d')
      → table_indices samples ≡ indices cs
  unfolding add_table table_indices indices
  add_table-indices cdc [] d samples d' e =
      let none_added : [] ≡ samples = cc in ap table_indices (sym none_added)
  add_table-indices cdc (c ∷ cs) d samples d' e =
      let ((chunks, d1), first, e1) = >>=-eq-ok (chunk_to_cids T.base cdc c.dump.pcm d) _ e in
      let ((more, d2), rest, e2) = >>=-eq-ok (add_table T cdc cs d1) _ e1 in
      let whole : record {
        index = c.slot.index;
        frames = c.dump.frames;
        channels = c.slot.channels;
        bit_depth = c.slot.bit_depth;
        chunks = chunks;
      }
            ∷ more
          ≡ samples =
        cc in
      ap table_indices (sym whole)
      ∙ ap (◌∷◌ c.slot.index) (add_table-indices cdc cs d1 more d2 rest)

  prepare_lem :
      (compute_seek_tables : List ℕ → Format → Option SeekOffsets) (cdc : CdcConfig) (file : List ℕ)
      (decoded : List DecodedSample) (parsed : ParsedSlots) (no_compressed : Bool) (p : Prepared)
      → prepare T compute_seek_tables cdc file decoded parsed no_compressed ≡ ok p
      → All (Named (table_indices p.samples)) p.plan.checkpoints
        × All (λ c. ungated p.plan.checkpoints c ≡ false) p.streamed
  unfolding prepare
  prepare_lem compute_seek_tables cdc file decoded parsed no_compressed p e =
      let candidates : List Candidate = candidates_of decoded parsed.slots in
      let full : Plan =
        make_plan (candidate_slots candidates) (compute_seek_tables file parsed.format) in
      let streamed : List Candidate = streamed_of no_compressed full.checkpoints candidates in
      let ((samples, d), added, e1) =
        >>=-eq-ok (add_table T cdc streamed (record { blocks = []; num_chunks = 0 })) _ e in
      let sk : List ℕ = (build_skeleton_v2 file (candidate_slots streamed)).0 in
      let (((chunks, layout), d'), recipe, e2) =
        >>=-eq-ok
          (add_recipe T.base cdc sk
            (merge_spans (build_skeleton_v2 file (candidate_slots streamed)).1 (length sk)) 0 d)
          _ e1 in
      let whole : record {
        streamed = streamed;
        samples = samples;
        plan = record full { checkpoints = tighten (indices streamed) full.checkpoints };
        skeleton = sk;
        skeleton_chunks = chunks;
        skeleton_layout = layout;
        draft = d';
      }
          ≡ p =
        cc in
      let named : All (Named (table_indices samples))
          (tighten (indices streamed) full.checkpoints) =
        subst (λ is. All (Named is) (tighten (indices streamed) full.checkpoints))
          (sym (
            add_table-indices cdc streamed (record { blocks = []; num_chunks = 0 }) samples d
              added))
          (tighten-Named (indices streamed) full.checkpoints) in
      let gated =
        gated_tightened (indices streamed) full.checkpoints streamed
          (indices_in (indices streamed) streamed (λ i h. h))
          (streamed_of-gated no_compressed full.checkpoints candidates) in
      subst
        (λ q.
          All (Named (table_indices q.samples)) q.plan.checkpoints
          × All (λ c. ungated q.plan.checkpoints c ≡ false) q.streamed)
        whole (named, gated)

  module _ (compute_seek_tables : List ℕ → Format → Option SeekOffsets) (cdc : CdcConfig)
      (wide : cdc.min_size < cdc.max_size) (file : List ℕ) (decoded : List DecodedSample) where
    -- On every file and all decoded samples, compressed slots or not, for chunk bounds with
    -- `min_size < max_size`: buildDagV2 gets to its gate, and there each checkpoint of the plan names a
    -- sample at least, each sample that a checkpoint names is in the sample table, so that no client
    -- waits for one that never comes, and each compressed slot that is streamed stands in a checkpoint,
    -- so that none sounds before it has come.
    pub prepare-Named :
        (parsed : ParsedSlots) (no_compressed : Bool)
        → (p : Prepared) × (prepare T compute_seek_tables cdc file decoded parsed no_compressed
            ≡ ok p)
          × All (Named (table_indices p.samples)) p.plan.checkpoints
          × All (λ c. ungated p.plan.checkpoints c ≡ false) p.streamed
    prepare-Named parsed no_compressed =
        let (p, run, _) =
          prepare-total T compute_seek_tables cdc wide file decoded parsed no_compressed in
        let (named, gated) =
          prepare_lem compute_seek_tables cdc file decoded parsed no_compressed p run in
        (p, run, named, gated)
