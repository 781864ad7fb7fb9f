-- ===== src/Tree/Recipe.antt =====
-- The layout recipe of a skeleton in packages/repack/src/dag.ts: the block of buildDagV2 that splits a
-- skeleton at its zero runs, and assembleSkeletonV2.
use mathlib.Core.List.{flatten}
use trackerstream.Common.{
  ℕ, zero, suc, ◌+◌, ◌-◌, ◌≤◌, ◌<◌, ◌≡◌, refl, sym, ap, ◌∙◌, Bool, List, [], ◌∷◌, ◌++◌, ltb,
  if◌then◌else◌, arith, length, take, drop, replicate, drop_all, take-drop-append, append-nil,
  Bool-cases, inl, inr,
}
use trackerstream.Common.Result.{Result, ok, err, ◌>>=◌}
use trackerstream.Cdc.{CdcConfig}
use trackerstream.Dag.Store.{Fault, out_of_range, Cid, BlockGetter, lookup_block}
use trackerstream.Dag.Build.{subarray, Ipld, Draft, chunk_to_cids}
use trackerstream.Dag.Reassemble.{concat_parts, fetch_parts}
use trackerstream.Dag.Holds.{Certified, Holds, Holds-Grows}
use trackerstream.Dag.Stored.{IpldLaws, Stored, chunk_to_cids-Stored}
use trackerstream.Dag.Rebuild.{fetch_parts-Holds}
use trackerstream.Tree.Spans.{Span, Separated}

module _ (I : Ipld) (cdc : CdcConfig) (skeleton : List ℕ) where
  -- `if (a > pos)`: the chunks of the structure before a zero run.
  unfoldable pub add_segment : ℕ → ℕ → Draft → Result Fault (List Cid × Draft)
  add_segment from to d =
      if ltb from to then chunk_to_cids I cdc (subarray skeleton from to) d else ok ([], d)

  -- The loop over the merged zero runs and the tail behind it: the chunks and the layout.
  unfoldable pub add_recipe : List Span → ℕ → Draft → Result Fault ((List Cid × List ℕ) × Draft)
  add_recipe [] at d =
      if ltb at (length skeleton)
      then (do
        (cids, d') ← chunk_to_cids I cdc (drop at skeleton) d
        ok ((cids, length cids ∷ 0 ∷ []), d'))
      else ok (([], []), d)
  add_recipe (s ∷ ss) at d = do
    (cids, d') ← add_segment at s.start d
    ((more, layout), d'') ← add_recipe ss s.stop d'
    ok ((cids ++ more, length cids ∷ (s.stop - s.start) ∷ layout), d'')

-- `nc` more parts, put together, and the parts behind them; a part that is missing throws.
take_parts : ℕ → List (List ℕ) → Result Fault (List ℕ × List (List ℕ))
take_parts zero parts = ok ([], parts)
take_parts (suc n) [] = err out_of_range
take_parts (suc n) (p ∷ parts) = do (bytes, rest) ← take_parts n parts; ok (p ++ bytes, rest)

-- The loops over a layout that is not empty, on a buffer of their total length; `?? 0` at an odd end.
pub assemble_runs : List (List ℕ) → List ℕ → Result Fault (List ℕ)
assemble_runs parts [] = ok []
assemble_runs parts (nc ∷ []) = do (bytes, rest) ← take_parts nc parts; ok bytes
assemble_runs parts (nc ∷ z ∷ layout) = do
  (bytes, rest) ← take_parts nc parts
  tail ← assemble_runs rest layout
  ok (bytes ++ (replicate z 0 ++ tail))

pub assemble_skeleton : List (List ℕ) → List ℕ → Result Fault (List ℕ)
assemble_skeleton parts [] = ok (concat_parts parts)
assemble_skeleton parts (nc ∷ layout) = assemble_runs parts (nc ∷ layout)

-- The bytes of each run are zeros, and the run ends inside the skeleton.
abbrev pub ZeroRuns : List ℕ → List Span → Type 0
ZeroRuns skeleton [] = Unit {0}
ZeroRuns skeleton (s ∷ ss) =
    (s.stop ≤ length skeleton)
    × (subarray skeleton s.start s.stop ≡ replicate (s.stop - s.start) 0)
    × ZeroRuns skeleton ss

take_parts-append :
    (ps qs : List (List ℕ)) → take_parts (length ps) (ps ++ qs) ≡ ok (flatten ps, qs)
unfolding take_parts flatten
take_parts-append [] qs = refl
take_parts-append (p ∷ ps) qs = rw (take_parts-append ps qs)

assemble_runs-append :
    (ps qs : List (List ℕ)) (n z : ℕ) (layout tail : List ℕ)
    → n ≡ length ps
    → assemble_runs qs layout ≡ ok tail
    → assemble_runs (ps ++ qs) (n ∷ z ∷ layout) ≡ ok (flatten ps ++ (replicate z 0 ++ tail))
unfolding assemble_runs
assemble_runs-append ps qs n z layout tail e h = rw (e, take_parts-append ps qs, h)

Holds-length :
    (sha256 : List ℕ → List ℕ) (get : BlockGetter) (cids : List Cid) (parts : List (List ℕ))
    → Holds sha256 get cids parts
    → length cids ≡ length parts
Holds-length sha256 get [] [] h = refl
Holds-length sha256 get [] (p ∷ ps) h = absurd h
Holds-length sha256 get (c ∷ cs) [] h = absurd h
Holds-length sha256 get (c ∷ cs) (p ∷ ps) (s, h) = ap suc (Holds-length sha256 get cs ps h)

Holds-append :
    (sha256 : List ℕ → List ℕ) (get : BlockGetter) (cs ds : List Cid) (ps qs : List (List ℕ))
    → Holds sha256 get cs ps
    → Holds sha256 get ds qs
    → Holds sha256 get (cs ++ ds) (ps ++ qs)
Holds-append sha256 get [] ds [] qs h k = k
Holds-append sha256 get [] ds (p ∷ ps) qs h k = absurd h
Holds-append sha256 get (c ∷ cs) ds [] qs h k = absurd h
Holds-append sha256 get (c ∷ cs) ds (p ∷ ps) qs (s, h) k =
    (s, Holds-append sha256 get cs ds ps qs h k)

subarray-drop :
    (b : List ℕ) (from to : ℕ) → from ≤ to → subarray b from to ++ drop to b ≡ drop from b
subarray-drop b from to h =
    ap (λ n. subarray b from to ++ drop n b) (let e : to ≡ from + (to - from) = omega arith in e)
    ∙ take-drop-append from (to - from) b

module _ (I : Ipld) (laws : IpldLaws I) (cdc : CdcConfig) (wide : cdc.min_size < cdc.max_size)
    (skeleton : List ℕ) where
  add_segment-Stored :
      (from to : ℕ) (d : Draft)
      → Certified I.sha256 d.blocks
      → (cids : List Cid) × (d' : Draft) × (parts : List (List ℕ)) × (add_segment I cdc skeleton
            from to d
          ≡ ok (cids, d'))
        × Stored I laws d.blocks cids parts d'.blocks
        × (flatten parts ≡ subarray skeleton from to)
  unfolding add_segment flatten
  add_segment-Stored from to d c = elim (Bool-cases (ltb from to)) [
    | inl some_bytes ↦
        let (cids, d', parts, run, stored, tiles) =
          chunk_to_cids-Stored I laws cdc (subarray skeleton from to) d wide c in
        (cids, d', parts, rw (some_bytes, run), stored, tiles)
    | inr empty ↦
        let nothing : to - from ≡ 0 = ground arith in
        (
          [],
          d,
          [],
          rw empty,
          record { certified = c; grows = λ k x e. e; holds = tt },
          ap (λ n. take n (drop from skeleton)) (sym nothing),
        )
  ]

  -- The outcome of a recipe from `at` on.
  abbrev pub Built : List Span → ℕ → Draft → Type 0
  Built ss at d =
      (cids : List Cid) × (layout : List ℕ) × (d' : Draft) × (parts : List (List ℕ)) × (add_recipe I
          cdc skeleton ss at d
        ≡ ok ((cids, layout), d'))
      × Stored I laws d.blocks cids parts d'.blocks
      × (assemble_runs parts layout ≡ ok (drop at skeleton))
      × (assemble_skeleton parts layout ≡ ok (drop at skeleton))

  pub add_recipe-Built :
      (low : ℕ) (ss : List Span) (at : ℕ) (d : Draft)
      → at ≤ low
      → Separated low ss
      → ZeroRuns skeleton ss
      → Certified I.sha256 d.blocks
      → Built ss at d
  unfolding add_recipe assemble_runs assemble_skeleton flatten concat_parts
  add_recipe-Built low [] at d h a z c = elim (Bool-cases (ltb at (length skeleton))) [
    | inl some_bytes ↦
        let (cids, d', parts, run, stored, tiles) =
          chunk_to_cids-Stored I laws cdc (drop at skeleton) d wide c in
        let whole : assemble_runs parts (length cids ∷ 0 ∷ []) ≡ ok (drop at skeleton) =
          ap (λ p. assemble_runs p (length cids ∷ 0 ∷ [])) (sym (append-nil parts))
          ∙ assemble_runs-append parts [] (length cids) 0 [] []
              (Holds-length I.sha256 (lookup_block d'.blocks) cids parts stored.holds) refl
          ∙ ap ok (append-nil (flatten parts) ∙ tiles) in
        (cids, length cids ∷ 0 ∷ [], d', parts, rw (some_bytes, run), stored, whole, whole)
    | inr empty ↦
        let nothing : drop at skeleton ≡ [] = drop_all at skeleton (ground arith) in
        (
          [],
          [],
          d,
          [],
          rw empty,
          record { certified = c; grows = λ k x e. e; holds = tt },
          ap ok (sym nothing),
          ap ok (sym nothing),
        )
  ]
  add_recipe-Built low (s ∷ ss) at d h (l, n, a) (inside, zeros, z) c =
      let (cids, d', parts, run, stored, tiles) = add_segment-Stored at s.start d c in
      let (more, layout, d'', others, run', stored', back, _) =
        add_recipe-Built (s.stop + 1) ss s.stop d' (omega arith) a z stored.certified in
      let kept = Holds-Grows I.sha256 d'.blocks d''.blocks cids parts stored'.grows stored.holds in
      let whole : assemble_runs (parts ++ others) (length cids ∷ (s.stop - s.start) ∷ layout)
          ≡ ok (drop at skeleton) =
        assemble_runs-append parts others (length cids) (s.stop - s.start) layout
          (drop s.stop skeleton)
          (Holds-length I.sha256 (lookup_block d'.blocks) cids parts stored.holds) back
        ∙ ap ok (
            ap (λ t. flatten parts ++ (t ++ drop s.stop skeleton)) (sym zeros)
            ∙ ap (λ t. flatten parts ++ t) (subarray-drop skeleton s.start s.stop (omega arith))
            ∙ ap (λ t. t ++ drop s.start skeleton) tiles
            ∙ subarray-drop skeleton at s.start (omega arith)) in
      (
        cids ++ more,
        length cids ∷ (s.stop - s.start) ∷ layout,
        d'',
        parts ++ others,
        rw (run, run'),
        record {
          certified = stored'.certified;
          grows = λ k x e. stored'.grows k x (stored.grows k x e);
          holds =
              Holds-append I.sha256 (lookup_block d''.blocks) cids more parts others kept
                stored'.holds;
        },
        whole,
        whole,
      )

  -- For every skeleton, and separate zero runs inside it as mergeSpans gives them: the recipe of the
  -- build succeeds, its chunks are served by the build's blocks, with verification or without, and
  -- assembleSkeletonV2 makes exactly the skeleton of them and the layout (for chunk bounds with
  -- `min_size < max_size`, blocks stored under their hashes, and a collision-free hash).
  pub add_recipe-assemble_skeleton :
      (ss : List Span) (d : Draft) (verify : Bool)
      → Separated 0 ss
      → ZeroRuns skeleton ss
      → Certified I.sha256 d.blocks
      → (cids : List Cid) × (layout : List ℕ) × (d' : Draft) × (parts : List (List ℕ)) × (add_recipe
            I cdc skeleton ss 0 d
          ≡ ok ((cids, layout), d'))
        × (fetch_parts I (lookup_block d'.blocks) verify cids ≡ ok parts)
        × (assemble_skeleton parts layout ≡ ok skeleton)
  add_recipe-assemble_skeleton ss d verify a z c =
      let (cids, layout, d', parts, run, stored, _, back) =
        add_recipe-Built 0 ss 0 d (omega arith) a z c in
      (
        cids,
        layout,
        d',
        parts,
        run,
        fetch_parts-Holds I laws (lookup_block d'.blocks) verify cids parts stored.holds,
        back,
      )
