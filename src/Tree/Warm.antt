-- ===== src/Tree/Warm.antt =====
-- requiredAtZero of packages/repack/src/dag.ts, which sizes the warm set of a bake, and the fence of
-- packages/ui/src/audio/fence.ts, which waits for it.
use trackerstream.Common.{
  ℕ, suc, ◌+◌, ◌-◌, min, ◌<◌, ◌≡◌, refl, sym, ap, ◌∙◌, Option, none, some, List, [], ◌∷◌, leb, ◌==◌,
  if◌then◌else◌, length, take, drop, take-nil, drop-nil, false, arith, Bool-cases, inl, inr,
}
use trackerstream.Fence.{
  Checkpoint, sort_checkpoints, gather, first_index, index_past, new_fence, floor_idx, union_range,
  required_at,
}
use trackerstream.Fence.Floor.{
  Ascending, count_upto, last_index, sort_checkpoints-Ascending, floor_idx_lem,
}

-- The loop `if (cps[i].order <= 0) floor = i`; `none` is -1.
floor_at_zero : List Checkpoint → ℕ → Option ℕ → Option ℕ
floor_at_zero [] i floor = floor
floor_at_zero (c ∷ cs) i floor = floor_at_zero cs (i + 1) (if leb c.order 0 then some i else floor)

pub required_at_zero : List Checkpoint → List ℕ
required_at_zero checkpoints =
    let cps = sort_checkpoints checkpoints in
    let floor = floor_at_zero cps 0 none in
    let lo = first_index floor in
    let stop = min (index_past floor 1) (length cps) in
    if length cps == 0 then [] else gather (take (stop - lo) (drop lo cps)) []

floor_at_zero_late :
    (low : ℕ) (cs : List Checkpoint) (i : ℕ) (floor : Option ℕ)
    → 0 < low
    → Ascending low cs
    → floor_at_zero cs i floor ≡ floor
unfolding floor_at_zero
floor_at_zero_late low [] i floor h a = refl
floor_at_zero_late low (c ∷ cs) i floor h (l, a) =
    let late : leb c.order 0 ≡ false = ground arith in
    rw late (floor_at_zero_late c.order cs (i + 1) floor (omega arith) a)

count_upto_late :
    (low : ℕ) (cs : List Checkpoint) → 0 < low → Ascending low cs → count_upto cs 0 ≡ 0
count_upto_late low [] h a = refl
count_upto_late low (c ∷ cs) h (l, a) = ground (arith, count_upto_late c.order cs)

last_index-next : (m : ℕ) → some m ≡ last_index (m + 1)
last_index-next m = ap last_index (let e : suc m ≡ m + 1 = omega arith in e)

floor_at_zero-count_upto :
    (low i : ℕ) (cs : List Checkpoint)
    → Ascending low cs
    → floor_at_zero cs i (last_index i) ≡ last_index (i + count_upto cs 0)
unfolding floor_at_zero
floor_at_zero-count_upto low i [] a = ap last_index (omega arith)
floor_at_zero-count_upto low i (c ∷ cs) (l, a) = elim (Bool-cases (leb c.order 0)) [
  | inl early ↦ rw early (
      ap (floor_at_zero cs (i + 1)) (last_index-next i)
      ∙ floor_at_zero-count_upto c.order (i + 1) cs a
      ∙ ap last_index (omega arith))
  | inr late ↦
      let behind : 0 < c.order = ground arith in
      let none_more = count_upto_late c.order cs behind a in
      rw late (
        floor_at_zero_late c.order cs (i + 1) (last_index i) behind a ∙ ap last_index (omega arith))
]

-- With no checkpoints nothing is gathered, whatever the range.
window_or_nil :
    (cps : List Checkpoint) (floor : Option ℕ)
    → (if length cps == 0
        then []
        else gather
            (take
              (min (index_past floor 1) (length cps) - first_index floor)
              (drop (first_index floor) cps))
            [])
      ≡ gather
          (take
            (min (index_past floor 1) (length cps) - first_index floor)
            (drop (first_index floor) cps))
          []
unfolding gather
window_or_nil [] floor = sym (
    ap (λ k. gather k [])
      (ap (take (min (index_past floor 1) 0 - first_index floor)) (drop-nil (first_index floor))
        ∙ take-nil (min (index_past floor 1) 0 - first_index floor)))
window_or_nil (c ∷ cs) floor = ground arith

-- For every plan: requiredAtZero lists the samples that a fence over the plan requires at order 0, in
-- the same order.
pub required_at_zero-required_at :
    (checkpoints : List Checkpoint) (lookahead : ℕ)
    → required_at_zero checkpoints ≡ required_at (new_fence checkpoints lookahead) 0
unfolding required_at_zero required_at new_fence union_range floor_idx
required_at_zero-required_at checkpoints lookahead =
    let cps : List Checkpoint = sort_checkpoints checkpoints in
    let a = sort_checkpoints-Ascending checkpoints in
    rw
      (
        floor_at_zero-count_upto 0 0 cps a
            ∙ ap last_index (let e : 0 + count_upto cps 0 ≡ count_upto cps 0 = omega arith in e),
        floor_idx_lem cps 0 a,
      )
      (window_or_nil cps (last_index (count_upto cps 0)))
