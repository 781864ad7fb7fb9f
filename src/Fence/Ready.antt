-- ===== src/Fence/Ready.antt =====
-- What the answer of `ready` in packages/ui/src/audio/fence.ts promises to the player.
use trackerstream.Common.{
  ℕ, zero, suc, ◌+◌, ◌-◌, ◌≤◌, ◌⊎◌, ◌≡◌, refl, sym, ap, ◌∙◌, true, false, some, List, [], ◌∷◌, ◌==◌,
  length, get_elem?, take, drop, arith, Bool-cases, inl, inr,
}
use trackerstream.Fence.{Checkpoint, Fence, floor_idx, all_provided, union_range, ready}
use trackerstream.Fence.Floor.{Ascending, count_upto}
use trackerstream.Fence.Window.{
  Reached, Reached-Ascending, all_cps, union_range-window, all_cps-get, get-length,
  all_provided-nil, all_cps-window,
}

wide-base :
    (f : Fence) (order : ℕ)
    → Ascending 0 f.cps
    → all_provided f.provided (union_range f (floor_idx f order) (1 + f.lookahead)) ≡ true
    → all_provided f.provided (union_range f (floor_idx f order) 1) ≡ true
wide-base f order a h =
    union_range-window f.provided f order 1 a
    ∙ all_cps-window f.provided f.cps (count_upto f.cps order) f.lookahead
        (sym (union_range-window f.provided f order (1 + f.lookahead) a) ∙ h)

-- A fence that answers yes has the samples of the floor checkpoint and of the next one.
ready-base :
    (f : Fence) (order : ℕ)
    → Ascending 0 f.cps
    → (ready f order).0 ≡ true
    → all_provided f.provided (union_range f (floor_idx f order) 1) ≡ true
unfolding ready
ready-base f order a h =
    ground (
      arith,
      wide-base f order a,
      all_provided-nil f.provided (union_range f (floor_idx f order) 1),
    )

-- In every fence that calls reach: when `ready` allows playback at an order, every sample of the last
-- checkpoint at or before that order is provided, and so is every sample of the checkpoint after it.
-- (With `count_upto` = n, these are the checkpoints n - 1 and n.)
pub ready-all_provided :
    (plan : List Checkpoint) (lookahead : ℕ) (f : Fence) (order j : ℕ) (c : Checkpoint)
    → Reached plan lookahead f
    → (ready f order).0 ≡ true
    → get_elem? f.cps j ≡ some c
    → j ≤ count_upto f.cps order
    → count_upto f.cps order ≤ j + 1
    → all_provided f.provided c.samples ≡ true
ready-all_provided plan lookahead f order j c r h g low high =
    let a = Reached-Ascending plan lookahead f r in
    let base = sym (union_range-window f.provided f order 1 a) ∙ ready-base f order a h in
    let within = get-length f.cps j c g in
    all_cps-get f.provided f.cps (count_upto f.cps order - 1) _ j c base g (omega arith)
      (omega arith)

-- An answer leaves the fence alone, or begins a stall, or ends one.
abbrev Outcome : Fence → ℕ → Type 0
Outcome f order =
    (ready f order ≡ (true, f))
    ⊎ ((ready f order ≡ (false, f)) × (f.stalled ≡ true))
    ⊎ (((ready f order ≡ (false, record f { stalled = true }))
          × ((length (union_range f (floor_idx f order) 1) == 0) ≡ false)
          × (all_provided f.provided (union_range f (floor_idx f order) (1 + f.lookahead)) ≡ false))
        ⊎ ((ready f order ≡ (true, record f { stalled = false }))
            × (all_provided f.provided (union_range f (floor_idx f order) 1) ≡ true)))

ready-Outcome : (f : Fence) (order : ℕ) → Ascending 0 f.cps → Outcome f order
unfolding ready
ready-Outcome f order a = elim (Bool-cases (length (union_range f (floor_idx f order) 1) == 0)) [
  | inl empty ↦ inl (rw empty)
  | inr some_needed ↦ elim (Bool-cases f.stalled) [
    | inl held ↦
        elim (Bool-cases
          (all_provided f.provided (union_range f (floor_idx f order) (1 + f.lookahead)))) [
            | inl there ↦
                inr (inr (inr (simp (some_needed, held, there), wide-base f order a there)))
            | inr missing ↦ inr (inl (simp (some_needed, held, missing), held))
          ]
    | inr free ↦ elim (Bool-cases (all_provided f.provided (union_range f (floor_idx f order) 1))) [
      | inl there ↦ inl (simp (some_needed, free, there))
      | inr missing ↦ inr (
          inr (
            inl (
              simp (some_needed, free, missing),
              some_needed,
              ground (arith, wide-base f order a),
            )))
    ]
  ]
]

ready-stalled :
    (f : Fence) (order : ℕ)
    → (length (union_range f (floor_idx f order) 1) == 0) ≡ false
    → all_provided f.provided (union_range f (floor_idx f order) (1 + f.lookahead)) ≡ false
    → ready (record f { stalled = true }) order ≡ (false, record f { stalled = true })
unfolding ready floor_idx union_range
ready-stalled f order needed missing = rw (needed, missing)

ready-resumed :
    (f : Fence) (order : ℕ)
    → all_provided f.provided (union_range f (floor_idx f order) 1) ≡ true
    → ready (record f { stalled = false }) order ≡ (true, record f { stalled = false })
unfolding ready floor_idx union_range
ready-resumed f order there = ground (arith, there)

ready_again_lem :
    (f : Fence) (order : ℕ)
    → Outcome f order
    → (ready (ready f order).1 order ≡ ready f order)
      × ((ready f order).1.provided ≡ f.provided)
      × (((ready f order).0 ≡ true) ⊎ ((ready f order).1.stalled ≡ true))
ready_again_lem f order (inl same) =
    (ap (λ q. ready q.1 order) same, ap (λ q. q.1.provided) same, inl (ap (λ q. q.0) same))
ready_again_lem f order (inr (inl (same, held))) = (
  ap (λ q. ready q.1 order) same,
  ap (λ q. q.1.provided) same,
  inr (ap (λ q. q.1.stalled) same ∙ held),
)
ready_again_lem f order (inr (inr (inl (held, needed, missing)))) = (
  ap (λ q. ready q.1 order) held ∙ ready-stalled f order needed missing ∙ sym held,
  ap (λ q. q.1.provided) held,
  inr (ap (λ q. q.1.stalled) held),
)
ready_again_lem f order (inr (inr (inr (resumed, there)))) = (
  ap (λ q. ready q.1 order) resumed ∙ ready-resumed f order there ∙ sym resumed,
  ap (λ q. q.1.provided) resumed,
  inl (ap (λ q. q.0) resumed),
)

-- In every fence that calls reach: asking again at the same order gives the same answer and leaves the
-- fence as it is; the first time, an answer of no turns buffering on, and no call touches the samples.
pub ready_again :
    (plan : List Checkpoint) (lookahead : ℕ) (f : Fence) (order : ℕ)
    → Reached plan lookahead f
    → (ready (ready f order).1 order ≡ ready f order)
      × ((ready f order).1.provided ≡ f.provided)
      × (((ready f order).0 ≡ true) ⊎ ((ready f order).1.stalled ≡ true))
ready_again plan lookahead f order r =
    ready_again_lem f order (ready-Outcome f order (Reached-Ascending plan lookahead f r))

all_cps-drop :
    (p : List ℕ) (cs : List Checkpoint) (n : ℕ) → all_cps p cs ≡ true → all_cps p (drop n cs) ≡ true
all_cps-drop p cs zero h = h
all_cps-drop p [] (suc n) h = refl
all_cps-drop p (c ∷ cs) (suc n) h = ground (arith, all_cps-drop p cs n)

all_cps-take_any :
    (p : List ℕ) (cs : List Checkpoint) (n : ℕ) → all_cps p cs ≡ true → all_cps p (take n cs) ≡ true
all_cps-take_any p cs zero h = refl
all_cps-take_any p [] (suc n) h = refl
all_cps-take_any p (c ∷ cs) (suc n) h = ground (arith, all_cps-take_any p cs n)

pub union_range-all_cps :
    (f : Fence) (order more : ℕ)
    → Ascending 0 f.cps
    → all_cps f.provided f.cps ≡ true
    → all_provided f.provided (union_range f (floor_idx f order) more) ≡ true
union_range-all_cps f order more a h =
    union_range-window f.provided f order more a
    ∙ all_cps-take_any f.provided (drop (count_upto f.cps order - 1) f.cps) _
        (all_cps-drop f.provided f.cps (count_upto f.cps order - 1) h)

-- In every fence that calls reach: once all samples of all checkpoints are provided, `ready` allows
-- playback at every order, stalled or not.
pub ready-all_cps :
    (plan : List Checkpoint) (lookahead : ℕ) (f : Fence) (order : ℕ)
    → Reached plan lookahead f
    → all_cps f.provided f.cps ≡ true
    → (ready f order).0 ≡ true
unfolding ready
ready-all_cps plan lookahead f order r h =
    let a = Reached-Ascending plan lookahead f r in
    ground
      (arith, union_range-all_cps f order 1 a h, union_range-all_cps f order (1 + f.lookahead) a h)
