-- ===== src/Fence/Floor.antt =====
-- The binary search of packages/ui/src/audio/fence.ts finds the floor checkpoint.
use trackerstream.Common.{
  ℕ, zero, suc, ◌+◌, ◌-◌, ◌/◌, ◌≤◌, ◌<◌, ◌≡◌, refl, ap, ◌∙◌, Option, none, some, List, [], ◌∷◌, ltb,
  leb, if◌then◌else◌, length, arith, Bool-cases, ltb→lt, inl, inr,
}
use mathlib.Core.Path.{subst}
use trackerstream.Fence.{
  Checkpoint, insert_checkpoint, sort_checkpoints, new_fence, order_at, floor_search, floor_idx,
}

-- Checkpoints with ascending orders, from `low` on.
abbrev pub Ascending : ℕ → List Checkpoint → Type 0
Ascending low [] = Unit {0}
Ascending low (c ∷ cs) = (low ≤ c.order) × Ascending c.order cs

-- How many checkpoints have an order of at most `order`.
abbrev pub count_upto : List Checkpoint → ℕ → ℕ
count_upto [] order = 0
count_upto (c ∷ cs) order = (if leb c.order order then 1 else 0) + count_upto cs order

-- The last of `count` indices.
abbrev pub last_index : ℕ → Option ℕ
last_index zero = none
last_index (suc m) = some m

Ascending-low :
    (low low' : ℕ) (cs : List Checkpoint) → low' ≤ low → Ascending low cs → Ascending low' cs
Ascending-low low low' [] h a = tt
Ascending-low low low' (c ∷ cs) h (l, a) = (omega arith, a)

insert_checkpoint-Ascending :
    (low : ℕ) (c : Checkpoint) (cs : List Checkpoint)
    → low ≤ c.order
    → Ascending low cs
    → Ascending low (insert_checkpoint c cs)
unfolding insert_checkpoint
insert_checkpoint-Ascending low c [] h a = (h, tt)
insert_checkpoint-Ascending low c (d ∷ ds) h (l, a) =
    ground (arith, insert_checkpoint-Ascending d.order c ds)

pub sort_checkpoints-Ascending : (cs : List Checkpoint) → Ascending 0 (sort_checkpoints cs)
unfolding sort_checkpoints
sort_checkpoints-Ascending [] = tt
sort_checkpoints-Ascending (c ∷ cs) =
    insert_checkpoint-Ascending 0 c (sort_checkpoints cs) (omega arith)
      (sort_checkpoints-Ascending cs)

count_upto-insert_checkpoint :
    (c : Checkpoint) (cs : List Checkpoint) (order : ℕ)
    → count_upto (insert_checkpoint c cs) order ≡ count_upto (c ∷ cs) order
unfolding insert_checkpoint
count_upto-insert_checkpoint c [] order = refl
count_upto-insert_checkpoint c (d ∷ ds) order =
    ground (arith, count_upto-insert_checkpoint c ds order)

count_upto-sort_checkpoints :
    (cs : List Checkpoint) (order : ℕ)
    → count_upto (sort_checkpoints cs) order ≡ count_upto cs order
unfolding sort_checkpoints
count_upto-sort_checkpoints [] order = refl
count_upto-sort_checkpoints (c ∷ cs) order =
    count_upto-insert_checkpoint c (sort_checkpoints cs) order
    ∙ ap (λ n. (if leb c.order order then 1 else 0) + n) (count_upto-sort_checkpoints cs order)

pub count_upto-length : (cs : List Checkpoint) (order : ℕ) → count_upto cs order ≤ length cs
count_upto-length [] order = omega arith
count_upto-length (c ∷ cs) order = ground (arith, count_upto-length cs order)

count_upto_zero :
    (low : ℕ) (cs : List Checkpoint) (order : ℕ)
    → order < low
    → Ascending low cs
    → count_upto cs order ≡ 0
count_upto_zero low [] order h a = refl
count_upto_zero low (c ∷ cs) order h (l, a) = ground (arith, count_upto_zero c.order cs order)

-- In ascending checkpoints, those of an order of at most `order` come first.
pub order_at-count_upto :
    (low : ℕ) (cs : List Checkpoint) (order m : ℕ)
    → Ascending low cs
    → m < length cs
    → leb (order_at cs m) order ≡ ltb m (count_upto cs order)
unfolding order_at
order_at-count_upto low [] order m a h = absurd (let no : ⊥ = omega arith in no)
order_at-count_upto low (c ∷ cs) order zero (l, a) h =
    ground (arith, count_upto_zero c.order cs order)
order_at-count_upto low (c ∷ cs) order (suc m) (l, a) h =
    ground (arith, count_upto_zero c.order cs order, order_at-count_upto c.order cs order m)

last_index-suc : (m : ℕ) → last_index (m + 1) ≡ some m
last_index-suc m = ap last_index (let e : m + 1 ≡ suc m = omega arith in e)

-- The search between `lo` and `top` finds the floor when the count lies between them.
floor_search_lem :
    (fuel : ℕ) (cs : List Checkpoint) (order lo top : ℕ)
    → Ascending 0 cs
    → lo ≤ count_upto cs order
    → count_upto cs order ≤ top
    → top ≤ length cs
    → top ≤ lo + fuel
    → floor_search fuel cs order lo top (last_index lo) ≡ last_index (count_upto cs order)
unfolding floor_search
floor_search_lem zero cs order lo top a p q r s = ap last_index (omega arith)
floor_search_lem (suc fuel) cs order lo top a p q r s =
    let m : ℕ = (lo + (top - 1)) / 2 in
    elim (Bool-cases (ltb lo top)) [
      | inr met ↦ rw met (ap last_index (ground arith))
      | inl inside ↦
          let lo_top : lo < top = ltb→lt lo top inside in
          let lo_m : lo ≤ m = omega arith in
          let m_top : m < top = omega arith in
          let found : leb (order_at cs m) order ≡ ltb m (count_upto cs order) =
            order_at-count_upto 0 cs order m a (omega arith) in
          elim (Bool-cases (ltb m (count_upto cs order))) [
            | inl before ↦
                let m_count : m < count_upto cs order = ltb→lt m (count_upto cs order) before in
                rw (inside, found, before)
                  (subst
                    (λ k.
                      floor_search fuel cs order (m + 1) top k ≡ last_index (count_upto cs order))
                    (last_index-suc m)
                    (floor_search_lem fuel cs order (m + 1) top a (omega arith) q r (omega arith)))
            | inr behind ↦
                let count_m : count_upto cs order ≤ m = ground arith in
                rw (inside, found, behind)
                  (floor_search_lem fuel cs order lo m a p count_m (omega arith) (omega arith))
          ]
    ]

pub floor_idx_lem :
    (cs : List Checkpoint) (order : ℕ)
    → Ascending 0 cs
    → floor_search (length cs) cs order 0 (length cs) none ≡ last_index (count_upto cs order)
floor_idx_lem cs order a =
    floor_search_lem (length cs) cs order 0 (length cs) a (omega arith) (count_upto-length cs order)
      (omega arith) (omega arith)

-- For every plan and order: floorIdx gives the index of the last of the checkpoints with an order of
-- at most `order`, counted in the plan, and -1 where there is none; its search comes to an end.
pub floor_idx-count_upto :
    (checkpoints : List Checkpoint) (lookahead order : ℕ)
    → floor_idx (new_fence checkpoints lookahead) order ≡ last_index (count_upto checkpoints order)
unfolding floor_idx new_fence
floor_idx-count_upto checkpoints lookahead order =
    floor_idx_lem (sort_checkpoints checkpoints) order (sort_checkpoints-Ascending checkpoints)
    ∙ ap last_index (count_upto-sort_checkpoints checkpoints order)
