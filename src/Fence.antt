-- ===== src/Fence.antt =====
-- packages/ui/src/audio/fence.ts: whether playback may go on at an order of the song, given the
-- samples that have arrived.
-- A `Set` is the list of its members in insertion order. An index that may be -1 is `none` there.
-- Seconds are doubles that are not negative: they stand as their bit patterns, which have their order.
pub mod Floor
pub mod Window
pub mod Ready
pub mod Playable
pub mod Seconds
mod Tests
use trackerstream.Common.{
  ℕ, zero, suc, ◌+◌, ◌-◌, ◌/◌, min, Bool, true, false, ◌&&◌, ◌||◌, not, Option, none, some, List,
  [], ◌∷◌, ◌++◌, ltb, leb, ◌==◌, if◌then◌else◌, length, get_elem?, take, drop,
}

pub record Checkpoint : Type 0 where
  pub order : ℕ
  pub samples : List ℕ

pub record OrderSeconds : Type 0 where
  pub order : ℕ
  pub seconds : ℕ

pub record Fence : Type 0 where
  pub provided : List ℕ
  pub cps : List Checkpoint
  pub stalled : Bool
  pub lookahead : ℕ

-- `.sort((a, b) => a.order - b.order)`, which is stable.
pub insert_checkpoint : Checkpoint → List Checkpoint → List Checkpoint
insert_checkpoint c [] = c ∷ []
insert_checkpoint c (d ∷ ds) =
    if leb c.order d.order then c ∷ d ∷ ds else d ∷ insert_checkpoint c ds

pub sort_checkpoints : List Checkpoint → List Checkpoint
sort_checkpoints [] = []
sort_checkpoints (c ∷ cs) = insert_checkpoint c (sort_checkpoints cs)

unfoldable pub new_fence : List Checkpoint → ℕ → Fence
new_fence checkpoints lookahead = record {
  provided = [];
  cps = sort_checkpoints checkpoints;
  stalled = false;
  lookahead = lookahead;
}

-- `set.has(s)`
pub has : List ℕ → ℕ → Bool
has [] s = false
has (x ∷ xs) s = (x == s) || has xs s

-- `set.add(s)`
pub add_to : List ℕ → ℕ → List ℕ
add_to set s = if has set s then set else set ++ (s ∷ [])

pub provide : Fence → ℕ → Fence
provide f index = record f { provided = add_to f.provided index }

-- The order of checkpoint `m`; an index past the end is never read.
pub order_at : List Checkpoint → ℕ → ℕ
order_at cps m = elim (get_elem? cps m) [ none ↦ 0 | some c ↦ c.order ]

-- The binary search of floorIdx, on fuel: `top` is hi + 1, and `res` is -1 as `none`.
pub floor_search : ℕ → List Checkpoint → ℕ → ℕ → ℕ → Option ℕ → Option ℕ
floor_search zero cps order lo top res = res
floor_search (suc fuel) cps order lo top res =
    let m = (lo + (top - 1)) / 2 in
    let right = floor_search fuel cps order (m + 1) top (some m) in
    let left = floor_search fuel cps order lo m res in
    if ltb lo top then (if leb (order_at cps m) order then right else left) else res

unfoldable pub floor_idx : Fence → ℕ → Option ℕ
floor_idx f order = floor_search (length f.cps) f.cps order 0 (length f.cps) none

pub all_provided : List ℕ → List ℕ → Bool
all_provided provided [] = true
all_provided provided (s ∷ ss) = has provided s && all_provided provided ss

pub add_all : List ℕ → List ℕ → List ℕ
add_all set [] = set
add_all set (s ∷ ss) = add_all (add_to set s) ss

-- The two loops of unionRange over the checkpoints in range.
unfoldable pub gather : List Checkpoint → List ℕ → List ℕ
gather [] set = set
gather (c ∷ cs) set = gather cs (add_all set c.samples)

-- `start` clamped to 0.
abbrev pub first_index : Option ℕ → ℕ
first_index none = 0
first_index (some i) = i

-- The index behind `i + more`, where `i` may be -1.
abbrev pub index_past : Option ℕ → ℕ → ℕ
index_past none more = more
index_past (some i) more = i + more + 1

-- `this.unionRange(i, i + more)`
unfoldable pub union_range : Fence → Option ℕ → ℕ → List ℕ
union_range f i more =
    let stop = min (index_past i more) (length f.cps) in
    gather (take (stop - first_index i) (drop (first_index i) f.cps)) []

unfoldable pub required_at : Fence → ℕ → List ℕ
required_at f order = union_range f (floor_idx f order) 1

-- Whether playback may proceed, and the fence afterwards.
pub ready : Fence → ℕ → Bool × Fence
ready f order =
    let i = floor_idx f order in
    let base = union_range f i 1 in
    if length base == 0
    then (true, f)
    else if not f.stalled
    then (if all_provided f.provided base then (true, f) else (false, record f { stalled = true }))
    else if all_provided f.provided (union_range f i (1 + f.lookahead))
    then (true, record f { stalled = false })
    else (false, f)

pub seconds_for_order : List OrderSeconds → ℕ → ℕ → ℕ
seconds_for_order [] order best = best
seconds_for_order (os ∷ rest) order best =
    seconds_for_order rest order
      (if leb os.order order && ltb best os.seconds then os.seconds else best)

-- The loop of playableSeconds over the checkpoints: the order at which playback stops.
pub stall_among : Fence → List Checkpoint → Option ℕ
stall_among f [] = none
stall_among f (c ∷ cs) =
    let rest = stall_among f cs in
    if not (all_provided f.provided (required_at f c.order)) then some c.order else rest

pub first_stall : Fence → Option ℕ
first_stall f =
    let among = stall_among f f.cps in
    if length f.cps == 0
    then none
    else if not (all_provided f.provided (required_at f 0))
    then some 0
    else among

pub playable_seconds : Fence → List OrderSeconds → ℕ → ℕ
playable_seconds f order_seconds duration = elim (first_stall f) [
  | none ↦ duration
  | some order ↦ seconds_for_order order_seconds order 0
]
