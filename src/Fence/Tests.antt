-- ===== src/Fence/Tests.antt =====
-- The theorems on packages/ui/src/audio/fence.ts for a song of three checkpoints.
use trackerstream.Common.{
  ℕ, ◌+◌, ◌<◌, ◌≡◌, ◌⊎◌, refl, true, false, some, List, [], ◌∷◌, get_elem?, arith,
}
use trackerstream.Fence.{
  Checkpoint, Fence, insert_checkpoint, sort_checkpoints, new_fence, has, add_to, provide, order_at,
  floor_search, floor_idx, all_provided, add_all, gather, union_range, required_at, ready,
  stall_among, first_stall, OrderSeconds, seconds_for_order, playable_seconds,
}
use trackerstream.Fence.Floor.{count_upto, last_index, floor_idx-count_upto}
use trackerstream.Fence.Window.{Reached, fresh, provided_more, asked, all_cps}
use trackerstream.Fence.Ready.{ready-all_provided, ready_again, ready-all_cps}
use trackerstream.Fence.Playable.{first_stall-Before}
use trackerstream.Fence.Seconds.{arrived_at, playable_seconds-arrived_at}

abbrev plan : List Checkpoint
plan =
    record { order = 8; samples = 3 ∷ [] }
    ∷ record { order = 0; samples = 1 ∷ 2 ∷ [] }
    ∷ record { order = 16; samples = 4 ∷ [] }
    ∷ []

floor_idx-count_upto_example : floor_idx (new_fence plan 1) 9 ≡ last_index (count_upto plan 9)
floor_idx-count_upto_example = floor_idx-count_upto plan 1 9

-- The samples of the first two checkpoints have arrived.
abbrev started : Fence
started = provide (provide (provide (new_fence plan 1) 1) 2) 3

abbrev started_Reached : Reached plan 1 started
started_Reached = provided_more _ 3 (provided_more _ 2 (provided_more _ 1 fresh))

started-ready : (ready started 0).0 ≡ true
unfolding ready provide add_to has new_fence sort_checkpoints insert_checkpoint floor_idx
    floor_search order_at union_range gather add_all all_provided
started-ready = refl

started-get : get_elem? started.cps 1 ≡ some (record { order = 8; samples = 3 ∷ [] })
unfolding provide new_fence sort_checkpoints insert_checkpoint
started-get = refl

started_low : 1 < 1 + count_upto started.cps 0
unfolding provide new_fence sort_checkpoints insert_checkpoint
started_low = omega arith

started_high : count_upto started.cps 0 < 3
unfolding provide new_fence sort_checkpoints insert_checkpoint
started_high = omega arith

ready-all_provided_example : all_provided started.provided (3 ∷ []) ≡ true
ready-all_provided_example =
    ready-all_provided plan 1 started 0 1 (record { order = 8; samples = 3 ∷ [] }) started_Reached
      started-ready started-get (omega (arith, started_low)) (omega (arith, started_high))

ready_again_example :
    (ready (ready started 9).1 9 ≡ ready started 9)
    × ((ready started 9).1.provided ≡ started.provided)
    × (((ready started 9).0 ≡ true) ⊎ ((ready started 9).1.stalled ≡ true))
ready_again_example = ready_again plan 1 started 9 started_Reached

-- All samples have arrived, the last one after a stall at order 9.
abbrev complete : Fence
complete = provide (ready started 9).1 4

complete_all : all_cps complete.provided complete.cps ≡ true
unfolding ready provide add_to has new_fence sort_checkpoints insert_checkpoint floor_idx
    floor_search order_at union_range gather add_all all_provided
complete_all = refl

ready-all_cps_example : (ready complete 9).0 ≡ true
ready-all_cps_example =
    ready-all_cps plan 1 complete 9 (provided_more _ 4 (asked started 9 started_Reached))
      complete_all

started_stall : first_stall started ≡ some 8
unfolding first_stall stall_among required_at provide add_to has new_fence sort_checkpoints
    insert_checkpoint floor_idx floor_search order_at union_range gather add_all all_provided
started_stall = refl

first_stall-Before_example : all_provided started.provided (required_at started 7) ≡ true
first_stall-Before_example =
    first_stall-Before plan 1 started 7 started_Reached
      (rw started_stall (let h : 7 < 8 = omega arith in h))

abbrev times : List OrderSeconds
times =
    record { order = 0; seconds = 0 }
    ∷ record { order = 8; seconds = 60 }
    ∷ record { order = 16; seconds = 120 }
    ∷ []

playable_seconds-arrived_at_example :
    (((order : ℕ) → arrived_at started order ≡ true) × (playable_seconds started times 180 ≡ 180))
    ⊎ ((stop : ℕ) × (arrived_at started stop ≡ false)
        × ((order : ℕ) → order < stop → arrived_at started order ≡ true)
        × (playable_seconds started times 180 ≡ seconds_for_order times stop 0))
playable_seconds-arrived_at_example =
    playable_seconds-arrived_at plan 1 started times 180 started_Reached
