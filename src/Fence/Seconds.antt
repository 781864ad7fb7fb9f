-- ===== src/Fence/Seconds.antt =====
-- The time that playableSeconds of packages/ui/src/audio/fence.ts returns, told by the checkpoints' samples.
use trackerstream.Common.{
  ℕ, Bool, ◌<◌, ◌≡◌, refl, sym, ◌∙◌, true, false, List, inl, inr, ◌⊎◌, Option-cases,
}
use trackerstream.Fence.{
  Checkpoint, OrderSeconds, Fence, all_provided, required_at, first_stall, seconds_for_order,
  playable_seconds,
}
use trackerstream.Fence.Floor.{count_upto}
use trackerstream.Fence.Window.{Reached, Reached-Ascending, all_cps, window, union_range-window}
use trackerstream.Fence.Playable.{Before, first_stall-Before, first_stall-missing}

-- The samples of the last checkpoint at or before the order and of the next one have arrived.
abbrev pub arrived_at : Fence → ℕ → Bool
arrived_at f order = all_cps f.provided (window f.cps (count_upto f.cps order) 1)

required_at-arrived_at :
    (plan : List Checkpoint) (lookahead : ℕ) (f : Fence) (order : ℕ)
    → Reached plan lookahead f
    → all_provided f.provided (required_at f order) ≡ arrived_at f order
unfolding required_at
required_at-arrived_at plan lookahead f order r =
    union_range-window f.provided f order 1 (Reached-Ascending plan lookahead f r)

-- In every fence that calls reach: either at every order the samples of the last checkpoint at or before
-- it and of the next one have arrived, and playableSeconds is the duration; or there is a first order
-- where one of them has not, and playableSeconds is the time of that order.
pub playable_seconds-arrived_at :
    (plan : List Checkpoint) (lookahead : ℕ) (f : Fence)
    → (order_seconds : List OrderSeconds) (duration : ℕ) → Reached plan lookahead f
    → (((order : ℕ) → arrived_at f order ≡ true)
        × (playable_seconds f order_seconds duration ≡ duration))
      ⊎ ((stop : ℕ) × (arrived_at f stop ≡ false)
          × ((order : ℕ) → order < stop → arrived_at f order ≡ true)
          × (playable_seconds f order_seconds duration ≡ seconds_for_order order_seconds stop 0))
unfolding playable_seconds
playable_seconds-arrived_at plan lookahead f order_seconds duration r =
    let arrived : (order : ℕ) → Before order (first_stall f) → arrived_at f order ≡ true =
      λ order b.
        sym (required_at-arrived_at plan lookahead f order r)
        ∙ first_stall-Before plan lookahead f order r b in
    elim (Option-cases (first_stall f)) [
      | inl never ↦ inl ((λ order. arrived order (rw never tt)), rw (never, playable_seconds) refl)
      | inr (stop, found) ↦ inr (
        stop,
        sym (required_at-arrived_at plan lookahead f stop r) ∙ first_stall-missing f stop found,
        (λ order early. arrived order (rw found early)),
        rw (found, playable_seconds) refl,
      )
    ]
