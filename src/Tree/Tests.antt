-- ===== src/Tree/Tests.antt =====
-- The theorems on the later versions of packages/repack/src/dag.ts at small inputs.
use trackerstream.Common.{◌≡◌, List, [], ◌∷◌, ◌&&◌, ltb}
use trackerstream.Fence.{Checkpoint, new_fence, required_at}
use trackerstream.Tree.Spans.{Span, merge_spans, covered, Separated, merge_spans-covered}
use trackerstream.Tree.Warm.{required_at_zero, required_at_zero-required_at}

-- Two runs that touch, one inside another's range, and one past the end.
abbrev runs : List Span
runs =
    record { start = 6; stop = 9 }
    ∷ record { start = 2; stop = 4 }
    ∷ record { start = 4; stop = 5 }
    ∷ record { start = 7; stop = 20 }
    ∷ []

merge_spans-covered_example :
    Separated 0 (merge_spans runs 12)
    × (covered (merge_spans runs 12) 4 ≡ (covered runs 4 && ltb 4 12))
merge_spans-covered_example = merge_spans-covered runs 12 4

abbrev plan : List Checkpoint
plan = record { order = 4; samples = 3 ∷ [] } ∷ record { order = 0; samples = 1 ∷ 2 ∷ [] } ∷ []

required_at_zero-required_at_example : required_at_zero plan ≡ required_at (new_fence plan 1) 0
required_at_zero-required_at_example = required_at_zero-required_at plan 1
