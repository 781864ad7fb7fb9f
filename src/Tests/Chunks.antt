-- ===== src/Tests/Chunks.antt =====
-- The theorems on packages/repack/src/cdc.ts at a small buffer.
use mathlib.Core.List.{flatten}
use trackerstream.Common.{ℕ, ◌≡◌, refl, some, List, [], ◌∷◌, arith, drop}
use trackerstream.Cdc.{CdcConfig, cdc_chunks, chunks_from}
use trackerstream.Cdc.Tiling.{SizesOk, cdc_chunks-tile}
use trackerstream.Cdc.Resync.{chunks_from-shared_suffix}

abbrev small_cdc : CdcConfig
small_cdc = record { min_size = 2; avg_size = 4; max_size = 8 }

abbrev ramp : List ℕ
ramp = 3 ∷ 1 ∷ 4 ∷ 1 ∷ 5 ∷ 9 ∷ 2 ∷ 6 ∷ 5 ∷ 3 ∷ 5 ∷ []

cdc_chunks-tile_example :
    (cs : List (List ℕ)) × (cdc_chunks small_cdc ramp ≡ some cs)
    × (flatten cs ≡ ramp)
    × SizesOk small_cdc cs
cdc_chunks-tile_example = cdc_chunks-tile small_cdc ramp (omega arith)

-- The buffer, and the same bytes behind a three-byte edit of its first byte.
abbrev edited : List ℕ
edited = 7 ∷ 7 ∷ 7 ∷ drop 1 ramp

chunks_from-shared_suffix_example :
    (cs : List (List ℕ)) × (chunks_from 11 small_cdc ramp 1 ≡ some cs)
    × (chunks_from 13 small_cdc edited 3 ≡ some cs)
chunks_from-shared_suffix_example =
    chunks_from-shared_suffix small_cdc ramp edited 1 3 (omega arith) (omega arith) (omega arith)
      refl
