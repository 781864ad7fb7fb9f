-- ===== src/Cdc/Tiling.antt =====
-- The chunks of cdc.ts tile the buffer, and their sizes lie within the configured bounds.
use mathlib.Core.List.{flatten}
use trackerstream.Common.{
  ℕ, zero, suc, min, ◌+◌, ◌-◌, ◌≤◌, ◌<◌, ◌≡◌, sym, ap, ◌∙◌, ◌⊎◌, inl, inr, some, true, List, [],
  ◌∷◌, ◌++◌, arith, ltb, Bool-cases, Option-cases, length, get_or, take, drop, drop_all,
  length-take, length-drop, take-drop-append, ltb→lt,
}
use trackerstream.Cdc.{CdcConfig, roll, find_cut, next_stop, chunks_from, cdc_chunks}

find_cut_bounds :
    (cfg : CdcConfig) (buf : List ℕ) (normal rounds i fp c : ℕ)
    → find_cut cfg buf normal rounds i fp ≡ some c
    → (i < c) × (c ≤ i + rounds)
unfolding find_cut
find_cut_bounds cfg buf normal zero i fp c h = cc
find_cut_bounds cfg buf normal (suc rounds) i fp c h =
    ground (arith, find_cut_bounds cfg buf normal rounds (i + 1) (roll fp (get_or buf i 0)) c)

-- A round moves forward, by at most `max_size`, and stays inside the buffer.
next_stop_bounds :
    (cfg : CdcConfig) (buf : List ℕ) (off : ℕ)
    → 0 < cfg.max_size
    → off < length buf
    → (off < next_stop cfg buf off)
      × (next_stop cfg buf off ≤ off + cfg.max_size)
      × (next_stop cfg buf off ≤ length buf)
unfolding next_stop
next_stop_bounds cfg buf off pos inside =
    elim (Option-cases (find_cut cfg buf normal (end - start) start 0)) [
      | inl miss ↦ rw miss (omega arith)
      | inr (c, hit) ↦
          rw hit (omega (arith, find_cut_bounds cfg buf normal (end - start) start 0 c hit))
    ]
  where
    end : ℕ
    end = min (off + cfg.max_size) (length buf)

    normal : ℕ
    normal = min (off + cfg.avg_size) (length buf)

    start : ℕ
    start = off + cfg.min_size

-- A stop before the end of the buffer leaves more than `min_size` bytes behind it.
next_stop-gt-min :
    (cfg : CdcConfig) (buf : List ℕ) (off : ℕ)
    → cfg.min_size < cfg.max_size
    → next_stop cfg buf off < length buf
    → off + cfg.min_size < next_stop cfg buf off
unfolding next_stop
next_stop-gt-min cfg buf off wide inner =
    elim (Option-cases (find_cut cfg buf normal (end - start) start 0)) [
      | inl miss ↦ rw miss (let i : end < length buf = rw miss at inner in omega arith)
      | inr (c, hit) ↦
          rw hit (omega (arith, find_cut_bounds cfg buf normal (end - start) start 0 c hit))
    ]
  where
    end : ℕ
    end = min (off + cfg.max_size) (length buf)

    normal : ℕ
    normal = min (off + cfg.avg_size) (length buf)

    start : ℕ
    start = off + cfg.min_size

-- The chunks of a buffer: each is non-empty and at most `max_size` long, and each but the last is
-- longer than `min_size`.
abbrev pub SizesOk : CdcConfig → List (List ℕ) → Type 0
SizesOk cfg [] = Unit {0}
SizesOk cfg (c ∷ cs) =
    (0 < length c)
    × (length c ≤ cfg.max_size)
    × ((cs ≡ []) ⊎ (cfg.min_size < length c))
    × SizesOk cfg cs

-- From `off` on the loop ends with chunks that put together are the rest of the buffer.
abbrev Tiled : ℕ → CdcConfig → List ℕ → ℕ → Type 0
Tiled fuel cfg buf off =
    (cs : List (List ℕ)) × (chunks_from fuel cfg buf off ≡ some cs)
    × (flatten cs ≡ drop off buf)
    × SizesOk cfg cs

length-slice :
    (off stop : ℕ) (buf : List ℕ)
    → off ≤ stop
    → stop ≤ length buf
    → length (take (stop - off) (drop off buf)) ≡ stop - off
length-slice off stop buf h k =
    omega (arith, length-take {0} (stop - off) (drop off buf), length-drop {0} off buf)

chunks_from_end :
    (fuel : ℕ) (cfg : CdcConfig) (buf : List ℕ) (off : ℕ)
    → length buf ≤ off
    → chunks_from fuel cfg buf off ≡ some []
unfolding chunks_from
chunks_from_end zero cfg buf off h = ground arith
chunks_from_end (suc fuel) cfg buf off h = ground arith

-- One round of the loop, put in front of a tiling of the rest.
chunk_cons :
    (fuel : ℕ) (cfg : CdcConfig) (buf : List ℕ) (off : ℕ)
    → ltb off (length buf) ≡ true
    → cfg.min_size < cfg.max_size
    → off < next_stop cfg buf off
    → next_stop cfg buf off ≤ off + cfg.max_size
    → next_stop cfg buf off ≤ length buf
    → Tiled fuel cfg buf (next_stop cfg buf off)
    → Tiled (suc fuel) cfg buf off
unfolding chunks_from flatten
chunk_cons fuel cfg buf off inside wide onward near within (cs, run, tiles, sizes) = (
  take (stop - off) (drop off buf) ∷ cs,
  rw (inside, run),
  joined,
  (omega (arith, len), omega (arith, len), last, sizes),
)
  where
    stop : ℕ
    stop = next_stop cfg buf off

    len : length (take (stop - off) (drop off buf)) ≡ stop - off
    len = length-slice off stop buf (omega arith) within

    back : off + (stop - off) ≡ stop
    back = omega arith

    joined : take (stop - off) (drop off buf) ++ flatten cs ≡ drop off buf
    joined = rw tiles (
        ap (λ k. take (stop - off) (drop off buf) ++ drop k buf) (sym back)
        ∙ take-drop-append off (stop - off) buf)

    last : (cs ≡ []) ⊎ (cfg.min_size < length (take (stop - off) (drop off buf)))
    last = elim (Bool-cases (ltb stop (length buf))) [
      | inl inner ↦ inr (omega (arith, len, next_stop-gt-min cfg buf off wide (ltb→lt _ _ inner)))
      | inr done ↦ inl (cc (chunks_from_end fuel cfg buf stop (ground arith)))
    ]

chunks_from_lem :
    (fuel : ℕ) (cfg : CdcConfig) (buf : List ℕ) (off : ℕ)
    → 0 < cfg.max_size
    → cfg.min_size < cfg.max_size
    → length buf ≤ off + fuel
    → Tiled fuel cfg buf off
unfolding chunks_from flatten
chunks_from_lem zero cfg buf off pos wide h =
    ([], ground arith, sym (drop_all off buf (omega arith)), tt)
chunks_from_lem (suc fuel) cfg buf off pos wide h = elim (Bool-cases (ltb off (length buf))) [
  | inr out ↦ ([], rw out, sym (drop_all off buf (ground arith)), tt)
  | inl inside ↦
      let (onward, near, within) = next_stop_bounds cfg buf off pos (ground arith) in
      chunk_cons fuel cfg buf off inside wide onward near within
        (chunks_from_lem fuel cfg buf (next_stop cfg buf off) pos wide (omega arith))
]

-- For bounds with `min_size < max_size` the chunker ends on every buffer, and its chunks put
-- together are the buffer. Each is non-empty and at most `max_size` long, and each but the last is
-- longer than `min_size`.
pub cdc_chunks-tile :
    (cfg : CdcConfig) (buf : List ℕ)
    → cfg.min_size < cfg.max_size
    → (cs : List (List ℕ)) × (cdc_chunks cfg buf ≡ some cs) × (flatten cs ≡ buf) × SizesOk cfg cs
unfolding cdc_chunks
cdc_chunks-tile cfg buf wide =
    chunks_from_lem (length buf) cfg buf 0 (omega arith) wide (omega arith)
