-- ===== src/Cdc.antt =====
-- packages/repack/src/cdc.ts: content-defined chunking with a 32-bit gear hash.
-- A `Uint8Array` is a list of its bytes; an index past the end is never read here. The fields min,
-- avg and max of the source are `min_size`, `avg_size` and `max_size`.
pub mod Tiling
pub mod Resync
use trackerstream.Common.{
  ℕ, zero, suc, ◌+◌, ◌-◌, ◌*◌, ◌/◌, ◌%◌, ◌^◌, min, bit_and, Option, none, some, List, [], ◌∷◌, ltb,
  ◌==◌, if◌then◌else◌, length, get_or, take, drop,
}
use mathlib.Core.Option

pub record CdcConfig : Type 0 where
  pub min_size : ℕ
  pub avg_size : ℕ
  pub max_size : ℕ

abbrev pub default_cdc : CdcConfig
default_cdc = record { min_size = 8 * 1024; avg_size = 16 * 1024; max_size = 64 * 1024 }

-- `s = (Math.imul(s, 1664525) + 1013904223) >>> 0`; `gear i` is GEAR[i], the state after i + 1 rounds.
gear_state : ℕ → ℕ
gear_state zero = 0x9e3779b9
gear_state (suc n) = (gear_state n * 1664525 + 1013904223) % 2 ^ 32

pub gear : ℕ → ℕ
gear i = gear_state (suc i)

-- `Math.log2(avg) | 0`, which is 0 for 0; an argument below 2 ^ fuel needs no more fuel.
log2_floor : ℕ → ℕ → ℕ
log2_floor zero n = 0
log2_floor (suc fuel) n = let rest = log2_floor fuel (n / 2) in if ltb n 2 then 0 else suc rest

-- `((1 << k) - 1) >>> 0`, a shift count being read modulo 32.
low_mask : ℕ → ℕ
low_mask k = 2 ^ (k % 32) - 1

pub mask_s : CdcConfig → ℕ
mask_s cfg = low_mask (log2_floor 53 cfg.avg_size + 2)

pub mask_l : CdcConfig → ℕ
mask_l cfg = low_mask (log2_floor 53 cfg.avg_size + 30)

-- `fp = ((fp << 1) + GEAR[buf[i]]) >>> 0`
pub roll : ℕ → ℕ → ℕ
roll fp byte = (2 * fp + gear byte) % 2 ^ 32

-- The `for (; i < end; i++)` loop with `rounds` = end - i: the cut, if a boundary is met.
pub find_cut : CdcConfig → List ℕ → ℕ → ℕ → ℕ → ℕ → Option ℕ
find_cut cfg buf normal zero i fp = none
find_cut cfg buf normal (suc rounds) i fp =
    let fp' = roll fp (get_or buf i 0) in
    let rest = find_cut cfg buf normal rounds (i + 1) fp' in
    let mask = if ltb i normal then mask_s cfg else mask_l cfg in
    if bit_and fp' mask == 0 then some (i + 1) else rest

-- One round of the `while` loop: where the chunk that starts at `off` stops.
pub next_stop : CdcConfig → List ℕ → ℕ → ℕ
next_stop cfg buf off =
    let n = length buf in
    let end = min (off + cfg.max_size) n in
    let normal = min (off + cfg.avg_size) n in
    let start = off + cfg.min_size in
    Option.get_or (find_cut cfg buf normal (end - start) start 0) end

-- `while (off < n)`, on fuel; `none` means that the fuel ran out.
pub chunks_from : ℕ → CdcConfig → List ℕ → ℕ → Option (List (List ℕ))
chunks_from zero cfg buf off = if ltb off (length buf) then none else some []
chunks_from (suc fuel) cfg buf off =
    let stop = next_stop cfg buf off in
    let rest = chunks_from fuel cfg buf stop in
    if ltb off (length buf)
    then Option.map (λ cs. take (stop - off) (drop off buf) ∷ cs) rest
    else some []

-- Every chunk takes a byte at least when `max_size` is positive, so `length buf` rounds are enough.
pub cdc_chunks : CdcConfig → List ℕ → Option (List (List ℕ))
cdc_chunks cfg buf = chunks_from (length buf) cfg buf 0
