-- ===== src/Parse/Agree.antt =====
-- The v1 and the v2 locators of parse.ts find the same uncompressed samples.
use trackerstream.Common.{
  not, ◌||◌, ℕ, zero, suc, ◌+◌, ◌≡◌, refl, Option, none, some, List, [], ◌∷◌, ltb, length, arith,
  if◌then◌else◌,
}
use trackerstream.Parse.Bytes.{
  SampleRegion, SampleSlot, tag4, codes, same_text, mod_channels, u16le,
}
use trackerstream.Parse.Regions.{
  collect, it_region, extract_it_like, s3m_region, extract_s3m, mod_walk, extract_mod, it_base,
  mod_lens, mod_data_start,
}
use trackerstream.Parse.Slots.{
  it_slot, it_like_slots, s3m_slot, s3m_slots, mod_slot_walk, mod_slots,
}

-- The raw region of a slot; a compressed slot has none.
abbrev pub raw_region : SampleSlot → Option SampleRegion
raw_region s = elim s.compressed [
  | none ↦ some (record { offset = s.offset; length = s.length })
  | some _ ↦ none
]

abbrev pub raw_regions : List SampleSlot → List SampleRegion
raw_regions [] = []
raw_regions (s ∷ ss) = elim (raw_region s) [ none ↦ raw_regions ss | some r ↦ r ∷ raw_regions ss ]

abbrev raw_of : Option SampleSlot → Option SampleRegion
raw_of none = none
raw_of (some s) = raw_region s

raw_regions-collect :
    (region : ℕ → Option SampleRegion) (slot : ℕ → Option SampleSlot)
    → ((i : ℕ) → region i ≡ raw_of (slot i))
    → (rounds i : ℕ) → collect rounds i region ≡ raw_regions (collect rounds i slot)
unfolding collect
raw_regions-collect region slot same zero i = refl
raw_regions-collect region slot same (suc rounds) i =
    ground (arith, same i, raw_regions-collect region slot same rounds (i + 1))

it_region-it_slot : (b : List ℕ) (base i : ℕ) → it_region b base i ≡ raw_of (it_slot b base i)
unfolding it_region it_slot
it_region-it_slot b base i = ground arith

s3m_region-s3m_slot : (b : List ℕ) (base i : ℕ) → s3m_region b base i ≡ raw_of (s3m_slot b base i)
unfolding s3m_region s3m_slot
s3m_region-s3m_slot b base i = ground arith

-- The regions that are not empty.
abbrev pub non_empty : List SampleRegion → List SampleRegion
non_empty [] = []
non_empty (r ∷ rs) = let rest = non_empty rs in if ltb 0 r.length then r ∷ rest else rest

mod_walk-mod_slot_walk :
    (size i : ℕ) (lens : List ℕ) (off : ℕ)
    → non_empty (mod_walk size lens off) ≡ raw_regions (mod_slot_walk size i lens off)
unfolding mod_walk mod_slot_walk
mod_walk-mod_slot_walk size i [] off = refl
mod_walk-mod_slot_walk size i (n ∷ lens) off = ground (
  arith,
  mod_walk-mod_slot_walk size (i + 1) lens off,
  mod_walk-mod_slot_walk size (i + 1) lens (off + n),
)

it_like-slots :
    (b : List ℕ) (base rounds : ℕ)
    → collect rounds 0 (it_region b base) ≡ raw_regions (collect rounds 0 (it_slot b base))
it_like-slots b base rounds =
    raw_regions-collect (it_region b base) (it_slot b base) (it_region-it_slot b base) rounds 0

s3m-slots :
    (b : List ℕ) (base rounds : ℕ)
    → collect rounds 0 (s3m_region b base) ≡ raw_regions (collect rounds 0 (s3m_slot b base))
s3m-slots b base rounds =
    raw_regions-collect (s3m_region b base) (s3m_slot b base) (s3m_region-s3m_slot b base) rounds 0

-- For every file the regions of the IT and S3M locators, where these do not return null, are those
-- of the uncompressed slots, in order.
pub regions-slots :
    (b : List ℕ)
    → (extract_it_like b
        ≡ (if ltb (length b) 0xc0 then none else some (raw_regions (it_like_slots b))))
      × (extract_s3m b ≡ (
          if ltb (length b) 0x60 || not (same_text (tag4 b 0x2c) (codes "SCRM"))
          then none
          else some (raw_regions (s3m_slots b))))
unfolding extract_it_like it_like_slots extract_s3m s3m_slots
regions-slots b = (
  rw (it_like-slots b (it_base b) (u16le b 0x24)),
  rw (s3m-slots b (0x60 + u16le b 0x20) (u16le b 0x22)),
)

-- For every file with the magic of a MOD the non-empty regions of its locator are the slots' regions,
-- in order.
pub extract_mod-mod_slots :
    (b : List ℕ) (rs : List SampleRegion)
    → extract_mod b ≡ some rs
    → non_empty rs ≡ raw_regions (mod_slots b)
unfolding extract_mod mod_slots
extract_mod-mod_slots b rs e = ground (
  arith,
  mod_walk-mod_slot_walk (length b) 0 (mod_lens b 31 0)
      (mod_data_start b (mod_channels (tag4 b 1080))),
)
