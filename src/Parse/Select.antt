-- ===== src/Parse/Select.antt =====
-- detectFormat, sampleRegions and sampleSlots of packages/repack/src/parse.ts.
use trackerstream.Common.{
  ℕ, ◌+◌, not, ◌&&◌, Option, none, some, List, [], ◌∷◌, ltb, leb, ◌==◌, if◌then◌else◌, length,
}
use trackerstream.Parse.Bytes.{
  Format, amiga_mod, it, s3m, xm, mptm, mo3, SampleRegion, SampleSlot, byte_at, u16le, tag4, codes,
  same_text, mod_channels,
}
use trackerstream.Parse.Regions.{extract_mod, extract_it, extract_mptm, extract_mo3, extract_s3m}
use trackerstream.Parse.Slots.{mod_slots, it_like_slots, s3m_slots}
use trackerstream.Parse.Xm.{extract_xm, xm_slots}

unfoldable pub detect_format : List ℕ → Option Format
detect_format b =
    if leb 4 (length b) && byte_at b 0 == 0x4d && byte_at b 1 == 0x4f && byte_at b 2 == 0x33
    then some mo3
    else if leb 4 (length b) && same_text (tag4 b 0) (codes "tpm.")
    then some mptm
    else if leb 0x2c (length b) && same_text (tag4 b 0) (codes "IMPM")
    then some (if leb 0x0889 (u16le b 0x28) && leb (u16le b 0x28) 0x0fff then mptm else it)
    else if leb 0x30 (length b) && same_text (tag4 b 0x2c) (codes "SCRM")
    then some s3m
    else if leb 17 (length b) && same_text (tag4 b 0) (codes "Exte")
    then some xm
    else if leb 1084 (length b) && not (mod_channels (tag4 b 1080) == 0)
    then some amiga_mod
    else none

unfoldable pub extractors : Format → List ℕ → Option (List SampleRegion)
extractors amiga_mod = extract_mod
extractors it = extract_it
extractors s3m = extract_s3m
extractors xm = extract_xm
extractors mptm = extract_mptm
extractors mo3 = extract_mo3

unfoldable pub slot_extractors : Format → List ℕ → List SampleSlot
slot_extractors amiga_mod = mod_slots
slot_extractors it = it_like_slots
slot_extractors mptm = it_like_slots
slot_extractors s3m = s3m_slots
slot_extractors xm = xm_slots
slot_extractors mo3 = λ b. []

-- The filter of sampleRegions: a non-empty region inside the file.
unfoldable pub in_file : ℕ → List SampleRegion → List SampleRegion
in_file size [] = []
in_file size (r ∷ rs) =
    let rest = in_file size rs in
    if ltb 0 r.length && leb (r.offset + r.length) size then r ∷ rest else rest

-- `.sort((a, b2) => a.offset - b2.offset)`, which is stable.
unfoldable pub insert_region : SampleRegion → List SampleRegion → List SampleRegion
insert_region r [] = r ∷ []
insert_region r (s ∷ rs) = if leb r.offset s.offset then r ∷ s ∷ rs else s ∷ insert_region r rs

unfoldable pub sort_regions : List SampleRegion → List SampleRegion
sort_regions [] = []
sort_regions (r ∷ rs) = insert_region r (sort_regions rs)

-- The last loop of sampleRegions: a region that begins before `end` is dropped.
unfoldable pub keep_apart : ℕ → List SampleRegion → List SampleRegion
keep_apart end [] = []
keep_apart end (r ∷ rs) =
    let without = keep_apart end rs in
    let rest = keep_apart (r.offset + r.length) rs in if ltb r.offset end then without else r ∷ rest

-- `fmtHint ?? detectFormat(b)`
unfoldable pub choose_format : List ℕ → Option Format → Option Format
choose_format b none = detect_format b
choose_format b (some f) = some f

pub record ParsedRegions : Type 0 where
  pub format : Format
  pub regions : List SampleRegion

unfoldable pub sample_regions : List ℕ → Option Format → Option ParsedRegions
sample_regions b hint = elim (choose_format b hint) [
  | none ↦ none
  | some f ↦ elim (extractors f b) [
    | none ↦ none
    | some raw ↦
        some (record { format = f; regions = keep_apart 0 (sort_regions (in_file (length b) raw)) })
  ]
]

pub record ParsedSlots : Type 0 where
  pub format : Format
  pub slots : List SampleSlot

-- The filter of sampleSlots.
unfoldable pub slots_in_file : ℕ → List SampleSlot → List SampleSlot
slots_in_file size [] = []
slots_in_file size (s ∷ ss) =
    let rest = slots_in_file size ss in
    if ltb 0 s.length && leb (s.offset + s.length) size then s ∷ rest else rest

unfoldable pub sample_slots : List ℕ → Option Format → Option ParsedSlots
sample_slots b hint = elim (choose_format b hint) [
  | none ↦ none
  | some f ↦ some (record { format = f; slots = slots_in_file (length b) (slot_extractors f b) })
]
