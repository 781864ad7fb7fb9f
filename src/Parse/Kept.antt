-- ===== src/Parse/Kept.antt =====
-- The slots that sampleSlots of packages/repack/src/parse.ts returns, and those that it leaves out.
use trackerstream.Common.{
  ℕ, ◌+◌, ◌<◌, ◌≡◌, refl, ap, inl, inr, Option, none, some, List, [], ◌∷◌, ltb, leb, Bool-cases,
  Option-cases, ◌&&◌, true, length, arith, All,
}
use mathlib.Core.Path.{subst}
use trackerstream.Parse.Bytes.{Format, SampleSlot}
use trackerstream.Parse.Select.{
  slot_extractors, slots_in_file, choose_format, ParsedSlots, sample_slots,
}
use trackerstream.Parse.Between.{Layout}
use trackerstream.Parse.Numbering.{Numbered, sample_slots-Numbered}
use trackerstream.Parse.OnDisk.{OnDisk, slot_extractors-OnDisk}

-- Slots of known layout in ascending order of their indices, the first above `low`, whose bytes lie in a
-- file of `size` bytes.
abbrev pub Placed : ℕ → ℕ → List SampleSlot → Type 0
Placed size low [] = Unit {0}
Placed size low (s ∷ ss) = (low < s.index) × Layout s × OnDisk size s × Placed size s.index ss

abbrev pub uncompressed : List SampleSlot → List SampleSlot
uncompressed [] = []
uncompressed (s ∷ ss) = elim s.compressed [ none ↦ s ∷ uncompressed ss | some c ↦ uncompressed ss ]

Numbered-Placed :
    (size low : ℕ) (ss : List SampleSlot)
    → Numbered size low ss
    → All (OnDisk size) ss
    → Placed size low ss
Numbered-Placed size low [] n d = tt
Numbered-Placed size low (s ∷ ss) (p, _, _, l, n) (d, ds) =
    (p, l, d, Numbered-Placed size s.index ss n ds)

slots_in_file-OnDisk :
    (size : ℕ) (ss : List SampleSlot)
    → All (OnDisk size) ss
    → All (OnDisk size) (slots_in_file size ss)
unfolding slots_in_file
slots_in_file-OnDisk size [] d = tt
slots_in_file-OnDisk size (s ∷ ss) (d, ds) =
    elim (Bool-cases (ltb 0 s.length && leb (s.offset + s.length) size)) [
      | inl inside ↦ rw inside (d, slots_in_file-OnDisk size ss ds)
      | inr out ↦ rw out (slots_in_file-OnDisk size ss ds)
    ]

-- The filter keeps each uncompressed slot, since the locators cut them to the file.
slots_in_file-uncompressed :
    (size : ℕ) (ss : List SampleSlot)
    → All (OnDisk size) ss
    → uncompressed (slots_in_file size ss) ≡ uncompressed ss
unfolding slots_in_file
slots_in_file-uncompressed size [] d = refl
slots_in_file-uncompressed size (s ∷ ss) (d, ds) = elim (Option-cases s.compressed) [
  | inl plain ↦
      let (filled, fits) = rw plain at d in
      let inside : (ltb 0 s.length && leb (s.offset + s.length) size) ≡ true =
        ground (arith, filled, fits) in
      rw (inside, plain) (ap (λ rest. s ∷ rest) (slots_in_file-uncompressed size ss ds))
  | inr (c, packed) ↦ elim (Bool-cases (ltb 0 s.length && leb (s.offset + s.length) size)) [
    | inl inside ↦ rw (inside, packed) (slots_in_file-uncompressed size ss ds)
    | inr out ↦ rw (out, packed) (slots_in_file-uncompressed size ss ds)
  ]
]

-- On every file: the slots of a successful sampleSlots carry strictly ascending indices from 1 on, 8 or
-- 16 bits and 1 or 2 channels. An uncompressed one has at least one byte, and its bytes lie in the file;
-- of a compressed one the header does, and its compressed bytes where their number is known. No
-- uncompressed slot that the format's locator found is left out.
pub sample_slots-Placed :
    (b : List ℕ) (hint : Option Format) (p : ParsedSlots)
    → sample_slots b hint ≡ some p
    → Placed (length b) 0 p.slots
      × (uncompressed p.slots ≡ uncompressed (slot_extractors p.format b))
unfolding sample_slots
sample_slots-Placed b hint p e = elim (Option-cases (choose_format b hint)) [
  | inl none_fits ↦ cc (rw (none_fits, sample_slots) at e)
  | inr (f, fits) ↦
      let found = slot_extractors-OnDisk f b in
      let result : ParsedSlots = record {
        format = f;
        slots = slots_in_file (length b) (slot_extractors f b);
      } in
      let same : result ≡ p = cc (rw (fits, sample_slots) at e) in
      subst
        (λ q.
          Numbered (length b) 0 q.slots
          → Placed (length b) 0 q.slots
            × (uncompressed q.slots ≡ uncompressed (slot_extractors q.format b)))
        same
        (λ n. (
          Numbered-Placed (length b) 0 _ n (slots_in_file-OnDisk (length b) _ found),
          slots_in_file-uncompressed (length b) _ found,
        ))
        (sample_slots-Numbered b hint p e)
]
