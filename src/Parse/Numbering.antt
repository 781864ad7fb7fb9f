-- ===== src/Parse/Numbering.antt =====
-- How the slot locators of packages/repack/src/parse.ts number their slots, and how sampleSlots filters them.
use trackerstream.Common.{
  ℕ, ◌+◌, ◌≤◌, ◌<◌, ◌≡◌, inl, inr, Option, some, List, [], ◌∷◌, ltb, leb, Bool-cases, Option-cases,
  ◌&&◌, length, arith, ◌==◌,
}
use mathlib.Core.Path.{subst}
use trackerstream.Parse.Bytes.{
  Format, amiga_mod, it, s3m, xm, mptm, mo3, SampleSlot, tag4, mod_channels, u16le, u32le,
}
use trackerstream.Parse.Regions.{it_base, mod_lens}
use trackerstream.Parse.Slots.{it_slot, it_like_slots, s3m_slot, s3m_slots, mod_slots}
use trackerstream.Parse.Xm.{xm_slots, skip_patterns}
use trackerstream.Parse.Select.{
  slot_extractors, slots_in_file, choose_format, ParsedSlots, sample_slots,
}
use trackerstream.Parse.Between.{
  Layout, Between, collect-Between, it_slot-Layout, s3m_slot-Layout, mod_slot_walk-Between, xm_top,
  xm_slot_instruments-Between,
}

-- Slots in ascending order of their indices, the first above `low`, inside a file of `size` bytes.
abbrev pub Numbered : ℕ → ℕ → List SampleSlot → Type 0
Numbered size low [] = Unit {0}
Numbered size low (s ∷ ss) =
    (low < s.index)
    × (0 < s.length)
    × (s.offset + s.length ≤ size)
    × Layout s
    × Numbered size s.index ss

-- What every slot locator gives.
abbrev Ordered : List SampleSlot → Type 0
Ordered ss = (high : ℕ) × Between 0 high ss

mod_slots-Ordered : (b : List ℕ) → Ordered (mod_slots b)
unfolding mod_slots
mod_slots-Ordered b = elim (Bool-cases (mod_channels (tag4 b 1080) == 0)) [
  | inl unknown ↦ rw (unknown, mod_slots) (0, tt)
  | inr known ↦
      rw (known, mod_slots)
        (
          length (mod_lens b 31 0),
          mod_slot_walk-Between (length b) 0 0 _ (mod_lens b 31 0) _ (omega arith) (omega arith),
        )
]

it_like_slots-Ordered : (b : List ℕ) → Ordered (it_like_slots b)
unfolding it_like_slots
it_like_slots-Ordered b = (
  u16le b 0x24,
  collect-Between (it_slot b (it_base b)) (it_slot-Layout b (it_base b)) (u16le b 0x24) 0 0 _
      (omega arith) (omega arith),
)

s3m_slots-Ordered : (b : List ℕ) → Ordered (s3m_slots b)
unfolding s3m_slots
s3m_slots-Ordered b = (
  u16le b 0x22,
  collect-Between (s3m_slot b (0x60 + u16le b 0x20)) (s3m_slot-Layout b (0x60 + u16le b 0x20))
      (u16le b 0x22) 0 0 _ (omega arith) (omega arith),
)

xm_slots-Ordered : (b : List ℕ) → Ordered (xm_slots b)
unfolding xm_slots
xm_slots-Ordered b = elim (Option-cases (skip_patterns b (u16le b 70) (60 + u32le b 60))) [
  | inl broken ↦ rw (broken, xm_slots) (0, tt)
  | inr (pos, ok) ↦
      rw (ok, xm_slots)
        (xm_top b (u16le b 72) pos 0, xm_slot_instruments-Between b (u16le b 72) pos 0)
]

slot_extractors-Ordered : (f : Format) (b : List ℕ) → Ordered (slot_extractors f b)
unfolding slot_extractors
slot_extractors-Ordered amiga_mod b = mod_slots-Ordered b
slot_extractors-Ordered it b = it_like_slots-Ordered b
slot_extractors-Ordered mptm b = it_like_slots-Ordered b
slot_extractors-Ordered s3m b = s3m_slots-Ordered b
slot_extractors-Ordered xm b = xm_slots-Ordered b
slot_extractors-Ordered mo3 b = (0, tt)

Numbered-low :
    (size low low' : ℕ) (ss : List SampleSlot)
    → low' ≤ low
    → Numbered size low ss
    → Numbered size low' ss
Numbered-low size low low' [] h b = tt
Numbered-low size low low' (s ∷ ss) h (p, q, i, l, b) = (omega arith, q, i, l, b)

slots_in_file-Numbered :
    (size low high : ℕ) (ss : List SampleSlot)
    → Between low high ss
    → Numbered size low (slots_in_file size ss)
unfolding slots_in_file
slots_in_file-Numbered size low high [] b = tt
slots_in_file-Numbered size low high (s ∷ ss) (p, q, l, b) =
    elim (Bool-cases (ltb 0 s.length && leb (s.offset + s.length) size)) [
      | inl inside ↦
          rw inside
            (p, ground arith, ground arith, l, slots_in_file-Numbered size s.index high ss b)
      | inr out ↦ rw out (
          Numbered-low size s.index low _ (omega arith)
            (slots_in_file-Numbered size s.index high ss b))
    ]

-- The filter tests each slot's length, the decoded one of a compressed slot as well.
pub sample_slots-Numbered :
    (b : List ℕ) (hint : Option Format) (p : ParsedSlots)
    → sample_slots b hint ≡ some p
    → Numbered (length b) 0 p.slots
unfolding sample_slots
sample_slots-Numbered b hint p e = elim (Option-cases (choose_format b hint)) [
  | inl none_fits ↦ cc (rw (none_fits, sample_slots) at e)
  | inr (f, fits) ↦
      let (high, between) = slot_extractors-Ordered f b in
      let result : ParsedSlots = record {
        format = f;
        slots = slots_in_file (length b) (slot_extractors f b);
      } in
      let same : result ≡ p = cc (rw (fits, sample_slots) at e) in
      subst (λ q. Numbered (length b) 0 q.slots) same
        (slots_in_file-Numbered (length b) 0 high (slot_extractors f b) between)
]
