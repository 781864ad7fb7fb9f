-- ===== src/Parse/Xm.antt =====
-- The XM locators of packages/repack/src/parse.ts: extractXM and xmSlots.
use trackerstream.Common.{
  ℕ, zero, suc, ◌+◌, true, false, not, ◌&&◌, ◌||◌, Option, none, some, List, [], ◌∷◌, ◌++◌, ltb,
  leb, ◌==◌, if◌then◌else◌, length,
}
use trackerstream.Parse.Bytes.{
  SampleRegion, SampleSlot, byte_at, u16le, u32le, tag4, codes, same_text,
}
use trackerstream.Parse.Regions.{has_bit}

-- The loop over the pattern headers; `none` where the file ends inside one.
unfoldable pub skip_patterns : List ℕ → ℕ → ℕ → Option ℕ
skip_patterns b zero pos = some pos
skip_patterns b (suc rounds) pos =
    if ltb (length b) (pos + 9)
    then none
    else skip_patterns b rounds (pos + u32le b pos + u16le b (pos + 7))

-- The sample headers of one instrument in extractXM: the lengths, and where the data begin. `none`
-- is the early return.
unfoldable pub read_lens : List ℕ → ℕ → ℕ → ℕ → Option (List ℕ × ℕ)
read_lens b zero hdr sh_size = some ([], hdr)
read_lens b (suc rounds) hdr sh_size =
    if ltb (length b) (hdr + 18) then none else elim (read_lens b rounds (hdr + sh_size) sh_size) [
      | none ↦ none
      | some (lens, at) ↦ some (u32le b hdr ∷ lens, at)
    ]

unfoldable pub place_regions : ℕ → List ℕ → ℕ → List SampleRegion × ℕ
place_regions size [] at = ([], at)
place_regions size (n ∷ lens) at =
    let (rest, end) = place_regions size lens (at + n) in
    (
      (if ltb 0 n && leb (at + n) size then record { offset = at; length = n } ∷ rest else rest),
      end,
    )

-- One round of the loop over the instruments: `break`, the early return, or the next position.
pub data Round (A : Type 0) : Type 0 where
  stop : Round A
  give_up : Round A
  go : ℕ → List A → Round A

unfoldable pub xm_round : List ℕ → ℕ → Round SampleRegion
xm_round b pos =
    if ltb (length b) (pos + 29)
    then stop
    else if u16le b (pos + 27) == 0
    then go (pos + u32le b pos) []
    else elim (read_lens b (u16le b (pos + 27)) (pos + u32le b pos) (u32le b (pos + 29))) [
      | none ↦ give_up
      | some (lens, at) ↦ let (rs, end) = place_regions (length b) lens at in go end rs
    ]

unfoldable pub or_null : List SampleRegion → Option (List SampleRegion)
or_null [] = none
or_null (r ∷ rs) = some (r ∷ rs)

unfoldable pub xm_instruments : List ℕ → ℕ → ℕ → List SampleRegion → Option (List SampleRegion)
xm_instruments b zero pos out = some out
xm_instruments b (suc rounds) pos out = elim (xm_round b pos) [
  | stop ↦ some out
  | give_up ↦ or_null out
  | go next rs ↦ xm_instruments b rounds next (out ++ rs)
]

unfoldable pub extract_xm : List ℕ → Option (List SampleRegion)
extract_xm b =
    if ltb (length b) 80 || not (same_text (tag4 b 0) (codes "Exte"))
    then none
    else elim (skip_patterns b (u16le b 70) (60 + u32le b 60)) [
      | none ↦ none
      | some pos ↦ xm_instruments b (u16le b 72) pos []
    ]

-- The sample headers in xmSlots: lengths and bit depths as far as the file goes.
unfoldable pub read_meta : List ℕ → ℕ → ℕ → ℕ → List (ℕ × ℕ) × ℕ
read_meta b zero hdr sh_size = ([], hdr)
read_meta b (suc rounds) hdr sh_size =
    let (rest, at) = read_meta b rounds (hdr + sh_size) sh_size in
    if ltb (length b) (hdr + 18)
    then ([], hdr)
    else ((u32le b hdr, (if has_bit (byte_at b (hdr + 14)) 0x10 then 16 else 8)) ∷ rest, at)

-- `slot` counts the samples before these.
unfoldable pub place_slots : ℕ → ℕ → List (ℕ × ℕ) → ℕ → List SampleSlot × ℕ
place_slots size slot [] at = ([], at)
place_slots size slot ((n, depth) ∷ meta) at =
    let (rest, end) = place_slots size (slot + 1) meta (at + n) in
    (
      (if ltb 0 n && leb (at + n) size
          then record {
            index = slot + 1;
            offset = at;
            length = n;
            bit_depth = depth;
            channels = 1;
            compressed = none;
          }
            ∷ rest
          else rest),
      end,
    )

unfoldable pub xm_slot_instruments : List ℕ → ℕ → ℕ → ℕ → List SampleSlot
xm_slot_instruments b zero pos slot = []
xm_slot_instruments b (suc rounds) pos slot =
    let (meta, at) = read_meta b (u16le b (pos + 27)) (pos + u32le b pos) (u32le b (pos + 29)) in
    let (slots, end) = place_slots (length b) slot meta at in
    elim (ltb (length b) (pos + 29)) [
      | true ↦ []
      | false ↦ elim (u16le b (pos + 27) == 0) [
        | true ↦ xm_slot_instruments b rounds (pos + u32le b pos) slot
        | false ↦ slots ++ xm_slot_instruments b rounds end (slot + length meta)
      ]
    ]

unfoldable pub xm_slots : List ℕ → List SampleSlot
xm_slots b = elim (skip_patterns b (u16le b 70) (60 + u32le b 60)) [
  | none ↦ []
  | some pos ↦ xm_slot_instruments b (u16le b 72) pos 0
]
