-- ===== src/Parse/Between.antt =====
-- The slots that the locators of packages/repack/src/parse.ts number: ascending indices, known layouts.
use trackerstream.Common.{
  ℕ, zero, suc, max, ◌+◌, ◌-◌, ◌≤◌, ◌<◌, ◌≡◌, refl, ◌⊎◌, inl, inr, Option, none, some, List, [],
  ◌∷◌, ◌++◌, ltb, leb, Bool-cases, Option-cases, ◌&&◌, Bool, true, false, length, arith,
  if◌then◌else◌, ◌==◌,
}
use trackerstream.Parse.Bytes.{SampleSlot, u16le, u32le}
use trackerstream.Parse.Regions.{collect}
use trackerstream.Parse.Slots.{it_slot, s3m_slot, mod_slot_walk}
use trackerstream.Parse.Xm.{read_meta, place_slots, xm_slot_instruments}

abbrev pub Layout : SampleSlot → Type 0
Layout s = ((s.bit_depth ≡ 8) ⊎ (s.bit_depth ≡ 16)) × ((s.channels ≡ 1) ⊎ (s.channels ≡ 2))

-- Indices above `low` and up to `high`, each larger than the one before.
abbrev pub Between : ℕ → ℕ → List SampleSlot → Type 0
Between low high [] = Unit {0}
Between low high (s ∷ ss) = (low < s.index) × (s.index ≤ high) × Layout s × Between s.index high ss

Between-low :
    (low low' high : ℕ) (ss : List SampleSlot)
    → low' ≤ low
    → Between low high ss
    → Between low' high ss
Between-low low low' high [] h b = tt
Between-low low low' high (s ∷ ss) h (p, q, l, b) = (omega arith, q, l, b)

Between-append :
    (low mid high : ℕ) (xs ys : List SampleSlot)
    → low ≤ mid
    → mid ≤ high
    → Between low mid xs
    → Between mid high ys
    → Between low high (xs ++ ys)
Between-append low mid high [] ys h k b c = Between-low mid low high ys h c
Between-append low mid high (s ∷ xs) ys h k (p, q, l, b) c =
    (p, omega arith, l, Between-append s.index mid high xs ys q k b c)

pub collect-Between :
    (slot : ℕ → Option SampleSlot)
    → ((i : ℕ) (s : SampleSlot) → slot i ≡ some s → (s.index ≡ i + 1) × Layout s)
    → (rounds i low high : ℕ) → low ≤ i
    → i + rounds ≤ high
    → Between low high (collect rounds i slot)
unfolding collect
collect-Between slot known zero i low high h k = tt
collect-Between slot known (suc rounds) i low high h k = elim (Option-cases (slot i)) [
  | inl absent ↦
      rw (absent, collect)
        (collect-Between slot known rounds (i + 1) low high (omega arith) (omega arith))
  | inr (s, found) ↦
      let (e, l) = known i s found in
      rw (found, collect)
        (
          omega arith,
          omega arith,
          l,
          collect-Between slot known rounds (i + 1) s.index high (omega arith) (omega arith),
        )
]

pub it_slot-Layout :
    (b : List ℕ) (base i : ℕ) (s : SampleSlot)
    → it_slot b base i ≡ some s
    → (s.index ≡ i + 1) × Layout s
unfolding it_slot
it_slot-Layout b base i s e = ground arith

pub s3m_slot-Layout :
    (b : List ℕ) (base i : ℕ) (s : SampleSlot)
    → s3m_slot b base i ≡ some s
    → (s.index ≡ i + 1) × Layout s
unfolding s3m_slot
s3m_slot-Layout b base i s e = ground arith

-- A slot that is pushed or not, in front of the later ones.
Between-optional :
    (t : Bool) (low high : ℕ) (s : SampleSlot) (rest : List SampleSlot)
    → low < s.index
    → s.index ≤ high
    → Layout s
    → Between s.index high rest
    → Between low high (if t then s ∷ rest else rest)
Between-optional true low high s rest h k l b = (h, k, l, b)
Between-optional false low high s rest h k l b = Between-low s.index low high rest (omega arith) b

Between-if :
    (t : Bool) (low high : ℕ) (rest : List SampleSlot)
    → Between low high rest
    → Between low high (if t then [] else rest)
Between-if true low high rest b = tt
Between-if false low high rest b = b

pub mod_slot_walk-Between :
    (size i low high : ℕ) (lens : List ℕ) (off : ℕ)
    → low ≤ i
    → i + length lens ≤ high
    → Between low high (mod_slot_walk size i lens off)
unfolding mod_slot_walk
mod_slot_walk-Between size i low high [] off h k = tt
mod_slot_walk-Between size i low high (n ∷ lens) off h k = elim (Bool-cases (leb n 2)) [
  | inl empty ↦
      rw (empty, mod_slot_walk)
        (mod_slot_walk-Between size (i + 1) low high lens off (omega arith) (omega arith))
  | inr full ↦
      rw (full, mod_slot_walk)
        (Between-optional (ltb 0 (if ltb size (off + n) then size - off else n)) low high _ _
          (omega arith) (omega arith) (inl refl, inl refl)
          (Between-if (ltb size (off + n)) (i + 1) high _ (
            mod_slot_walk-Between size (i + 1) (i + 1) high lens (off + n) (omega arith)
              (omega arith))))
]

abbrev KnownDepths : List (ℕ × ℕ) → Type 0
KnownDepths [] = Unit {0}
KnownDepths (m ∷ meta) = ((m.1 ≡ 8) ⊎ (m.1 ≡ 16)) × KnownDepths meta

abbrev depth_if : Bool → ℕ
depth_if t = if t then 16 else 8

depth-known : (t : Bool) → (depth_if t ≡ 8) ⊎ (depth_if t ≡ 16)
depth-known true = inr refl
depth-known false = inl refl

read_meta-KnownDepths :
    (b : List ℕ) (rounds hdr sh_size : ℕ) → KnownDepths (read_meta b rounds hdr sh_size).0
unfolding read_meta
read_meta-KnownDepths b zero hdr sh_size = tt
read_meta-KnownDepths b (suc rounds) hdr sh_size = elim (Bool-cases (ltb (length b) (hdr + 18))) [
  | inl short ↦ rw (short) tt
  | inr long ↦ rw (long) (depth-known _, read_meta-KnownDepths b rounds (hdr + sh_size) sh_size)
]

place_slots-Between :
    (size slot high : ℕ) (meta : List (ℕ × ℕ)) (at : ℕ)
    → KnownDepths meta
    → slot + length meta ≤ high
    → Between slot high (place_slots size slot meta at).0
unfolding place_slots
place_slots-Between size slot high [] at k h = tt
place_slots-Between size slot high ((n, depth) ∷ meta) at (d, k) h =
    Between-optional (ltb 0 n && leb (at + n) size) slot high
      (record {
        index = slot + 1;
        offset = at;
        length = n;
        bit_depth = depth;
        channels = 1;
        compressed = none;
      })
      _ (omega arith) (omega arith) (d, inl refl)
      (place_slots-Between size (slot + 1) high meta (at + n) k (omega arith))

-- The highest index that the remaining instruments can reach.
pub xm_top : List ℕ → ℕ → ℕ → ℕ → ℕ
xm_top b zero pos slot = slot
xm_top b (suc rounds) pos slot =
    let (meta, at) = read_meta b (u16le b (pos + 27)) (pos + u32le b pos) (u32le b (pos + 29)) in
    max (xm_top b rounds (pos + u32le b pos) slot) (
      max (slot + length meta)
        (xm_top b rounds (place_slots (length b) slot meta at).1 (slot + length meta)))

xm_top-le : (b : List ℕ) (rounds pos slot : ℕ) → slot ≤ xm_top b rounds pos slot
unfolding xm_top
xm_top-le b zero pos slot = omega arith
xm_top-le b (suc rounds) pos slot = omega (arith, xm_top-le b rounds (pos + u32le b pos) slot)

Between-high :
    (low high high' : ℕ) (ss : List SampleSlot)
    → high ≤ high'
    → Between low high ss
    → Between low high' ss
Between-high low high high' [] h b = tt
Between-high low high high' (s ∷ ss) h (p, q, l, b) =
    (p, omega arith, l, Between-high s.index high high' ss h b)

pub xm_slot_instruments-Between :
    (b : List ℕ) (rounds pos slot : ℕ)
    → Between slot (xm_top b rounds pos slot) (xm_slot_instruments b rounds pos slot)
unfolding xm_slot_instruments xm_top
xm_slot_instruments-Between b zero pos slot = tt
xm_slot_instruments-Between b (suc rounds) pos slot =
    elim (Bool-cases (ltb (length b) (pos + 29))) [
      | inl over ↦ rw (over, xm_slot_instruments) tt
      | inr more ↦ elim (Bool-cases (u16le b (pos + 27) == 0)) [
        | inl silent ↦
            rw (more, silent, xm_slot_instruments)
              (Between-high slot _ _ _ (omega arith)
                (xm_slot_instruments-Between b rounds (pos + u32le b pos) slot))
        | inr sounding ↦
            rw (more, sounding, xm_slot_instruments)
              (Between-high slot _ _ _ (omega arith) (
                Between-append slot mid (xm_top b rounds end mid) _ _ (omega arith)
                  (xm_top-le b rounds end mid)
                  (place_slots-Between (length b) slot mid read.0 read.1
                    (read_meta-KnownDepths b (u16le b (pos + 27)) (pos + u32le b pos)
                      (u32le b (pos + 29)))
                    (omega arith))
                  (xm_slot_instruments-Between b rounds end mid)))
      ]
    ]
  where
    read : List (ℕ × ℕ) × ℕ
    read = read_meta b (u16le b (pos + 27)) (pos + u32le b pos) (u32le b (pos + 29))

    mid : ℕ
    mid = slot + length read.0

    end : ℕ
    end = (place_slots (length b) slot read.0 read.1).1
