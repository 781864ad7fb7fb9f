-- ===== src/Parse/OnDisk.antt =====
-- Where the bytes of a slot lie in the file, for the slot locators of packages/repack/src/parse.ts.
use trackerstream.Common.{
  ℕ, zero, suc, ◌+◌, ◌-◌, ◌*◌, ◌/◌, ◌≤◌, ◌<◌, ◌≡◌, refl, ◌⊎◌, inl, inr, Option, none, some, List,
  [], ◌∷◌, ◌++◌, ltb, leb, Bool-cases, Option-cases, ◌&&◌, ◌||◌, not, min, Bool, true, false,
  length, arith, All, if◌then◌else◌, ◌==◌,
}
use mathlib.Core.Path.{subst}
use trackerstream.Parse.Bytes.{
  Format, amiga_mod, it, s3m, xm, mptm, mo3, SampleSlot, Compressed, byte_at, tag4, mod_channels,
  u16le, u32le,
}
use trackerstream.Parse.Regions.{collect, has_bit, it_base, mod_lens}
use trackerstream.Parse.Slots.{
  channel_end, channels_end, compressed_span, depth_of, channels_of, it_slot, it_like_slots,
  s3m_slot, s3m_slots, mod_slot_walk, mod_slots,
}
use trackerstream.Parse.Xm.{place_slots, xm_slot_instruments, xm_slots, skip_patterns}
use trackerstream.Parse.Select.{slot_extractors}

abbrev pub SpanIn : ℕ → ℕ → Option ℕ → Type 0
SpanIn size offset none = Unit {0}
SpanIn size offset (some n) = (0 < n) × (offset + n ≤ size)

-- The header of a compressed sample, and its compressed bytes where their number is known.
abbrev pub PackedIn : ℕ → ℕ → Compressed → Type 0
PackedIn size offset c = (c.header_offset + 0x50 ≤ size) × SpanIn size offset c.compressed_bytes

-- The bytes of an uncompressed slot, some at least, are in the file; of a compressed one what is known is.
abbrev pub OnDisk : ℕ → SampleSlot → Type 0
OnDisk size s = elim s.compressed [
  | none ↦ (0 < s.length) × (s.offset + s.length ≤ size)
  | some c ↦ PackedIn size s.offset c
]

channel_end-bound :
    (fuel : ℕ) (b : List ℕ) (per_block off remaining end : ℕ)
    → channel_end fuel b per_block off remaining ≡ some end
    → (end ≡ off) ⊎ (end ≤ length b)
unfolding channel_end
channel_end-bound zero b per_block off remaining end h = inl (ground arith)
channel_end-bound (suc fuel) b per_block off remaining end h = ground (
  arith,
  channel_end-bound fuel b per_block (off + (2 + u16le b off)) (remaining - min per_block remaining)
      end,
)

channels_end-bound :
    (channels : ℕ) (b : List ℕ) (per_block off frames end : ℕ)
    → channels_end channels b per_block off frames ≡ some end
    → (end ≡ off) ⊎ (end ≤ length b)
unfolding channels_end
channels_end-bound zero b per_block off frames end h = inl (ground arith)
channels_end-bound (suc channels) b per_block off frames end h =
    elim (Option-cases (channel_end frames b per_block off frames)) [
      | inl past ↦ cc (rw (past, channels_end) at h)
      | inr (mid, found) ↦
          let here = channel_end-bound frames b per_block off frames mid found in
          let there =
            channels_end-bound channels b per_block mid frames end
              (rw (found, channels_end) at h) in
          ground (arith, here, there)
    ]

compressed_span-bound :
    (b : List ℕ) (ptr frames bit_depth channels n : ℕ)
    → compressed_span b ptr frames bit_depth channels ≡ some n
    → (0 < n) × (ptr + n ≤ length b)
unfolding compressed_span
compressed_span-bound b ptr frames bit_depth channels n h =
    let per_block : ℕ = if bit_depth == 16 then 0x4000 else 0x8000 in
    elim (Option-cases (channels_end channels b per_block ptr frames)) [
      | inl past ↦ cc (rw (past, compressed_span) at h)
      | inr (end, found) ↦
          let bound = channels_end-bound channels b per_block ptr frames end found in
          let kept = rw (found, compressed_span) at h in ground (arith, bound, kept)
    ]

span_known :
    (b : List ℕ) (ptr frames bit_depth channels : ℕ) (span : Option ℕ)
    → compressed_span b ptr frames bit_depth channels ≡ span
    → SpanIn (length b) ptr span
span_known b ptr frames bit_depth channels none h = tt
span_known b ptr frames bit_depth channels (some n) h =
    compressed_span-bound b ptr frames bit_depth channels n h

some_eq : {A : Type 0} {a b : A} → some a ≡ some b → a ≡ b
some_eq h = cc

module _ (b : List ℕ) (base i : ℕ) where
  abbrev so : ℕ
  so = u32le b (base + i * 4)

  abbrev flg : ℕ
  flg = byte_at b (so + 0x12)

  abbrev ptr : ℕ
  ptr = u32le b (so + 0x48)

  abbrev decoded : ℕ
  decoded = u32le b (so + 0x30) * (depth_of flg 2 / 8) * channels_of flg 4

  it_slot-OnDisk : (s : SampleSlot) → it_slot b base i ≡ some s → OnDisk (length b) s
  unfolding it_slot
  it_slot-OnDisk s e = elim (Bool-cases (so == 0 || ltb (length b) (so + 0x50))) [
    | inl absent ↦ cc (rw (absent, it_slot) at e)
    | inr there ↦ elim (Bool-cases (not (has_bit flg 1) || u32le b (so + 0x30) == 0 || ptr == 0)) [
      | inl silent ↦ cc (rw (there, silent, it_slot) at e)
      | inr sounding ↦ elim (Bool-cases (has_bit flg 8)) [
        | inl packed ↦ elim (Bool-cases (ltb 0 decoded)) [
          | inr nothing ↦ cc (rw (there, sounding, packed, nothing, it_slot) at e)
          | inl filled ↦
              subst (OnDisk (length b))
                (some_eq (rw (there, sounding, packed, filled, it_slot) at e))
                (
                  ground (arith, there),
                  span_known b ptr (u32le b (so + 0x30)) (depth_of flg 2) (channels_of flg 4) _
                      refl,
                )
        ]
        | inr plain ↦ elim (Bool-cases (ltb 0 (min decoded (length b - ptr)))) [
          | inr nothing ↦ cc (rw (there, sounding, plain, nothing, it_slot) at e)
          | inl filled ↦
              subst (OnDisk (length b))
                (some_eq (rw (there, sounding, plain, filled, it_slot) at e))
                (ground (arith, filled))
        ]
      ]
    ]
  ]

s3m_slot-OnDisk :
    (b : List ℕ) (base i : ℕ) (s : SampleSlot) → s3m_slot b base i ≡ some s → OnDisk (length b) s
unfolding s3m_slot
s3m_slot-OnDisk b base i s e =
    let plain : s.compressed ≡ none = ground arith in rw plain (ground arith)

collect-OnDisk :
    (size : ℕ) (slot : ℕ → Option SampleSlot)
    → ((i : ℕ) (s : SampleSlot) → slot i ≡ some s → OnDisk size s)
    → (rounds i : ℕ) → All (OnDisk size) (collect rounds i slot)
unfolding collect
collect-OnDisk size slot known zero i = tt
collect-OnDisk size slot known (suc rounds) i = elim (Option-cases (slot i)) [
  | inl absent ↦ rw (absent, collect) (collect-OnDisk size slot known rounds (i + 1))
  | inr (s, found) ↦
      rw (found, collect) (known i s found, collect-OnDisk size slot known rounds (i + 1))
]

optional-OnDisk :
    (size : ℕ) (t : Bool) (s : SampleSlot) (rest : List SampleSlot)
    → (t ≡ true → OnDisk size s)
    → All (OnDisk size) rest
    → All (OnDisk size) (if t then s ∷ rest else rest)
optional-OnDisk size true s rest h r = (h refl, r)
optional-OnDisk size false s rest h r = r

mod_slot_walk-OnDisk :
    (size i : ℕ) (lens : List ℕ) (off : ℕ) → All (OnDisk size) (mod_slot_walk size i lens off)
unfolding mod_slot_walk
mod_slot_walk-OnDisk size i [] off = tt
mod_slot_walk-OnDisk size i (n ∷ lens) off = elim (Bool-cases (leb n 2)) [
  | inl empty ↦ rw (empty, mod_slot_walk) (mod_slot_walk-OnDisk size (i + 1) lens off)
  | inr full ↦
      rw (full, mod_slot_walk)
        (optional-OnDisk size (ltb 0 (if ltb size (off + n) then size - off else n)) _ _
          (λ filled. ground (arith, filled))
          (stop-OnDisk size (ltb size (off + n)) _
            (mod_slot_walk-OnDisk size (i + 1) lens (off + n))))
]
  where
    stop-OnDisk :
        (size : ℕ) (t : Bool) (rest : List SampleSlot)
        → All (OnDisk size) rest
        → All (OnDisk size) (if t then [] else rest)
    stop-OnDisk size true rest r = tt
    stop-OnDisk size false rest r = r

place_slots-OnDisk :
    (size slot : ℕ) (meta : List (ℕ × ℕ)) (at : ℕ)
    → All (OnDisk size) (place_slots size slot meta at).0
unfolding place_slots
place_slots-OnDisk size slot [] at = tt
place_slots-OnDisk size slot ((n, depth) ∷ meta) at =
    optional-OnDisk size (ltb 0 n && leb (at + n) size) _ _ (λ inside. ground (arith, inside))
      (place_slots-OnDisk size (slot + 1) meta (at + n))

append-OnDisk :
    (size : ℕ) (xs ys : List SampleSlot)
    → All (OnDisk size) xs
    → All (OnDisk size) ys
    → All (OnDisk size) (xs ++ ys)
append-OnDisk size [] ys h k = k
append-OnDisk size (x ∷ xs) ys (h, hs) k = (h, append-OnDisk size xs ys hs k)

xm_slot_instruments-OnDisk :
    (b : List ℕ) (rounds pos slot : ℕ)
    → All (OnDisk (length b)) (xm_slot_instruments b rounds pos slot)
unfolding xm_slot_instruments
xm_slot_instruments-OnDisk b zero pos slot = tt
xm_slot_instruments-OnDisk b (suc rounds) pos slot = elim (Bool-cases (ltb (length b) (pos + 29))) [
  | inl over ↦ rw (over, xm_slot_instruments) tt
  | inr more ↦ elim (Bool-cases (u16le b (pos + 27) == 0)) [
    | inl silent ↦
        rw (more, silent, xm_slot_instruments)
          (xm_slot_instruments-OnDisk b rounds (pos + u32le b pos) slot)
    | inr sounding ↦
        rw (more, sounding, xm_slot_instruments)
          (append-OnDisk (length b) _ _ (place_slots-OnDisk (length b) slot _ _)
            (xm_slot_instruments-OnDisk b rounds _ _))
  ]
]

pub slot_extractors-OnDisk :
    (f : Format) (b : List ℕ) → All (OnDisk (length b)) (slot_extractors f b)
unfolding slot_extractors it_like_slots s3m_slots xm_slots mod_slots
slot_extractors-OnDisk it b = collect-OnDisk (length b) _ (it_slot-OnDisk b (it_base b)) _ 0
slot_extractors-OnDisk mptm b = collect-OnDisk (length b) _ (it_slot-OnDisk b (it_base b)) _ 0
slot_extractors-OnDisk s3m b =
    collect-OnDisk (length b) _ (s3m_slot-OnDisk b (0x60 + u16le b 0x20)) _ 0
slot_extractors-OnDisk mo3 b = tt
slot_extractors-OnDisk amiga_mod b = elim (Bool-cases (mod_channels (tag4 b 1080) == 0)) [
  | inl unknown ↦ rw (unknown, mod_slots) tt
  | inr known ↦ rw (known, mod_slots) (mod_slot_walk-OnDisk (length b) 0 (mod_lens b 31 0) _)
]
slot_extractors-OnDisk xm b = elim (Option-cases (skip_patterns b (u16le b 70) (60 + u32le b 60))) [
  | inl broken ↦ rw (broken, xm_slots) tt
  | inr (pos, start) ↦ rw (start, xm_slots) (xm_slot_instruments-OnDisk b (u16le b 72) pos 0)
]
