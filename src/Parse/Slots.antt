-- ===== src/Parse/Slots.antt =====
-- The v2 locators of packages/repack/src/parse.ts for MOD, IT and S3M: regions keyed by the 1-based
-- libopenmpt sample slot.
use trackerstream.Common.{
  ℕ, zero, suc, ◌+◌, ◌-◌, ◌*◌, ◌/◌, min, true, false, not, ◌&&◌, ◌||◌, Option, none, some, List, [],
  ◌∷◌, ltb, leb, ◌==◌, if◌then◌else◌, length,
}
use trackerstream.Parse.Bytes.{SampleSlot, Compressed, byte_at, u16le, u32le, tag4, mod_channels}
use trackerstream.Parse.Regions.{collect, has_bit, it_base, mod_lens, mod_data_start}

-- The loop of modSlots; `i` is the counter, `size` is b.length.
unfoldable pub mod_slot_walk : ℕ → ℕ → List ℕ → ℕ → List SampleSlot
mod_slot_walk size i [] off = []
mod_slot_walk size i (n ∷ lens) off =
    let length' = if ltb size (off + n) then size - off else n in
    let slot : SampleSlot = record {
      index = i + 1;
      offset = off;
      length = length';
      bit_depth = 8;
      channels = 1;
      compressed = none;
    } in
    elim (leb n 2) [
      | true ↦ mod_slot_walk size (i + 1) lens off
      | false ↦
          let rest = mod_slot_walk size (i + 1) lens (off + n) in
          let rest' = if ltb size (off + n) then [] else rest in
          if ltb 0 length' then slot ∷ rest' else rest'
    ]

unfoldable pub mod_slots : List ℕ → List SampleSlot
mod_slots b =
    let ch = mod_channels (tag4 b 1080) in
    if ch == 0 then [] else mod_slot_walk (length b) 0 (mod_lens b 31 0) (mod_data_start b ch)

-- The `while` of itCompressedSpan over the blocks of one channel; `none` is the -1 that it returns.
-- Each block takes a frame at least, so `remaining` rounds are enough.
unfoldable pub channel_end : ℕ → List ℕ → ℕ → ℕ → ℕ → Option ℕ
channel_end zero b per_block off remaining = some off
channel_end (suc fuel) b per_block off remaining =
    let next = off + (2 + u16le b off) in
    let rest = channel_end fuel b per_block next (remaining - min per_block remaining) in
    if remaining == 0
    then some off
    else if ltb (length b) (off + 2)
    then none
    else if ltb (length b) next
    then none
    else rest

-- The loop over the channels, each of them stored whole.
unfoldable pub channels_end : ℕ → List ℕ → ℕ → ℕ → ℕ → Option ℕ
channels_end zero b per_block off frames = some off
channels_end (suc channels) b per_block off frames =
    elim (channel_end frames b per_block off frames) [
      | none ↦ none
      | some end ↦ channels_end channels b per_block end frames
    ]

-- `none` is -1, and 0 as well: the caller keeps a positive span only.
unfoldable pub compressed_span : List ℕ → ℕ → ℕ → ℕ → ℕ → Option ℕ
compressed_span b ptr frames bit_depth channels =
    let per_block = if bit_depth == 16 then 0x4000 else 0x8000 in
    elim (channels_end channels b per_block ptr frames) [
      | none ↦ none
      | some end ↦ if ltb 0 (end - ptr) then some (end - ptr) else none
    ]

abbrev pub depth_of : ℕ → ℕ → ℕ
depth_of flags k = if has_bit flags k then 16 else 8

abbrev pub channels_of : ℕ → ℕ → ℕ
channels_of flags k = if has_bit flags k then 2 else 1

-- One round of the loop of itLikeSlots.
unfoldable pub it_slot : List ℕ → ℕ → ℕ → Option SampleSlot
it_slot b base i =
    let so = u32le b (base + i * 4) in
    let flg = byte_at b (so + 0x12) in
    let len = u32le b (so + 0x30) in
    let ptr = u32le b (so + 0x48) in
    let depth = depth_of flg 2 in
    let channels' = channels_of flg 4 in
    let decoded = len * (depth / 8) * channels' in
    let bytes = min decoded (length b - ptr) in
    let packed : Compressed = record {
      header_offset = so;
      compressed_bytes = compressed_span b ptr len depth channels';
    } in
    if so == 0 || ltb (length b) (so + 0x50)
    then none
    else if not (has_bit flg 1) || len == 0 || ptr == 0
    then none
    else if has_bit flg 8
    then (if ltb 0 decoded
        then some (record {
          index = i + 1;
          offset = ptr;
          length = decoded;
          bit_depth = depth;
          channels = channels';
          compressed = some packed;
        })
        else none)
    else if ltb 0 bytes
    then some (record {
      index = i + 1;
      offset = ptr;
      length = bytes;
      bit_depth = depth;
      channels = channels';
      compressed = none;
    })
    else none

unfoldable pub it_like_slots : List ℕ → List SampleSlot
it_like_slots b = collect (u16le b 0x24) 0 (it_slot b (it_base b))

-- One round of the loop of s3mSlots.
unfoldable pub s3m_slot : List ℕ → ℕ → ℕ → Option SampleSlot
s3m_slot b para_base i =
    let pp = u16le b (para_base + i * 2) in
    let off = pp * 16 in
    let ptr = (byte_at b (off + 0x0d) * 65536 + u16le b (off + 0x0e)) * 16 in
    let len = u32le b (off + 0x10) in
    let depth = depth_of (byte_at b (off + 0x1f)) 4 in
    let channels' = channels_of (byte_at b (off + 0x1f)) 2 in
    let bytes = min (len * (depth / 8) * channels') (length b - ptr) in
    if pp == 0
    then none
    else if ltb (length b) (off + 0x50) || not (byte_at b off == 1)
    then none
    else if len == 0 || ptr == 0
    then none
    else if ltb 0 bytes && ltb ptr (length b)
    then some (record {
      index = i + 1;
      offset = ptr;
      length = bytes;
      bit_depth = depth;
      channels = channels';
      compressed = none;
    })
    else none

unfoldable pub s3m_slots : List ℕ → List SampleSlot
s3m_slots b = collect (u16le b 0x22) 0 (s3m_slot b (0x60 + u16le b 0x20))
