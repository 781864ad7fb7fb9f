-- ===== src/Parse/Regions.antt =====
-- The v1 locators of packages/repack/src/parse.ts (extractMOD to extractXM): the raw sample data of a
-- file as regions, or `none` where the source returns null.
use trackerstream.Common.{
  ℕ, zero, suc, ◌+◌, ◌-◌, ◌*◌, ◌/◌, ◌%◌, min, Bool, true, false, not, ◌&&◌, ◌||◌, Option, none,
  some, List, [], ◌∷◌, ltb, leb, ◌==◌, if◌then◌else◌, length,
}
use trackerstream.Parse.Bytes.{
  SampleRegion, byte_at, u16le, u16be, u32le, tag4, codes, same_text, mod_channels,
}

-- The rounds `i, i + 1, …` of a counted loop that pushes at most one item a round.
unfoldable pub collect {ℓ} : {A : Type ℓ} → ℕ → ℕ → (ℕ → Option A) → List A
collect zero i body = []
collect (suc rounds) i body =
    let rest = collect rounds (i + 1) body in elim (body i) [ none ↦ rest | some x ↦ x ∷ rest ]

-- lens[i] for i < 31, and maxPat over the 128 orders.
unfoldable pub mod_lens : List ℕ → ℕ → ℕ → List ℕ
mod_lens b zero i = []
mod_lens b (suc rounds) i = (u16be b (20 + i * 30 + 22) * 2) ∷ mod_lens b rounds (i + 1)

unfoldable pub max_pattern : List ℕ → ℕ → ℕ → ℕ → ℕ
max_pattern b zero i best = best
max_pattern b (suc rounds) i best =
    max_pattern b rounds (i + 1)
      (if ltb best (byte_at b (952 + i)) then byte_at b (952 + i) else best)

-- `1084 + (maxPat + 1) * 64 * ch * 4`
unfoldable pub mod_data_start : List ℕ → ℕ → ℕ
mod_data_start b ch = 1084 + (max_pattern b 128 0 0 + 1) * 64 * ch * 4

-- The second loop of extractMOD; `size` is b.length.
unfoldable pub mod_walk : ℕ → List ℕ → ℕ → List SampleRegion
mod_walk size [] off = []
mod_walk size (n ∷ lens) off = elim (leb n 2) [
  | true ↦ mod_walk size lens off
  | false ↦ elim (ltb size (off + n)) [
    | true ↦ record { offset = off; length = size - off } ∷ []
    | false ↦ record { offset = off; length = n } ∷ mod_walk size lens (off + n)
  ]
]

unfoldable pub extract_mod : List ℕ → Option (List SampleRegion)
extract_mod b =
    let ch = mod_channels (tag4 b 1080) in
    if ltb (length b) 1084
    then none
    else if ch == 0
    then none
    else some (mod_walk (length b) (mod_lens b 31 0) (mod_data_start b ch))

-- `x & k` as a test, for a power of two `k`.
abbrev pub has_bit : ℕ → ℕ → Bool
has_bit x k = x / k % 2 == 1

-- Bytes per frame; the argument is the header's flag byte, and the bits stand for 16-bit and stereo.
abbrev pub bytes_per_frame : ℕ → ℕ → ℕ → ℕ
bytes_per_frame flags wide stereo =
    (if has_bit flags wide then 2 else 1) * (if has_bit flags stereo then 2 else 1)

-- One round of the loop of extractITLike.
unfoldable pub it_region : List ℕ → ℕ → ℕ → Option SampleRegion
it_region b base i =
    let so = u32le b (base + i * 4) in
    let flg = byte_at b (so + 0x12) in
    let len = u32le b (so + 0x30) in
    let ptr = u32le b (so + 0x48) in
    let bytes = min (len * bytes_per_frame flg 2 4) (length b - ptr) in
    if so == 0 || ltb (length b) (so + 0x50)
    then none
    else if not (has_bit flg 1) || len == 0 || ptr == 0
    then none
    else if has_bit flg 8
    then none
    else if ltb 0 bytes
    then some (record { offset = ptr; length = bytes })
    else none

abbrev pub it_base : List ℕ → ℕ
it_base b = 0xc0 + u16le b 0x20 + u16le b 0x22 * 4

unfoldable pub extract_it_like : List ℕ → Option (List SampleRegion)
extract_it_like b =
    if ltb (length b) 0xc0 then none else some (collect (u16le b 0x24) 0 (it_region b (it_base b)))

unfoldable pub extract_it : List ℕ → Option (List SampleRegion)
extract_it b = if same_text (tag4 b 0) (codes "IMPM") then extract_it_like b else none

unfoldable pub extract_mptm : List ℕ → Option (List SampleRegion)
extract_mptm b =
    if ltb (length b) 0xc0
    then none
    else if not (same_text (tag4 b 0) (codes "tpm.")) && not (same_text (tag4 b 0) (codes "IMPM"))
    then none
    else extract_it_like b

unfoldable pub extract_mo3 : List ℕ → Option (List SampleRegion)
extract_mo3 b = none

-- One round of the loop of extractS3M.
unfoldable pub s3m_region : List ℕ → ℕ → ℕ → Option SampleRegion
s3m_region b para_base i =
    let pp = u16le b (para_base + i * 2) in
    let off = pp * 16 in
    let ptr = (byte_at b (off + 0x0d) * 65536 + u16le b (off + 0x0e)) * 16 in
    let len = u32le b (off + 0x10) in
    let bytes = min (len * bytes_per_frame (byte_at b (off + 0x1f)) 4 2) (length b - ptr) in
    if pp == 0
    then none
    else if ltb (length b) (off + 0x50)
    then none
    else if not (byte_at b off == 1)
    then none
    else if len == 0 || ptr == 0
    then none
    else if ltb 0 bytes && ltb ptr (length b)
    then some (record { offset = ptr; length = bytes })
    else none

unfoldable pub extract_s3m : List ℕ → Option (List SampleRegion)
extract_s3m b =
    if ltb (length b) 0x60 || not (same_text (tag4 b 0x2c) (codes "SCRM"))
    then none
    else some (collect (u16le b 0x22) 0 (s3m_region b (0x60 + u16le b 0x20)))
