-- ===== src/Tree/Enc.antt =====
-- applyEnc and pickEnc of packages/repack/src/dag.ts: decoded samples turned into the bytes on disk.
-- A write to a typed array at an index that is past its end, or no whole number, does nothing.
use trackerstream.Common.{
  ℕ, zero, suc, ◌+◌, ◌-◌, ◌*◌, ◌/◌, ◌%◌, ◌≡◌, refl, sym, ◌&&◌, Option, none, some, List, [], ◌∷◌,
  ltb, ◌==◌, if◌then◌else◌, length, get_or, replicate, arith, Bool-cases, inl, inr,
}
use trackerstream.Parse.Bytes.{same_text}
use trackerstream.Parse.Regions.{has_bit}
use trackerstream.Dag.Holds.{same_text-eq}

abbrev enc_sign : ℕ
enc_sign = 1

abbrev enc_delta : ℕ
enc_delta = 2

abbrev enc_deint : ℕ
enc_deint = 4

-- `out[i] = v` on a typed array.
unfoldable pub set_at : List ℕ → ℕ → ℕ → List ℕ
set_at [] i v = []
set_at (x ∷ xs) zero v = v ∷ xs
set_at (x ∷ xs) (suc i) v = x ∷ set_at xs i v

-- The same at the index `twice / 2`, which may be half a number.
set_half : List ℕ → ℕ → ℕ → List ℕ
set_half out twice v = if twice % 2 == 1 then out else set_at out (twice / 2) v

-- Bytes per sample and channel.
unfoldable pub bytes_per_sample : ℕ → ℕ
bytes_per_sample bit_depth = if bit_depth == 16 then 2 else 1

-- The innermost loop of the DEINT step. `(c * frames + f) * bps + b` with `frames` = length / (2 * bps)
-- is `c * length / 2 + f * bps + b`.
deint_bytes : List ℕ → ℕ → ℕ → ℕ → ℕ → ℕ → List ℕ → List ℕ
deint_bytes cur bps f c zero b out = out
deint_bytes cur bps f c (suc rounds) b out =
    deint_bytes cur bps f c rounds (b + 1)
      (set_half out (c * length cur + 2 * (f * bps + b)) (get_or cur ((f * 2 + c) * bps + b) 0))

-- The loop over the frames, on fuel: `f < length / (2 * bps)`, a fraction.
deint_frames : ℕ → List ℕ → ℕ → ℕ → List ℕ → List ℕ
deint_frames zero cur bps f out = out
deint_frames (suc fuel) cur bps f out =
    let next = deint_bytes cur bps f 1 bps 0 (deint_bytes cur bps f 0 bps 0 out) in
    let rest = deint_frames fuel cur bps (f + 1) next in
    if ltb (f * (bps * 2)) (length cur) then rest else out

pub deinterleave : List ℕ → ℕ → List ℕ
deinterleave cur bps = deint_frames (length cur) cur bps 0 (replicate (length cur) 0)

-- `^= 0x80` on every byte, or on every second one, from the byte at index `i` on.
unfoldable pub flip_signs : ℕ → ℕ → List ℕ → List ℕ
flip_signs bps i [] = []
flip_signs bps i (x ∷ xs) =
    (if bps == 1 then (x + 128) % 256 else if i % 2 == 1 then (x + 128) % 256 else x)
    ∷ flip_signs bps (i + 1) xs

-- The DELTA loop of one channel of 8-bit samples, on fuel: `i < length / nch`, a fraction.
delta_8 : ℕ → List ℕ → ℕ → ℕ → ℕ → ℕ → List ℕ → List ℕ
delta_8 zero cur nch base i p out = out
delta_8 (suc fuel) cur nch base i p out =
    let x = get_or cur (base + i) 0 in
    let rest = delta_8 fuel cur nch base (i + 1) x (set_at out (base + i) ((x + 256 - p) % 256)) in
    if ltb (i * nch) (length cur) then rest else out

-- The same for 16-bit samples: `i + 1 < length / nch`.
delta_16 : ℕ → List ℕ → ℕ → ℕ → ℕ → ℕ → List ℕ → List ℕ
delta_16 zero cur nch base i p out = out
delta_16 (suc fuel) cur nch base i p out =
    let v = get_or cur (base + i) 0 + get_or cur (base + i + 1) 0 * 256 in
    let dd = (v + 65536 - p) % 65536 in
    let out' = set_at (set_at out (base + i) (dd % 256)) (base + i + 1) (dd / 256) in
    let rest = delta_16 fuel cur nch base (i + 2) v out' in
    if ltb ((i + 1) * nch) (length cur) then rest else out

delta_channel : ℕ → List ℕ → ℕ → ℕ → List ℕ → List ℕ
delta_channel bps cur nch base out =
    if bps == 1
    then delta_8 (length cur) cur nch base 0 0 out
    else delta_16 (length cur) cur nch base 0 0 out

-- The second of two channels begins at `length / 2`; where that is no whole number none of its writes
-- does anything.
pub delta_encode : ℕ → List ℕ → ℕ → List ℕ
delta_encode bps cur nch =
    let first = delta_channel bps cur nch 0 (replicate (length cur) 0) in
    if nch == 2 && length cur % 2 == 0
    then delta_channel bps cur nch (length cur / 2) first
    else first

unfoldable pub apply_enc : ℕ → List ℕ → ℕ → ℕ → List ℕ
apply_enc enc d bit_depth channels =
    let bps = bytes_per_sample bit_depth in
    let planar = has_bit enc enc_deint && channels == 2 in
    let a = if planar then deinterleave d bps else d in
    let b = if has_bit enc enc_sign then flip_signs bps 0 a else a in
    if has_bit enc enc_delta then delta_encode bps b (if planar then 2 else 1) else b

-- The loop of pickEnc over the masks that are left; `none` is -1.
unfoldable pub pick_among : List ℕ → List ℕ → List ℕ → ℕ → ℕ → Option ℕ
pick_among [] decoded on_disk bit_depth channels = none
pick_among (m ∷ ms) decoded on_disk bit_depth channels =
    let rest = pick_among ms decoded on_disk bit_depth channels in
    if same_text (apply_enc m decoded bit_depth channels) on_disk then some m else rest

abbrev enc_masks : List ℕ
enc_masks = 0 ∷ 1 ∷ 2 ∷ 3 ∷ 4 ∷ 5 ∷ 6 ∷ 7 ∷ []

unfoldable pub pick_enc : List ℕ → List ℕ → ℕ → ℕ → Option ℕ
pick_enc = pick_among enc_masks

pick_among-apply_enc :
    (ms decoded on_disk : List ℕ) (bit_depth channels m : ℕ)
    → pick_among ms decoded on_disk bit_depth channels ≡ some m
    → apply_enc m decoded bit_depth channels ≡ on_disk
unfolding pick_among
pick_among-apply_enc [] decoded on_disk bit_depth channels m h = cc
pick_among-apply_enc (n ∷ ms) decoded on_disk bit_depth channels m h =
    elim (Bool-cases (same_text (apply_enc n decoded bit_depth channels) on_disk)) [
      | inl hit ↦
          let same : n ≡ m = cc (rw (hit, pick_among) at h) in
          rw (sym same) (same_text-eq (apply_enc n decoded bit_depth channels) on_disk hit)
      | inr miss ↦
          pick_among-apply_enc ms decoded on_disk bit_depth channels m (rw (miss, pick_among) at h)
    ]

pub pick_enc-apply_enc :
    (decoded on_disk : List ℕ) (bit_depth channels m : ℕ)
    → pick_enc decoded on_disk bit_depth channels ≡ some m
    → apply_enc m decoded bit_depth channels ≡ on_disk
unfolding pick_enc
pick_enc-apply_enc decoded on_disk bit_depth channels m h =
    pick_among-apply_enc enc_masks decoded on_disk bit_depth channels m h

pub length-set_at : (xs : List ℕ) (i v : ℕ) → length (set_at xs i v) ≡ length xs
unfolding set_at
length-set_at [] i v = refl
length-set_at (x ∷ xs) zero v = refl
length-set_at (x ∷ xs) (suc i) v = let e = length-set_at xs i v in omega arith
