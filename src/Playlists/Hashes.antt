-- ===== src/Playlists/Hashes.antt =====
-- decodeBeacon reads what encodeBeacon of packages/playlists-web/src/beacon.ts wrote, in bounds.
use mathlib.Core.List.{flatten}
use mathlib.Core.Path.{subst}
use trackerstream.Common.{
  ℕ, zero, suc, ◌+◌, ◌-◌, ◌*◌, ◌/◌, ◌%◌, ◌^◌, ◌≤◌, ◌<◌, ◌≡◌, refl, sym, ap, ◌∙◌, true, false, List,
  [], ◌∷◌, ◌++◌, leb, ltb, ◌==◌, if◌then◌else◌, length, replicate, get_elem?, take, drop, arith,
  All, Bool-cases, Option-cases, inl, inr, append_assoc, length-append, length-take, length-drop,
  length-replicate, take-append, drop-append, drop-drop,
}
use trackerstream.Common.Result.{ok, ◌>>◌, guard, >>=-eq-ok}
use trackerstream.Dag.Build.{subarray, set_range}
use trackerstream.Playlists.Varint.{
  or_bits, uvarint, uvarint_from, drop-cons, Midway, Midway-next, Midway-start, uvarint_from-more,
  uvarint_from_last, or_bits_next, or_bits-whole,
}
use trackerstream.Playlists.Beacon.{
  beacon_version, too_many_hashes, body_mismatch, write_hashes, encode_beacon, read_count,
  hashes_at, decode_beacon,
}

read_count-byte :
    (rounds : ℕ) (b : List ℕ) (i v s c : ℕ) (t : List ℕ)
    → drop i b ≡ c ∷ t
    → read_count (suc rounds) b i v s ≡ (
        if c / 128 % 2 == 0
        then ok (or_bits v c s, i + 1)
        else read_count rounds b (i + 1) (or_bits v c s) (s + 7))
unfolding read_count
read_count-byte rounds b i v s c t e =
    let (at, l, more) = drop-cons b i c t e in rw (at, read_count) refl

read_count-uvarint :
    (fuel whole : ℕ) (b : List ℕ) (i v n s : ℕ) (t : List ℕ)
    → Midway whole v n s
    → s + 7 * fuel ≡ 35
    → drop i b ≡ uvarint_from fuel n ++ t
    → read_count fuel b i v s ≡ ok (whole, i + length (uvarint_from fuel n))
read_count-uvarint zero whole b i v n s t m f e = absurd (let no : ⊥ = omega (arith, m.shift) in no)
read_count-uvarint (suc fuel) whole b i v n s t m f e = elim (Bool-cases (ltb n 128)) [
  | inl last ↦
      let written : uvarint_from (suc fuel) n ≡ n ∷ [] = uvarint_from_last fuel n (ground arith) in
      let small : n / 128 ≡ 0 = ground arith in
      read_count-byte fuel b i v s n t (e ∙ ap (λ u. u ++ t) written)
      ∙ rw (small, or_bits-whole whole v n s m (ground arith), written) refl
  | inr more ↦
      let big : 128 ≤ n = ground arith in
      let c : ℕ = n % 128 + 128 in
      let written = uvarint_from-more whole v n s fuel m big in
      let rest : List ℕ = uvarint_from fuel (n / 128) in
      let here : drop i b ≡ c ∷ (rest ++ t) = e ∙ ap (λ u. u ++ t) written in
      let high : c / 128 ≡ 1 = omega arith in
      let (_, _, there) = drop-cons b i c (rest ++ t) here in
      let ih =
        read_count-uvarint fuel whole b (i + 1) (v + n % 128 * 2 ^ s) (n / 128) (s + 7) t
          (Midway-next whole v n s m big) (omega arith) there in
      let end : i + 1 + length rest ≡ i + suc (length rest) = omega arith in
      read_count-byte fuel b i v s c (rest ++ t) here
      ∙ rw (high, or_bits_next whole v n s m, ih, written) (ap (λ k. ok (whole, k)) end)
]

-- Eight bytes each.
abbrev pub Eight : List (List ℕ) → Type 0
Eight hs = All (λ h. length h ≡ 8) hs

length-flatten : (hs : List (List ℕ)) → Eight hs → length (flatten hs) ≡ length hs * 8
unfolding flatten
length-flatten [] e = refl
length-flatten (h ∷ hs) (e, es) = omega (arith, length-append h (flatten hs), length-flatten hs es)

drop-replicate : (k n a : ℕ) → drop k (replicate (k + n) a) ≡ replicate n a
drop-replicate zero n a = ap (λ t. replicate t a) (omega arith)
drop-replicate (suc k) n a =
    ap (λ t. drop (suc k) (replicate t a)) (let e : suc k + n ≡ suc (k + n) = omega arith in e)
    ∙ drop-replicate k n a

write_hashes-flatten :
    (hs : List (List ℕ)) (done : List ℕ)
    → Eight hs
    → write_hashes hs (length done) (done ++ replicate (length hs * 8) 0) ≡ ok (done ++ flatten hs)
unfolding write_hashes set_range flatten
write_hashes-flatten [] done e = refl
write_hashes-flatten (h ∷ hs) done (e, es) =
    let rest : ℕ = length hs * 8 in
    let more : suc (length hs) * 8 ≡ 8 + rest = omega arith in
    let zeros : List ℕ = replicate (8 + rest) 0 in
    let fits : ltb (length (done ++ zeros)) (length done + length h) ≡ false =
      ground (arith, length-append done zeros, length-replicate {A = ℕ} (8 + rest) 0, e) in
    let behind : drop (length done + length h) (done ++ zeros) ≡ replicate rest 0 =
      ap (λ k. drop (length done + k) (done ++ zeros)) e
      ∙ sym (drop-drop (length done) 8 (done ++ zeros))
      ∙ ap (drop 8) (drop-append done zeros)
      ∙ drop-replicate 8 rest 0 in
    let next : length (done ++ h) ≡ length done + 8 = omega (arith, length-append done h, e) in
    let ih = write_hashes-flatten hs (done ++ h) es in
    rw (more, fits, take-append done zeros, behind)
      (ap (λ t. write_hashes hs (length done + 8) t) (sym (append_assoc done h (replicate rest 0)))
        ∙ ap (λ k. write_hashes hs k ((done ++ h) ++ replicate rest 0)) (sym next)
        ∙ ih
        ∙ ap ok (append_assoc done h (flatten hs)))

hashes_at-flatten :
    (hs : List (List ℕ)) (b : List ℕ) (at : ℕ)
    → Eight hs
    → drop at b ≡ flatten hs
    → hashes_at (length hs) b at ≡ hs
unfolding hashes_at flatten
hashes_at-flatten [] b at e d = refl
hashes_at-flatten (h ∷ hs) b at (e, es) d =
    let width : at + 8 - at ≡ length h = omega (arith, e) in
    let first : subarray b at (at + 8) ≡ h =
      ap (λ k. take k (drop at b)) width ∙ ap (take (length h)) d ∙ take-append h (flatten hs) in
    let rest : drop (at + 8) b ≡ flatten hs =
      sym (drop-drop at 8 b)
      ∙ ap (λ k. drop k (drop at b)) (sym e)
      ∙ ap (drop (length h)) d
      ∙ drop-append h (flatten hs) in
    rw (first, hashes_at-flatten hs b (at + 8) es rest) refl

-- For every list of at most 4096 hashes of eight bytes: encodeBeacon succeeds, and decodeBeacon reads
-- exactly these hashes, in order, from what it wrote.
pub decode_beacon-encode_beacon :
    (hashes : List (List ℕ))
    → Eight hashes
    → length hashes ≤ 4096
    → (bytes : List ℕ) × (encode_beacon hashes ≡ ok bytes) × (decode_beacon bytes ≡ ok hashes)
unfolding encode_beacon decode_beacon uvarint
decode_beacon-encode_beacon hashes e few =
    let n : ℕ = length hashes in
    let u : List ℕ = uvarint n in
    let b : List ℕ = (beacon_version ∷ u) ++ flatten hashes in
    let read : read_count 5 b 1 0 0 ≡ ok (n, 1 + length u) =
      read_count-uvarint 5 n b 1 0 n 0 (flatten hashes) (Midway-start n (omega arith)) (omega arith)
        refl in
    let cap : leb n 4096 ≡ true = ground arith in
    let size : (length b == 1 + length u + n * 8) ≡ true =
      ground (arith, length-append u (flatten hashes), length-flatten hashes e) in
    let index : 1 + length u ≡ suc (length u) = omega arith in
    let body : hashes_at n b (1 + length u) ≡ hashes =
      hashes_at-flatten hashes b (1 + length u) e
        (ap (λ k. drop k b) index ∙ drop-append (beacon_version ∷ u) (flatten hashes)) in
    (b, write_hashes-flatten hashes (beacon_version ∷ u) e, simp (read, cap, size, body))

hashes_at-Eight :
    (n : ℕ) (b : List ℕ) (at : ℕ)
    → at + n * 8 ≤ length b
    → (length (hashes_at n b at) ≡ n) × Eight (hashes_at n b at)
unfolding hashes_at
hashes_at-Eight zero b at l = (refl, tt)
hashes_at-Eight (suc n) b at l =
    let (len, eight) = hashes_at-Eight n b (at + 8) (omega arith) in
    (
      omega (arith, len),
      (omega (arith, length-take (at + 8 - at) (drop at b), length-drop at b), eight),
    )

read_count-ahead :
    (rounds : ℕ) (b : List ℕ) (i n shift m j : ℕ)
    → read_count rounds b i n shift ≡ ok (m, j)
    → i < j
unfolding read_count
read_count-ahead zero b i n shift m j e = cc
read_count-ahead (suc rounds) b i n shift m j e = elim (Option-cases (get_elem? b i)) [
  | inl past ↦ cc (rw (past, read_count) at e)
  | inr (c, there) ↦ elim (Bool-cases (c / 128 % 2 == 0)) [
    | inl last ↦ let found : i + 1 ≡ j = cc (rw (there, last, read_count) at e) in omega arith
    | inr more ↦
        let later =
          read_count-ahead rounds b (i + 1) (or_bits n c shift) (shift + 7) m j
            (rw (there, more, read_count) at e) in
        omega (arith, later)
  ]
]

body-Eight :
    (n i : ℕ) (b : List ℕ) (hashes : List (List ℕ))
    → 1 < i
    → (do
      guard (leb n 4096) too_many_hashes
      guard (length b == i + n * 8) body_mismatch
      ok (hashes_at n b i))
      ≡ ok hashes
    → (length hashes ≤ 4096) × Eight hashes × (length hashes * 8 < length b)
body-Eight n i b hashes ahead e = elim (Bool-cases (leb n 4096)) [
  | inr over ↦ cc (rw over at e)
  | inl few ↦ elim (Bool-cases (length b == i + n * 8)) [
    | inr other ↦ cc (rw (few, other) at e)
    | inl size ↦
        let same : hashes_at n b i ≡ hashes = cc (rw (few, size) at e) in
        let (len, eight) = hashes_at-Eight n b i (ground arith) in
        (
          ground (arith, len, ap length same),
          subst Eight same eight,
          ground (arith, len, ap length same),
        )
  ]
]

-- On every message that decodeBeacon accepts: it returns at most 4096 hashes, each of eight bytes,
-- which together are shorter than the message.
pub decode_beacon-Eight :
    (b : List ℕ) (hashes : List (List ℕ))
    → decode_beacon b ≡ ok hashes
    → (length hashes ≤ 4096) × Eight hashes × (length hashes * 8 < length b)
unfolding decode_beacon
decode_beacon-Eight [] hashes e = cc
decode_beacon-Eight (version ∷ b) hashes e = elim (Bool-cases (version == beacon_version)) [
  | inr other ↦ cc (rw (other, decode_beacon) at e)
  | inl current ↦
      let ((n, i), read, e') =
        >>=-eq-ok (read_count 5 (version ∷ b) 1 0 0) _ (rw (current, decode_beacon) at e) in
      body-Eight n i (version ∷ b) hashes (read_count-ahead 5 (version ∷ b) 1 0 0 n i read) e'
]
