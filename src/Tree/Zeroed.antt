-- ===== src/Tree/Zeroed.antt =====
-- buildSkeletonV2 of packages/repack/src/dag.ts: the file with its streamed sample data zeroed.
use trackerstream.Common.{
  ℕ, ◌+◌, ◌-◌, ◌/◌, ◌%◌, min, ◌≡◌, refl, ap, ◌∙◌, Bool, true, false, ◌&&◌, none, some, List, [],
  ◌∷◌, ◌++◌, ltb, leb, ◌==◌, if◌then◌else◌, length, get_or, take, drop, replicate, arith, All,
  Bool-cases, inl, inr, get_or-replicate, length-append, length-take, length-drop, length-replicate,
  append-nil, get_or_past, get_or_splice,
}
use trackerstream.Parse.Bytes.{SampleSlot}
use trackerstream.Parse.Regions.{has_bit}
use trackerstream.Tree.Spans.{Span, covered}
use trackerstream.Tree.Enc.{set_at}

-- `b.fill(0, start, stop)`, both indices clamped to the length.
fill_zeros : List ℕ → ℕ → ℕ → List ℕ
fill_zeros b start stop =
    let from = min start (length b) in
    let to = min stop (length b) in
    if ltb from to then take from b ++ (replicate (to - from) 0 ++ drop to b) else b

unfoldable pub is_packed : SampleSlot → Bool
is_packed s = elim s.compressed [ none ↦ false | some c ↦ true ]

-- `streamed.filter((s) => s.compressed)`, or those that are not, by `packed`.
pub of_kind : Bool → List SampleSlot → List SampleSlot
of_kind packed [] = []
of_kind packed (s ∷ ss) =
    let rest = of_kind packed ss in
    if is_packed s then (if packed then s ∷ rest else rest) else (if packed then rest else s ∷ rest)

pub decoded_bytes : List SampleSlot → ℕ
decoded_bytes [] = 0
decoded_bytes (s ∷ ss) = s.length + decoded_bytes ss

-- The loop over the slots that are not compressed.
zero_raw : List SampleSlot → List ℕ → List ℕ
zero_raw [] sk = sk
zero_raw (s ∷ ss) sk = zero_raw ss (fill_zeros sk s.offset (s.offset + s.length))

unfoldable pub raw_spans : List SampleSlot → List Span
raw_spans [] = []
raw_spans (s ∷ ss) = record { start = s.offset; stop = s.offset + s.length } ∷ raw_spans ss

-- The sample header of a compressed slot: the flag is cleared and the data pointer repointed.
repoint : List ℕ → ℕ → ℕ → List ℕ
repoint sk header cursor =
    let flags = get_or sk (header + 0x12) 0 in
    let a = set_at sk (header + 0x12) (if has_bit flags 8 then flags - 8 else flags) in
    let b = set_at a (header + 0x48) (cursor % 256) in
    let c = set_at b (header + 0x49) (cursor / 256 % 256) in
    let d = set_at c (header + 0x4a) (cursor / 65536 % 256) in
    set_at d (header + 0x4b) (cursor / 16777216 % 256)

-- The loop over the compressed slots: their old bytes, where the span is known, and their headers.
zero_packed : List SampleSlot → List ℕ → ℕ → List ℕ × List Span
zero_packed [] sk cursor = (sk, [])
zero_packed (s ∷ ss) sk cursor = elim s.compressed [
  | none ↦ zero_packed ss sk (cursor + s.length)
  | some c ↦ elim c.compressed_bytes [
    | none ↦ zero_packed ss (repoint sk c.header_offset cursor) (cursor + s.length)
    | some n ↦
        let cleared = if n == 0 then sk else fill_zeros sk s.offset (s.offset + n) in
        let (sk', spans) =
          zero_packed ss (repoint cleared c.header_offset cursor) (cursor + s.length) in
        (sk', (if n == 0 then spans else record { start = s.offset; stop = s.offset + n } ∷ spans))
  ]
]

-- The skeleton and the zero runs in it.
pub build_skeleton_v2 : List ℕ → List SampleSlot → List ℕ × List Span
build_skeleton_v2 file streamed =
    let raw = of_kind false streamed in
    let packed = of_kind true streamed in
    let extra = decoded_bytes packed in
    let sk = zero_raw raw (file ++ replicate extra 0) in
    let (sk', spans) = zero_packed packed sk (length file) in
    (
      sk',
      raw_spans raw
          ++ (spans
              ++ (if ltb 0 extra
                  then record { start = length file; stop = length sk' } ∷ []
                  else [])),
    )

length-fill_zeros : (b : List ℕ) (start stop : ℕ) → length (fill_zeros b start stop) ≡ length b
unfolding fill_zeros
length-fill_zeros b start stop =
    let from : ℕ = min start (length b) in
    let to : ℕ = min stop (length b) in
    ground (
      arith,
      length-append (take from b) (replicate (to - from) 0 ++ drop to b),
      length-append (replicate (to - from) 0) (drop to b),
      length-take from b,
      length-drop to b,
      length-replicate {A = ℕ} (to - from) 0,
    )

get_or-fill_zeros :
    (b : List ℕ) (start stop x : ℕ)
    → get_or (fill_zeros b start stop) x 0 ≡ (if leb start x && ltb x stop then 0 else get_or b x 0)
unfolding fill_zeros
get_or-fill_zeros b start stop x =
    let from : ℕ = min start (length b) in
    let to : ℕ = min stop (length b) in
    let past = get_or_past b x 0 in
    elim (Bool-cases (ltb from to)) [
      | inl some_bytes ↦
          let width : length (replicate {A = ℕ} (to - from) 0) ≡ to - from =
            length-replicate {A = ℕ} (to - from) 0 in
          let end : from + (to - from) ≡ to = ground arith in
          let splice = get_or_splice b (replicate (to - from) 0) from x (ground (arith, width)) in
          let spliced : get_or (take from b ++ (replicate (to - from) 0 ++ drop to b)) x 0 ≡ (
              if ltb x from
              then get_or b x 0
              else if ltb x to
              then get_or (replicate (to - from) 0) (x - from) 0
              else get_or b x 0) =
            rw (width, end) at splice in
          rw (some_bytes, spliced, get_or-replicate (to - from) (x - from) 0) (ground (arith, past))
      | inr none_left ↦ rw none_left (ground (arith, past))
    ]

-- None of the slots is compressed.
abbrev pub Unpacked : List SampleSlot → Type 0
Unpacked ss = All (λ s. s.compressed ≡ none) ss

of_kind-Unpacked :
    (ss : List SampleSlot) → Unpacked ss → (of_kind false ss ≡ ss) × (of_kind true ss ≡ [])
unfolding of_kind is_packed
of_kind-Unpacked [] u = (refl, refl)
of_kind-Unpacked (s ∷ ss) (u, us) =
    let (raw, packed) = of_kind-Unpacked ss us in (rw (u, raw), rw (u, packed))

length-zero_raw : (ss : List SampleSlot) (sk : List ℕ) → length (zero_raw ss sk) ≡ length sk
unfolding zero_raw
length-zero_raw [] sk = refl
length-zero_raw (s ∷ ss) sk =
    length-zero_raw ss (fill_zeros sk s.offset (s.offset + s.length))
    ∙ length-fill_zeros sk s.offset (s.offset + s.length)

get_or-zero_raw :
    (ss : List SampleSlot) (sk : List ℕ) (x : ℕ)
    → get_or (zero_raw ss sk) x 0 ≡ (if covered (raw_spans ss) x then 0 else get_or sk x 0)
unfolding zero_raw raw_spans
get_or-zero_raw [] sk x = refl
get_or-zero_raw (s ∷ ss) sk x = ground (
  arith,
  get_or-zero_raw ss (fill_zeros sk s.offset (s.offset + s.length)) x,
  get_or-fill_zeros sk s.offset (s.offset + s.length) x,
)

build_skeleton_v2-Unpacked :
    (file : List ℕ) (ss : List SampleSlot)
    → Unpacked ss
    → build_skeleton_v2 file ss ≡ (zero_raw ss file, raw_spans ss)
unfolding build_skeleton_v2 decoded_bytes zero_packed
build_skeleton_v2-Unpacked file ss u =
    let (raw, packed) = of_kind-Unpacked ss u in
    rw (raw, packed, append-nil file, append-nil (raw_spans ss))

-- For slots that are not compressed: the skeleton has the file's length, reads zero in the runs and
-- like the file elsewhere.
pub record Zeroed (file : List ℕ) (ss : List SampleSlot) : Type 0 where
  pub length_kept : length (build_skeleton_v2 file ss).0 ≡ length file
  pub reads :
      (x : ℕ)
      → get_or (build_skeleton_v2 file ss).0 x 0
        ≡ (if covered (raw_spans ss) x then 0 else get_or file x 0)
  pub runs : (build_skeleton_v2 file ss).1 ≡ raw_spans ss

pub build_skeleton_v2-Zeroed : (file : List ℕ) (ss : List SampleSlot) → Unpacked ss → Zeroed file ss
build_skeleton_v2-Zeroed file ss u =
    let same = build_skeleton_v2-Unpacked file ss u in
    record {
      length_kept = ap (λ p. length p.0) same ∙ length-zero_raw ss file;
      reads = λ x. ap (λ p. get_or p.0 x 0) same ∙ get_or-zero_raw ss file x;
      runs = ap (λ p. p.1) same;
    }
