-- ===== src/Playlists/Link.antt =====
-- The envelope of a deep link in packages/playlists-web/src/link.ts: encodeEnvelope and decodeEnvelope.
use trackerstream.Common.{
  ℕ, zero, suc, ◌+◌, ◌*◌, ◌/◌, ◌%◌, ◌^◌, ◌≤◌, ◌<◌, ◌≡◌, refl, sym, ap, ◌∙◌, true, false, not, ◌||◌,
  none, some, List, [], ◌∷◌, ◌++◌, ltb, ◌==◌, if◌then◌else◌, length, drop, arith, Bool-cases, inl,
  inr, ◌⊎◌, leb, append-nil, length-append, length-drop,
}
use trackerstream.Common.Int.{ℤ, pos, neg_part, ◌+ℤ◌, pos-+ℤ}
use trackerstream.Common.Result.{Result, ok, err, ◌>>=◌, ◌>>◌, guard}
use trackerstream.Dag.Reassemble.{subarray_ℤ}
use trackerstream.Playlists.Varint.{
  int32, or_bits, uvarint, uvarint_from, byte_ℤ, below, exceeds, drop-cons, Midway, Midway-next,
  Midway-start, uvarint_from-more, uvarint_from_last, uvarint_from-length, or_bits_next,
  or_bits_last,
}
use trackerstream.Playlists.Wire.{TextCodec, name_max, record_max, doc_max, is_at, framed}
use trackerstream.Playlists.Envelope.{framed-Part, framed-append}

-- What the functions of link.ts throw; `too_many_arguments` is the RangeError of a call.
pub data LinkFault : Type 0 where
  bad_frame out_of_bounds trailing : LinkFault
  not_a_link bad_name bad_base64 too_many_arguments : LinkFault

pub record LinkEnvelope : Type 0 where
  pub name : List ℕ
  pub rec : List ℕ
  pub doc : List ℕ

-- The endless loop of `frame`. An undefined byte stands for 0.
pub read_length : ℕ → List ℕ → ℤ → ℕ → ℕ → Result LinkFault (ℤ × ℤ)
read_length zero b at v s = err bad_frame
read_length (suc rounds) b at v s = elim (below at (length b)) [
  | false ↦ err bad_frame
  | true ↦ elim (byte_ℤ b at) [
    | none ↦ read_length rounds b (at +ℤ pos 1) v (s + 7)
    | some c ↦
        let more = read_length rounds b (at +ℤ pos 1) (or_bits v c s) (s + 7) in
        if ltb c 128 then ok (int32 (or_bits v c s), at +ℤ pos 1) else more
  ]
]

-- `frame(max)`. Each round moves `at` by one, so that there are as many as there are bytes ahead.
unfoldable pub link_frame : List ℕ → ℕ → ℤ → Result LinkFault (List ℕ × ℤ)
link_frame b most at = do
  (v, next) ← read_length (length b + neg_part at) b at 0 0
  guard (not (exceeds v most || exceeds (next +ℤ v) (length b))) out_of_bounds
  ok (subarray_ℤ b next (next +ℤ v), next +ℤ v)

-- `...xs` in a call, on an engine where a call takes at most `limit` arguments.
unfoldable pub spread : ℕ → List ℕ → Result LinkFault (List ℕ)
spread limit xs = if leb (length xs) limit then ok xs else err too_many_arguments

-- The round of encodeEnvelope for a part.
unfoldable pub put_part : ℕ → List ℕ → Result LinkFault (List ℕ)
put_part limit part = do pushed ← spread limit part; ok (uvarint (length part) ++ pushed)

module _ (T : TextCodec) where
  unfoldable pub encode_envelope : ℕ → List ℕ → List ℕ → List ℕ → Result LinkFault (List ℕ)
  encode_envelope limit name rec doc = do
    name' ← put_part limit (T.encode name)
    rec' ← put_part limit rec
    doc' ← put_part limit doc
    ok (name' ++ (rec' ++ doc'))

  -- The bytes of an envelope: each part behind its length.
  abbrev pub envelope_bytes : List ℕ → List ℕ → List ℕ → List ℕ
  envelope_bytes name rec doc = framed (T.encode name) ++ (framed rec ++ framed doc)

  unfoldable pub decode_envelope : List ℕ → Result LinkFault LinkEnvelope
  decode_envelope b = do
    (nb, at) ← link_frame b name_max (pos 0)
    (rec, at') ← link_frame b record_max at
    (doc, at'') ← link_frame b doc_max at'
    guard (is_at at'' (length b)) trailing
    ok (record { name = T.decode nb; rec = rec; doc = doc })

read_length-byte :
    (rounds : ℕ) (b : List ℕ) (i v s c : ℕ) (t : List ℕ)
    → drop i b ≡ c ∷ t
    → read_length (suc rounds) b (pos i) v s ≡ (
        if ltb c 128
        then ok (int32 (or_bits v c s), pos (i + 1))
        else read_length rounds b (pos (i + 1)) (or_bits v c s) (s + 7))
unfolding read_length
read_length-byte rounds b i v s c t e =
    let (at, l, more) = drop-cons b i c t e in
    let inside : ltb i (length b) ≡ true = ground arith in
    rw (inside, at, pos-+ℤ i 1, read_length) refl

read_length-uvarint :
    (fuel rounds whole : ℕ) (b : List ℕ) (i v n s : ℕ) (t : List ℕ)
    → Midway whole v n s
    → s + 7 * fuel ≡ 35
    → length (uvarint_from fuel n) ≤ rounds
    → drop i b ≡ uvarint_from fuel n ++ t
    → read_length rounds b (pos i) v s ≡ ok (pos whole, pos (i + length (uvarint_from fuel n)))
read_length-uvarint zero rounds whole b i v n s t m f l e =
    absurd (let no : ⊥ = omega (arith, m.shift) in no)
read_length-uvarint (suc fuel) zero whole b i v n s t m f l e =
    absurd (let no : ⊥ = omega (arith, uvarint_from-length (suc fuel) n) in no)
read_length-uvarint (suc fuel) (suc rounds) whole b i v n s t m f l e =
    elim (Bool-cases (ltb n 128)) [
      | inl last ↦
          let written : uvarint_from (suc fuel) n ≡ n ∷ [] =
            uvarint_from_last fuel n (ground arith) in
          read_length-byte rounds b i v s n t (e ∙ ap (λ u. u ++ t) written)
          ∙ rw (last, or_bits_last whole v n s m (ground arith), written) refl
      | inr more ↦
          let big : 128 ≤ n = ground arith in
          let c : ℕ = n % 128 + 128 in
          let written = uvarint_from-more whole v n s fuel m big in
          let rest : List ℕ = uvarint_from fuel (n / 128) in
          let here : drop i b ≡ c ∷ (rest ++ t) = e ∙ ap (λ u. u ++ t) written in
          let test : ltb c 128 ≡ false = ground arith in
          let (_, _, there) = drop-cons b i c (rest ++ t) here in
          let ih =
            read_length-uvarint fuel rounds whole b (i + 1) (v + n % 128 * 2 ^ s) (n / 128) (s + 7)
              t (Midway-next whole v n s m big) (omega arith) (omega (arith, ap length written))
              there in
          let end : i + 1 + length rest ≡ i + suc (length rest) = omega arith in
          read_length-byte rounds b i v s c (rest ++ t) here
          ∙ rw (test, or_bits_next whole v n s m, ih, written) (ap (λ k. ok (pos whole, pos k)) end)
    ]

read_length-start :
    (rounds : ℕ) (b : List ℕ) (i n : ℕ) (t : List ℕ)
    → n < 2 ^ 31
    → length (uvarint n) ≤ rounds
    → drop i b ≡ uvarint n ++ t
    → read_length rounds b (pos i) 0 0 ≡ ok (pos n, pos (i + length (uvarint n)))
unfolding uvarint
read_length-start rounds b i n t small l e =
    read_length-uvarint 5 rounds n b i 0 n 0 t (Midway-start n small) (omega arith) l e

-- A framed part is read back, and the reader stands behind it.
link_frame-framed :
    (b p t : List ℕ) (i most : ℕ)
    → length p ≤ most
    → most < 2 ^ 31
    → drop i b ≡ framed p ++ t
    → (link_frame b most (pos i) ≡ ok (p, pos (i + length (framed p))))
      × (drop (i + length (framed p)) b ≡ t)
unfolding link_frame
link_frame-framed b p t i most l small e =
    let u : List ℕ = uvarint (length p) in
    let next : ℕ = i + length u in
    let here = framed-Part b p t i e in
    let start : drop i b ≡ u ++ (p ++ t) = e ∙ framed-append p t in
    let enough : length u ≤ length b + 0 =
      omega (arith, ap length start, length-drop i b, length-append u (p ++ t)) in
    let read : read_length (length b + 0) b (pos i) 0 0 ≡ ok (pos (length p), pos next) =
      read_length-start (length b + 0) b i (length p) (p ++ t) (omega arith) enough start in
    let a : ltb most (length p) ≡ false = ground arith in
    (simp (read, pos-+ℤ next (length p), a, here.fits, here.part, here.end), here.rest)

put_part-cases :
    (limit : ℕ) (part : List ℕ)
    → ((length part ≤ limit) × (put_part limit part ≡ ok (framed part)))
      ⊎ ((limit < length part) × (put_part limit part ≡ err too_many_arguments))
unfolding put_part spread framed
put_part-cases limit part = elim (Bool-cases (leb (length part) limit)) [
  | inl fits ↦ inl (ground (arith, fits), rw fits refl)
  | inr over ↦ inr (ground (arith, over), rw over refl)
]

module _ (T : TextCodec) where
  -- The longest part decides whether the envelope is written.
  pub encode_envelope-cases :
      (limit : ℕ) (name rec doc : List ℕ)
      → (encode_envelope T limit name rec doc ≡ ok (envelope_bytes T name rec doc))
        ⊎ ((encode_envelope T limit name rec doc ≡ err too_many_arguments)
            × ((limit < length (T.encode name)) ⊎ ((limit < length rec) ⊎ (limit < length doc))))
  unfolding encode_envelope
  encode_envelope-cases limit name rec doc = elim (put_part-cases limit (T.encode name)) [
    | inr (long, thrown) ↦ inr (rw thrown refl, inl long)
    | inl (_, put) ↦ elim (put_part-cases limit rec) [
      | inr (long, thrown) ↦ inr (rw (put, thrown) refl, inr (inl long))
      | inl (_, put') ↦ elim (put_part-cases limit doc) [
        | inr (long, thrown) ↦ inr (rw (put, put', thrown) refl, inr (inr long))
        | inl (_, put'') ↦ inl (rw (put, put', put'') refl)
      ]
    ]
  ]

  decode_envelope-bytes :
      (name rec doc : List ℕ)
      → T.decode (T.encode name) ≡ name
      → length (T.encode name) ≤ name_max
      → length rec ≤ record_max
      → length doc ≤ doc_max
      → decode_envelope T (envelope_bytes T name rec doc)
        ≡ ok (record { name = name; rec = rec; doc = doc })
  unfolding decode_envelope
  decode_envelope-bytes name rec doc back n r d =
      let nb : List ℕ = T.encode name in
      let b : List ℕ = framed nb ++ (framed rec ++ framed doc) in
      let i : ℕ = 0 + length (framed nb) in
      let j : ℕ = i + length (framed rec) in
      let (first, behind) =
        link_frame-framed b nb (framed rec ++ framed doc) 0 name_max n (omega arith) refl in
      let (second, behind') =
        link_frame-framed b rec (framed doc) i record_max r (omega arith) behind in
      let (third, _) =
        link_frame-framed b doc [] j doc_max d (omega arith)
          (behind' ∙ sym (append-nil (framed doc))) in
      let size : j + length (framed doc) ≡ length b = omega (
        arith,
        length-append (framed nb) (framed rec ++ framed doc),
        length-append (framed rec) (framed doc),
      ) in
      let whole : (j + length (framed doc) == length b) ≡ true = ground (arith, size) in
      simp (first, second, third, whole, back)

  -- On every name of at most 128 bytes that the text codec gives back, record of at most 10 KB and
  -- document of at most 1 MB: encodeEnvelope succeeds, and decodeEnvelope succeeds on what it wrote and
  -- returns the same name, record and document; or a part is longer than the arguments of a call may
  -- be many, and encodeEnvelope throws.
  pub decode_envelope-encode_envelope :
      (limit : ℕ) (name rec doc : List ℕ)
      → T.decode (T.encode name) ≡ name
      → length (T.encode name) ≤ name_max
      → length rec ≤ record_max
      → length doc ≤ doc_max
      → ((b : List ℕ) × (encode_envelope T limit name rec doc ≡ ok b)
          × (decode_envelope T b ≡ ok (record { name = name; rec = rec; doc = doc })))
        ⊎ ((encode_envelope T limit name rec doc ≡ err too_many_arguments)
            × ((limit < length (T.encode name)) ⊎ ((limit < length rec) ⊎ (limit < length doc))))
  decode_envelope-encode_envelope limit name rec doc back n r d =
      elim (encode_envelope-cases limit name rec doc) [
        | inl written ↦
            inl (
              envelope_bytes T name rec doc,
              written,
              decode_envelope-bytes name rec doc back n r d,
            )
        | inr thrown ↦ inr thrown
      ]
