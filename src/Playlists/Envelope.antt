-- ===== src/Playlists/Envelope.antt =====
-- What encodePlaylistMsg of packages/playlists-web/src/wire.ts writes, decodePlaylistMsg reads.
use trackerstream.Common.{
  ℕ, zero, suc, ◌+◌, ◌-◌, ◌*◌, ◌/◌, ◌%◌, ◌^◌, ◌≤◌, ◌<◌, ◌≡◌, ◌≢◌, refl, sym, ap, ◌∙◌, Bool, true,
  false, not, ◌||◌, some, List, [], ◌∷◌, ◌++◌, ltb, ◌==◌, if◌then◌else◌, length, get_elem?, take,
  drop, arith, Bool-cases, Option-cases, inl, inr, append_assoc, append-nil, length-append,
  length-drop, take-append, drop-append, drop-drop, min, ◌⊎◌,
}
use trackerstream.Common.Int.{ℤ, pos, ◌+ℤ◌, pos-+ℤ}
use trackerstream.Common.Result.{Result, ok, err, ◌>>=◌, guard}
use trackerstream.Dag.Reassemble.{subarray_ℤ}
use trackerstream.Playlists.Varint.{
  int32, or_bits, uvarint, uvarint_from, byte_ℤ, below, exceeds, drop-cons, Midway, Midway-next,
  Midway-start, uvarint_from-more, uvarint_from_last, uvarint-length, or_bits_next, or_bits_last,
}
use trackerstream.Playlists.Wire.{
  WireFault, unknown_wire_version, malformed, trailing_bytes, TextCodec, msg_version, name_max,
  record_max, doc_max, read_from, read_uvarint, frame, is_at, framed, encode_playlist_msg,
  decode_frames, decode_playlist_msg,
}

-- One round of the reader, on a byte that is there.
read_from-byte :
    (rounds : ℕ) (b : List ℕ) (i x s c : ℕ) (t : List ℕ)
    → drop i b ≡ c ∷ t
    → read_from (suc rounds) b (pos i) x s ≡ (
        if ltb c 128
        then ok (int32 (or_bits x c s), pos (i + 1))
        else read_from rounds b (pos (i + 1)) (or_bits x c s) (s + 7))
unfolding read_from
read_from-byte rounds b i x s c t e =
    let (at, l, more) = drop-cons b i c t e in
    let inside : ltb i (length b) ≡ true = ground arith in
    rw (inside, at, pos-+ℤ i 1, read_from) refl

read_from-uvarint :
    (fuel whole : ℕ) (b : List ℕ) (i x n s : ℕ) (t : List ℕ)
    → Midway whole x n s
    → s + 7 * fuel ≡ 35
    → drop i b ≡ uvarint_from fuel n ++ t
    → read_from (suc fuel) b (pos i) x s ≡ ok (pos whole, pos (i + length (uvarint_from fuel n)))
read_from-uvarint zero whole b i x n s t m f e = absurd (let no : ⊥ = omega (arith, m.shift) in no)
read_from-uvarint (suc fuel) whole b i x n s t m f e = elim (Bool-cases (ltb n 128)) [
  | inl last ↦
      let written : uvarint_from (suc fuel) n ≡ n ∷ [] = uvarint_from_last fuel n (ground arith) in
      let step = read_from-byte (suc fuel) b i x s n t (e ∙ ap (λ u. u ++ t) written) in
      step ∙ rw (last, or_bits_last whole x n s m (ground arith), written) refl
  | inr more ↦
      let big : 128 ≤ n = ground arith in
      let c : ℕ = n % 128 + 128 in
      let written = uvarint_from-more whole x n s fuel m big in
      let rest : List ℕ = uvarint_from fuel (n / 128) in
      let here : drop i b ≡ c ∷ (rest ++ t) = e ∙ ap (λ u. u ++ t) written in
      let test : ltb c 128 ≡ false = ground arith in
      let (_, _, there) = drop-cons b i c (rest ++ t) here in
      let ih =
        read_from-uvarint fuel whole b (i + 1) (x + n % 128 * 2 ^ s) (n / 128) (s + 7) t
          (Midway-next whole x n s m big) (omega arith) there in
      let end : i + 1 + length rest ≡ i + suc (length rest) = omega arith in
      read_from-byte (suc fuel) b i x s c (rest ++ t) here
      ∙ rw (test, or_bits_next whole x n s m, ih, written) (ap (λ k. ok (pos whole, pos k)) end)
]

pub read_uvarint-uvarint :
    (b : List ℕ) (i n : ℕ) (t : List ℕ)
    → n < 2 ^ 31
    → drop i b ≡ uvarint n ++ t
    → read_uvarint b (pos i) ≡ ok (pos n, pos (i + length (uvarint n)))
unfolding read_uvarint uvarint
read_uvarint-uvarint b i n t small e =
    read_from-uvarint 5 n b i 0 n 0 t (Midway-start n small) (omega arith) e

-- A framed part of a buffer: the reader stands at `i`, the part behind its length.
pub record Part (b p t : List ℕ) (i : ℕ) : Type 0 where
  pub fits : ltb (length b) (i + length (uvarint (length p)) + length p) ≡ false
  pub end : i + length (framed p) ≡ i + length (uvarint (length p)) + length p
  pub part :
      subarray_ℤ b
        (pos (i + length (uvarint (length p))))
        (pos (i + length (uvarint (length p)) + length p))
      ≡ p
  pub rest : drop (i + length (framed p)) b ≡ t

pub framed-Part : (b p t : List ℕ) (i : ℕ) → drop i b ≡ framed p ++ t → Part b p t i
unfolding framed
framed-Part b p t i e =
    let u : List ℕ = uvarint (length p) in
    let next : ℕ = i + length u in
    let at' : ℕ = next + length p in
    let here : drop i b ≡ u ++ (p ++ t) = e ∙ append_assoc u p t in
    let behind : drop next b ≡ p ++ t =
      sym (drop-drop i (length u) b) ∙ ap (drop (length u)) here ∙ drop-append u (p ++ t) in
    let after : drop at' b ≡ t =
      sym (drop-drop next (length p) b) ∙ ap (drop (length p)) behind ∙ drop-append p t in
    let size : length p + length t ≡ length b - next =
      omega (arith, ap length behind, length-drop next b, length-append p t) in
    let total : length b - i ≡ length u + (length p + length t) =
      omega (arith, ap length here, length-drop i b, length-append u (p ++ t), length-append p t) in
    let some_byte = uvarint-length (length p) in
    let end : i + length (u ++ p) ≡ at' = omega (arith, length-append u p) in
    let from : min next (length b) ≡ next = omega (arith, size, total, some_byte) in
    let to : min at' (length b) ≡ at' = omega (arith, size, total, some_byte) in
    let width : at' - next ≡ length p = omega arith in
    record {
      fits = ground (arith, size, total, some_byte);
      end = end;
      part =
          rw (from, to)
            (ap (λ k. take k (drop next b)) width ∙ ap (take (length p)) behind ∙ take-append p t);
      rest = ap (λ k. drop k b) end ∙ after;
    }

pub framed-append : (p t : List ℕ) → framed p ++ t ≡ uvarint (length p) ++ (p ++ t)
unfolding framed
framed-append p t = append_assoc (uvarint (length p)) p t

-- A framed part is read back, and the reader stands behind it.
pub frame-framed :
    (b p t : List ℕ) (i most : ℕ)
    → length p ≤ most
    → most < 2 ^ 31
    → drop i b ≡ framed p ++ t
    → (frame b most (pos i) ≡ ok (p, pos (i + length (framed p))))
      × (drop (i + length (framed p)) b ≡ t)
unfolding frame
frame-framed b p t i most l small e =
    let next : ℕ = i + length (uvarint (length p)) in
    let here = framed-Part b p t i e in
    let read = read_uvarint-uvarint b i (length p) (p ++ t) (omega arith) (e ∙ framed-append p t) in
    let a : ltb most (length p) ≡ false = ground arith in
    (simp (read, pos-+ℤ next (length p), a, here.fits, here.part, here.end), here.rest)

-- The result is no fault of the version.
is_unknown : {Value : Type 0} → Result WireFault Value → Bool
is_unknown (ok v) = false
is_unknown (err unknown_wire_version) = true
is_unknown (err malformed) = false
is_unknown (err trailing_bytes) = false

is_unknown->>= :
    {Value Next : Type 0} (m : Result WireFault Value) (next : Value → Result WireFault Next)
    → is_unknown m ≡ false
    → ((a : Value) → is_unknown (next a) ≡ false)
    → is_unknown (m >>= next) ≡ false
unfolding is_unknown
is_unknown->>= (ok v) next h k = k v
is_unknown->>= (err unknown_wire_version) next h k = cc
is_unknown->>= (err malformed) next h k = refl
is_unknown->>= (err trailing_bytes) next h k = refl

is_unknown-guard : (test : Bool) → is_unknown (guard test malformed) ≡ false
unfolding is_unknown
is_unknown-guard true = refl
is_unknown-guard false = refl

is_unknown-read_from :
    (rounds : ℕ) (b : List ℕ) (i : ℤ) (x s : ℕ) → is_unknown (read_from rounds b i x s) ≡ false
unfolding is_unknown read_from
is_unknown-read_from zero b i x s = refl
is_unknown-read_from (suc rounds) b i x s = elim (Bool-cases (below i (length b))) [
  | inr past ↦ rw (past, read_from) refl
  | inl inside ↦ elim (Option-cases (byte_ℤ b i)) [
    | inl missing ↦
        rw (inside, missing, read_from) (is_unknown-read_from rounds b (i +ℤ pos 1) x (s + 7))
    | inr (c, there) ↦ elim (Bool-cases (ltb c 128)) [
      | inl last ↦ rw (inside, there, last, read_from) refl
      | inr more ↦
          rw (inside, there, more, read_from)
            (is_unknown-read_from rounds b (i +ℤ pos 1) (or_bits x c s) (s + 7))
    ]
  ]
]

is_unknown-frame : (b : List ℕ) (most : ℕ) (at : ℤ) → is_unknown (frame b most at) ≡ false
unfolding frame read_uvarint is_unknown
is_unknown-frame b most at =
    is_unknown->>= (read_from 6 b at 0 0) _ (is_unknown-read_from 6 b at 0 0) (λ r.
      is_unknown->>= (guard (not (exceeds r.0 most || exceeds (r.1 +ℤ r.0) (length b))) malformed) _
        (is_unknown-guard (not (exceeds r.0 most || exceeds (r.1 +ℤ r.0) (length b)))) (λ u. refl))

module _ (T : TextCodec) where
  is_unknown-decode_frames : (b : List ℕ) → is_unknown (decode_frames T b) ≡ false
  unfolding decode_frames is_unknown
  is_unknown-decode_frames b =
      is_unknown->>= (frame b name_max (pos 1)) _ (is_unknown-frame b name_max (pos 1)) (λ n.
        is_unknown->>= (frame b record_max n.1) _ (is_unknown-frame b record_max n.1) (λ r.
          is_unknown->>= (frame b doc_max r.1) _ (is_unknown-frame b doc_max r.1) (λ d.
            elim (Bool-cases (is_at d.1 (length b))) [
              | inl whole ↦ rw whole refl
              | inr short ↦ rw short refl
            ])))

  -- On every name of at most 128 bytes that the text codec gives back, record of at most 10 KB and
  -- document of at most 1 MB: decodePlaylistMsg succeeds on what encodePlaylistMsg wrote, and returns
  -- the same name, record and document.
  pub decode_playlist_msg-encode_playlist_msg :
      (name rec doc : List ℕ)
      → T.decode (T.encode name) ≡ name
      → length (T.encode name) ≤ name_max
      → length rec ≤ record_max
      → length doc ≤ doc_max
      → decode_playlist_msg T (encode_playlist_msg T name rec doc)
        ≡ ok (record { name = name; rec = rec; doc = doc })
  unfolding decode_playlist_msg decode_frames encode_playlist_msg
  decode_playlist_msg-encode_playlist_msg name rec doc back n r d =
      let nb : List ℕ = T.encode name in
      let b : List ℕ = msg_version ∷ (framed nb ++ (framed rec ++ framed doc)) in
      let i : ℕ = 1 + length (framed nb) in
      let j : ℕ = i + length (framed rec) in
      let (first, behind) =
        frame-framed b nb (framed rec ++ framed doc) 1 name_max n (omega arith) refl in
      let (second, behind') = frame-framed b rec (framed doc) i record_max r (omega arith) behind in
      let (third, _) =
        frame-framed b doc [] j doc_max d (omega arith) (behind' ∙ sym (append-nil (framed doc))) in
      let size : j + length (framed doc) ≡ length b = omega (
        arith,
        length-append (framed nb) (framed rec ++ framed doc),
        length-append (framed rec) (framed doc),
      ) in
      let whole : (j + length (framed doc) == length b) ≡ true = ground (arith, size) in
      rw (first, second, third, whole, back) refl

  -- On every message: either its first byte is the version 1, and decodePlaylistMsg does not throw
  -- UnknownWireVersion whatever follows; or it is empty or begins otherwise, and decodePlaylistMsg
  -- throws just that, whatever follows.
  pub decode_playlist_msg-unknown_wire_version :
      (b : List ℕ)
      → ((get_elem? b 0 ≡ some msg_version) × (decode_playlist_msg T b ≢ err unknown_wire_version))
        ⊎ ((get_elem? b 0 ≢ some msg_version)
            × (decode_playlist_msg T b ≡ err unknown_wire_version))
  unfolding decode_playlist_msg is_unknown
  decode_playlist_msg-unknown_wire_version [] = inr ((λ e. cc), refl)
  decode_playlist_msg-unknown_wire_version (version ∷ b) =
      elim (Bool-cases (version == msg_version)) [
        | inl current ↦ inl (
          ground arith,
          rw current (λ e.
              let known = is_unknown-decode_frames (version ∷ b) in
              let unknown : is_unknown (decode_frames T (version ∷ b)) ≡ true = ap is_unknown e in
              cc),
        )
        | inr other ↦ inr ((λ e. ground arith), rw other refl)
      ]
