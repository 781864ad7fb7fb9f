-- ===== src/Tree/Restored.antt =====
-- Writing the streamed samples of packages/repack/src/dag.ts back over a zeroed skeleton.
use trackerstream.Common.{
  ℕ, ◌+◌, ◌-◌, ◌≤◌, ◌<◌, ◌≡◌, refl, ap, ◌∙◌, Bool, true, false, ◌&&◌, List, [], ◌∷◌, ◌++◌, ltb, leb,
  length, get_or, take, drop, arith, All, Bool-cases, inl, inr, length-append, length-take,
  length-drop, get_or-take, get_or-drop, get_or_ext, get_or_splice,
}
use trackerstream.Common.Result.{ok}
use trackerstream.Dag.Store.{BlockGetter}
use trackerstream.Dag.Build.{subarray, set_range}
use trackerstream.Dag.Reassemble.{concat_parts}
use trackerstream.Dag.Stored.{IpldLaws}
use trackerstream.Dag.Rebuild.{fetch_parts-Holds, concat_parts-flatten}
use trackerstream.Tree.Spans.{covered}
use trackerstream.Tree.Enc.{apply_enc}
use trackerstream.Tree.Zeroed.{raw_spans}
use trackerstream.Tree.Model.{StreamSample, TreeIpld, Leaves}
use trackerstream.Tree.Streamed.{Streamed, slots_of}
use trackerstream.Tree.Reassemble.{write_streamed}
use trackerstream.Tree.Written.{Exact, Lossless, TableHeld}

-- Outside the runs that are still to be written the buffer reads like the file.
abbrev pub Restored : List ℕ → List Streamed → List ℕ → Type 0
Restored file sts out =
    (length out ≡ length file)
    × ((x : ℕ) → covered (raw_spans (slots_of sts)) x ≡ false → get_or out x 0 ≡ get_or file x 0)

get_or-subarray :
    (b : List ℕ) (from n x : ℕ)
    → x < n
    → get_or (subarray b from (from + n)) x 0 ≡ get_or b (from + x) 0
get_or-subarray b from n x h =
    get_or-take (from + n - from) x 0 (drop from b) (omega arith) ∙ get_or-drop from x b 0

length-subarray_in :
    (b : List ℕ) (from n : ℕ) → from + n ≤ length b → length (subarray b from (from + n)) ≡ n
length-subarray_in b from n h =
    omega (arith, length-take (from + n - from) (drop from b), length-drop from b)

-- A stretch of the file written over a buffer of the file's length.
length-spliced :
    (out part : List ℕ) (o : ℕ)
    → o + length part ≤ length out
    → length (take o out ++ (part ++ drop (o + length part) out)) ≡ length out
length-spliced out part o h = omega (
  arith,
  length-append (take o out) (part ++ drop (o + length part) out),
  length-append part (drop (o + length part) out),
  length-take o out,
  length-drop (o + length part) out,
)

get_or-spliced :
    (file out : List ℕ) (o n x : ℕ)
    → o + n ≤ length file
    → length out ≡ length file
    → (((leb o x && ltb x (o + n)) ≡ false) → get_or out x 0 ≡ get_or file x 0)
    → get_or
        (take o out ++ (subarray file o (o + n) ++ drop (o + length (subarray file o (o + n))) out))
        x
        0
      ≡ get_or file x 0
get_or-spliced file out o n x l size reads =
    let part : List ℕ = subarray file o (o + n) in
    let width : length part ≡ n = length-subarray_in file o n l in
    let splice = get_or_splice out part o x (omega (arith, width, size)) in
    elim (Bool-cases (leb o x && ltb x (o + n))) [
      | inl inside ↦
          let below : x - o < n = ground arith in
          let early : ltb x o ≡ false = ground arith in
          let mid : ltb x (o + length part) ≡ true = ground (arith, width) in
          splice
          ∙ rw (early, mid)
              (get_or-subarray file o n (x - o) below
                ∙ ap (λ k. get_or file k 0) (let e : o + (x - o) ≡ x = ground arith in e))
      | inr outside ↦ let same = reads outside in splice ∙ ground (arith, width)
    ]

-- One sample written back.
set_range-Restored :
    (file : List ℕ) (st : Streamed) (sts : List Streamed) (out : List ℕ)
    → Exact file st
    → Restored file (st ∷ sts) out
    → (out' : List ℕ) × (set_range out
          (apply_enc st.enc st.dump.pcm st.slot.bit_depth st.slot.channels)
          st.slot.offset
        ≡ ok out')
      × Restored file sts out'
unfolding set_range slots_of raw_spans
set_range-Restored file st sts out ((l, u), e) (size, reads) =
    let o : ℕ = st.slot.offset in
    let n : ℕ = st.slot.length in
    let part : List ℕ = subarray file o (o + n) in
    let width : length part ≡ n = length-subarray_in file o n l in
    let fits : ltb (length out) (o + length part) ≡ false = ground (arith, width) in
    (
      take o out ++ (part ++ drop (o + length part) out),
      rw (e, fits),
      (
        length-spliced out part o (omega (arith, width, size)) ∙ size,
        λ x free. get_or-spliced file out o n x l size (λ outside. reads x (rw (outside, free))),
      ),
    )

module _ (T : TreeIpld) (laws : IpldLaws T.base) (leaves : Leaves) (get : BlockGetter)
    (verify : Bool) where
  -- Writing the samples of the table over a buffer that reads like the file elsewhere gives the file.
  pub write_streamed-Restored :
      (file : List ℕ) (sts : List Streamed) (ss : List StreamSample) (out : List ℕ)
      → All (Exact file) sts
      → All (Lossless leaves) sts
      → TableHeld T laws leaves get sts ss
      → Restored file sts out
      → write_streamed T get verify leaves ss out ≡ ok file
  unfolding write_streamed raw_spans slots_of
  write_streamed-Restored file [] [] out x l h (size, reads) =
      ap ok (get_or_ext out file size (λ i b. reads i refl))
  write_streamed-Restored file [] (s ∷ ss) out x l h r = absurd h
  write_streamed-Restored file (st ∷ sts) [] out x l h r = absurd h
  write_streamed-Restored file (st ∷ sts) (s ∷ ss) out (x, xs) (l, ls) (h, hs) r =
      let (out', written, r') = set_range-Restored file st sts out x r in
      let fetched = fetch_parts-Holds T.base laws get verify s.chunks h.parts h.holds in
      let (channels, bit_depth, offset, enc) = h.layout_kept in
      let bytes : concat_parts h.parts
          ≡ (leaves.pack st.slot.channels st.slot.bit_depth st.dump.pcm).0 =
        concat_parts-flatten h.parts ∙ h.tiles in
      rw (fetched, channels, bit_depth, offset, enc, h.codec_kept, bytes, l, written)
        (write_streamed-Restored file sts ss out' xs ls hs r')
