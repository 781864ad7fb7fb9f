-- ===== src/Tree/Runs.antt =====
-- The zero runs of a skeleton that buildSkeletonV2 of packages/repack/src/dag.ts made.
use trackerstream.Common.{
  ℕ, ◌+◌, ◌-◌, ◌≤◌, ◌<◌, ◌≡◌, sym, ap, ◌∙◌, Bool, true, ◌&&◌, List, [], ◌∷◌, ltb, length, get_or,
  drop, replicate, arith, get_or-take, get_or-replicate, get_or-drop, length-take, length-drop,
  length-replicate, ltb→lt, get_or_ext,
}
use trackerstream.Parse.Bytes.{SampleSlot}
use trackerstream.Dag.Build.{subarray}
use trackerstream.Tree.Spans.{Span, covered, Separated, merge_spans, merge_spans-covered}
use trackerstream.Tree.Recipe.{ZeroRuns}
use trackerstream.Tree.Zeroed.{Unpacked, build_skeleton_v2, build_skeleton_v2-Zeroed, raw_spans}

subarray_zeros :
    (sk : List ℕ) (a b : ℕ)
    → b ≤ length sk
    → ((x : ℕ) → a ≤ x → x < b → get_or sk x 0 ≡ 0)
    → subarray sk a b ≡ replicate (b - a) 0
subarray_zeros sk a b h z =
    let size : length (subarray sk a b) ≡ b - a =
      omega (arith, length-take (b - a) (drop a sk), length-drop a sk) in
    get_or_ext (subarray sk a b) (replicate (b - a) 0)
      (size ∙ sym (length-replicate {A = ℕ} (b - a) 0))
      (λ i l.
        let below : i < b - a = omega (arith, size) in
        get_or-take (b - a) i 0 (drop a sk) below
        ∙ get_or-drop a i sk 0
        ∙ z (a + i) (omega arith) (omega arith)
        ∙ sym (get_or-replicate (b - a) i 0))

-- Separate runs that are covered by zeros of the skeleton.
pub ZeroRuns-covered :
    (sk : List ℕ) (low : ℕ) (runs : List Span)
    → Separated low runs
    → ((x : ℕ) → covered runs x ≡ true → (x < length sk) × (get_or sk x 0 ≡ 0))
    → ZeroRuns sk runs
ZeroRuns-covered sk low [] a h = tt
ZeroRuns-covered sk low (s ∷ ss) (l, n, a) h =
    let last = h (s.stop - 1) (ground arith) in
    let inside : s.stop ≤ length sk = omega (arith, last.0) in
    (
      inside,
      subarray_zeros sk s.start s.stop inside (λ x p q. (h x (ground arith)).1),
      ZeroRuns-covered sk (s.stop + 1) ss a (λ x c. h x (ground arith)),
    )

and_left : (a b : Bool) → (a && b) ≡ true → a ≡ true
and_left a b h = ground arith

and_right : (a b : Bool) → (a && b) ≡ true → b ≡ true
and_right a b h = ground arith

pub merge_spans-ZeroRuns :
    (file : List ℕ) (ss : List SampleSlot)
    → Unpacked ss
    → (let (sk, spans) = build_skeleton_v2 file ss in ZeroRuns sk (merge_spans spans (length sk)))
merge_spans-ZeroRuns file ss u =
    let z = build_skeleton_v2-Zeroed file ss u in
    let sk : List ℕ = (build_skeleton_v2 file ss).0 in
    let spans : List Span = (build_skeleton_v2 file ss).1 in
    ZeroRuns-covered sk 0 (merge_spans spans (length sk))
      (merge_spans-covered spans (length sk) 0).0
      (λ x c.
        let all = (merge_spans-covered spans (length sk) x).1 in
        let both : (covered spans x && ltb x (length sk)) ≡ true = sym all ∙ c in
        let own : covered (raw_spans ss) x ≡ true =
          ap (λ r. covered r x) (sym z.runs)
          ∙ and_left (covered spans x) (ltb x (length sk)) both in
        (
          ltb→lt x (length sk) (and_right (covered spans x) (ltb x (length sk)) both),
          z.reads x ∙ rw own,
        ))
