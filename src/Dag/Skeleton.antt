-- ===== src/Dag/Skeleton.antt =====
-- The skeleton of dag.ts: the bytes outside the sample regions, in file order.
use trackerstream.Common.{
  ℕ, ◌+◌, ◌-◌, ◌≤◌, ◌≡◌, ap, ◌∙◌, List, [], ◌∷◌, ◌++◌, ltb, arith, false, append-nil, append_assoc,
  length, drop, replicate, length-append, length-drop, take_all,
}
use trackerstream.Common.Result.{ok}
use trackerstream.Parse.Bytes.{SampleRegion}
use trackerstream.Parse.Pieces.{Apart}
use trackerstream.Dag.Build.{subarray, fill_skeleton, build_skeleton, total_length}
use trackerstream.Dag.Buffer.{set_range-front, length-subarray}

-- What of the file from `prev_end` on lies outside the regions.
unfoldable pub outside : List ℕ → ℕ → List SampleRegion → List ℕ
outside file prev_end [] = drop prev_end file
outside file prev_end (r ∷ rs) =
    subarray file prev_end r.offset ++ outside file (r.offset + r.length) rs

pub length-outside :
    (file : List ℕ) (prev_end : ℕ) (rs : List SampleRegion)
    → prev_end ≤ length file
    → Apart (length file) prev_end rs
    → length (outside file prev_end rs) + total_length rs + prev_end ≡ length file
unfolding outside total_length
length-outside file prev_end [] h a = omega (arith, length-drop {0} prev_end file)
length-outside file prev_end (r ∷ rs) h (p, (q, i), a) = omega (
  arith,
  length-append (subarray file prev_end r.offset) (outside file (r.offset + r.length) rs),
  length-subarray file prev_end r.offset p (omega arith),
  length-outside file (r.offset + r.length) rs i a,
)

subarray-tail : (file : List ℕ) (s : ℕ) → subarray file s (length file) ≡ drop s file
subarray-tail file s =
    take_all (length file - s) (drop s file) (omega (arith, length-drop {0} s file))

fill_skeleton-outside :
    (file done : List ℕ) (prev_end w k : ℕ) (rs : List SampleRegion)
    → prev_end ≤ length file
    → Apart (length file) prev_end rs
    → w ≡ length done
    → k ≡ length (outside file prev_end rs)
    → fill_skeleton file rs (done ++ replicate k 0) w prev_end
      ≡ ok (done ++ outside file prev_end rs)
unfolding fill_skeleton outside
fill_skeleton-outside file done prev_end w k [] h a ew ek = rw (
  subarray-tail file prev_end,
  set_range-front done (drop prev_end file) k w ew (omega arith),
  none_left,
  append-nil,
)
  where
    none_left : k - length (drop prev_end file) ≡ 0
    none_left = omega arith
fill_skeleton-outside file done prev_end w k (r ∷ rs) h (p, (q, i), a) ew ek =
    rw (set_range-front done gap k w ew (omega (arith, len))) (
      fill_skeleton-outside file (done ++ gap) (r.offset + r.length) (w + length gap)
        (k - length gap) rs i a (omega (arith, length-append done gap)) (omega (arith, len))
      ∙ ap ok (append_assoc done gap later))
  where
    gap : List ℕ
    gap = subarray file prev_end r.offset

    later : List ℕ
    later = outside file (r.offset + r.length) rs

    len : length (gap ++ later) ≡ length gap + length later
    len = length-append gap later

-- For ascending, disjoint regions inside the file the skeleton is what lies outside them.
pub build_skeleton-outside :
    (file : List ℕ) (rs : List SampleRegion)
    → Apart (length file) 0 rs
    → build_skeleton file rs ≡ ok (outside file 0 rs)
unfolding build_skeleton
build_skeleton-outside file rs a = rw fits (
    fill_skeleton-outside file [] 0 0 (length file - total_length rs) rs (omega arith) a
      (omega arith) (omega (arith, sum)))
  where
    sum : length (outside file 0 rs) + total_length rs + 0 ≡ length file
    sum = length-outside file 0 rs (omega arith) a

    fits : ltb (length file) (total_length rs) ≡ false
    fits = ground (arith, sum)
