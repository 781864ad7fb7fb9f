-- ===== src/Tree/Spans.antt =====
-- mergeSpans of packages/repack/src/dag.ts: zero runs, merged into disjoint ascending ones.
use trackerstream.Common.{
  ℕ, ◌+◌, ◌≤◌, ◌<◌, min, max, ◌≡◌, refl, ◌∙◌, Bool, false, ◌&&◌, ◌||◌, List, [], ◌∷◌, ltb, leb,
  if◌then◌else◌, arith, Bool-cases, inl, inr,
}

-- A pair [a, b], for the positions from `start` up to but not including `stop`.
pub record Span : Type 0 where
  pub start : ℕ
  pub stop : ℕ

-- The `.map` that clamps and the `.filter` behind it.
clamp_spans : List Span → ℕ → List Span
clamp_spans [] len = []
clamp_spans (s ∷ ss) len =
    let rest = clamp_spans ss len in
    if ltb (min s.start len) (min s.stop len)
    then record { start = min s.start len; stop = min s.stop len } ∷ rest
    else rest

-- `.sort((x, y) => x[0] - y[0])`, which is stable.
insert_span : Span → List Span → List Span
insert_span s [] = s ∷ []
insert_span s (t ∷ ts) = if leb s.start t.start then s ∷ t ∷ ts else t ∷ insert_span s ts

sort_spans : List Span → List Span
sort_spans [] = []
sort_spans (s ∷ ss) = insert_span s (sort_spans ss)

-- The loop, where `last` is the last span of `out`; its spans before `last` change no more.
join_spans : Span → List Span → List Span
join_spans last [] = last ∷ []
join_spans last (s ∷ ss) =
    let joined = join_spans (record last { stop = max last.stop s.stop }) ss in
    let apart = last ∷ join_spans s ss in if leb s.start last.stop then joined else apart

join_all : List Span → List Span
join_all [] = []
join_all (s ∷ ss) = join_spans s ss

pub merge_spans : List Span → ℕ → List Span
merge_spans spans len = join_all (sort_spans (clamp_spans spans len))

-- The position lies in one of the spans.
abbrev pub covered : List Span → ℕ → Bool
covered [] x = false
covered (s ∷ ss) x = (leb s.start x && ltb x s.stop) || covered ss x

-- Non-empty spans from `low` on that neither overlap nor touch.
abbrev pub Separated : ℕ → List Span → Type 0
Separated low [] = Unit {0}
Separated low (s ∷ ss) = (low ≤ s.start) × (s.start < s.stop) × Separated (s.stop + 1) ss

-- Non-empty spans with ascending starts from `low` on.
abbrev Starting : ℕ → List Span → Type 0
Starting low [] = Unit {0}
Starting low (s ∷ ss) = (low ≤ s.start) × (s.start < s.stop) × Starting s.start ss

abbrev NonEmpty : List Span → Type 0
NonEmpty [] = Unit {0}
NonEmpty (s ∷ ss) = (s.start < s.stop) × NonEmpty ss

clamp_spans-NonEmpty : (ss : List Span) (len : ℕ) → NonEmpty (clamp_spans ss len)
unfolding clamp_spans
clamp_spans-NonEmpty [] len = tt
clamp_spans-NonEmpty (s ∷ ss) len = ground (arith, clamp_spans-NonEmpty ss len)

covered-clamp_spans :
    (ss : List Span) (len x : ℕ) → covered (clamp_spans ss len) x ≡ (covered ss x && ltb x len)
unfolding clamp_spans
covered-clamp_spans [] len x = refl
covered-clamp_spans (s ∷ ss) len x = ground (arith, covered-clamp_spans ss len x)

insert_span-Starting :
    (low : ℕ) (s : Span) (ss : List Span)
    → low ≤ s.start
    → s.start < s.stop
    → Starting low ss
    → Starting low (insert_span s ss)
unfolding insert_span
insert_span-Starting low s [] h n a = (h, n, tt)
insert_span-Starting low s (t ∷ ts) h n (l, m, a) =
    ground (arith, insert_span-Starting t.start s ts)

sort_spans-Starting : (ss : List Span) → NonEmpty ss → Starting 0 (sort_spans ss)
unfolding sort_spans
sort_spans-Starting [] n = tt
sort_spans-Starting (s ∷ ss) (n, ns) =
    insert_span-Starting 0 s (sort_spans ss) (omega arith) n (sort_spans-Starting ss ns)

covered-insert_span :
    (s : Span) (ss : List Span) (x : ℕ) → covered (insert_span s ss) x ≡ covered (s ∷ ss) x
unfolding insert_span
covered-insert_span s [] x = refl
covered-insert_span s (t ∷ ts) x = ground (arith, covered-insert_span s ts x)

covered-sort_spans : (ss : List Span) (x : ℕ) → covered (sort_spans ss) x ≡ covered ss x
unfolding sort_spans
covered-sort_spans [] x = refl
covered-sort_spans (s ∷ ss) x =
    ground (arith, covered-insert_span s (sort_spans ss) x, covered-sort_spans ss x)

Starting-low : (low low' : ℕ) (ss : List Span) → low' ≤ low → Starting low ss → Starting low' ss
Starting-low low low' [] h a = tt
Starting-low low low' (s ∷ ss) h (l, n, a) = (omega arith, n, a)

join_spans-Separated :
    (low : ℕ) (last : Span) (ss : List Span)
    → low ≤ last.start
    → last.start < last.stop
    → Starting last.start ss
    → Separated low (join_spans last ss)
unfolding join_spans
join_spans-Separated low last [] h n a = (h, n, tt)
join_spans-Separated low last (s ∷ ss) h n (l, m, a) =
    let joined : Span = record last { stop = max last.stop s.stop } in
    elim (Bool-cases (leb s.start last.stop)) [
      | inl touching ↦ rw touching (
          join_spans-Separated low joined ss h (omega arith)
            (Starting-low s.start last.start ss l a))
      | inr apart ↦ rw apart (h, n, join_spans-Separated (last.stop + 1) s ss (ground arith) m a)
    ]

covered-join_spans :
    (last : Span) (ss : List Span) (x : ℕ)
    → last.start < last.stop
    → Starting last.start ss
    → covered (join_spans last ss) x ≡ covered (last ∷ ss) x
unfolding join_spans
covered-join_spans last [] x n a = refl
covered-join_spans last (s ∷ ss) x n (l, m, a) =
    let joined : Span = record last { stop = max last.stop s.stop } in
    elim (Bool-cases (leb s.start last.stop)) [
      | inl touching ↦
          let rest =
            covered-join_spans joined ss x (omega arith) (Starting-low s.start last.start ss l a) in
          rw (touching, rest) (ground arith)
      | inr apart ↦ rw (apart, covered-join_spans s ss x m a)
    ]

join_all-Separated : (ss : List Span) → Starting 0 ss → Separated 0 (join_all ss)
unfolding join_all
join_all-Separated [] a = tt
join_all-Separated (s ∷ ss) (l, n, a) = join_spans-Separated 0 s ss l n a

covered-join_all : (ss : List Span) (x : ℕ) → Starting 0 ss → covered (join_all ss) x ≡ covered ss x
unfolding join_all
covered-join_all [] x a = refl
covered-join_all (s ∷ ss) x (l, n, a) = covered-join_spans s ss x n a

-- For all spans and lengths: the merged spans are non-empty, ascending, neither overlap nor touch, and
-- cover just the positions below the length that the given spans cover.
pub merge_spans-covered :
    (spans : List Span) (len x : ℕ)
    → Separated 0 (merge_spans spans len)
      × (covered (merge_spans spans len) x ≡ (covered spans x && ltb x len))
unfolding merge_spans
merge_spans-covered spans len x =
    let sorted = sort_spans-Starting (clamp_spans spans len) (clamp_spans-NonEmpty spans len) in
    (
      join_all-Separated (sort_spans (clamp_spans spans len)) sorted,
      covered-join_all (sort_spans (clamp_spans spans len)) x sorted
          ∙ covered-sort_spans (clamp_spans spans len) x
          ∙ covered-clamp_spans spans len x,
    )
