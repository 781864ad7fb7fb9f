-- ===== src/Parse/Pieces.antt =====
-- What the filter, the sort and the last loop of sampleRegions in packages/repack/src/parse.ts keep.
use trackerstream.Common.{
  ℕ, ◌+◌, ◌≤◌, ◌<◌, ◌≡◌, refl, sym, ◌⊎◌, inl, inr, List, [], ◌∷◌, ltb, leb, leb→le, ltb→lt,
  Bool-cases, ◌&&◌, true, false, All, arith,
}
use mathlib.Core.Path.{subst}
use trackerstream.Parse.Bytes.{SampleRegion}
use trackerstream.Parse.Select.{in_file, insert_region, sort_regions, keep_apart}

abbrev pub InFile : ℕ → SampleRegion → Type 0
InFile size r = (0 < r.length) × (r.offset + r.length ≤ size)

-- Ascending, non-empty, disjoint regions between `end` and `size`.
abbrev pub Apart : ℕ → ℕ → List SampleRegion → Type 0
Apart size end [] = Unit {0}
Apart size end (r ∷ rs) = (end ≤ r.offset) × InFile size r × Apart size (r.offset + r.length) rs

-- Some region holds the byte at `at`.
abbrev pub Covers : List SampleRegion → ℕ → Type 0
Covers [] at = ⊥
Covers (k ∷ ks) at = ((k.offset ≤ at) × (at < k.offset + k.length)) ⊎ Covers ks at

pub in_file-InFile : (size : ℕ) (rs : List SampleRegion) → All (InFile size) (in_file size rs)
unfolding in_file
in_file-InFile size [] = tt
in_file-InFile size (r ∷ rs) =
    elim (Bool-cases (ltb 0 r.length && leb (r.offset + r.length) size)) [
      | inl inside ↦ rw inside ((ground arith), in_file-InFile size rs)
      | inr out ↦ rw out (in_file-InFile size rs)
    ]

pub All-map :
    {P Q : SampleRegion → Type 0}
    → ((r : SampleRegion) → P r → Q r)
    → (rs : List SampleRegion) → All P rs
    → All Q rs
All-map f [] h = tt
All-map f (r ∷ rs) (h, hs) = (f r h, All-map f rs hs)

module _ (P : SampleRegion → Type 0) where
  All-insert :
      (r : SampleRegion) (rs : List SampleRegion) → P r → All P rs → All P (insert_region r rs)
  unfolding insert_region
  All-insert r [] h hs = (h, tt)
  All-insert r (s ∷ rs) h (k, ks) = elim (Bool-cases (leb r.offset s.offset)) [
    | inl first ↦ rw first (h, (k, ks))
    | inr later ↦ rw later (k, All-insert r rs h ks)
  ]

  pub All-sort : (rs : List SampleRegion) → All P rs → All P (sort_regions rs)
  unfolding sort_regions
  All-sort [] h = tt
  All-sort (r ∷ rs) (h, hs) = All-insert r (sort_regions rs) h (All-sort rs hs)

  All-of_insert :
      (r : SampleRegion) (rs : List SampleRegion) → All P (insert_region r rs) → P r × All P rs
  unfolding insert_region
  All-of_insert r [] h = h
  All-of_insert r (s ∷ rs) h = elim (Bool-cases (leb r.offset s.offset)) [
    | inl first ↦ rw first at h
    | inr later ↦
        let (k, ks) : P s × All P (insert_region r rs) = rw later at h in
        let (a, as') = All-of_insert r rs ks in (a, (k, as'))
  ]

  pub All-in_file : (size : ℕ) (rs : List SampleRegion) → All P rs → All P (in_file size rs)
  unfolding in_file
  All-in_file size [] h = tt
  All-in_file size (r ∷ rs) (h, hs) =
      elim (Bool-cases (ltb 0 r.length && leb (r.offset + r.length) size)) [
        | inl inside ↦ rw inside (h, All-in_file size rs hs)
        | inr out ↦ rw out (All-in_file size rs hs)
      ]

  pub All-keep_apart : (end : ℕ) (rs : List SampleRegion) → All P rs → All P (keep_apart end rs)
  unfolding keep_apart
  All-keep_apart end [] h = tt
  All-keep_apart end (r ∷ rs) (h, hs) = elim (Bool-cases (ltb r.offset end)) [
    | inl early ↦ rw early (All-keep_apart end rs hs)
    | inr apart ↦ rw apart (h, All-keep_apart (r.offset + r.length) rs hs)
  ]

  pub All-of_sort : (rs : List SampleRegion) → All P (sort_regions rs) → All P rs
  unfolding sort_regions
  All-of_sort [] h = tt
  All-of_sort (r ∷ rs) h =
      let (a, as') = All-of_insert r (sort_regions rs) h in (a, All-of_sort rs as')

pub keep_apart-Apart :
    (size end : ℕ) (rs : List SampleRegion)
    → All (InFile size) rs
    → Apart size end (keep_apart end rs)
unfolding keep_apart
keep_apart-Apart size end [] h = tt
keep_apart-Apart size end (r ∷ rs) (h, hs) = elim (Bool-cases (ltb r.offset end)) [
  | inl early ↦ rw early (keep_apart-Apart size end rs hs)
  | inr apart ↦ rw apart (ground arith, h, keep_apart-Apart size (r.offset + r.length) rs hs)
]

-- Ascending offsets, from `low` on.
abbrev Ascending : ℕ → List SampleRegion → Type 0
Ascending low [] = Unit {0}
Ascending low (r ∷ rs) = (low ≤ r.offset) × Ascending r.offset rs

insert-Ascending :
    (low : ℕ) (r : SampleRegion) (rs : List SampleRegion)
    → low ≤ r.offset
    → Ascending low rs
    → Ascending low (insert_region r rs)
unfolding insert_region
insert-Ascending low r [] h hs = (h, tt)
insert-Ascending low r (s ∷ rs) h (k, ks) = elim (Bool-cases (leb r.offset s.offset)) [
  | inl first ↦ rw first (h, (leb→le _ _ first, ks))
  | inr later ↦ rw later (k, insert-Ascending s.offset r rs (ground arith) ks)
]

pub sort-Ascending : (rs : List SampleRegion) → Ascending 0 (sort_regions rs)
unfolding sort_regions
sort-Ascending [] = tt
sort-Ascending (r ∷ rs) = insert-Ascending 0 r (sort_regions rs) (omega arith) (sort-Ascending rs)

Ascending-All : (low : ℕ) (rs : List SampleRegion) → Ascending low rs → All (λ r. low ≤ r.offset) rs
Ascending-All low [] h = tt
Ascending-All low (r ∷ rs) (h, hs) = (
  h,
  All-map {P = λ s. r.offset ≤ s.offset} (λ s k. omega arith) rs (Ascending-All r.offset rs hs),
)

keep_apart-early :
    (end : ℕ) (r : SampleRegion) (rs : List SampleRegion)
    → ltb r.offset end ≡ true
    → keep_apart end (r ∷ rs) ≡ keep_apart end rs
unfolding keep_apart
keep_apart-early end r rs e = rw e

keep_apart-later :
    (end : ℕ) (r : SampleRegion) (rs : List SampleRegion)
    → ltb r.offset end ≡ false
    → keep_apart end (r ∷ rs) ≡ r ∷ keep_apart (r.offset + r.length) rs
unfolding keep_apart
keep_apart-later end r rs e = rw e

pub Covers-keep_apart :
    (end low : ℕ) (rs : List SampleRegion)
    → Ascending low rs
    → All (λ r. 0 < r.length) rs
    → All (λ r. (r.offset < end) ⊎ Covers (keep_apart end rs) r.offset) rs
Covers-keep_apart end low [] a h = tt
Covers-keep_apart end low (r ∷ rs) (a, as') (h, hs) = elim (Bool-cases (ltb r.offset end)) [
  | inl early ↦
      subst (λ k. All (λ s. (s.offset < end) ⊎ Covers k s.offset) (r ∷ rs))
        (sym (keep_apart-early end r rs early))
        (inl (ltb→lt _ _ early), Covers-keep_apart end r.offset rs as' hs)
  | inr apart ↦
      subst (λ k. All (λ s. (s.offset < end) ⊎ Covers k s.offset) (r ∷ rs))
        (sym (keep_apart-later end r rs apart))
        (
          inr (inl (omega arith, omega arith)),
          later rs (keep_apart (r.offset + r.length) rs) (Ascending-All r.offset rs as')
              (Covers-keep_apart (r.offset + r.length) r.offset rs as' hs),
        )
]
  where
    later :
        (ss kept : List SampleRegion)
        → All (λ s. r.offset ≤ s.offset) ss
        → All (λ s. (s.offset < r.offset + r.length) ⊎ Covers kept s.offset) ss
        → All (λ s. (s.offset < end) ⊎ Covers (r ∷ kept) s.offset) ss
    later [] kept p q = tt
    later (s ∷ ss) kept (p, ps) (inl q, qs) = (inr (inl (p, q)), later ss kept ps qs)
    later (s ∷ ss) kept (p, ps) (inr q, qs) = (inr (inr q), later ss kept ps qs)

-- `r` is one of the regions.
abbrev pub Occurs : SampleRegion → List SampleRegion → Type 0
Occurs r [] = ⊥
Occurs r (s ∷ rs) = (r ≡ s) ⊎ Occurs r rs

pub Occurs-self : (rs : List SampleRegion) → All (λ r. Occurs r rs) rs
Occurs-self [] = tt
Occurs-self (r ∷ rs) = (inl refl, All-map (λ s k. inr k) rs (Occurs-self rs))

pub All-of_in_file :
    (P : SampleRegion → Type 0) (size : ℕ) (rs : List SampleRegion)
    → All P (in_file size rs)
    → All (λ r. InFile size r → P r) rs
unfolding in_file
All-of_in_file P size [] h = tt
All-of_in_file P size (r ∷ rs) h =
    elim (Bool-cases (ltb 0 r.length && leb (r.offset + r.length) size)) [
      | inl inside ↦
          let (k, ks) : P r × All P (in_file size rs) = rw inside at h in
          (λ _. k, All-of_in_file P size rs ks)
      | inr out ↦ (λ k. absurd (ground arith), All-of_in_file P size rs (rw out at h))
    ]

pub Covered-from_zero :
    (kept rs : List SampleRegion)
    → All (λ r. (r.offset < 0) ⊎ Covers kept r.offset) rs
    → All (λ r. Covers kept r.offset) rs
Covered-from_zero kept = All-map (λ r. elim [ inl h ↦ absurd (omega arith) | inr h ↦ h ])
