-- ===== src/Parse/Partition.antt =====
-- What sampleRegions of parse.ts returns: disjoint regions inside the file, none lost without cause.
use trackerstream.Common.{
  ℕ, ◌≡◌, refl, sym, inl, inr, Option, some, List, [], ◌∷◌, Option-cases, All, length,
}
use mathlib.Core.Path.{subst}
use trackerstream.Parse.Bytes.{Format, SampleRegion}
use trackerstream.Parse.Select.{
  extractors, in_file, sort_regions, keep_apart, choose_format, ParsedRegions, sample_regions,
}
use trackerstream.Parse.Pieces.{
  All-sort, All-in_file, All-of_sort, All-keep_apart, InFile, Apart, Covers, in_file-InFile,
  All-map, keep_apart-Apart, sort-Ascending, Covers-keep_apart, Occurs, Occurs-self, All-of_in_file,
  Covered-from_zero,
}

-- What sampleRegions does with the regions of a locator.
clean : ℕ → List SampleRegion → List SampleRegion
clean size raw = keep_apart 0 (sort_regions (in_file size raw))

clean_lem :
    (size : ℕ) (raw : List SampleRegion)
    → Apart size 0 (clean size raw)
      × All (λ r. Occurs r raw) (clean size raw)
      × All (λ r. InFile size r → Covers (clean size raw) r.offset) raw
unfolding clean
clean_lem size raw = (
  keep_apart-Apart size 0 sorted (All-sort (InFile size) kept (in_file-InFile size raw)),
  All-keep_apart (λ r. Occurs r raw) 0 sorted
      (All-sort (λ r. Occurs r raw) kept
        (All-in_file (λ r. Occurs r raw) size raw (Occurs-self raw))),
  All-of_in_file (λ r. Covers (keep_apart 0 sorted) r.offset) size raw
      (All-of_sort (λ r. Covers (keep_apart 0 sorted) r.offset) kept
        (Covered-from_zero (keep_apart 0 sorted) sorted (
          Covers-keep_apart 0 0 sorted (sort-Ascending kept) (
            All-map (λ r h. h.0) sorted (All-sort (InFile size) kept (in_file-InFile size raw)))))),
)
  where
    kept : List SampleRegion
    kept = in_file size raw

    sorted : List SampleRegion
    sorted = sort_regions kept

sample_regions-clean :
    (b : List ℕ) (hint : Option Format) (p : ParsedRegions)
    → sample_regions b hint ≡ some p
    → (raw : List SampleRegion) × (extractors p.format b ≡ some raw)
      × (clean (length b) raw ≡ p.regions)
unfolding sample_regions clean
sample_regions-clean b hint p e = elim (Option-cases (choose_format b hint)) [
  | inl none_fits ↦ cc (rw (none_fits, sample_regions) at e)
  | inr (f, fits) ↦ elim (Option-cases (extractors f b)) [
    | inl refused ↦ cc (rw (fits, refused, sample_regions) at e)
    | inr (raw, found) ↦
        let result : ParsedRegions = record { format = f; regions = clean (length b) raw } in
        let same : result ≡ p = cc (rw (fits, found, sample_regions) at e) in
        subst
          (λ q.
            (x : List SampleRegion) × (extractors q.format b ≡ some x)
            × (clean (length b) x ≡ q.regions))
          same (raw, found, refl)
  ]
]

All-Occurs :
    (P : SampleRegion → Type 0) (rs : List SampleRegion) (r : SampleRegion)
    → All P rs
    → Occurs r rs
    → P r
All-Occurs P [] r h o = absurd o
All-Occurs P (s ∷ rs) r (h, hs) (inl e) = subst P (sym e) h
All-Occurs P (s ∷ rs) r (h, hs) (inr o) = All-Occurs P rs r hs o

-- On every file: the regions of a successful sampleRegions are non-empty, ascending, disjoint and
-- inside the file, and each is a region that the format's locator found.
pub sample_regions-Apart :
    (b : List ℕ) (hint : Option Format) (p : ParsedRegions)
    → sample_regions b hint ≡ some p
    → Apart (length b) 0 p.regions
      × ((raw : List SampleRegion) × (extractors p.format b ≡ some raw)
          × All (λ r. Occurs r raw) p.regions)
sample_regions-Apart b hint p e =
    let (raw, found, same) = sample_regions-clean b hint p e in
    let (apart, occurs, covers) = clean_lem (length b) raw in
    (rw same at apart, (raw, found, rw same at occurs))

-- A non-empty region inside the file that the locator found is kept by sampleRegions, or begins
-- inside a region that is kept.
pub sample_regions-Covers :
    (b : List ℕ) (hint : Option Format) (p : ParsedRegions) (raw : List SampleRegion)
    (r : SampleRegion)
    → sample_regions b hint ≡ some p
    → extractors p.format b ≡ some raw
    → Occurs r raw
    → InFile (length b) r
    → Covers p.regions r.offset
sample_regions-Covers b hint p raw r e found o inside =
    let (raw', found', same) = sample_regions-clean b hint p e in
    let (apart, occurs, covers) = clean_lem (length b) raw' in
    let one : raw ≡ raw' = cc (found, found') in
    let all : All (λ r. InFile (length b) r → Covers p.regions r.offset) raw' = rw same at covers in
    All-Occurs (λ r. InFile (length b) r → Covers p.regions r.offset) raw' r all (rw one at o)
      inside
