-- ===== src/Dag/Pool.antt =====
-- Lemmas on the map and the pool of prefetch in packages/repack/src/dag.ts: what stays true as fetches
-- are taken and arrive.
use trackerstream.Common.{
  ℕ, zero, suc, ◌<◌, ◌≡◌, refl, sym, ap, ◌∙◌, Bool, true, false, ◌||◌, some, List, [], ◌∷◌, ◌++◌,
  ltb, length, get_elem?, take, drop, arith, All, Bool-cases, inl, inr, ltb→lt,
}
use mathlib.Core.Path.{subst}
use trackerstream.Parse.Bytes.{same_text}
use trackerstream.Dag.Store.{Cid, BlockGetter, same_cid}
use trackerstream.Dag.Holds.{same_text-eq}
use trackerstream.Dag.Prefetch.{fetched, has_fetched, put_fetched}

pub some_inj : {A : Type 0} {a b : A} → some a ≡ some b → a ≡ b
some_inj h = cc

pub get_elem?-bound :
    {A : Type 0} (xs : List A) (i : ℕ) (a : A) → get_elem? xs i ≡ some a → i < length xs
get_elem?-bound [] i a h = cc
get_elem?-bound (x ∷ xs) zero a h = omega arith
get_elem?-bound (x ∷ xs) (suc i) a h = omega (arith, get_elem?-bound xs i a h)

pub no_elements : {A : Type 0} (xs : List A) → length xs ≡ 0 → xs ≡ []
no_elements [] h = refl
no_elements (x ∷ xs) h = absurd (let no : ⊥ = omega (arith, h) in no)

pub same_cid-eq : (a b : Cid) → same_cid a b ≡ true → a ≡ b
unfolding same_cid
same_cid-eq a b h = elim (Bool-cases (same_text a.digest b.digest)) [
  | inr other ↦ absurd (let no : ⊥ = ground (arith, other) in no)
  | inl same ↦
      let codec : a.codec ≡ b.codec = ground (arith, same) in
      let digest = same_text-eq a.digest b.digest same in
      ap (λ k. record { codec = k; digest = a.digest }) codec
      ∙ ap (λ t. record { codec = b.codec; digest = t }) digest
]

unfoldable pub in_flight : Cid → List Cid → Bool
in_flight c [] = false
in_flight c (d ∷ ds) = same_cid d c || in_flight c ds

module _ (get : BlockGetter) where
  -- The map holds what the getter serves.
  abbrev pub FromGetter : List (Cid × List ℕ) → Type 0
  FromGetter out = All (λ e. get e.0 ≡ some e.1) out

  pub put_fetched-FromGetter :
      (c : Cid) (bytes : List ℕ) (out : List (Cid × List ℕ))
      → get c ≡ some bytes
      → FromGetter out
      → FromGetter (put_fetched c bytes out)
  unfolding put_fetched
  put_fetched-FromGetter c bytes [] g t = (g, tt)
  put_fetched-FromGetter c bytes (e ∷ es) g (t, ts) = elim (Bool-cases (same_cid e.0 c)) [
    | inl same ↦ rw same (ap get (same_cid-eq e.0 c same) ∙ g, ts)
    | inr other ↦ rw other (t, put_fetched-FromGetter c bytes es g ts)
  ]

  pub fetched-FromGetter :
      (c : Cid) (out : List (Cid × List ℕ))
      → FromGetter out
      → has_fetched c out ≡ true
      → fetched c out ≡ get c
  unfolding fetched has_fetched
  fetched-FromGetter c [] t h = cc
  fetched-FromGetter c (e ∷ es) (t, ts) h = elim (Bool-cases (same_cid e.0 c)) [
    | inl same ↦ rw same (sym t ∙ ap get (same_cid-eq e.0 c same))
    | inr other ↦ rw other (fetched-FromGetter c es ts (rw (other, has_fetched) at h))
  ]

has_fetched-put :
    (c d : Cid) (bytes : List ℕ) (out : List (Cid × List ℕ))
    → (has_fetched d out || same_cid c d) ≡ true
    → has_fetched d (put_fetched c bytes out) ≡ true
unfolding has_fetched put_fetched
has_fetched-put c d bytes [] h = ground arith
has_fetched-put c d bytes (e ∷ es) h = elim (Bool-cases (same_cid e.0 c)) [
  | inl same ↦
      let e' = same_cid-eq e.0 c same in
      let through : same_cid e.0 d ≡ same_cid c d = ap (λ k. same_cid k d) e' in
      rw (same, has_fetched) (ground (arith, through))
  | inr other ↦ elim (Bool-cases (same_cid e.0 d)) [
    | inl hit ↦ rw (other, has_fetched) (rw hit refl)
    | inr miss ↦
        rw (other, has_fetched)
          (rw miss (has_fetched-put c d bytes es (rw (miss, has_fetched) at h)))
  ]
]

-- Taking the arrived fetch out loses that CID alone.
in_flight-taken :
    (c d : Cid) (k : ℕ) (flying : List Cid)
    → get_elem? flying k ≡ some c
    → in_flight d flying ≡ true
    → (in_flight d (take k flying ++ drop (suc k) flying) || same_cid c d) ≡ true
unfolding in_flight
in_flight-taken c d k [] at h = cc
in_flight-taken c d zero (x ∷ xs) at h =
    let own : x ≡ c = cc in
    let through : same_cid x d ≡ same_cid c d = ap (λ t. same_cid t d) own in
    ground (arith, through)
in_flight-taken c d (suc k) (x ∷ xs) at h = elim (Bool-cases (same_cid x d)) [
  | inl hit ↦ rw (hit, in_flight) refl
  | inr miss ↦ rw (miss, in_flight) (in_flight-taken c d k xs at (rw (miss, in_flight) at h))
]

abbrev pub Covers : List Cid → ℕ → List (Cid × List ℕ) → List Cid → Type 0
Covers cids n out flying =
    (i : ℕ) (d : Cid)
    → i < n
    → get_elem? cids i ≡ some d
    → (has_fetched d out || in_flight d flying) ≡ true

-- Covers what was covered and, after `i++`, the CID taken.
pub Covers-take_next :
    (cids : List Cid) (n : ℕ) (out : List (Cid × List ℕ)) (flying later : List Cid) (c : Cid)
    → Covers cids n out flying
    → get_elem? cids n ≡ some c
    → (has_fetched c out || in_flight c later) ≡ true
    → ((d : Cid) → in_flight d flying ≡ true → in_flight d later ≡ true)
    → Covers cids (suc n) out later
Covers-take_next cids n out flying later c cov at own keeps i d below here =
    elim (Bool-cases (ltb i n)) [
      | inl lower ↦
          let old = cov i d (ltb→lt i n lower) here in
          elim (Bool-cases (has_fetched d out)) [
            | inl hit ↦ rw hit refl
            | inr miss ↦ let wait = keeps d (rw miss at old) in ground (arith, wait)
          ]
      | inr not_lower ↦
          let same : i ≡ n = ground (arith, not_lower, below) in
          let equal : c ≡ d = cc (at, here, same) in
          subst (λ t. (has_fetched t out || in_flight t later) ≡ true) equal own
    ]

pub Covers-arrive :
    (cids : List Cid) (n k : ℕ) (out : List (Cid × List ℕ)) (flying : List Cid) (c : Cid)
    → (bytes : List ℕ) → Covers cids n out flying
    → get_elem? flying k ≡ some c
    → Covers cids n (put_fetched c bytes out) (take k flying ++ drop (suc k) flying)
Covers-arrive cids n k out flying c bytes cov at i d below here =
    let old = cov i d below here in
    elim (Bool-cases (has_fetched d out || same_cid c d)) [
      | inl known ↦ let hit = has_fetched-put c d bytes out known in ground (arith, hit)
      | inr unknown ↦
          let wait : in_flight d flying ≡ true = ground (arith, old, unknown) in
          let rest = in_flight-taken c d k flying at wait in ground (arith, rest, unknown)
    ]
