-- ===== src/Dag/PoolEnds.antt =====
-- prefetch of packages/repack/src/dag.ts: how long a run may be, and that it gets to its end.
use trackerstream.Common.{
  ℕ, zero, suc, ◌+◌, ◌*◌, ◌-◌, ◌≤◌, ◌<◌, ◌≡◌, refl, true, none, some, List, [], ◌∷◌, ◌++◌, ltb,
  if◌then◌else◌, length, get_elem?, take, drop, arith, Bool-cases, Option-cases, inl, inr, ◌⊎◌, ap,
  ltb→lt,
}
use mathlib.Core.Path.{subst}
use trackerstream.Dag.Store.{Cid, BlockGetter}
use trackerstream.Dag.Prefetch.{
  Pool, has_fetched, put_fetched, PoolEvent, take_next, arrive, workers, pool_step, run_pool,
  pool_start, pool_done,
}
use trackerstream.Dag.Pool.{some_inj, get_elem?-bound}

length-taken :
    {A : Type 0} (k : ℕ) (xs : List A) (a : A)
    → get_elem? xs k ≡ some a
    → suc (length (take k xs ++ drop (suc k) xs)) ≡ length xs
length-taken k [] a h = cc
length-taken zero (x ∷ xs) a h = refl
length-taken (suc k) (x ∷ xs) a h = ap suc (length-taken k xs a h)

elem_below :
    {A : Type 0} (xs : List A) (i : ℕ) → i < length xs → (a : A) × (get_elem? xs i ≡ some a)
elem_below [] i h = absurd (let no : ⊥ = omega (arith, h) in no)
elem_below (x ∷ xs) zero h = (x, refl)
elem_below (x ∷ xs) (suc i) h = elem_below xs i (omega (arith, h))

not_below : {A : Type 0} (xs : List A) → get_elem? xs 0 ≡ none → length xs ≡ 0
not_below [] h = refl
not_below (x ∷ xs) h = cc

module _ (cids : List Cid) (get : BlockGetter) (concurrency : ℕ) where
  -- The events that are still to come, at most.
  abbrev pub fuel_left : Pool → ℕ
  fuel_left p = 2 * (length cids - p.next) + length p.flying

  pool_step-fuel_left :
      (e : PoolEvent) (p q : Pool)
      → pool_step cids get concurrency e p ≡ some q
      → fuel_left q < fuel_left p
  unfolding pool_step
  pool_step-fuel_left take_next p q h = elim (Option-cases (get_elem? cids p.next)) [
    | inl past ↦ cc (rw (past, pool_step) at h)
    | inr (c, at) ↦
        let below = get_elem?-bound cids p.next c at in
        elim (Bool-cases (ltb (length p.flying) (workers cids get concurrency))) [
          | inr busy ↦ cc (rw (at, busy, pool_step) at h)
          | inl free ↦ elim (Bool-cases (has_fetched c p.out)) [
            | inl hit ↦
                subst (λ r. fuel_left r < fuel_left p)
                  (some_inj (rw (at, free, hit, pool_step) at h)) (omega (arith, below))
            | inr miss ↦
                subst (λ r. fuel_left r < fuel_left p)
                  (some_inj (rw (at, free, miss, pool_step) at h)) (omega (arith, below))
          ]
        ]
  ]
  pool_step-fuel_left (arrive k) p q h = elim (Option-cases (get_elem? p.flying k)) [
    | inl past ↦ cc (rw (past, pool_step) at h)
    | inr (c, at) ↦ elim (Option-cases (get c)) [
      | inl lost ↦ cc (rw (at, lost, pool_step) at h)
      | inr (bytes, got) ↦
          subst (λ r. fuel_left r < fuel_left p) (some_inj (rw (at, got, pool_step) at h))
            (omega (arith, length-taken k p.flying c at))
    ]
  ]

  run_pool-fuel_left :
      (es : List PoolEvent) (p q : Pool)
      → run_pool cids get concurrency es p ≡ some q
      → length es + fuel_left q ≤ fuel_left p
  unfolding run_pool
  run_pool-fuel_left [] p q h =
      subst (λ r. 0 + fuel_left r ≤ fuel_left p) (some_inj h) (omega arith)
  run_pool-fuel_left (e ∷ es) p q h = elim (Option-cases (pool_step cids get concurrency e p)) [
    | inl stuck ↦ cc (rw (stuck, run_pool) at h)
    | inr (r, done) ↦ omega (
      arith,
      pool_step-fuel_left e p r done,
      run_pool-fuel_left es r q (rw (done, run_pool) at h),
    )
  ]

  -- A pool that is not done has an event that can happen.
  pool_step-can :
      (p : Pool)
      → 1 ≤ concurrency
      → ((c : Cid) → (bytes : List ℕ) × (get c ≡ some bytes))
      → (pool_done cids get concurrency p ≡ true)
        ⊎ ((e : PoolEvent) × (q : Pool) × (pool_step cids get concurrency e p ≡ some q))
  unfolding pool_step
  pool_step-can p one total = elim (Option-cases (get_elem? p.flying 0)) [
    | inr (c, at) ↦
        let after : Pool = record {
          next = p.next;
          out = put_fetched c (total c).0 p.out;
          flying = take 0 p.flying ++ drop 1 p.flying;
        } in
        inr (arrive 0, after, rw (at, (total c).1, pool_step) refl)
    | inl none_flying ↦
        let idle = not_below p.flying none_flying in
        elim (Bool-cases (ltb p.next (length cids))) [
          | inr past ↦ inl (ground (arith, past, idle))
          | inl below ↦
              let at = elem_below cids p.next (ltb→lt p.next (length cids) below) in
              let free : ltb (length p.flying) (workers cids get concurrency) ≡ true =
                ground (arith, ltb→lt p.next (length cids) below, one, idle) in
              let after : Pool =
                if has_fetched at.0 p.out
                then record { next = suc p.next; out = p.out; flying = p.flying }
                else record { next = suc p.next; out = p.out; flying = at.0 ∷ p.flying } in
              inr (take_next, after, rw (at.1, free, pool_step) refl)
        ]
  ]

  run_to_end :
      (fuel : ℕ) (p : Pool)
      → fuel_left p ≤ fuel
      → 1 ≤ concurrency
      → ((c : Cid) → (bytes : List ℕ) × (get c ≡ some bytes))
      → (es : List PoolEvent) × (q : Pool) × (run_pool cids get concurrency es p ≡ some q)
        × (pool_done cids get concurrency q ≡ true)
  unfolding run_pool
  run_to_end zero p enough one total = elim (pool_step-can p one total) [
    | inl done ↦ ([], p, refl, done)
    | inr (e, q, step) ↦
        absurd (let no : ⊥ = omega (arith, enough, pool_step-fuel_left e p q step) in no)
  ]
  run_to_end (suc fuel) p enough one total = elim (pool_step-can p one total) [
    | inl done ↦ ([], p, refl, done)
    | inr (e, q, step) ↦
        let (es, r, run, done) =
          run_to_end fuel q (omega (arith, enough, pool_step-fuel_left e p q step)) one total in
        (e ∷ es, r, rw (step, run_pool) run, done)
  ]

-- With at least one worker and a getter that never fails, no run of `prefetch` has more than two events
-- for each CID asked for, and each run can be continued to one in which all workers have returned.
pub prefetch-ends :
    (cids : List Cid) (get : BlockGetter) (concurrency : ℕ)
    → (es : List PoolEvent) (p : Pool) → 1 ≤ concurrency
    → ((c : Cid) → (bytes : List ℕ) × (get c ≡ some bytes))
    → run_pool cids get concurrency es (pool_start cids get concurrency) ≡ some p
    → (length es ≤ 2 * length cids)
      × ((more : List PoolEvent) × (q : Pool) × (run_pool cids get concurrency more p ≡ some q)
          × (pool_done cids get concurrency q ≡ true))
prefetch-ends cids get concurrency es p one total run =
    let start = pool_start cids get concurrency in
    (
      omega (arith, run_pool-fuel_left cids get concurrency es start p run),
      run_to_end cids get concurrency (fuel_left cids get concurrency p) p (omega arith) one total,
    )
