-- ===== src/Dag/Prefetched.antt =====
-- prefetch of packages/repack/src/dag.ts: what its map holds when all workers have returned.
use trackerstream.Common.{
  ℕ, suc, ◌≤◌, ◌<◌, ◌≡◌, refl, true, some, List, [], ◌∷◌, ltb, if◌then◌else◌, length, get_elem?,
  arith, Bool-cases, Option-cases, inl, inr,
}
use mathlib.Core.Path.{subst}
use trackerstream.Dag.Store.{Cid, BlockGetter}
use trackerstream.Dag.Holds.{same_cid_self}
use trackerstream.Dag.Prefetch.{
  Pool, fetched, has_fetched, PoolEvent, take_next, arrive, workers, pool_step, run_pool,
  pool_start, pool_done,
}
use trackerstream.Dag.Pool.{
  some_inj, get_elem?-bound, no_elements, in_flight, FromGetter, put_fetched-FromGetter,
  fetched-FromGetter, Covers, Covers-take_next, Covers-arrive,
}

module _ (cids : List Cid) (get : BlockGetter) (concurrency : ℕ) where
  -- The map holds what the getter serves, and what was taken is in it or waited for.
  abbrev Sound : Pool → Type 0
  Sound p = FromGetter get p.out × Covers cids p.next p.out p.flying

  taken-Sound :
      (p : Pool) (c : Cid)
      → Sound p
      → get_elem? cids p.next ≡ some c
      → Sound (
          if has_fetched c p.out
          then record { next = suc p.next; out = p.out; flying = p.flying }
          else record { next = suc p.next; out = p.out; flying = c ∷ p.flying })
  unfolding in_flight
  taken-Sound p c (true_map, cov) at = elim (Bool-cases (has_fetched c p.out)) [
    | inl hit ↦ rw hit (
      true_map,
      Covers-take_next cids p.next p.out p.flying p.flying c cov at (rw hit refl) (λ d w. w),
    )
    | inr miss ↦ rw miss (
      true_map,
      Covers-take_next cids p.next p.out p.flying (c ∷ p.flying) c cov at
          (rw (miss, in_flight, same_cid_self c) refl) (λ d w. ground (arith, w)),
    )
  ]

  pool_step-Sound :
      (e : PoolEvent) (p q : Pool) → Sound p → pool_step cids get concurrency e p ≡ some q → Sound q
  unfolding pool_step
  pool_step-Sound take_next p q s h = elim (Option-cases (get_elem? cids p.next)) [
    | inl past ↦ cc (rw (past, pool_step) at h)
    | inr (c, at) ↦ elim (Bool-cases (ltb (length p.flying) (workers cids get concurrency))) [
      | inl free ↦
          let r = rw (at, free, pool_step) at h in subst Sound (some_inj r) (taken-Sound p c s at)
      | inr busy ↦ cc (rw (at, busy, pool_step) at h)
    ]
  ]
  pool_step-Sound (arrive k) p q (true_map, cov) h = elim (Option-cases (get_elem? p.flying k)) [
    | inl past ↦ cc (rw (past, pool_step) at h)
    | inr (c, at) ↦ elim (Option-cases (get c)) [
      | inl lost ↦ cc (rw (at, lost, pool_step) at h)
      | inr (bytes, got) ↦
          let r = rw (at, got, pool_step) at h in
          subst Sound (some_inj r) (
            put_fetched-FromGetter get c bytes p.out got true_map,
            Covers-arrive cids p.next k p.out p.flying c bytes cov at,
          )
    ]
  ]

  run_pool-Sound :
      (es : List PoolEvent) (p q : Pool)
      → Sound p
      → run_pool cids get concurrency es p ≡ some q
      → Sound q
  unfolding run_pool
  run_pool-Sound [] p q s h = subst Sound (some_inj h) s
  run_pool-Sound (e ∷ es) p q s h = elim (Option-cases (pool_step cids get concurrency e p)) [
    | inl stuck ↦ cc (rw (stuck, run_pool) at h)
    | inr (r, done) ↦
        run_pool-Sound es r q (pool_step-Sound e p r s done) (rw (done, run_pool) at h)
  ]

  start-Sound : Sound (pool_start cids get concurrency)
  start-Sound = (tt, λ i d below here. absurd (let no : ⊥ = ground (arith, below) in no))

-- When all workers of `prefetch`, one at least, have returned, in whatever order the fetches arrived, the map has each
-- requested CID, with the bytes that the getter gives for it.
pub prefetch-fetched :
    (cids : List Cid) (get : BlockGetter) (concurrency : ℕ)
    → (es : List PoolEvent) (p : Pool) (i : ℕ) (c : Cid) → 1 ≤ concurrency
    → run_pool cids get concurrency es (pool_start cids get concurrency) ≡ some p
    → pool_done cids get concurrency p ≡ true
    → get_elem? cids i ≡ some c
    → (has_fetched c p.out ≡ true) × (fetched c p.out ≡ get c)
unfolding in_flight
prefetch-fetched cids get concurrency es p i c one h done here =
    let s =
      run_pool-Sound cids get concurrency es (pool_start cids get concurrency) p
        (start-Sound cids get concurrency) h in
    let bound = get_elem?-bound cids i c here in
    let below : i < p.next = ground (arith, done, bound) in
    let idle = no_elements p.flying (ground (arith, done)) in
    let known = s.1 i c below here in
    let hit : has_fetched c p.out ≡ true = ground (arith, rw (idle, in_flight) at known) in
    (hit, fetched-FromGetter get c p.out s.0 hit)
