-- ===== src/Tests/Pools.antt =====
-- prefetch of packages/repack/src/dag.ts on three CIDs, two of them equal, with two workers.
use trackerstream.Common.{ℕ, ◌*◌, ◌≤◌, ◌≡◌, refl, true, some, List, [], ◌∷◌, arith, length}
use trackerstream.Dag.Store.{Cid, BlockGetter}
use trackerstream.Dag.Prefetch.{
  Pool, fetched, has_fetched, put_fetched, PoolEvent, take_next, arrive, pool_step, run_pool,
  pool_start, pool_done,
}
use trackerstream.Dag.Prefetched.{prefetch-fetched}
use trackerstream.Dag.PoolEnds.{prefetch-ends}

abbrev cid_of : ℕ → Cid
cid_of n = record { codec = 85; digest = n ∷ [] }

abbrev asked : List Cid
asked = cid_of 1 ∷ cid_of 2 ∷ cid_of 1 ∷ []

abbrev echo : BlockGetter
echo c = some c.digest

-- The second fetch arrives first, and its worker takes the CID that the first still waits for.
abbrev crossed : List PoolEvent
crossed = take_next ∷ take_next ∷ arrive 0 ∷ take_next ∷ arrive 0 ∷ arrive 0 ∷ []

abbrev ended : Pool
ended = record { next = 3; out = (cid_of 2, 2 ∷ []) ∷ (cid_of 1, 1 ∷ []) ∷ []; flying = [] }

crossed-ended : run_pool asked echo 2 crossed (pool_start asked echo 2) ≡ some ended
unfolding run_pool pool_step has_fetched put_fetched trackerstream.Dag.Store.same_cid
    trackerstream.Parse.Bytes.same_text
crossed-ended = refl

prefetch-fetched_example :
    (has_fetched (cid_of 1) ended.out ≡ true) × (fetched (cid_of 1) ended.out ≡ echo (cid_of 1))
prefetch-fetched_example =
    prefetch-fetched asked echo 2 crossed ended 2 (cid_of 1) (omega arith) crossed-ended refl refl

abbrev two_taken : List PoolEvent
two_taken = take_next ∷ take_next ∷ []

abbrev waiting : Pool
waiting = record { next = 2; out = []; flying = cid_of 2 ∷ cid_of 1 ∷ [] }

two_taken-waiting : run_pool asked echo 2 two_taken (pool_start asked echo 2) ≡ some waiting
unfolding run_pool pool_step has_fetched put_fetched
two_taken-waiting = refl

prefetch-ends_example :
    (length two_taken ≤ 2 * length asked)
    × ((more : List PoolEvent) × (q : Pool) × (run_pool asked echo 2 more waiting ≡ some q)
        × (pool_done asked echo 2 q ≡ true))
prefetch-ends_example =
    prefetch-ends asked echo 2 two_taken waiting (omega arith) (λ c. (c.digest, refl))
      two_taken-waiting
