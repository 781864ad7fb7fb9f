-- ===== src/Dag/Prefetch.antt =====
-- prefetch of packages/repack/src/dag.ts: several workers that share the index and the map. A worker
-- runs from one await to the next; what happens in between is an event here, and a run is any sequence
-- of events that the state allows.
use trackerstream.Common.{
  ℕ, suc, min, Bool, false, ◌||◌, ◌&&◌, Option, none, some, List, [], ◌∷◌, ◌++◌, ltb, leb, ◌==◌,
  if◌then◌else◌, length, get_elem?, take, drop,
}
use trackerstream.Dag.Store.{Cid, BlockGetter, same_cid}

-- `i`, `out` and the CIDs that workers wait for. The other workers are at the head of their loop.
pub record Pool : Type 0 where
  pub next : ℕ
  pub out : List (Cid × List ℕ)
  pub flying : List Cid

-- `out.get(key)`
unfoldable pub fetched : Cid → List (Cid × List ℕ) → Option (List ℕ)
fetched c [] = none
fetched c (e ∷ es) = let rest = fetched c es in if same_cid e.0 c then some e.1 else rest

-- `out.has(key)`
unfoldable pub has_fetched : Cid → List (Cid × List ℕ) → Bool
has_fetched c [] = false
has_fetched c (e ∷ es) = same_cid e.0 c || has_fetched c es

-- `out.set(key, bytes)`
unfoldable pub put_fetched : Cid → List ℕ → List (Cid × List ℕ) → List (Cid × List ℕ)
put_fetched c bytes [] = (c, bytes) ∷ []
put_fetched c bytes (e ∷ es) =
    let rest = put_fetched c bytes es in if same_cid e.0 c then (e.0, bytes) ∷ es else e ∷ rest

-- A worker takes the next CID, or its fetch number `k` arrives.
pub data PoolEvent : Type 0 where
  take_next : PoolEvent
  arrive : ℕ → PoolEvent

module _ (cids : List Cid) (get : BlockGetter) (concurrency : ℕ) where
  -- The number of workers.
  abbrev pub workers : ℕ
  workers = min concurrency (length cids)

  -- One event; `none` where it cannot happen. A fetch that fails never arrives.
  unfoldable pub pool_step : PoolEvent → Pool → Option Pool
  pool_step take_next p = elim (get_elem? cids p.next) [
    | none ↦ none
    | some c ↦
        if ltb (length p.flying) workers
        then some (
            if has_fetched c p.out
            then record { next = suc p.next; out = p.out; flying = p.flying }
            else record { next = suc p.next; out = p.out; flying = c ∷ p.flying })
        else none
  ]
  pool_step (arrive k) p = elim (get_elem? p.flying k) [
    | none ↦ none
    | some c ↦ elim (get c) [
      | none ↦ none
      | some bytes ↦ some (record {
        next = p.next;
        out = put_fetched c bytes p.out;
        flying = take k p.flying ++ drop (suc k) p.flying;
      })
    ]
  ]

  unfoldable pub run_pool : List PoolEvent → Pool → Option Pool
  run_pool [] p = some p
  run_pool (e ∷ es) p = elim (pool_step e p) [ none ↦ none | some q ↦ run_pool es q ]

  -- Before the workers start, and when all of them have returned; without workers that is at once.
  abbrev pub pool_start : Pool
  pool_start = record { next = 0; out = []; flying = [] }

  abbrev pub pool_done : Pool → Bool
  pool_done p = (workers == 0) || (leb (length cids) p.next && (length p.flying == 0))
