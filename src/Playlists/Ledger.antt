-- ===== src/Playlists/Ledger.antt =====
-- The class BeaconLedger of packages/playlists-web/src/beacon.ts. Its state is `byHash`, the tables by
-- the hash's hexadecimal digits; an operation returns the next state.
use trackerstream.Common.{
  ℕ, ◌+◌, ◌*◌, ◌/◌, ◌%◌, ◌≤◌, Bool, false, Option, none, some, List, [], ◌∷◌, ltb, if◌then◌else◌,
  length, arith, All, Bool-cases, Option-cases, inl, inr,
}
use trackerstream.Parse.Bytes.{Text, same_text}
use trackerstream.Playlists.Recent.{Table, find, touch, Lacks, Unique, Bounded, touch-Bounded}

-- BEACON_WINDOW_SECS
abbrev pub beacon_window_secs : ℕ
beacon_window_secs = 24 * 60 * 60

-- BEACON_MIN_GAP_SECS
abbrev pub beacon_min_gap_secs : ℕ
beacon_min_gap_secs = 2 * 60

-- BEACON_MAX_ORIGINS
abbrev pub beacon_max_origins : ℕ
beacon_max_origins = 512

abbrev digit : ℕ → ℕ
digit n = if ltb n 10 then 48 + n else 87 + n

-- The key of a hash: two digits for each byte.
unfoldable pub hex : List ℕ → Text
hex [] = []
hex (x ∷ xs) = digit (x / 16) ∷ digit (x % 16) ∷ hex xs

abbrev pub BeaconLedger : Type 0
BeaconLedger = List (Text × Table)

-- `byHash.get(key)`
unfoldable pub origins_of : Text → BeaconLedger → Option Table
origins_of key [] = none
origins_of key (e ∷ es) =
    let rest = origins_of key es in if same_text e.0 key then some e.1 else rest

-- The map of the key changed in place, or set behind the others where there is none.
unfoldable pub set_origins : Text → Table → BeaconLedger → BeaconLedger
set_origins key t [] = (key, t) ∷ []
set_origins key t (e ∷ es) =
    let rest = set_origins key t es in if same_text e.0 key then (e.0, t) ∷ es else e ∷ rest

abbrev pub or_empty : Option Table → Table
or_empty none = []
or_empty (some t) = t

-- `last !== undefined && nowSecs - last < BEACON_MIN_GAP_SECS`
abbrev pub in_gap : Option ℕ → ℕ → Bool
in_gap none now = false
in_gap (some last) now = ltb now (last + beacon_min_gap_secs)

-- One round of `record`. Where the origin was heard too recently its map is there, and nothing changes.
unfoldable pub record_hash : Text → Text → ℕ → BeaconLedger → BeaconLedger
record_hash origin key now ledger =
    let origins = or_empty (origins_of key ledger) in
    if in_gap (find origin origins) now
    then ledger
    else set_origins key (touch beacon_max_origins origin now origins) ledger

-- `record`
unfoldable pub record_hashes : Text → List (List ℕ) → ℕ → BeaconLedger → BeaconLedger
record_hashes origin [] now ledger = ledger
record_hashes origin (h ∷ hs) now ledger =
    record_hashes origin hs now (record_hash origin (hex h) now ledger)

-- `nowSecs - t < BEACON_WINDOW_SECS`
abbrev pub is_fresh : ℕ → ℕ → Bool
is_fresh now t = ltb now (t + beacon_window_secs)

-- The loop of `count`: what is left of the map.
unfoldable pub prune : ℕ → Table → Table
prune now [] = []
prune now (e ∷ es) = let rest = prune now es in if is_fresh now e.1 then e ∷ rest else rest

-- `count`: the entries that are left, counted, and the next state.
unfoldable pub count : Text → ℕ → BeaconLedger → ℕ × BeaconLedger
count key now ledger = elim (origins_of key ledger) [
  | none ↦ (0, ledger)
  | some t ↦ (length (prune now t), set_origins key (prune now t) ledger)
]

-- The states that calls reach from a new ledger.
pub data Reachable : BeaconLedger → Type 0 where
  fresh_ledger : Reachable []
  recorded :
      (origin : Text) (hashes : List (List ℕ)) (now : ℕ) (ledger : BeaconLedger)
      → Reachable ledger
      → Reachable (record_hashes origin hashes now ledger)
  counted :
      (key : Text) (now : ℕ) (ledger : BeaconLedger)
      → Reachable ledger
      → Reachable (count key now ledger).1

-- Every map is in bounds.
abbrev pub Bounds : BeaconLedger → Type 0
Bounds ledger = All (λ e. Bounded beacon_max_origins e.1) ledger

pub origins_of-Bounded :
    (key : Text) (ledger : BeaconLedger)
    → Bounds ledger
    → Bounded beacon_max_origins (or_empty (origins_of key ledger))
unfolding origins_of
origins_of-Bounded key [] b = (omega arith, tt)
origins_of-Bounded key (e ∷ es) (b, bs) = elim (Bool-cases (same_text e.0 key)) [
  | inl same ↦ rw same b
  | inr apart ↦ rw apart (origins_of-Bounded key es bs)
]

set_origins-Bounds :
    (key : Text) (t : Table) (ledger : BeaconLedger)
    → Bounded beacon_max_origins t
    → Bounds ledger
    → Bounds (set_origins key t ledger)
unfolding set_origins
set_origins-Bounds key t [] c b = (c, tt)
set_origins-Bounds key t (e ∷ es) c (b, bs) = elim (Bool-cases (same_text e.0 key)) [
  | inl same ↦ rw same (c, bs)
  | inr apart ↦ rw apart (b, set_origins-Bounds key t es c bs)
]

pub record_hash-Bounds :
    (origin key : Text) (now : ℕ) (ledger : BeaconLedger)
    → Bounds ledger
    → Bounds (record_hash origin key now ledger)
unfolding record_hash
record_hash-Bounds origin key now ledger b =
    let origins : Table = or_empty (origins_of key ledger) in
    elim (Bool-cases (in_gap (find origin origins) now)) [
      | inl soon ↦ rw soon b
      | inr late ↦ rw late (
          set_origins-Bounds key (touch beacon_max_origins origin now origins) ledger
            (touch-Bounded beacon_max_origins origin now origins (omega arith)
              (origins_of-Bounded key ledger b))
            b)
    ]

pub record_hashes-Bounds :
    (origin : Text) (hashes : List (List ℕ)) (now : ℕ) (ledger : BeaconLedger)
    → Bounds ledger
    → Bounds (record_hashes origin hashes now ledger)
unfolding record_hashes
record_hashes-Bounds origin [] now ledger b = b
record_hashes-Bounds origin (h ∷ hs) now ledger b =
    record_hashes-Bounds origin hs now (record_hash origin (hex h) now ledger)
      (record_hash-Bounds origin (hex h) now ledger b)

prune-Lacks : (now : ℕ) (key : Text) (t : Table) → Lacks key t → Lacks key (prune now t)
unfolding prune
prune-Lacks now key [] l = tt
prune-Lacks now key (e ∷ es) (l, ls) = elim (Bool-cases (is_fresh now e.1)) [
  | inl fresh ↦ rw fresh (l, prune-Lacks now key es ls)
  | inr stale ↦ rw stale (prune-Lacks now key es ls)
]

prune-Unique :
    (now : ℕ) (t : Table) → Unique t → (length (prune now t) ≤ length t) × Unique (prune now t)
unfolding prune
prune-Unique now [] u = (omega arith, tt)
prune-Unique now (e ∷ es) (l, u) =
    let (size, u') = prune-Unique now es u in
    elim (Bool-cases (is_fresh now e.1)) [
      | inl fresh ↦ rw fresh (omega (arith, size), (prune-Lacks now e.0 es l, u'))
      | inr stale ↦ rw stale (omega (arith, size), u')
    ]

count-Bounds :
    (key : Text) (now : ℕ) (ledger : BeaconLedger)
    → Bounds ledger
    → ((count key now ledger).0 ≤ beacon_max_origins) × Bounds (count key now ledger).1
unfolding count
count-Bounds key now ledger b = elim (Option-cases (origins_of key ledger)) [
  | inl missing ↦ rw (missing, count) (omega arith, b)
  | inr (t, there) ↦
      let (size, unique) = rw there at (origins_of-Bounded key ledger b) in
      let (less, unique') = prune-Unique now t unique in
      rw (there, count)
        (
          omega (arith, size, less),
          set_origins-Bounds key (prune now t) ledger (omega (arith, size, less), unique') b,
        )
]

pub Reachable-Bounds : (ledger : BeaconLedger) → Reachable ledger → Bounds ledger
Reachable-Bounds [] fresh_ledger = tt
Reachable-Bounds _ (recorded origin hashes now ledger r) =
    record_hashes-Bounds origin hashes now ledger (Reachable-Bounds ledger r)
Reachable-Bounds _ (counted key now ledger r) =
    (count-Bounds key now ledger (Reachable-Bounds ledger r)).1

-- In every ledger that calls reach: each hash's map holds at most 512 origins, and none twice, and so
-- no count is above 512.
pub Reachable-count :
    (ledger : BeaconLedger) (key : Text) (now : ℕ)
    → Reachable ledger
    → Bounds ledger × ((count key now ledger).0 ≤ beacon_max_origins)
Reachable-count ledger key now r =
    let b = Reachable-Bounds ledger r in (b, (count-Bounds key now ledger b).0)
