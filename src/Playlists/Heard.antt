-- ===== src/Playlists/Heard.antt =====
-- What `record` of packages/playlists-web/src/beacon.ts heard, `count` counts.
use mathlib.Core.Path.{subst}
use trackerstream.Common.{
  ℕ, ◌+◌, ◌≤◌, ◌≡◌, refl, ap, ◌∙◌, true, false, some, List, [], ◌∷◌, ◌++◌, ltb, if◌then◌else◌,
  length, arith, Bool-cases, Option-cases, inl, inr,
}
use trackerstream.Parse.Bytes.{Text, same_text}
use trackerstream.Dag.Holds.{same_text_self, same_text-eq}
use trackerstream.Playlists.Recent.{Table, find, touch, find-touch_self}
use trackerstream.Playlists.Ledger.{
  beacon_window_secs, beacon_min_gap_secs, beacon_max_origins, hex, BeaconLedger, origins_of,
  set_origins, or_empty, in_gap, record_hash, record_hashes, is_fresh, prune, count, Reachable,
  Bounds, record_hash-Bounds, Reachable-Bounds, origins_of-Bounded,
}

-- The origin's entry still counts at the time.
Heard : Text → ℕ → Table → Type 0
Heard origin later t = (last : ℕ) × (find origin t ≡ some last) × (is_fresh later last ≡ true)

not-Heard : (origin : Text) (later : ℕ) → Heard origin later [] → ⊥
unfolding Heard find
not-Heard origin later (last, found, fresh) = cc

prune-Heard :
    (origin : Text) (later : ℕ) (t : Table) → Heard origin later t → 1 ≤ length (prune later t)
unfolding Heard find prune
prune-Heard origin later [] (last, found, fresh) = cc
prune-Heard origin later (e ∷ es) (last, found, fresh) = elim (Bool-cases (is_fresh later e.1)) [
  | inl kept ↦ rw kept (omega arith)
  | inr stale ↦ elim (Bool-cases (same_text e.0 origin)) [
    | inl same ↦
        let own : e.1 ≡ last = cc (rw (same, find) at found) in
        cc (ap (is_fresh later) own, stale, fresh)
    | inr apart ↦ rw stale (prune-Heard origin later es (last, rw (apart, find) at found, fresh))
  ]
]

origins_of-set_origins :
    (key : Text) (t : Table) (ledger : BeaconLedger)
    → origins_of key (set_origins key t ledger) ≡ some t
unfolding origins_of set_origins
origins_of-set_origins key t [] = rw (same_text_self key) refl
origins_of-set_origins key t (e ∷ es) = elim (Bool-cases (same_text e.0 key)) [
  | inl same ↦ rw (same, same) refl
  | inr apart ↦ rw (apart, apart) (origins_of-set_origins key t es)
]

origins_of-set_other :
    (key other : Text) (t : Table) (ledger : BeaconLedger)
    → same_text key other ≡ false
    → origins_of other (set_origins key t ledger) ≡ origins_of other ledger
unfolding origins_of set_origins
origins_of-set_other key other t [] h = rw h refl
origins_of-set_other key other t (e ∷ es) h = elim (Bool-cases (same_text e.0 key)) [
  | inl same ↦
      let miss : same_text e.0 other ≡ false =
        ap (λ k. same_text k other) (same_text-eq e.0 key same) ∙ h in
      rw (same, miss) refl
  | inr apart ↦ rw apart (
      ap (λ r. if same_text e.0 other then some e.1 else r) (origins_of-set_other key other t es h))
]

module _ (origin : Text) (now later : ℕ)
    (soon_enough : later + beacon_min_gap_secs ≤ now + beacon_window_secs) where
  record_hash-Heard :
      (key : Text) (ledger : BeaconLedger)
      → Bounds ledger
      → Heard origin later (or_empty (origins_of key (record_hash origin key now ledger)))
  unfolding record_hash Heard
  record_hash-Heard key ledger b =
      let origins : Table = or_empty (origins_of key ledger) in
      let placed : Table = touch beacon_max_origins origin now origins in
      elim (Bool-cases (in_gap (find origin origins) now)) [
        | inl soon ↦ elim (Option-cases (find origin origins)) [
          | inl never ↦ cc (rw never at soon)
          | inr (last, found) ↦
              let recent : ltb now (last + beacon_min_gap_secs) ≡ true = rw found at soon in
              rw soon (last, found, ground arith)
        ]
        | inr late ↦
            rw (late, origins_of-set_origins key placed ledger)
              (
                now,
                find-touch_self beacon_max_origins origin now origins
                    (origins_of-Bounded key ledger b).1,
                ground arith,
              )
      ]

  record_hash_other :
      (key other : Text) (ledger : BeaconLedger)
      → same_text key other ≡ false
      → origins_of other (record_hash origin key now ledger) ≡ origins_of other ledger
  unfolding record_hash
  record_hash_other key other ledger h =
      let origins : Table = or_empty (origins_of key ledger) in
      elim (Bool-cases (in_gap (find origin origins) now)) [
        | inl soon ↦ rw soon refl
        | inr late ↦
            rw late (
              origins_of-set_other key other (touch beacon_max_origins origin now origins) ledger h)
      ]

  record_hashes_after :
      (key : Text) (hashes : List (List ℕ)) (ledger : BeaconLedger)
      → Bounds ledger
      → Heard origin later (or_empty (origins_of key ledger))
      → Heard origin later (or_empty (origins_of key (record_hashes origin hashes now ledger)))
  unfolding record_hashes
  record_hashes_after key [] ledger b h = h
  record_hashes_after key (x ∷ hashes) ledger b h =
      record_hashes_after key hashes (record_hash origin (hex x) now ledger)
        (record_hash-Bounds origin (hex x) now ledger b)
        (elim (Bool-cases (same_text (hex x) key)) [
          | inl same ↦
              ap_heard key (hex x) (record_hash origin (hex x) now ledger)
                (same_text-eq (hex x) key same) (record_hash-Heard (hex x) ledger b)
          | inr apart ↦ rw (record_hash_other (hex x) key ledger apart) h
        ])
    where
      ap_heard :
          (key other : Text) (ledger : BeaconLedger)
          → other ≡ key
          → Heard origin later (or_empty (origins_of other ledger))
          → Heard origin later (or_empty (origins_of key ledger))
      ap_heard key other ledger e h =
          subst (λ k. Heard origin later (or_empty (origins_of k ledger))) e h

  record_hashes-Heard :
      (before after : List (List ℕ)) (h : List ℕ) (ledger : BeaconLedger)
      → Bounds ledger
      → Heard origin later
          (or_empty (origins_of (hex h) (record_hashes origin (before ++ (h ∷ after)) now ledger)))
  unfolding record_hashes
  record_hashes-Heard [] after h ledger b =
      record_hashes_after (hex h) after (record_hash origin (hex h) now ledger)
        (record_hash-Bounds origin (hex h) now ledger b) (record_hash-Heard (hex h) ledger b)
  record_hashes-Heard (x ∷ before) after h ledger b =
      record_hashes-Heard before after h (record_hash origin (hex x) now ledger)
        (record_hash-Bounds origin (hex x) now ledger b)

-- In every ledger that calls reach, whichever origins its full tables drop: after a beacon of an origin
-- was recorded, the count of each of its hashes is at least 1, from then until 2 minutes before the
-- 24 hours are over.
pub record_hashes-count :
    (origin : Text) (before after : List (List ℕ)) (h : List ℕ) (now later : ℕ)
    (ledger : BeaconLedger)
    → Reachable ledger
    → later + beacon_min_gap_secs ≤ now + beacon_window_secs
    → 1 ≤ (count (hex h) later (record_hashes origin (before ++ (h ∷ after)) now ledger)).0
unfolding count
record_hashes-count origin before after h now later ledger r enough =
    let next : BeaconLedger = record_hashes origin (before ++ (h ∷ after)) now ledger in
    let heard =
      record_hashes-Heard origin now later enough before after h ledger
        (Reachable-Bounds ledger r) in
    elim (Option-cases (origins_of (hex h) next)) [
      | inl missing ↦ absurd (not-Heard origin later (rw missing at heard))
      | inr (t, there) ↦ rw (there, count) (prune-Heard origin later t (rw there at heard))
    ]
