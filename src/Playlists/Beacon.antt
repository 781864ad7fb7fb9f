-- ===== src/Playlists/Beacon.antt =====
-- Hold beacons in packages/playlists-web/src/beacon.ts: encodeBeacon and decodeBeacon.
use trackerstream.Common.{
  ℕ, zero, suc, ◌+◌, ◌*◌, ◌/◌, ◌%◌, none, some, List, [], ◌∷◌, ◌++◌, leb, ◌==◌, if◌then◌else◌,
  length, replicate, get_elem?,
}
use trackerstream.Common.Result.{Result, ok, err, ◌>>=◌, ◌>>◌, guard}
use trackerstream.Dag.Store.{Fault}
use trackerstream.Dag.Build.{subarray, set_range}
use trackerstream.Playlists.Varint.{or_bits, uvarint}

-- BEACON_VERSION
abbrev pub beacon_version : ℕ
beacon_version = 1

-- What decodeBeacon throws.
pub data BeaconFault : Type 0 where
  empty unknown_beacon_version truncated_length length_overflow too_many_hashes body_mismatch :
      BeaconFault

-- `hashes.forEach`: eight bytes for each; a write past the end throws.
unfoldable pub write_hashes : List (List ℕ) → ℕ → List ℕ → Result Fault (List ℕ)
write_hashes [] at out = ok out
write_hashes (h ∷ hs) at out = do out' ← set_range out h at; write_hashes hs (at + 8) out'

unfoldable pub encode_beacon : List (List ℕ) → Result Fault (List ℕ)
encode_beacon hashes = do
  let head = beacon_version ∷ uvarint (length hashes)
  write_hashes hashes (length head) (head ++ replicate (length hashes * 8) 0)

-- The loop that reads the count, on the rounds that are left before `shift > 28`: the count's 32 bits
-- and the next index.
unfoldable pub read_count : ℕ → List ℕ → ℕ → ℕ → ℕ → Result BeaconFault (ℕ × ℕ)
read_count zero b i n shift = err length_overflow
read_count (suc rounds) b i n shift = elim (get_elem? b i) [
  | none ↦ err truncated_length
  | some c ↦
      let more = read_count rounds b (i + 1) (or_bits n c shift) (shift + 7) in
      if c / 128 % 2 == 0 then ok (or_bits n c shift, i + 1) else more
]

-- The last loop: eight bytes for each hash.
unfoldable pub hashes_at : ℕ → List ℕ → ℕ → List (List ℕ)
hashes_at zero b at = []
hashes_at (suc n) b at = subarray b at (at + 8) ∷ hashes_at n b (at + 8)

unfoldable pub decode_beacon : List ℕ → Result BeaconFault (List (List ℕ))
decode_beacon [] = err empty
decode_beacon (version ∷ b) = do
  guard (version == beacon_version) unknown_beacon_version
  (n, i) ← read_count 5 (version ∷ b) 1 0 0
  guard (leb n 4096) too_many_hashes
  guard (length (version ∷ b) == i + n * 8) body_mismatch
  ok (hashes_at n (version ∷ b) i)
