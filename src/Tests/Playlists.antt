-- ===== src/Tests/Playlists.antt =====
-- The theorems on packages/playlists-web at small messages, and a length that is read as negative.
use trackerstream.Common.{
  ℕ, ◌≤◌, ◌<◌, ◌≡◌, ◌≢◌, refl, true, none, some, List, [], ◌∷◌, ◌++◌, length, replicate, get_elem?,
  arith, All, ◌⊎◌,
}
use trackerstream.Common.Int.{◌+ℤ◌}
use trackerstream.Common.Result.{Result, ok, err}
use trackerstream.Parse.Bytes.{codes, same_text}
use trackerstream.Playlists.Varint.{or_bits}
use trackerstream.Playlists.Wire.{
  TextCodec, PlaylistMsg, unknown_wire_version, msg_version, read_from, read_uvarint, frame,
  encode_playlist_msg, decode_frames, decode_playlist_msg,
}
use trackerstream.Playlists.Envelope.{
  decode_playlist_msg-encode_playlist_msg, decode_playlist_msg-unknown_wire_version,
}
use trackerstream.Playlists.Link.{
  too_many_arguments, encode_envelope, decode_envelope, decode_envelope-encode_envelope,
}
use trackerstream.Playlists.Recent.{Bounded}
use trackerstream.Playlists.Distinct.{member}
use trackerstream.Playlists.Cooldown.{
  cooldown_table_max, allow_all, ideal, allow_all-Bounded, allow_all-ideal,
}
use trackerstream.Playlists.Beacon.{encode_beacon, decode_beacon, read_count, hashes_at}
use trackerstream.Playlists.Hashes.{Eight, decode_beacon-encode_beacon, decode_beacon-Eight}
use trackerstream.Playlists.Ledger.{
  hex, count, beacon_max_origins, record_hashes, Reachable, fresh_ledger, recorded, Bounds,
  Reachable-count,
}
use trackerstream.Playlists.Heard.{record_hashes-count}

-- Texts of one byte a unit.
abbrev plain : TextCodec
plain = record { encode = λ s. s; decode = λ b. b }

abbrev name : List ℕ
name = codes "k51q"

decode_playlist_msg-encode_playlist_msg_example :
    decode_playlist_msg plain (encode_playlist_msg plain name (1 ∷ 2 ∷ []) (3 ∷ 4 ∷ 5 ∷ []))
    ≡ ok (record { name = name; rec = 1 ∷ 2 ∷ []; doc = 3 ∷ 4 ∷ 5 ∷ [] })
decode_playlist_msg-encode_playlist_msg_example =
    decode_playlist_msg-encode_playlist_msg plain name (1 ∷ 2 ∷ []) (3 ∷ 4 ∷ 5 ∷ []) refl
      (omega arith) (omega arith) (omega arith)

decode_playlist_msg-unknown_wire_version_example :
    ((get_elem? (2 ∷ 0 ∷ []) 0 ≡ some msg_version)
      × (decode_playlist_msg plain (2 ∷ 0 ∷ []) ≢ err unknown_wire_version))
    ⊎ ((get_elem? (2 ∷ 0 ∷ []) 0 ≢ some msg_version)
        × (decode_playlist_msg plain (2 ∷ 0 ∷ []) ≡ err unknown_wire_version))
decode_playlist_msg-unknown_wire_version_example =
    decode_playlist_msg-unknown_wire_version plain (2 ∷ 0 ∷ [])

-- A name's length of -7 in five bytes: the name is 143 bytes long, which its bound of 128 forbids, and
-- the record is read from the start of the message again.
abbrev hostile : List ℕ
hostile = 1 ∷ 249 ∷ 255 ∷ 255 ∷ 255 ∷ 15 ∷ (replicate 123 7 ++ (20 ∷ replicate 20 9))

abbrev name_length : {Fault : Type 0} → Result Fault PlaylistMsg → ℕ
name_length (ok m) = length m.name
name_length (err e) = 0

negative_length : name_length (decode_playlist_msg plain hostile) ≡ 143
unfolding decode_playlist_msg decode_frames frame read_uvarint read_from or_bits ◌+ℤ◌
negative_length = refl

decode_envelope-encode_envelope_example :
    ((b : List ℕ) × (encode_envelope plain 65535 name (1 ∷ []) (3 ∷ 4 ∷ []) ≡ ok b)
      × (decode_envelope plain b ≡ ok (record { name = name; rec = 1 ∷ []; doc = 3 ∷ 4 ∷ [] })))
    ⊎ ((encode_envelope plain 65535 name (1 ∷ []) (3 ∷ 4 ∷ []) ≡ err too_many_arguments)
        × ((65535 < length name)
            ⊎ ((65535 < length {A = ℕ} (1 ∷ [])) ⊎ (65535 < length {A = ℕ} (3 ∷ 4 ∷ [])))))
decode_envelope-encode_envelope_example =
    decode_envelope-encode_envelope plain 65535 name (1 ∷ []) (3 ∷ 4 ∷ []) refl (omega arith)
      (omega arith) (omega arith)

abbrev calls : List (List ℕ × ℕ)
calls = (name, 100) ∷ (codes "other", 101) ∷ (name, 129) ∷ (name, 130) ∷ []

allow_all-Bounded_example : Bounded cooldown_table_max (allow_all calls []).1
allow_all-Bounded_example = allow_all-Bounded calls

calls_named : All (λ c. member c.0 (name ∷ codes "other" ∷ []) ≡ true) calls
unfolding same_text
calls_named = (refl, (refl, (refl, (refl, tt))))

allow_all-ideal_example : (allow_all calls []).0 ≡ ideal calls (λ n. none)
allow_all-ideal_example =
    allow_all-ideal (name ∷ codes "other" ∷ []) calls (omega arith) calls_named

abbrev hashes : List (List ℕ)
hashes = replicate 8 17 ∷ (1 ∷ 2 ∷ 3 ∷ 4 ∷ 5 ∷ 6 ∷ 7 ∷ 255 ∷ []) ∷ []

hashes-Eight : Eight hashes
hashes-Eight = (refl, (refl, tt))

decode_beacon-encode_beacon_example :
    (bytes : List ℕ) × (encode_beacon hashes ≡ ok bytes) × (decode_beacon bytes ≡ ok hashes)
decode_beacon-encode_beacon_example = decode_beacon-encode_beacon hashes hashes-Eight (omega arith)

abbrev one_hash : List ℕ
one_hash = 1 ∷ 1 ∷ replicate 8 17

one_hash_read : decode_beacon one_hash ≡ ok (replicate 8 17 ∷ [])
unfolding decode_beacon read_count hashes_at or_bits
one_hash_read = refl

decode_beacon-Eight_example : (1 ≤ 4096) × Eight (replicate 8 17 ∷ []) × (8 < 10)
decode_beacon-Eight_example = decode_beacon-Eight one_hash (replicate 8 17 ∷ []) one_hash_read

abbrev one_hash_ledger : List (List ℕ × List (List ℕ × ℕ))
one_hash_ledger = record_hashes (codes "peer") hashes 1000 []

heard_one : Reachable one_hash_ledger
heard_one = recorded (codes "peer") hashes 1000 [] fresh_ledger

Reachable-count_example :
    Bounds one_hash_ledger
    × ((count (hex (replicate 8 17)) 1001 one_hash_ledger).0 ≤ beacon_max_origins)
Reachable-count_example = Reachable-count one_hash_ledger (hex (replicate 8 17)) 1001 heard_one

record_hashes-count_example :
    1
    ≤ (count
        (hex (replicate 8 17))
        80000
        (record_hashes (codes "peer") hashes 1050 one_hash_ledger)).0
record_hashes-count_example =
    record_hashes-count (codes "peer") [] ((1 ∷ 2 ∷ 3 ∷ 4 ∷ 5 ∷ 6 ∷ 7 ∷ 255 ∷ []) ∷ [])
      (replicate 8 17) 1050 80000 one_hash_ledger heard_one (omega arith)
