-- ===== src/Playlists/Wire.antt =====
-- The gossip envelope of packages/playlists-web/src/wire.ts: encodePlaylistMsg and decodePlaylistMsg.
use trackerstream.Common.{
  ℕ, zero, suc, ◌+◌, ◌*◌, Bool, true, false, not, ◌||◌, none, some, List, [], ◌∷◌, ◌++◌, ltb, ◌==◌,
  if◌then◌else◌, length,
}
use trackerstream.Common.Int.{ℤ, pos, negsuc, ◌+ℤ◌}
use trackerstream.Common.Result.{Result, ok, err, ◌>>=◌, ◌>>◌, guard}
use trackerstream.Dag.Reassemble.{subarray_ℤ}
use trackerstream.Playlists.Varint.{int32, or_bits, uvarint, byte_ℤ, below, exceeds}

-- What a decoder throws.
pub data WireFault : Type 0 where
  unknown_wire_version malformed trailing_bytes : WireFault

-- TextEncoder and TextDecoder, on a string's UTF-16 units.
pub record TextCodec : Type 0 where
  pub encode : List ℕ → List ℕ
  pub decode : List ℕ → List ℕ

pub record PlaylistMsg : Type 0 where
  pub name : List ℕ
  pub rec : List ℕ
  pub doc : List ℕ

-- MSG_VERSION
abbrev pub msg_version : ℕ
msg_version = 1

-- NAME_MAX
abbrev pub name_max : ℕ
name_max = 128

-- RECORD_MAX
abbrev pub record_max : ℕ
record_max = 10 * 1024

-- DOC_MAX
abbrev pub doc_max : ℕ
doc_max = 1024 * 1024

-- The loop of readUvarint, on the rounds that are left before `s > 35`. An undefined byte stands for 0.
unfoldable pub read_from : ℕ → List ℕ → ℤ → ℕ → ℕ → Result WireFault (ℤ × ℤ)
read_from zero b i x s = err malformed
read_from (suc rounds) b i x s = elim (below i (length b)) [
  | false ↦ err malformed
  | true ↦ elim (byte_ℤ b i) [
    | none ↦ read_from rounds b (i +ℤ pos 1) x (s + 7)
    | some c ↦
        let more = read_from rounds b (i +ℤ pos 1) (or_bits x c s) (s + 7) in
        if ltb c 128 then ok (int32 (or_bits x c s), i +ℤ pos 1) else more
  ]
]

-- Shifts of 0, 7, up to 35.
unfoldable pub read_uvarint : List ℕ → ℤ → Result WireFault (ℤ × ℤ)
read_uvarint b at = read_from 6 b at 0 0

-- `frame(max)`: the part, and the next `at`.
unfoldable pub frame : List ℕ → ℕ → ℤ → Result WireFault (List ℕ × ℤ)
frame b most at = do
  (len, next) ← read_uvarint b at
  guard (not (exceeds len most || exceeds (next +ℤ len) (length b))) malformed
  ok (subarray_ℤ b next (next +ℤ len), next +ℤ len)

abbrev pub is_at : ℤ → ℕ → Bool
is_at (pos i) n = i == n
is_at (negsuc i) n = false

-- A part behind its length.
unfoldable pub framed : List ℕ → List ℕ
framed p = uvarint (length p) ++ p

module _ (T : TextCodec) where
  unfoldable pub encode_playlist_msg : List ℕ → List ℕ → List ℕ → List ℕ
  encode_playlist_msg name rec doc =
      msg_version ∷ (framed (T.encode name) ++ (framed rec ++ framed doc))

  -- Behind the version byte.
  unfoldable pub decode_frames : List ℕ → Result WireFault PlaylistMsg
  decode_frames b = do
    (nb, at) ← frame b name_max (pos 1)
    (rec, at') ← frame b record_max at
    (doc, at'') ← frame b doc_max at'
    guard (is_at at'' (length b)) trailing_bytes
    ok (record { name = T.decode nb; rec = rec; doc = doc })

  unfoldable pub decode_playlist_msg : List ℕ → Result WireFault PlaylistMsg
  decode_playlist_msg [] = err unknown_wire_version
  decode_playlist_msg (version ∷ b) =
      if not (version == msg_version) then err unknown_wire_version else decode_frames (version ∷ b)
