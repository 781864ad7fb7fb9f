-- ===== src/Dag/Store.antt =====
-- Blocks, content identifiers and verified fetches of packages/repack/src/dag.ts.
-- The hash and the block codec are packages that the source imports: parameters, in `Ipld`.
use trackerstream.Common.{
  ℕ, ◌&&◌, Bool, Option, none, some, List, [], ◌∷◌, ◌++◌, ◌==◌, if◌then◌else◌, length,
}
use trackerstream.Common.Result.{Result, ok, ◌>>=◌, ◌>>◌, guard, or_throw}
use trackerstream.Parse.Bytes.{same_text}

-- What a build or a reassembly throws. `endless` is no exception of the source: the chunker runs
-- for ever, as it does when its largest chunk is 0 bytes long, or a build calls itself without an end.
pub data Fault : Type 0 where
  fetch_failed tampered wrong_length bad_encoding out_of_range unparseable endless : Fault
  has_compressed wrong_version : Fault

-- A CID: its codec and the digest of its multihash. `toString` tells CIDs apart by just these.
pub record Cid : Type 0 where
  pub codec : ℕ
  pub digest : List ℕ

pub record Block : Type 0 where
  pub cid : Cid
  pub bytes : List ℕ

abbrev pub raw_code : ℕ
raw_code = 0x55

abbrev pub dag_cbor_code : ℕ
dag_cbor_code = 0x71

unfoldable pub same_cid : Cid → Cid → Bool
same_cid a b = a.codec == b.codec && same_text a.digest b.digest

-- `get(cid)`: `none` where the promise is rejected.
abbrev pub BlockGetter : Type 0
BlockGetter = Cid → Option (List ℕ)

-- `byCid.get(cid.toString())` over the map's entries in insertion order.
unfoldable pub lookup_block : List Block → BlockGetter
lookup_block [] c = none
lookup_block (b ∷ bs) c = if same_cid b.cid c then some b.bytes else lookup_block bs c

-- `add`: a block whose CID is there already is not stored again.
unfoldable pub add_block : Block → List Block → List Block
add_block b bs = elim (lookup_block bs b.cid) [ none ↦ bs ++ (b ∷ []) | some _ ↦ bs ]

module _ (sha256 : List ℕ → List ℕ) where
  unfoldable pub make_block : ℕ → List ℕ → Block
  make_block codec bytes = record {
    cid = record { codec = codec; digest = sha256 bytes };
    bytes = bytes;
  }

  unfoldable pub raw_block : List ℕ → Block
  raw_block bytes = make_block raw_code bytes

  -- verifyBlock: the lengths of the digests, then their bytes.
  unfoldable pub verify_block : Cid → List ℕ → Result Fault (Unit {0})
  verify_block cid bytes = do
    guard (length (sha256 bytes) == length cid.digest) wrong_length
    guard (same_text (sha256 bytes) cid.digest) tampered

  unfoldable pub fetch_verified : Cid → BlockGetter → Bool → Result Fault (List ℕ)
  fetch_verified cid get verify = do
    bytes ← or_throw (get cid) fetch_failed
    if verify then verify_block cid bytes else ok tt
    ok bytes
