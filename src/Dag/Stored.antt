-- ===== src/Dag/Stored.antt =====
-- What a build stores: after chunkToCids and the sample loop the block map serves every piece.
use mathlib.Core.List.{flatten}
use trackerstream.Common.{ℕ, ◌+◌, ◌<◌, ◌≡◌, refl, some, List, [], ◌∷◌}
use trackerstream.Common.Result.{ok}
use trackerstream.Cdc.{CdcConfig}
use trackerstream.Cdc.Tiling.{cdc_chunks-tile}
use trackerstream.Parse.Bytes.{SampleRegion}
use trackerstream.Dag.Store.{
  Cid, Block, BlockGetter, lookup_block, add_block, make_block, raw_block, dag_cbor_code,
}
use trackerstream.Dag.Build.{
  subarray, SampleEntry, PcmRoot, Manifest, Ipld, Draft, add_chunks, chunk_to_cids, add_samples,
}
use trackerstream.Dag.Holds.{
  Grows, Certified, Serves, Holds, add_block-Certified, add_block-lookup, add_block-Grows,
  Holds-Grows,
}

-- What the development asks of the packages: dag-cbor decodes what it encoded, and SHA-256 is
-- collision free, which is put as injectivity.
pub record IpldLaws (I : Ipld) : Type 0 where
  pub sha256_injective : (a b : List ℕ) → I.sha256 a ≡ I.sha256 b → a ≡ b
  pub manifest_back : (m : Manifest) → I.decode_manifest (I.encode_manifest m) ≡ some m
  pub pcm_root_back : (r : PcmRoot) → I.decode_pcm_root (I.encode_pcm_root r) ≡ some r

module _ (I : Ipld) (laws : IpldLaws I) where
  make_block-digest :
      (codec : ℕ) (x : List ℕ)
      → (make_block I.sha256 codec x).cid.digest ≡ I.sha256 (make_block I.sha256 codec x).bytes
  unfolding make_block
  make_block-digest codec x = refl

  make_block-bytes : (codec : ℕ) (x : List ℕ) → (make_block I.sha256 codec x).bytes ≡ x
  unfolding make_block
  make_block-bytes codec x = refl

  -- A block that was added is served, and the map stays certified and grows.
  pub record Added (codec : ℕ) (x : List ℕ) (bs : List Block) : Type 0 where
    pub certified : Certified I.sha256 (add_block (make_block I.sha256 codec x) bs)
    pub grows : Grows bs (add_block (make_block I.sha256 codec x) bs)
    pub serves :
        Serves I.sha256
          (lookup_block (add_block (make_block I.sha256 codec x) bs))
          (make_block I.sha256 codec x).cid
          x

  pub add_block-Added :
      (codec : ℕ) (x : List ℕ) (bs : List Block) → Certified I.sha256 bs → Added codec x bs
  unfolding make_block
  add_block-Added codec x bs c = record {
    certified =
        add_block-Certified I.sha256 laws.sha256_injective (make_block I.sha256 codec x) bs refl c;
    grows = add_block-Grows (make_block I.sha256 codec x) bs;
    serves = (
      add_block-lookup I.sha256 laws.sha256_injective (make_block I.sha256 codec x) bs refl c,
      refl,
    );
  }

  -- The outcome of storing a list of parts.
  pub record Stored (before : List Block) (cids : List Cid) (parts : List (List ℕ))
      (after : List Block) : Type 0 where
    pub certified : Certified I.sha256 after
    pub grows : Grows before after
    pub holds : Holds I.sha256 (lookup_block after) cids parts

  add_chunks-Stored :
      (cs : List (List ℕ)) (d : Draft)
      → Certified I.sha256 d.blocks
      → Stored d.blocks (add_chunks I cs d).0 cs (add_chunks I cs d).1.blocks
  unfolding add_chunks raw_block
  add_chunks-Stored [] d c = record { certified = c; grows = λ k x e. e; holds = tt }
  add_chunks-Stored (x ∷ cs) d c =
      let added = add_block-Added 0x55 x d.blocks c in
      let next : Draft = record {
        blocks = add_block (make_block I.sha256 0x55 x) d.blocks;
        num_chunks = d.num_chunks + 1;
      } in
      let rest = add_chunks-Stored cs next added.certified in
      record {
        certified = rest.certified;
        grows = λ k y e. rest.grows k y (added.grows k y e);
        holds = ((rest.grows _ x added.serves.0, added.serves.1), rest.holds);
      }

  pub chunk_to_cids-Stored :
      (cdc : CdcConfig) (buf : List ℕ) (d : Draft)
      → cdc.min_size < cdc.max_size
      → Certified I.sha256 d.blocks
      → (cids : List Cid) × (d' : Draft) × (parts : List (List ℕ)) × (chunk_to_cids I cdc buf d
          ≡ ok (cids, d'))
        × Stored d.blocks cids parts d'.blocks
        × (flatten parts ≡ buf)
  unfolding chunk_to_cids
  chunk_to_cids-Stored cdc buf d wide c =
      let (cs, run, tiles, _) = cdc_chunks-tile cdc buf wide in
      ((add_chunks I cs d).0, (add_chunks I cs d).1, cs, rw run, add_chunks-Stored cs d c, tiles)

  -- A sample's root is served, and its chunks put together are the region's bytes.
  pub record SampleHeld (get : BlockGetter) (file : List ℕ) (r : SampleRegion) (s : SampleEntry)
      : Type 0 where
    pub chunks : List Cid
    pub parts : List (List ℕ)
    pub offset_kept : s.offset ≡ r.offset
    pub length_kept : s.length ≡ r.length
    pub root :
        Serves I.sha256 get s.pcm_root
          (I.encode_pcm_root (record { chunks = chunks; length = r.length }))
    pub holds : Holds I.sha256 get chunks parts
    pub tiles : flatten parts ≡ subarray file r.offset (r.offset + r.length)

  abbrev pub SamplesHeld : BlockGetter → List ℕ → List SampleRegion → List SampleEntry → Type 0
  SamplesHeld get file [] [] = Unit {0}
  SamplesHeld get file [] (s ∷ ss) = ⊥
  SamplesHeld get file (r ∷ rs) [] = ⊥
  SamplesHeld get file (r ∷ rs) (s ∷ ss) = SampleHeld get file r s × SamplesHeld get file rs ss

  pub SamplesHeld-Grows :
      (bs cs : List Block) (file : List ℕ) (rs : List SampleRegion) (ss : List SampleEntry)
      → Grows bs cs
      → SamplesHeld (lookup_block bs) file rs ss
      → SamplesHeld (lookup_block cs) file rs ss
  SamplesHeld-Grows bs cs file [] [] g h = tt
  SamplesHeld-Grows bs cs file [] (s ∷ ss) g h = h
  SamplesHeld-Grows bs cs file (r ∷ rs) [] g h = h
  SamplesHeld-Grows bs cs file (r ∷ rs) (s ∷ ss) g (h, hs) = (
    record {
      chunks = h.chunks;
      parts = h.parts;
      offset_kept = h.offset_kept;
      length_kept = h.length_kept;
      root = (g _ _ h.root.0, h.root.1);
      holds = Holds-Grows I.sha256 bs cs h.chunks h.parts g h.holds;
      tiles = h.tiles;
    },
    SamplesHeld-Grows bs cs file rs ss g hs,
  )

  -- The outcome of the sample loop.
  pub record SamplesStored (cdc : CdcConfig) (file : List ℕ) (rs : List SampleRegion) (d : Draft)
      : Type 0 where
    pub samples : List SampleEntry
    pub after : Draft
    pub run : add_samples I cdc file rs d ≡ ok (samples, after)
    pub certified : Certified I.sha256 after.blocks
    pub grows : Grows d.blocks after.blocks
    pub held : SamplesHeld (lookup_block after.blocks) file rs samples

  pub add_samples-Stored :
      (cdc : CdcConfig) (file : List ℕ) (rs : List SampleRegion) (d : Draft)
      → cdc.min_size < cdc.max_size
      → Certified I.sha256 d.blocks
      → SamplesStored cdc file rs d
  unfolding add_samples
  add_samples-Stored cdc file [] d wide c = record {
    samples = [];
    after = d;
    run = refl;
    certified = c;
    grows = λ k x e. e;
    held = tt;
  }
  add_samples-Stored cdc file (r ∷ rs) d wide c =
      let (cids, d', parts, run, stored, tiles) =
        chunk_to_cids-Stored cdc (subarray file r.offset (r.offset + r.length)) d wide c in
      let node : List ℕ = I.encode_pcm_root (record { chunks = cids; length = r.length }) in
      let added = add_block-Added dag_cbor_code node d'.blocks stored.certified in
      let next : Draft = record d' {
        blocks = add_block (make_block I.sha256 dag_cbor_code node) d'.blocks;
      } in
      let rest = add_samples-Stored cdc file rs next wide added.certified in
      let grown : Grows d'.blocks rest.after.blocks = λ k x e. rest.grows k x (added.grows k x e) in
      record {
        samples =
            record {
              offset = r.offset;
              length = r.length;
              pcm_root = (make_block I.sha256 dag_cbor_code node).cid;
            }
            ∷ rest.samples;
        after = rest.after;
        run = rw (run, rest.run);
        certified = rest.certified;
        grows = λ k x e. grown k x (stored.grows k x e);
        held = (
          record {
            chunks = cids;
            parts = parts;
            offset_kept = refl;
            length_kept = refl;
            root = (rest.grows _ node added.serves.0, added.serves.1);
            holds = Holds-Grows I.sha256 d'.blocks rest.after.blocks cids parts grown stored.holds;
            tiles = tiles;
          },
          rest.held,
        );
      }
