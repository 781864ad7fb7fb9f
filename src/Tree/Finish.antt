-- ===== src/Tree/Finish.antt =====
-- The sample table and the end of buildDagV2 in packages/repack/src/dag.ts, as fetchV2 sees them.
use trackerstream.Common.{
  ◌<◌, ◌≡◌, refl, ◌∙◌, Bool, true, false, none, some, List, [], ◌∷◌, ltb, length, Bool-cases, inl,
  inr,
}
use trackerstream.Common.Result.{ok}
use trackerstream.Cdc.{CdcConfig}
use trackerstream.Dag.Store.{
  Cid, Block, BlockGetter, lookup_block, dag_cbor_code, add_block, make_block,
}
use trackerstream.Dag.Build.{Draft}
use trackerstream.Dag.Reassemble.{concat_parts}
use trackerstream.Dag.Holds.{Grows, Certified, Serves, Holds-Grows, fetch_verified-Serves}
use trackerstream.Dag.Stored.{IpldLaws, add_block-Added, chunk_to_cids-Stored}
use trackerstream.Dag.Rebuild.{fetch_parts-Holds, concat_parts-flatten}
use trackerstream.Tree.Model.{TreeStats}
use trackerstream.Tree.Build.{index_spill_bytes}
use trackerstream.Tree.Candidates.{SampleV2, IndexV2, ManifestV2, BuiltV2, NormalIpld, Candidate}
use trackerstream.Tree.Normal.{add_table, end_v2, finish_v2}
use trackerstream.Tree.Fetch.{FetchedSample, index_v2, fetch_samples}

-- What the development asks of dag-cbor and of the hash, for this version's blocks.
pub record NormalLaws (T : NormalIpld) : Type 0 where
  pub base : IpldLaws T.base
  pub manifest_back : (m : ManifestV2) → T.decode_manifest (T.encode_manifest m) ≡ some m
  pub index_back : (i : IndexV2) → T.decode_index (T.encode_index i) ≡ some i

-- A client's samples: the decoded PCM of each streamed slot, with the slot's layout.
pub fetched_of : List Candidate → List FetchedSample
fetched_of [] = []
fetched_of (c ∷ cs) =
    record {
      index = c.slot.index;
      frames = c.dump.frames;
      channels = c.slot.channels;
      bit_depth = c.slot.bit_depth;
      pcm = c.dump.pcm;
    }
    ∷ fetched_of cs

module _ (T : NormalIpld) (laws : NormalLaws T) (verify : Bool) where
  -- The sample table of a build, and what is fetched over every map that holds its blocks.
  pub record TableKept (cdc : CdcConfig) (cs : List Candidate) (d : Draft) : Type 0 where
    pub samples : List SampleV2
    pub after : Draft
    pub run : add_table T cdc cs d ≡ ok (samples, after)
    pub certified : Certified T.base.sha256 after.blocks
    pub grows : Grows d.blocks after.blocks
    pub fetched :
        (bs : List Block)
        → Grows after.blocks bs
        → fetch_samples T (lookup_block bs) verify samples ≡ ok (fetched_of cs)

  pub add_table-TableKept :
      (cdc : CdcConfig) (cs : List Candidate) (d : Draft)
      → cdc.min_size < cdc.max_size
      → Certified T.base.sha256 d.blocks
      → TableKept cdc cs d
  unfolding add_table fetch_samples fetched_of
  add_table-TableKept cdc [] d wide c = record {
    samples = [];
    after = d;
    run = refl;
    certified = c;
    grows = λ k x e. e;
    fetched = λ bs g. refl;
  }
  add_table-TableKept cdc (s ∷ cs) d wide c =
      let (chunks, d', parts, run, stored, tiles) =
        chunk_to_cids-Stored T.base laws.base cdc s.dump.pcm d wide c in
      let rest = add_table-TableKept cdc cs d' wide stored.certified in
      let bytes : concat_parts parts ≡ s.dump.pcm = concat_parts-flatten parts ∙ tiles in
      record {
        samples =
            record {
              index = s.slot.index;
              frames = s.dump.frames;
              channels = s.slot.channels;
              bit_depth = s.slot.bit_depth;
              chunks = chunks;
            }
            ∷ rest.samples;
        after = rest.after;
        run = rw (run, rest.run);
        certified = rest.certified;
        grows = λ k x e. rest.grows k x (stored.grows k x e);
        fetched = λ bs g.
            (let held =
                Holds-Grows T.base.sha256 d'.blocks bs chunks parts
                  (λ k x e. g k x (rest.grows k x e)) stored.holds in
              rw (
                fetch_parts-Holds T.base laws.base (lookup_block bs) verify chunks parts held,
                rest.fetched bs g,
                bytes,
              ));
      }

  -- The finished tree serves its manifest and its index, and keeps what was there.
  pub record Ended (plain : ManifestV2) (index : IndexV2) (dag : BuiltV2) (blocks : List Block)
      : Type 0 where
    pub grows : Grows blocks dag.blocks
    pub root :
        Serves T.base.sha256 (lookup_block dag.blocks) dag.root (T.encode_manifest dag.manifest)
    pub index_read : index_v2 T (lookup_block dag.blocks) verify dag.manifest ≡ ok index
    pub kept :
        (dag.manifest.v ≡ plain.v)
        × (dag.manifest.skeleton_chunks ≡ plain.skeleton_chunks)
        × (dag.manifest.skeleton_layout ≡ plain.skeleton_layout)

  index_v2-root :
      (plain : ManifestV2) (index : IndexV2) (cid : Cid) (get : BlockGetter)
      → plain.index ≡ none
      → Serves T.base.sha256 get cid (T.encode_index index)
      → index_v2 T get verify (record plain { index_root = some cid }) ≡ ok index
  unfolding index_v2
  index_v2-root plain index cid get empty served = simp (
    empty,
    fetch_verified-Serves T.base.sha256 get verify cid (T.encode_index index) served,
    laws.index_back index,
  )

  end_v2-Ended :
      (plain manifest : ManifestV2) (index : IndexV2) (stats : TreeStats) (blocks kept : List Block)
      (spilled : Bool)
      → Certified T.base.sha256 kept
      → Grows blocks kept
      → (manifest.v ≡ plain.v)
        × (manifest.skeleton_chunks ≡ plain.skeleton_chunks)
        × (manifest.skeleton_layout ≡ plain.skeleton_layout)
      → ((bs : List Block)
          → Grows kept bs
          → index_v2 T (lookup_block bs) verify manifest ≡ ok index)
      → Ended plain index (end_v2 T manifest stats kept spilled) blocks
  unfolding end_v2
  end_v2-Ended plain manifest index stats blocks kept spilled c g same reads =
      let added =
        add_block-Added T.base laws.base dag_cbor_code (T.encode_manifest manifest) kept c in
      record {
        grows = λ k x e. added.grows k x (g k x e);
        root = added.serves;
        index_read = reads _ added.grows;
        kept = same;
      }

  pub finish_v2-Ended :
      (plain : ManifestV2) (index : IndexV2) (stats : TreeStats) (blocks : List Block)
      → plain.index ≡ none
      → Certified T.base.sha256 blocks
      → Ended plain index (finish_v2 T plain index stats blocks) blocks
  unfolding finish_v2 index_v2
  finish_v2-Ended plain index stats blocks empty c =
      let whole : ManifestV2 = record plain { index = some index } in
      let index_block : Block = make_block T.base.sha256 dag_cbor_code (T.encode_index index) in
      let first = make_block T.base.sha256 dag_cbor_code (T.encode_manifest whole) in
      elim (Bool-cases (ltb index_spill_bytes (length first.bytes))) [
        | inl over ↦
            let added =
              add_block-Added T.base laws.base dag_cbor_code (T.encode_index index) blocks c in
            rw over (
              end_v2-Ended plain (record plain { index_root = some index_block.cid }) index stats
                blocks (add_block index_block blocks) true added.certified added.grows
                (refl, refl, refl)
                (λ bs g.
                  index_v2-root plain index index_block.cid (lookup_block bs) empty
                    (g _ _ added.serves.0, added.serves.1)))
        | inr short ↦ rw short (
            end_v2-Ended plain whole index stats blocks blocks false c (λ k x e. e)
              (refl, refl, refl) (λ bs g. refl))
      ]
