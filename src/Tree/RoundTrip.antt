-- ===== src/Tree/RoundTrip.antt =====
-- reassembleV3 and reassembleV4 of packages/repack/src/dag.ts give back the file that was built.
use trackerstream.Common.{
  ◌≡◌, refl, Bool, true, false, none, some, List, ltb, length, Bool-cases, inl, inr,
}
use trackerstream.Common.Result.{ok}
use trackerstream.Dag.Store.{
  Cid, Block, BlockGetter, lookup_block, dag_cbor_code, add_block, make_block,
}
use trackerstream.Dag.Holds.{Grows, Certified, Serves, fetch_verified-Serves}
use trackerstream.Dag.Stored.{IpldLaws, add_block-Added}
use trackerstream.Tree.Model.{TreeIndex, TreeManifest, TreeStats, BuiltTree, TreeIpld}
use trackerstream.Tree.Build.{index_spill_bytes, finish_with, finish_tree}
use trackerstream.Tree.Reassemble.{read_index}

-- What the development asks of dag-cbor and of the hash, for these versions' blocks.
pub record TreeLaws (T : TreeIpld) : Type 0 where
  pub base : IpldLaws T.base
  pub manifest_back : (m : TreeManifest) → T.decode_manifest (T.encode_manifest m) ≡ some m
  pub index_back : (i : TreeIndex) → T.decode_index (T.encode_index i) ≡ some i

module _ (T : TreeIpld) (laws : TreeLaws T) where
  read_index_inline :
      (plain : TreeManifest) (index : TreeIndex) (get : BlockGetter) (verify : Bool)
      → read_index T get verify (record plain { index = some index }) ≡ ok index
  unfolding read_index
  read_index_inline plain index get verify = refl

  read_index-root :
      (plain : TreeManifest) (index : TreeIndex) (cid : Cid) (get : BlockGetter) (verify : Bool)
      → plain.index ≡ none
      → Serves T.base.sha256 get cid (T.encode_index index)
      → read_index T get verify (record plain { index_root = some cid }) ≡ ok index
  unfolding read_index
  read_index-root plain index cid get verify empty served = simp (
    empty,
    fetch_verified-Serves T.base.sha256 get verify cid (T.encode_index index) served,
    laws.index_back index,
  )

  -- The finished tree's blocks serve the manifest and the index, and keep what was there.
  pub record Finished (plain : TreeManifest) (index : TreeIndex) (dag : BuiltTree)
      (blocks : List Block) : Type 0 where
    pub grows : Grows blocks dag.blocks
    pub root :
        Serves T.base.sha256 (lookup_block dag.blocks) dag.root (T.encode_manifest dag.manifest)
    pub index_read :
        (verify : Bool) → read_index T (lookup_block dag.blocks) verify dag.manifest ≡ ok index
    pub kept :
        (dag.manifest.v ≡ plain.v)
        × (dag.manifest.original_length ≡ plain.original_length)
        × (dag.manifest.skeleton_chunks ≡ plain.skeleton_chunks)
        × (dag.manifest.skeleton_layout ≡ plain.skeleton_layout)

  finish_with-Finished :
      (plain manifest : TreeManifest) (index : TreeIndex) (stats : TreeStats)
      (blocks kept : List Block) (spilled : Bool)
      → Certified T.base.sha256 kept
      → Grows blocks kept
      → (manifest.v ≡ plain.v)
        × (manifest.original_length ≡ plain.original_length)
        × (manifest.skeleton_chunks ≡ plain.skeleton_chunks)
        × (manifest.skeleton_layout ≡ plain.skeleton_layout)
      → ((bs : List Block) (verify : Bool)
          → Grows kept bs
          → read_index T (lookup_block bs) verify manifest ≡ ok index)
      → Finished plain index (finish_with T manifest stats kept spilled) blocks
  unfolding finish_with
  finish_with-Finished plain manifest index stats blocks kept spilled c g same reads =
      let added =
        add_block-Added T.base laws.base dag_cbor_code (T.encode_manifest manifest) kept c in
      record {
        grows = λ k x e. added.grows k x (g k x e);
        root = added.serves;
        index_read = λ verify. reads _ verify added.grows;
        kept = same;
      }

  pub finish_tree-Finished :
      (plain : TreeManifest) (index : TreeIndex) (stats : TreeStats) (blocks : List Block)
      → plain.index ≡ none
      → Certified T.base.sha256 blocks
      → Finished plain index (finish_tree T plain index stats blocks) blocks
  unfolding finish_tree
  finish_tree-Finished plain index stats blocks empty c =
      let whole : TreeManifest = record plain { index = some index } in
      let index_block : Block = make_block T.base.sha256 dag_cbor_code (T.encode_index index) in
      let first = make_block T.base.sha256 dag_cbor_code (T.encode_manifest whole) in
      elim (Bool-cases (ltb index_spill_bytes (length first.bytes))) [
        | inl over ↦
            let added =
              add_block-Added T.base laws.base dag_cbor_code (T.encode_index index) blocks c in
            rw over (
              finish_with-Finished plain (record plain { index_root = some index_block.cid }) index
                stats blocks (add_block index_block blocks) true added.certified added.grows
                (refl, refl, refl, refl)
                (λ bs verify g.
                  read_index-root plain index index_block.cid (lookup_block bs) verify empty
                    (g _ _ added.serves.0, added.serves.1)))
        | inr short ↦ rw short (
            finish_with-Finished plain whole index stats blocks blocks false c (λ k x e. e)
              (refl, refl, refl, refl)
              (λ bs verify g. read_index_inline plain index (lookup_block bs) verify))
      ]
