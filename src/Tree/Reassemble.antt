-- ===== src/Tree/Reassemble.antt =====
-- reassembleV3 and reassembleV4 of packages/repack/src/dag.ts.
use trackerstream.Common.{ℕ, Bool, none, some, List, [], ◌∷◌, ◌==◌, length}
use trackerstream.Common.Result.{Result, ok, err, ◌>>=◌, ◌>>◌, guard, or_throw}
use trackerstream.Dag.Store.{
  Fault, bad_encoding, wrong_length, wrong_version, Cid, BlockGetter, fetch_verified,
}
use trackerstream.Dag.Build.{set_range}
use trackerstream.Dag.Reassemble.{concat_parts, fetch_parts}
use trackerstream.Tree.Recipe.{assemble_skeleton}
use trackerstream.Tree.Enc.{apply_enc}
use trackerstream.Tree.Model.{
  Flac, Leaves, StreamSample, TreeIndex, TreeIpld, TreeManifest, flac_leaves, raw_leaves,
}

module _ (T : TreeIpld) where
  module _ (get : BlockGetter) (verify : Bool) where
    -- `manifest.index ?? decode(await fetchVerified(manifest.indexRoot!, get, verify))`
    unfoldable pub read_index : TreeManifest → Result Fault TreeIndex
    read_index m = elim m.index [
      | some index ↦ ok index
      | none ↦ elim m.index_root [
        | none ↦ err bad_encoding
        | some cid ↦ do
          bytes ← fetch_verified T.base.sha256 cid get verify
          or_throw (T.decode_index bytes) bad_encoding
      ]
    ]

    -- The loop over the samples.
    unfoldable pub write_streamed : Leaves → List StreamSample → List ℕ → Result Fault (List ℕ)
    write_streamed leaves [] out = ok out
    write_streamed leaves (s ∷ ss) out = do
      parts ← fetch_parts T.base get verify s.chunks
      let pcm = leaves.unpack s.enc_codec s.channels s.bit_depth (concat_parts parts)
      out' ← set_range out (apply_enc s.enc pcm s.bit_depth s.channels) s.offset
      write_streamed leaves ss out'

    unfoldable pub reassemble_tree : Leaves → Cid → Result Fault (List ℕ × TreeManifest)
    reassemble_tree leaves root = do
      bytes ← fetch_verified T.base.sha256 root get verify
      manifest ← or_throw (T.decode_manifest bytes) bad_encoding
      guard (manifest.v == leaves.version) wrong_version
      index ← read_index manifest
      parts ← fetch_parts T.base get verify manifest.skeleton_chunks
      skeleton ← assemble_skeleton parts manifest.skeleton_layout
      guard (length skeleton == manifest.original_length) wrong_length
      file ← write_streamed leaves index.samples skeleton
      ok (file, manifest)

    unfoldable pub reassemble_v3 : Cid → Result Fault (List ℕ × TreeManifest)
    reassemble_v3 = reassemble_tree raw_leaves

    unfoldable pub reassemble_v4 : Flac → Cid → Result Fault (List ℕ × TreeManifest)
    reassemble_v4 flac = reassemble_tree (flac_leaves flac)
