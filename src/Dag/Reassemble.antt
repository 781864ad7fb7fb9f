-- ===== src/Dag/Reassemble.antt =====
-- The v1 reassembly of packages/repack/src/dag.ts: reassemble, and the block list allCids.
use trackerstream.Common.{ℕ, ◌+◌, ◌-◌, min, Bool, List, [], ◌∷◌, ◌++◌, length, replicate}
use trackerstream.Common.Int.{ℤ, pos, negsuc, sub_ℕ, ◌+ℤ◌}
use trackerstream.Common.Result.{Result, ok, ◌>>=◌, or_throw}
use trackerstream.Dag.Store.{Fault, fetch_failed, bad_encoding, Cid, BlockGetter, fetch_verified}
use trackerstream.Dag.Build.{set_range, subarray, SampleEntry, Manifest, Ipld}

-- An index of `subarray` on an array of length `n`: below 0 it counts from the end.
abbrev pub relative_index : ℕ → ℤ → ℕ
relative_index n (pos k) = min k n
relative_index n (negsuc k) = n - (k + 1)

abbrev pub subarray_ℤ : List ℕ → ℤ → ℤ → List ℕ
subarray_ℤ b start end =
    subarray b (relative_index (length b) start) (relative_index (length b) end)

-- `Uint8Array`s put one behind the other, as the loop with `w` does on a buffer of their total length.
unfoldable pub concat_parts : List (List ℕ) → List ℕ
concat_parts [] = []
concat_parts (p ∷ ps) = p ++ concat_parts ps

module _ (I : Ipld) (get : BlockGetter) (verify : Bool) where
  unfoldable pub fetch_parts : List Cid → Result Fault (List (List ℕ))
  fetch_parts [] = ok []
  fetch_parts (c ∷ cs) = do
    part ← fetch_verified I.sha256 c get verify
    parts ← fetch_parts cs
    ok (part ∷ parts)

  -- The loop over one sample's chunks, from the write position `w` on.
  unfoldable pub write_chunks : List Cid → List ℕ → ℕ → Result Fault (List ℕ)
  write_chunks [] out w = ok out
  write_chunks (c ∷ cs) out w = do
    chunk ← fetch_verified I.sha256 c get verify
    out' ← set_range out chunk w
    write_chunks cs out' (w + length chunk)

  -- The loop over the samples, and the tail of the skeleton after it.
  unfoldable pub write_samples : List SampleEntry → List ℕ → List ℕ → ℤ → ℕ → Result Fault (List ℕ)
  write_samples [] skeleton out skel_cursor prev_end =
      set_range out (subarray_ℤ skeleton skel_cursor (pos (length skeleton))) prev_end
  write_samples (s ∷ ss) skeleton out skel_cursor prev_end = do
    let cursor' = skel_cursor +ℤ sub_ℕ s.offset prev_end
    out' ← set_range out (subarray_ℤ skeleton skel_cursor cursor') prev_end
    bytes ← fetch_verified I.sha256 s.pcm_root get verify
    pcm_root ← or_throw (I.decode_pcm_root bytes) bad_encoding
    out'' ← write_chunks pcm_root.chunks out' s.offset
    write_samples ss skeleton out'' cursor' (s.offset + s.length)

  unfoldable pub reassemble : Cid → Result Fault (List ℕ × Manifest)
  reassemble root = do
    manifest_bytes ← fetch_verified I.sha256 root get verify
    manifest ← or_throw (I.decode_manifest manifest_bytes) bad_encoding
    parts ← fetch_parts manifest.skeleton_chunks
    bytes ←
        write_samples manifest.samples (concat_parts parts) (replicate manifest.original_length 0)
          (pos 0) 0
    ok (bytes, manifest)

-- allCids: the manifest and the sample roots are read without verification.
module _ (I : Ipld) (get : BlockGetter) where
  unfoldable pub sample_cids : List SampleEntry → Result Fault (List Cid)
  sample_cids [] = ok []
  sample_cids (s ∷ ss) = do
    bytes ← or_throw (get s.pcm_root) fetch_failed
    pcm_root ← or_throw (I.decode_pcm_root bytes) bad_encoding
    rest ← sample_cids ss
    ok (s.pcm_root ∷ (pcm_root.chunks ++ rest))

  unfoldable pub all_cids : Cid → Result Fault (List Cid)
  all_cids root = do
    bytes ← or_throw (get root) fetch_failed
    manifest ← or_throw (I.decode_manifest bytes) bad_encoding
    rest ← sample_cids manifest.samples
    ok (root ∷ (manifest.skeleton_chunks ++ rest))
