-- ===== src/Tree/Fetch.antt =====
-- fetchV2 of packages/repack/src/dag.ts, the client of what buildDagV2 built.
use trackerstream.Common.{ℕ, Bool, none, some, List, [], ◌∷◌, ◌==◌}
use trackerstream.Common.Result.{Result, ok, err, ◌>>=◌, ◌>>◌, guard, or_throw}
use trackerstream.Dag.Store.{Fault, bad_encoding, wrong_version, Cid, BlockGetter, fetch_verified}
use trackerstream.Dag.Reassemble.{concat_parts, fetch_parts}
use trackerstream.Tree.Recipe.{assemble_skeleton}
use trackerstream.Tree.Model.{Plan}
use trackerstream.Tree.Candidates.{IndexV2, ManifestV2, NormalIpld, SampleV2}

-- FetchedSampleV2
pub record FetchedSample : Type 0 where
  pub index : ℕ
  pub frames : ℕ
  pub channels : ℕ
  pub bit_depth : ℕ
  pub pcm : List ℕ

pub record FetchedV2 : Type 0 where
  pub manifest : ManifestV2
  pub skeleton : List ℕ
  pub samples : List FetchedSample
  pub plan : Plan

module _ (T : NormalIpld) (get : BlockGetter) (verify : Bool) where
  unfoldable pub index_v2 : ManifestV2 → Result Fault IndexV2
  index_v2 m = elim m.index [
    | some index ↦ ok index
    | none ↦ elim m.index_root [
      | none ↦ err bad_encoding
      | some cid ↦ do
        bytes ← fetch_verified T.base.sha256 cid get verify
        or_throw (T.decode_index bytes) bad_encoding
    ]
  ]

  unfoldable pub fetch_samples : List SampleV2 → Result Fault (List FetchedSample)
  fetch_samples [] = ok []
  fetch_samples (s ∷ ss) = do
    parts ← fetch_parts T.base get verify s.chunks
    rest ← fetch_samples ss
    ok (
        record {
          index = s.index;
          frames = s.frames;
          channels = s.channels;
          bit_depth = s.bit_depth;
          pcm = concat_parts parts;
        }
        ∷ rest)

  unfoldable pub fetch_v2 : Cid → Result Fault FetchedV2
  fetch_v2 root = do
    bytes ← fetch_verified T.base.sha256 root get verify
    manifest ← or_throw (T.decode_manifest bytes) bad_encoding
    guard (manifest.v == 2) wrong_version
    index ← index_v2 manifest
    parts ← fetch_parts T.base get verify manifest.skeleton_chunks
    skeleton ← assemble_skeleton parts manifest.skeleton_layout
    samples ← fetch_samples index.samples
    ok (record { manifest = manifest; skeleton = skeleton; samples = samples; plan = index.plan })
