-- ===== src/Tests/TreeCodec.antt =====
-- Codecs for the blocks of versions 3 and 4 in packages/repack/src/dag.ts, with the laws asked for.
use trackerstream.Common.{ℕ, zero, suc, ◌≡◌, refl}
use trackerstream.Parse.Bytes.{Format, amiga_mod, xm, s3m, it, mptm, mo3}
use trackerstream.Tree.Model.{Plan, StreamSample, TreeIndex, TreeManifest, TreeIpld}
use trackerstream.Tree.RoundTrip.{TreeLaws}
use trackerstream.Tests.Codec.{
  Codec, number, both, through, list, optional, cid, cdc_config, decode, decode-print, plain_ipld,
  plain_laws,
}

abbrev format_number : Format → ℕ
format_number amiga_mod = 0
format_number xm = 1
format_number s3m = 2
format_number it = 3
format_number mptm = 4
format_number mo3 = 5

abbrev number_format : ℕ → Format
number_format zero = amiga_mod
number_format (suc zero) = xm
number_format (suc (suc zero)) = s3m
number_format (suc (suc (suc zero))) = it
number_format (suc (suc (suc (suc zero)))) = mptm
number_format (suc (suc (suc (suc (suc n))))) = mo3

pub format_back : (f : Format) → number_format (format_number f) ≡ f
format_back amiga_mod = refl
format_back xm = refl
format_back s3m = refl
format_back it = refl
format_back mptm = refl
format_back mo3 = refl

abbrev pub format : Codec Format
format = through format_number number_format format_back number

abbrev pub plan : Codec Plan
plan =
    through (λ t. (t.order_seconds, t.checkpoints))
      (λ p. record { order_seconds = p.0; checkpoints = p.1 }) (λ t. refl)
      (both
        (list (
          through (λ o. (o.order, o.seconds)) (λ p. record { order = p.0; seconds = p.1 })
            (λ o. refl) (both number number)))
        (list (
          through (λ k. (k.order, k.samples)) (λ p. record { order = p.0; samples = p.1 })
            (λ k. refl) (both number (list number)))))

abbrev stream_sample : Codec StreamSample
stream_sample =
    through
      (λ s. (
        (s.index, (s.frames, (s.channels, s.bit_depth))),
        (s.chunks, (s.offset, (s.enc, s.enc_codec))),
      ))
      (λ p. record {
        index = p.0.0;
        frames = p.0.1.0;
        channels = p.0.1.1.0;
        bit_depth = p.0.1.1.1;
        chunks = p.1.0;
        offset = p.1.1.0;
        enc = p.1.1.1.0;
        enc_codec = p.1.1.1.1;
      })
      (λ s. refl)
      (both (both number (both number (both number number)))
        (both (list cid) (both number (both number number))))

abbrev tree_index : Codec TreeIndex
tree_index =
    through (λ i. (i.samples, i.plan)) (λ p. record { samples = p.0; plan = p.1 }) (λ i. refl)
      (both (list stream_sample) plan)

abbrev tree_manifest : Codec TreeManifest
tree_manifest =
    through
      (λ m. (
        (m.v, (m.format, (m.cdc, m.original_length))),
        (m.skeleton_chunks, (m.skeleton_layout, (m.index, m.index_root))),
      ))
      (λ p. record {
        v = p.0.0;
        format = p.0.1.0;
        cdc = p.0.1.1.0;
        original_length = p.0.1.1.1;
        skeleton_chunks = p.1.0;
        skeleton_layout = p.1.1.0;
        index = p.1.1.1.0;
        index_root = p.1.1.1.1;
      })
      (λ m. refl)
      (both (both number (both format (both cdc_config number)))
        (both (list cid) (both (list number) (both (optional tree_index) (optional cid)))))

-- Blocks are written with the codecs above, and a block's digest is the block.
pub tree_ipld : TreeIpld
tree_ipld = record {
  base = plain_ipld;
  encode_manifest = tree_manifest.print;
  decode_manifest = decode tree_manifest;
  encode_index = tree_index.print;
  decode_index = decode tree_index;
}

pub tree_laws : TreeLaws tree_ipld
unfolding tree_ipld
tree_laws = record {
  base = plain_laws;
  manifest_back = decode-print tree_manifest;
  index_back = decode-print tree_index;
}
