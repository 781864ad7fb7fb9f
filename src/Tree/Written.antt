-- ===== src/Tree/Written.antt =====
-- The sample table that a build of packages/repack/src/dag.ts stores, and the encoding of its samples.
use mathlib.Core.List.{flatten}
use mathlib.Core.Path.{subst}
use trackerstream.Common.{
  ℕ, ◌+◌, ◌≤◌, ◌<◌, ◌≡◌, refl, ◌||◌, not, none, some, List, [], ◌∷◌, ◌==◌, length, All, Bool-cases,
  Option-cases, inl, inr,
}
use trackerstream.Common.Result.{ok}
use trackerstream.Cdc.{CdcConfig}
use trackerstream.Parse.Bytes.{SampleSlot}
use trackerstream.Dag.Store.{Block, BlockGetter, lookup_block}
use trackerstream.Dag.Build.{subarray, Draft}
use trackerstream.Dag.Holds.{Grows, Certified, Holds, Holds-Grows}
use trackerstream.Dag.Stored.{IpldLaws, chunk_to_cids-Stored}
use trackerstream.Tree.Enc.{apply_enc, pick_enc, pick_enc-apply_enc}
use trackerstream.Tree.Zeroed.{Unpacked}
use trackerstream.Tree.Model.{DecodedSample, StreamSample, TreeIpld, Leaves}
use trackerstream.Tree.Streamed.{Streamed, dump_of, streamed_slot, streamed_slots, slots_of}
use trackerstream.Tree.Build.{add_streamed}

-- The slot lies in the file and is not compressed.
abbrev pub Located : ℕ → SampleSlot → Type 0
Located size s = (s.offset + s.length ≤ size) × (s.compressed ≡ none)

-- The encoded sample is just what the file holds at its slot.
abbrev pub Exact : List ℕ → Streamed → Type 0
Exact file st =
    Located (length file) st.slot
    × (apply_enc st.enc st.dump.pcm st.slot.bit_depth st.slot.channels
        ≡ subarray file st.slot.offset (st.slot.offset + st.slot.length))

streamed_slot-Exact :
    (file : List ℕ) (decoded : List DecodedSample) (s : SampleSlot) (st : Streamed)
    → Located (length file) s
    → streamed_slot file decoded s ≡ some st
    → Exact file st
unfolding streamed_slot
streamed_slot-Exact file decoded s st l e = elim (Option-cases (dump_of decoded s.index none)) [
  | inl no_dump ↦ cc (rw (no_dump, streamed_slot) at e)
  | inr (dump, dumped) ↦
      elim (Bool-cases (length dump.pcm == 0 || not (length dump.pcm == s.length))) [
        | inl unfit ↦ cc (rw (dumped, unfit, streamed_slot) at e)
        | inr fit ↦
            let on_disk : List ℕ = subarray file s.offset (s.offset + s.length) in
            elim (Option-cases (pick_enc dump.pcm on_disk s.bit_depth s.channels)) [
              | inl no_mask ↦ cc (rw (dumped, fit, no_mask, streamed_slot) at e)
              | inr (m, picked) ↦
                  let found : Streamed = record { slot = s; dump = dump; enc = m } in
                  let same : found ≡ st = cc (rw (dumped, fit, picked, streamed_slot) at e) in
                  subst (Exact file) same
                    (l, pick_enc-apply_enc dump.pcm on_disk s.bit_depth s.channels m picked)
            ]
      ]
]

pub streamed_slots-Exact :
    (file : List ℕ) (decoded : List DecodedSample) (ss : List SampleSlot)
    → All (Located (length file)) ss
    → All (Exact file) (streamed_slots file decoded ss)
unfolding streamed_slots
streamed_slots-Exact file decoded [] l = tt
streamed_slots-Exact file decoded (s ∷ ss) (l, ls) =
    elim (Option-cases (streamed_slot file decoded s)) [
      | inl resident ↦ rw (resident, streamed_slots) (streamed_slots-Exact file decoded ss ls)
      | inr (st, streamed) ↦
          rw (streamed, streamed_slots)
            (
              streamed_slot-Exact file decoded s st l streamed,
              streamed_slots-Exact file decoded ss ls,
            )
    ]

pub Exact-Unpacked :
    (file : List ℕ) (sts : List Streamed) → All (Exact file) sts → Unpacked (slots_of sts)
unfolding slots_of
Exact-Unpacked file [] h = tt
Exact-Unpacked file (st ∷ sts) (((l, u), e), h) = (u, Exact-Unpacked file sts h)

-- The leaves of a sample give its PCM back.
abbrev pub Lossless : Leaves → Streamed → Type 0
Lossless leaves st =
    let (bytes, codec) = leaves.pack st.slot.channels st.slot.bit_depth st.dump.pcm in
    leaves.unpack codec st.slot.channels st.slot.bit_depth bytes ≡ st.dump.pcm

module _ (T : TreeIpld) (laws : IpldLaws T.base) (leaves : Leaves) where
  -- An entry of the sample table, with its leaves served.
  pub record EntryHeld (get : BlockGetter) (st : Streamed) (s : StreamSample) : Type 0 where
    pub parts : List (List ℕ)
    pub holds : Holds T.base.sha256 get s.chunks parts
    pub tiles : flatten parts ≡ (leaves.pack st.slot.channels st.slot.bit_depth st.dump.pcm).0
    pub codec_kept : s.enc_codec ≡ (leaves.pack st.slot.channels st.slot.bit_depth st.dump.pcm).1
    pub layout_kept :
        (s.channels ≡ st.slot.channels)
        × (s.bit_depth ≡ st.slot.bit_depth)
        × (s.offset ≡ st.slot.offset)
        × (s.enc ≡ st.enc)

  abbrev pub TableHeld : BlockGetter → List Streamed → List StreamSample → Type 0
  TableHeld get [] [] = Unit {0}
  TableHeld get [] (s ∷ ss) = ⊥
  TableHeld get (st ∷ sts) [] = ⊥
  TableHeld get (st ∷ sts) (s ∷ ss) = EntryHeld get st s × TableHeld get sts ss

  pub TableHeld-Grows :
      (bs cs : List Block) (sts : List Streamed) (ss : List StreamSample)
      → Grows bs cs
      → TableHeld (lookup_block bs) sts ss
      → TableHeld (lookup_block cs) sts ss
  TableHeld-Grows bs cs [] [] g h = tt
  TableHeld-Grows bs cs [] (s ∷ ss) g h = h
  TableHeld-Grows bs cs (st ∷ sts) [] g h = h
  TableHeld-Grows bs cs (st ∷ sts) (s ∷ ss) g (h, hs) = (
    record {
      parts = h.parts;
      tiles = h.tiles;
      codec_kept = h.codec_kept;
      layout_kept = h.layout_kept;
      holds = Holds-Grows T.base.sha256 bs cs s.chunks h.parts g h.holds;
    },
    TableHeld-Grows bs cs sts ss g hs,
  )

  -- The outcome of the loop over the streamed slots.
  pub record TableStored (cdc : CdcConfig) (sts : List Streamed) (d : Draft) : Type 0 where
    pub samples : List StreamSample
    pub after : Draft
    pub run : add_streamed T leaves cdc sts d ≡ ok (samples, after)
    pub certified : Certified T.base.sha256 after.blocks
    pub grows : Grows d.blocks after.blocks
    pub held : TableHeld (lookup_block after.blocks) sts samples

  pub add_streamed-TableStored :
      (cdc : CdcConfig) (sts : List Streamed) (d : Draft)
      → cdc.min_size < cdc.max_size
      → Certified T.base.sha256 d.blocks
      → TableStored cdc sts d
  unfolding add_streamed
  add_streamed-TableStored cdc [] d wide c = record {
    samples = [];
    after = d;
    run = refl;
    certified = c;
    grows = λ k x e. e;
    held = tt;
  }
  add_streamed-TableStored cdc (st ∷ sts) d wide c =
      let bytes : List ℕ = (leaves.pack st.slot.channels st.slot.bit_depth st.dump.pcm).0 in
      let codec : ℕ = (leaves.pack st.slot.channels st.slot.bit_depth st.dump.pcm).1 in
      let (chunks, d', parts, run, stored, tiles) =
        chunk_to_cids-Stored T.base laws cdc bytes d wide c in
      let rest = add_streamed-TableStored cdc sts d' wide stored.certified in
      record {
        samples =
            record {
              index = st.slot.index;
              frames = st.dump.frames;
              channels = st.slot.channels;
              bit_depth = st.slot.bit_depth;
              chunks = chunks;
              offset = st.slot.offset;
              enc = st.enc;
              enc_codec = codec;
            }
            ∷ rest.samples;
        after = rest.after;
        run = rw (run, rest.run);
        certified = rest.certified;
        grows = λ k x e. rest.grows k x (stored.grows k x e);
        held = (
          record {
            parts = parts;
            tiles = tiles;
            codec_kept = refl;
            layout_kept = (refl, refl, refl, refl);
            holds =
                Holds-Grows T.base.sha256 d'.blocks rest.after.blocks chunks parts rest.grows
                  stored.holds;
          },
          rest.held,
        );
      }
