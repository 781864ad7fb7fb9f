-- ===== src/Tree/Streamed.antt =====
-- Which slots of a file buildDagV3 and buildDagV4 of packages/repack/src/dag.ts stream, and the plan.
use trackerstream.Common.{
  ℕ, ◌+◌, not, ◌||◌, Bool, false, Option, none, some, List, [], ◌∷◌, ◌==◌, if◌then◌else◌, length,
}
use trackerstream.Parse.Bytes.{SampleSlot}
use trackerstream.Fence.{Checkpoint}
use trackerstream.Dag.Build.{
  subarray, set_range, OrderSeconds, SeekOffsets, Ipld, Draft, chunk_to_cids,
}
use trackerstream.Dag.Build
use trackerstream.Tree.Enc.{pick_enc}
use trackerstream.Tree.Zeroed.{is_packed}
use trackerstream.Tree.Model.{DecodedSample, Plan}

-- A streamed slot with its decoded sample and the mask of pickEnc.
pub record Streamed : Type 0 where
  pub slot : SampleSlot
  pub dump : DecodedSample
  pub enc : ℕ

-- `dumpByIndex.get(index)`: of several samples with one index the last.
unfoldable pub dump_of : List DecodedSample → ℕ → Option DecodedSample → Option DecodedSample
dump_of [] index found = found
dump_of (d ∷ ds) index found = dump_of ds index (if d.index == index then some d else found)

-- One round of the loop over the slots.
unfoldable pub streamed_slot : List ℕ → List DecodedSample → SampleSlot → Option Streamed
streamed_slot file decoded slot = elim (dump_of decoded slot.index none) [
  | none ↦ none
  | some dump ↦
      if length dump.pcm == 0 || not (length dump.pcm == slot.length)
      then none
      else elim (pick_enc dump.pcm (subarray file slot.offset (slot.offset + slot.length))
          slot.bit_depth slot.channels) [
            | none ↦ none
            | some enc ↦ some (record { slot = slot; dump = dump; enc = enc })
          ]
]

unfoldable pub streamed_slots : List ℕ → List DecodedSample → List SampleSlot → List Streamed
streamed_slots file decoded [] = []
streamed_slots file decoded (s ∷ ss) =
    let rest = streamed_slots file decoded ss in
    elim (streamed_slot file decoded s) [ none ↦ rest | some st ↦ st ∷ rest ]

unfoldable pub slots_of : List Streamed → List SampleSlot
slots_of [] = []
slots_of (st ∷ sts) = st.slot ∷ slots_of sts

-- `idxByOffset.get(o)`: the last slot at the offset.
pub slot_at : List SampleSlot → ℕ → Option ℕ → Option ℕ
slot_at [] o found = found
slot_at (s ∷ ss) o found = slot_at ss o (if s.offset == o then some s.index else found)

pub to_slots : List SampleSlot → List ℕ → List ℕ
to_slots slots [] = []
to_slots slots (o ∷ offs) =
    let rest = to_slots slots offs in
    elim (slot_at slots o none) [ none ↦ rest | some i ↦ i ∷ rest ]

pub to_plan_checkpoints : List SampleSlot → List Build.Checkpoint → List Checkpoint
to_plan_checkpoints slots [] = []
to_plan_checkpoints slots (c ∷ cs) =
    let rest = to_plan_checkpoints slots cs in
    elim (to_slots slots c.samples) [
      | [] ↦ rest
      | i ∷ is ↦ record { order = c.order; samples = i ∷ is } ∷ rest
    ]

-- The plan of the slots; a format with no checkpoints gets one from segment0.
pub make_plan : List SampleSlot → Option SeekOffsets → Plan
make_plan slots none = record { order_seconds = []; checkpoints = [] }
make_plan slots (some t) = record {
  order_seconds = t.order_seconds;
  checkpoints = elim (to_plan_checkpoints slots t.resident_offsets) [
    | c ∷ cs ↦ c ∷ cs
    | [] ↦ elim (to_slots slots t.segment0_offsets) [
      | [] ↦ []
      | i ∷ is ↦ record { order = 0; samples = i ∷ is } ∷ []
    ]
  ];
}

unfoldable pub any_packed : List SampleSlot → Bool
any_packed [] = false
any_packed (s ∷ ss) = is_packed s || any_packed ss

pub pcm_bytes : List Streamed → ℕ
pcm_bytes [] = 0
pcm_bytes (st ∷ sts) = length st.dump.pcm + pcm_bytes sts
