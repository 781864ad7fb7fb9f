-- ===== src/Tests/Files.antt =====
-- The theorems on packages/repack/src/parse.ts at a small IT file.
use trackerstream.Common.{
  ℕ, ◌≡◌, refl, none, some, List, [], ◌∷◌, ◌++◌, replicate, length, inl, inr, arith,
}
use trackerstream.Parse.Bytes.{SampleRegion, it, codes, same_text}
use trackerstream.Parse.Regions.{collect, it_region, extract_it_like, extract_it}
use trackerstream.Parse.Slots.{it_slot, it_like_slots}
use trackerstream.Parse.Select.{
  extractors, slot_extractors, detect_format, in_file, insert_region, sort_regions, keep_apart,
  choose_format, ParsedRegions, sample_regions, ParsedSlots, slots_in_file, sample_slots,
}
use trackerstream.Parse.Pieces.{Apart, Covers, Occurs}
use trackerstream.Parse.Partition.{sample_regions-Apart, sample_regions-Covers}
use trackerstream.Parse.Kept.{Placed, uncompressed, sample_slots-Placed}
use trackerstream.Common.{All, ltb, if◌then◌else◌, not, ◌||◌}
use trackerstream.Parse.Bytes.{tag4, mod_channels}
use trackerstream.Parse.Regions.{
  extract_s3m, extract_mod, mod_walk, mod_lens, max_pattern, mod_data_start,
}
use trackerstream.Parse.Slots.{s3m_slots, mod_slots}
use trackerstream.Parse.Agree.{raw_regions, non_empty, regions-slots, extract_mod-mod_slots}

-- A sample header of 80 bytes: the flags, the length in frames, and where the data begins (2 bytes).
abbrev sample_header : ℕ → ℕ → ℕ → ℕ → List ℕ
sample_header flags frames low high =
    replicate 18 0
    ++ (flags
        ∷ (replicate 29 0
            ++ (frames
                ∷ 0
                ∷ 0
                ∷ 0
                ∷ (replicate 20 0 ++ (low ∷ high ∷ 0 ∷ 0 ∷ 0 ∷ 0 ∷ 0 ∷ 0 ∷ [])))))

-- An IT file of 456 bytes with three samples: 3 bytes at 444, 2 frames of 16 bits at 446, where they
-- overlap the first sample, and 3 bytes at 450.
abbrev pub file : List ℕ
file =
    codes "IMPM"
    ++ (replicate 28 0
        ++ (0
            ∷ 0
            ∷ 0
            ∷ 0
            ∷ 3
            ∷ 0
            ∷ 0
            ∷ 0
            ∷ (replicate 152 0
                ++ (204
                    ∷ 0
                    ∷ 0
                    ∷ 0
                    ∷ 28
                    ∷ 1
                    ∷ 0
                    ∷ 0
                    ∷ 108
                    ∷ 1
                    ∷ 0
                    ∷ 0
                    ∷ (sample_header 1 3 188 1
                        ++ (sample_header 3 2 190 1
                            ++ (sample_header 1 3 194 1 ++ replicate 12 7)))))))

abbrev overlapped : SampleRegion
overlapped = record { offset = 446; length = 4 }

abbrev parsed : ParsedRegions
parsed = record {
  format = it;
  regions = record { offset = 444; length = 3 } ∷ record { offset = 450; length = 3 } ∷ [];
}

abbrev located : List SampleRegion
located =
    record { offset = 444; length = 3 } ∷ overlapped ∷ record { offset = 450; length = 3 } ∷ []

file-located : extractors it file ≡ some located
unfolding extractors extract_it extract_it_like same_text collect it_region
file-located = refl

file-parsed : sample_regions file none ≡ some parsed
unfolding sample_regions choose_format detect_format extractors extract_it extract_it_like same_text
    collect it_region in_file insert_region sort_regions keep_apart
file-parsed = refl

sample_regions-Apart_example :
    Apart (length file) 0 parsed.regions
    × ((raw : List SampleRegion) × (extractors it file ≡ some raw)
        × All (λ r. Occurs r raw) parsed.regions)
sample_regions-Apart_example = sample_regions-Apart file none parsed file-parsed

sample_regions-Covers_example : Covers parsed.regions 446
sample_regions-Covers_example =
    sample_regions-Covers file none parsed located overlapped file-parsed file-located
      (inr (inl refl)) (omega arith, omega arith)

abbrev pub parsed_slots : ParsedSlots
parsed_slots = record {
  format = it;
  slots =
      record { index = 1; offset = 444; length = 3; bit_depth = 8; channels = 1; compressed = none }
      ∷ record {
        index = 2;
        offset = 446;
        length = 4;
        bit_depth = 16;
        channels = 1;
        compressed = none;
      }
      ∷ record {
        index = 3;
        offset = 450;
        length = 3;
        bit_depth = 8;
        channels = 1;
        compressed = none;
      }
      ∷ [];
}

pub file_slots : sample_slots file none ≡ some parsed_slots
unfolding sample_slots choose_format detect_format slot_extractors it_like_slots same_text collect
    it_slot slots_in_file
file_slots = refl

sample_slots-Placed_example :
    Placed (length file) 0 parsed_slots.slots
    × (uncompressed parsed_slots.slots ≡ uncompressed (slot_extractors it file))
sample_slots-Placed_example = sample_slots-Placed file none parsed_slots file_slots

regions-slots_example :
    (extract_it_like file
      ≡ (if ltb (length file) 0xc0 then none else some (raw_regions (it_like_slots file))))
    × (extract_s3m file ≡ (
        if ltb (length file) 0x60 || not (same_text (tag4 file 0x2c) (codes "SCRM"))
        then none
        else some (raw_regions (s3m_slots file))))
regions-slots_example = regions-slots file

-- A MOD file of 2112 bytes: one pattern, and one sample of 4 bytes.
abbrev amiga_file : List ℕ
amiga_file = replicate 42 0 ++ (0 ∷ 2 ∷ (replicate 1036 0 ++ (codes "M.K." ++ replicate 1028 5)))

amiga_file_located : extract_mod amiga_file ≡ some (record { offset = 2108; length = 4 } ∷ [])
unfolding extract_mod mod_walk mod_lens max_pattern mod_data_start mod_channels same_text
amiga_file_located = refl

extract_mod-mod_slots_example :
    non_empty (record { offset = 2108; length = 4 } ∷ []) ≡ raw_regions (mod_slots amiga_file)
extract_mod-mod_slots_example =
    extract_mod-mod_slots amiga_file (record { offset = 2108; length = 4 } ∷ []) amiga_file_located
