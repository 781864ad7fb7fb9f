-- ===== src/Dag/Rebuild.antt =====
-- reassemble of dag.ts over a getter that serves the pieces of a file.
use mathlib.Core.List.{flatten}
use trackerstream.Common.{
  ℕ, min, ◌+◌, ◌-◌, ◌≤◌, ◌≡◌, refl, sym, ap, ◌∙◌, Bool, List, [], ◌∷◌, ◌++◌, arith, append-nil,
  append_assoc, length, take, drop, replicate, take_all, length-append, length-take, length-drop,
  take-append, drop-append, drop-drop,
}
use trackerstream.Common.Int.{pos, pos-+ℤ, sub_ℕ-pos}
use trackerstream.Common.Result.{ok}
use trackerstream.Parse.Bytes.{SampleRegion}
use trackerstream.Parse.Pieces.{Apart}
use trackerstream.Dag.Store.{Cid, BlockGetter}
use trackerstream.Dag.Build.{set_range, subarray, SampleEntry, Manifest, Ipld}
use trackerstream.Dag.Reassemble.{
  subarray_ℤ, concat_parts, fetch_parts, write_chunks, write_samples, reassemble,
}
use trackerstream.Dag.Buffer.{set_range-front, set_range-file, file_step, length-subarray}
use trackerstream.Dag.Skeleton.{outside}
use trackerstream.Dag.Holds.{Serves, Holds, fetch_verified-Serves}
use trackerstream.Dag.Stored.{IpldLaws, SamplesHeld}

pub concat_parts-flatten : (ps : List (List ℕ)) → concat_parts ps ≡ flatten ps
unfolding concat_parts flatten
concat_parts-flatten [] = refl
concat_parts-flatten (p ∷ ps) = ap (λ t. p ++ t) (concat_parts-flatten ps)

-- A stretch of the skeleton, by the cursor that the source keeps.
subarray_ℤ-drop :
    (b : List ℕ) (c gap : ℕ)
    → c + gap ≤ length b
    → subarray_ℤ b (pos c) (pos (c + gap)) ≡ take gap (drop c b)
subarray_ℤ-drop b c gap h = rw (from, to, width)
  where
    from : min c (length b) ≡ c
    from = omega arith

    to : min (c + gap) (length b) ≡ c + gap
    to = omega arith

    width : c + gap - c ≡ gap
    width = omega arith

module _ (I : Ipld) (laws : IpldLaws I) (get : BlockGetter) (verify : Bool) where
  pub fetch_parts-Holds :
      (cids : List Cid) (parts : List (List ℕ))
      → Holds I.sha256 get cids parts
      → fetch_parts I get verify cids ≡ ok parts
  unfolding fetch_parts
  fetch_parts-Holds [] [] h = refl
  fetch_parts-Holds [] (p ∷ ps) h = absurd h
  fetch_parts-Holds (c ∷ cs) [] h = absurd h
  fetch_parts-Holds (c ∷ cs) (p ∷ ps) (s, h) =
      rw (fetch_verified-Serves I.sha256 get verify c p s, fetch_parts-Holds cs ps h)

  write_chunks-Holds :
      (cids : List Cid) (parts : List (List ℕ)) (done : List ℕ) (k w : ℕ)
      → Holds I.sha256 get cids parts
      → w ≡ length done
      → length (flatten parts) ≤ k
      → write_chunks I get verify cids (done ++ replicate k 0) w
        ≡ ok ((done ++ flatten parts) ++ replicate (k - length (flatten parts)) 0)
  unfolding write_chunks flatten
  write_chunks-Holds [] [] done k w h e l =
      ap ok (rw append-nil (ap (λ m. done ++ replicate m 0) (omega arith)))
  write_chunks-Holds [] (p ∷ ps) done k w h e l = absurd h
  write_chunks-Holds (c ∷ cs) [] done k w h e l = absurd h
  write_chunks-Holds (c ∷ cs) (p ∷ ps) done k w (s, h) e l =
      rw
        (
          fetch_verified-Serves I.sha256 get verify c p s,
          set_range-front done p k w e (omega (arith, len)),
        )
        (write_chunks-Holds cs ps (done ++ p) (k - length p) (w + length p) h
            (omega (arith, length-append done p)) (omega (arith, len))
          ∙ ap ok (rw (append_assoc done p (flatten ps), left)))
    where
      len : length (p ++ flatten ps) ≡ length p + length (flatten ps)
      len = length-append p (flatten ps)

      left : k - length p - length (flatten ps) ≡ k - length (p ++ flatten ps)
      left = omega (arith, len)

  -- One sample: the gap before it, then its chunks.
  write_samples-tail :
      (file skel : List ℕ) (c prev_end : ℕ)
      → prev_end ≤ length file
      → c ≤ length skel
      → drop c skel ≡ drop prev_end file
      → set_range
          (take prev_end file ++ replicate (length file - prev_end) 0)
          (subarray_ℤ skel (pos c) (pos (length skel)))
          prev_end
        ≡ ok file
  write_samples-tail file skel c prev_end h k e =
      rw (tail) (set_range-file file prev_end (length file) h (omega arith) ∙ ap ok whole)
    where
      tail : subarray_ℤ skel (pos c) (pos (length skel)) ≡ subarray file prev_end (length file)
      tail =
          rw
            (
              let m : min c (length skel) ≡ c = omega arith in m,
              let m : min (length skel) (length skel) ≡ length skel = omega arith in m,
              e,
            )
            (take_all (length skel - c) (drop prev_end file)
                (omega (arith, ap length e, length-drop {0} c skel))
              ∙ sym (
                  take_all (length file - prev_end) (drop prev_end file)
                    (omega (arith, length-drop {0} prev_end file))))

      whole : take (length file) file ++ replicate (length file - length file) 0 ≡ file
      whole = rw (
        take_all (length file) file (omega arith),
        let m : length file - length file ≡ 0 = omega arith in m,
        append-nil,
      )

  write_samples-Held :
      (file skel : List ℕ) (rs : List SampleRegion) (ss : List SampleEntry) (c prev_end : ℕ)
      → prev_end ≤ length file
      → Apart (length file) prev_end rs
      → SamplesHeld I laws get file rs ss
      → c ≤ length skel
      → drop c skel ≡ outside file prev_end rs
      → write_samples I get verify ss skel
          (take prev_end file ++ replicate (length file - prev_end) 0)
          (pos c)
          prev_end
        ≡ ok file
  unfolding write_samples outside
  write_samples-Held file skel [] [] c prev_end h a held k e =
      write_samples-tail file skel c prev_end h k e
  write_samples-Held file skel [] (s ∷ ss) c prev_end h a held k e = absurd held
  write_samples-Held file skel (r ∷ rs) [] c prev_end h a held k e = absurd held
  write_samples-Held file skel (r ∷ rs) (s ∷ ss) c prev_end h (p, (q, i), a) (held, helds) k e =
      simp (held.offset_kept, held.length_kept, sub_ℕ-pos r.offset prev_end p, pos-+ℤ c gap)
        (rw
          (
            piece,
            set_range-file file prev_end r.offset p (omega arith),
            fetch_verified-Serves I.sha256 get verify s.pcm_root _ held.root,
            laws.pcm_root_back (record { chunks = held.chunks; length = r.length }),
            pcm,
          )
          (write_samples-Held file skel rs ss (c + gap) (r.offset + r.length) i a helds
            (omega (arith, lens)) after))
    where
      gap : ℕ
      gap = r.offset - prev_end

      front : List ℕ
      front = subarray file prev_end r.offset

      later : List ℕ
      later = outside file (r.offset + r.length) rs

      front_len : length front ≡ gap
      front_len = length-subarray file prev_end r.offset p (omega arith)

      lens : length skel - c ≡ gap + length later
      lens =
          omega (arith, ap length e, length-drop {0} c skel, length-append front later, front_len)

      piece : subarray_ℤ skel (pos c) (pos (c + gap)) ≡ front
      piece =
          subarray_ℤ-drop skel c gap (omega (arith, lens))
          ∙ rw e (ap (λ n. take n (front ++ later)) (sym front_len) ∙ take-append front later)

      after : drop (c + gap) skel ≡ later
      after =
          rw (← drop-drop c gap skel, e)
            (ap (λ n. drop n (front ++ later)) (sym front_len) ∙ drop-append front later)

      body : List ℕ
      body = subarray file r.offset (r.offset + r.length)

      pcm :
          write_chunks I get verify held.chunks
            (take r.offset file ++ replicate (length file - r.offset) 0)
            r.offset
          ≡ ok
              (take (r.offset + r.length) file ++ replicate (length file - (r.offset + r.length)) 0)
      pcm =
          write_chunks-Holds held.chunks held.parts (take r.offset file) (length file - r.offset)
            r.offset held.holds (omega (arith, length-take {0} r.offset file))
            (omega (
              arith,
              ap length held.tiles,
              length-subarray file r.offset (r.offset + r.length) (omega arith) i,
            ))
          ∙ rw held.tiles (ap ok (file_step file r.offset (r.offset + r.length) (omega arith) i))

  -- A manifest whose pieces are served gives back the file.
  pub reassemble-Held :
      (file : List ℕ) (rs : List SampleRegion) (root : Cid) (m : Manifest) (parts : List (List ℕ))
      → Apart (length file) 0 rs
      → Serves I.sha256 get root (I.encode_manifest m)
      → m.original_length ≡ length file
      → Holds I.sha256 get m.skeleton_chunks parts
      → flatten parts ≡ outside file 0 rs
      → SamplesHeld I laws get file rs m.samples
      → reassemble I get verify root ≡ ok (file, m)
  unfolding reassemble
  reassemble-Held file rs root m parts a served len held tiles samples =
      rw
        (
          fetch_verified-Serves I.sha256 get verify root _ served,
          laws.manifest_back m,
          fetch_parts-Holds m.skeleton_chunks parts held,
          concat_parts-flatten parts,
          tiles,
        )
        (simp len (rw written))
    where
      fresh : length file - 0 ≡ length file
      fresh = omega arith

      written :
          write_samples I get verify m.samples
            (outside file 0 rs)
            (replicate (length file) 0)
            (pos 0)
            0
          ≡ ok file
      written = rw fresh at (
          write_samples-Held file (outside file 0 rs) rs m.samples 0 0 (omega arith) a samples
            (omega arith) refl)
