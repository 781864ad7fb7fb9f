-- ===== src/Dag/Integrity.antt =====
-- Verified reassembly of dag.ts depends on the root alone, whoever serves the blocks.
use trackerstream.Common.{ℕ, ◌≡◌, refl, sym, ◌∙◌, true, List, [], ◌∷◌, arith}
use trackerstream.Common.Int.{ℤ}
use trackerstream.Common.Result.{Result, ok, err, ◌>>=◌, Agree}
use trackerstream.Dag.Store.{Fault, Cid, BlockGetter, verify_block, fetch_verified}
use trackerstream.Dag.Build.{SampleEntry, Ipld}
use trackerstream.Dag.Reassemble.{fetch_parts, write_chunks, write_samples, reassemble}
use trackerstream.Dag.Holds.{same_text-eq}
use trackerstream.Dag.Stored.{IpldLaws}

-- The rest of two runs agree where the first steps do and give equal values.
Agree-bind :
    {A B : Type 0} (m n : Result Fault A) (f g : A → Result Fault B)
    → Agree m n
    → ((a : A) → Agree (f a) (g a))
    → Agree (m >>= f) (n >>= g)
Agree-bind (ok a) (ok a') f g h k x y p q =
    let same : a ≡ a' = h a a' refl refl in k a x y p (rw same q)
Agree-bind (ok a) (err e) f g h k x y p q = cc
Agree-bind (err e) n f g h k x y p q = cc

Agree-self : {A : Type 0} (m : Result Fault A) → Agree m m
Agree-self m x y p q = cc

module _ (I : Ipld) where
  -- A verified fetch returns bytes that hash to the CID's digest.
  pub fetch_verified-digest :
      (cid : Cid) (get : BlockGetter) (x : List ℕ)
      → fetch_verified I.sha256 cid get true ≡ ok x
      → I.sha256 x ≡ cid.digest
  unfolding fetch_verified verify_block
  fetch_verified-digest cid get x e = ground (arith, same_text-eq (I.sha256 x) cid.digest)

  module _ (laws : IpldLaws I) (get get' : BlockGetter) where
    fetch_verified-Agree :
        (cid : Cid)
        → Agree (fetch_verified I.sha256 cid get true) (fetch_verified I.sha256 cid get' true)
    fetch_verified-Agree cid x y p q =
        laws.sha256_injective x y
          (fetch_verified-digest cid get x p ∙ sym (fetch_verified-digest cid get' y q))

    fetch_parts-Agree :
        (cs : List Cid) → Agree (fetch_parts I get true cs) (fetch_parts I get' true cs)
    unfolding fetch_parts
    fetch_parts-Agree [] = Agree-self (ok [])
    fetch_parts-Agree (c ∷ cs) =
        Agree-bind _ _ _ _ (fetch_verified-Agree c)
          λ part. Agree-bind _ _ _ _ (fetch_parts-Agree cs) λ parts. Agree-self (ok (part ∷ parts))

    write_chunks-Agree :
        (cs : List Cid) (out : List ℕ) (w : ℕ)
        → Agree (write_chunks I get true cs out w) (write_chunks I get' true cs out w)
    unfolding write_chunks
    write_chunks-Agree [] out w = Agree-self (ok out)
    write_chunks-Agree (c ∷ cs) out w =
        Agree-bind _ _ _ _ (fetch_verified-Agree c)
          λ chunk. Agree-bind _ _ _ _ (Agree-self _) λ out'. write_chunks-Agree cs out' _

    write_samples-Agree :
        (ss : List SampleEntry) (skel out : List ℕ) (c : ℤ) (prev_end : ℕ)
        → Agree
            (write_samples I get true ss skel out c prev_end)
            (write_samples I get' true ss skel out c prev_end)
    unfolding write_samples
    write_samples-Agree [] skel out c prev_end = Agree-self _
    write_samples-Agree (s ∷ ss) skel out c prev_end = Agree-bind _ _ _ _ (Agree-self _) λ out'.
        Agree-bind _ _ _ _ (fetch_verified-Agree s.pcm_root) λ bytes.
          Agree-bind _ _ _ _ (Agree-self _) λ root.
            Agree-bind _ _ _ _ (write_chunks-Agree root.chunks out' s.offset)
              λ out''. write_samples-Agree ss skel out'' _ _

    -- For one root, two verified reassemblies that succeed return the same bytes and manifest,
    -- whatever their getters serve: a block that was tampered with makes the call fail.
    pub reassemble-Agree :
        (root : Cid) → Agree (reassemble I get true root) (reassemble I get' true root)
    unfolding reassemble
    reassemble-Agree root = Agree-bind _ _ _ _ (fetch_verified-Agree root) λ bytes.
        Agree-bind _ _ _ _ (Agree-self _) λ m.
          Agree-bind _ _ _ _ (fetch_parts-Agree m.skeleton_chunks)
            λ parts. Agree-bind _ _ _ _ (write_samples-Agree m.samples _ _ _ _) λ out. Agree-self _
