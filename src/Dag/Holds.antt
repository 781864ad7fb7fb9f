-- ===== src/Dag/Holds.antt =====
-- What the block map of a build holds, and what a getter over it serves.
use trackerstream.Common.{
  ℕ, ◌≡◌, refl, sym, ap, ◌∙◌, Bool, true, false, none, some, List, [], ◌∷◌, ◌++◌, ◌==◌, arith, All,
  Bool-cases, Option-cases, inl, inr,
}
use trackerstream.Common.Result.{ok}
use trackerstream.Parse.Bytes.{same_text}
use trackerstream.Dag.Store.{
  Cid, Block, BlockGetter, same_cid, lookup_block, add_block, verify_block, fetch_verified,
}

pub same_text_self : (xs : List ℕ) → same_text xs xs ≡ true
unfolding same_text
same_text_self [] = refl
same_text_self (x ∷ xs) = ground (arith, same_text_self xs)

pub same_text-eq : (xs ys : List ℕ) → same_text xs ys ≡ true → xs ≡ ys
unfolding same_text
same_text-eq [] [] h = refl
same_text-eq [] (y ∷ ys) h = cc
same_text-eq (x ∷ xs) [] h = cc
same_text-eq (x ∷ xs) (y ∷ ys) h = ground (arith, same_text-eq xs ys)

==-self : (n : ℕ) → (n == n) ≡ true
==-self n = ground arith

pub same_cid_self : (c : Cid) → same_cid c c ≡ true
unfolding same_cid
same_cid_self c = ground (arith, same_text_self c.digest)

same_cid-digest : (a b : Cid) → same_cid a b ≡ true → a.digest ≡ b.digest
unfolding same_cid
same_cid-digest a b h = ground (arith, same_text-eq a.digest b.digest)

-- Every lookup that succeeds in the first map succeeds in the second, with the same bytes.
abbrev pub Grows : List Block → List Block → Type 0
Grows bs cs = (c : Cid) (x : List ℕ) → lookup_block bs c ≡ some x → lookup_block cs c ≡ some x

module _ (sha256 : List ℕ → List ℕ) where
  -- The bytes under a CID hash to its digest.
  abbrev pub Certified : List Block → Type 0
  Certified bs = All (λ b. b.cid.digest ≡ sha256 b.bytes) bs

  abbrev pub Serves : BlockGetter → Cid → List ℕ → Type 0
  Serves get cid bytes = (get cid ≡ some bytes) × (cid.digest ≡ sha256 bytes)

  -- The getter serves each part under its CID.
  abbrev pub Holds : BlockGetter → List Cid → List (List ℕ) → Type 0
  Holds get [] [] = Unit {0}
  Holds get [] (p ∷ ps) = ⊥
  Holds get (c ∷ cs) [] = ⊥
  Holds get (c ∷ cs) (p ∷ ps) = Serves get c p × Holds get cs ps

  pub fetch_verified-Serves :
      (get : BlockGetter) (verify : Bool) (cid : Cid) (bytes : List ℕ)
      → Serves get cid bytes
      → fetch_verified sha256 cid get verify ≡ ok bytes
  unfolding fetch_verified verify_block
  fetch_verified-Serves get true cid bytes (found, digest) =
      rw (found, digest, same_text_self, ==-self)
  fetch_verified-Serves get false cid bytes (found, digest) = rw found

  lookup-Certified :
      (bs : List Block) (c : Cid) (x : List ℕ)
      → Certified bs
      → lookup_block bs c ≡ some x
      → c.digest ≡ sha256 x
  unfolding lookup_block
  lookup-Certified [] c x h e = cc
  lookup-Certified (b ∷ bs) c x (h, hs) e = elim (Bool-cases (same_cid b.cid c)) [
    | inl same ↦ let bytes : b.bytes ≡ x = cc (rw same at e) in cc (same_cid-digest b.cid c same)
    | inr other ↦ lookup-Certified bs c x hs (rw other at e)
  ]

All-snoc {ℓ} :
    {A : Type ℓ} (P : A → Type 0) {x : A} (xs : List A) → All P xs → P x → All P (xs ++ (x ∷ []))
All-snoc P [] h k = (k, tt)
All-snoc P (y ∷ xs) (h, hs) k = (h, All-snoc P xs hs k)

lookup-append_none :
    (bs : List Block) (b : Block)
    → lookup_block bs b.cid ≡ none
    → lookup_block (bs ++ (b ∷ [])) b.cid ≡ some b.bytes
unfolding lookup_block
lookup-append_none [] b e = rw (same_cid_self b.cid)
lookup-append_none (a ∷ bs) b e = ground (arith, lookup-append_none bs b)

lookup-append_some : (bs : List Block) (b : Block) → Grows bs (bs ++ (b ∷ []))
unfolding lookup_block
lookup-append_some [] b c x e = cc
lookup-append_some (a ∷ bs) b c x e = ground (arith, lookup-append_some bs b c x)

module _ (sha256 : List ℕ → List ℕ) (injective : (a b : List ℕ) → sha256 a ≡ sha256 b → a ≡ b)
    (b : Block) (bs : List Block) (own : b.cid.digest ≡ sha256 b.bytes)
    (certified : Certified sha256 bs) where
  pub add_block-Certified : Certified sha256 (add_block b bs)
  unfolding add_block
  add_block-Certified = elim (Option-cases (lookup_block bs b.cid)) [
    | inl new ↦ rw (new, add_block) (All-snoc _ bs certified own)
    | inr (x, old) ↦ rw (old, add_block) certified
  ]

  pub add_block-lookup : lookup_block (add_block b bs) b.cid ≡ some b.bytes
  unfolding add_block
  add_block-lookup = elim (Option-cases (lookup_block bs b.cid)) [
    | inl new ↦ rw (new, add_block) (lookup-append_none bs b new)
    | inr (x, old) ↦
        let digest : b.cid.digest ≡ sha256 x = lookup-Certified sha256 bs b.cid x certified old in
        rw (old, add_block) (old ∙ ap some (injective x b.bytes (sym digest ∙ own)))
  ]

pub add_block-Grows : (b : Block) (bs : List Block) → Grows bs (add_block b bs)
unfolding add_block
add_block-Grows b bs c x e = elim (Option-cases (lookup_block bs b.cid)) [
  | inl new ↦ rw (new, add_block) (lookup-append_some bs b c x e)
  | inr (y, old) ↦ rw (old, add_block) e
]

pub Holds-Grows :
    (sha256 : List ℕ → List ℕ) (bs cs : List Block) (cids : List Cid) (parts : List (List ℕ))
    → Grows bs cs
    → Holds sha256 (lookup_block bs) cids parts
    → Holds sha256 (lookup_block cs) cids parts
Holds-Grows sha256 bs cs [] [] g h = tt
Holds-Grows sha256 bs cs [] (p ∷ ps) g h = h
Holds-Grows sha256 bs cs (c ∷ cids) [] g h = h
Holds-Grows sha256 bs cs (c ∷ cids) (p ∷ ps) g ((found, digest), h) =
    ((g c p found, digest), Holds-Grows sha256 bs cs cids ps g h)
