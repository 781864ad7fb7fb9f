-- ===== src/Tests/Codec.antt =====
-- A block codec and a hash with the laws that the DAG of packages/repack/src/dag.ts asks for: they
-- instantiate its parameters in the tests. A value is written as numbers, a list behind its length.
use trackerstream.Common.{
  ℕ, zero, suc, ◌≡◌, refl, Option, none, some, List, [], ◌∷◌, ◌++◌, append_assoc, append-nil,
  length,
}
use trackerstream.Cdc.{CdcConfig}
use trackerstream.Dag.Build.{SampleEntry, PcmRoot, SeekTable, Manifest, Ipld}
use trackerstream.Dag.Store.{Cid}
use trackerstream.Dag.Stored.{IpldLaws}

-- A printer and a reader that takes what was printed off the front.
pub record Codec (A : Type 0) : Type 0 where
  pub print : A → List ℕ
  pub read : List ℕ → Option (A × List ℕ)
  pub back : (a : A) (rest : List ℕ) → read (print a ++ rest) ≡ some (a, rest)

abbrev read_number : List ℕ → Option (ℕ × List ℕ)
read_number [] = none
read_number (x ∷ xs) = some (x, xs)

abbrev pub number : Codec ℕ
number = record { print = λ n. n ∷ []; read = read_number; back = λ a rest. refl }

abbrev and_then : {A B : Type 0} → Option A → (A → Option B) → Option B
and_then none f = none
and_then (some a) f = f a

module _ {A B : Type 0} where
  -- Two values, one behind the other.
  abbrev pub both : Codec A → Codec B → Codec (A × B)
  both c d = record {
    print = λ p. c.print p.0 ++ d.print p.1;
    read = λ xs. and_then (c.read xs) λ p. and_then (d.read p.1) λ q. some ((p.0, q.0), q.1);
    back = λ p rest. rw (
      append_assoc (c.print p.0) (d.print p.1) rest,
      c.back p.0 (d.print p.1 ++ rest),
      d.back p.1 rest,
    );
  }

  -- A value through a function with a left inverse.
  abbrev pub through : (f : A → B) (g : B → A) → ((a : A) → g (f a) ≡ a) → Codec B → Codec A
  through f g back c = record {
    print = λ a. c.print (f a);
    read = λ xs. and_then (c.read xs) λ p. some (g p.0, p.1);
    back = λ a rest. rw (c.back (f a) rest, back a);
  }

module _ {A : Type 0} (c : Codec A) where
  abbrev print_items : List A → List ℕ
  print_items [] = []
  print_items (a ∷ more) = c.print a ++ print_items more

  abbrev read_items : ℕ → List ℕ → Option (List A × List ℕ)
  read_items zero xs = some ([], xs)
  read_items (suc n) xs =
      and_then (c.read xs) λ p. and_then (read_items n p.1) λ q. some (p.0 ∷ q.0, q.1)

  pub read_items-print_items :
      (more : List A) (rest : List ℕ)
      → read_items (length more) (print_items more ++ rest) ≡ some (more, rest)
  read_items-print_items [] rest = refl
  read_items-print_items (a ∷ more) rest = rw (
    append_assoc (c.print a) (print_items more) rest,
    c.back a (print_items more ++ rest),
    read_items-print_items more rest,
  )

  abbrev read_list : List ℕ → Option (List A × List ℕ)
  read_list [] = none
  read_list (n ∷ xs) = read_items n xs

  abbrev pub list : Codec (List A)
  list = record {
    print = λ more. length more ∷ print_items more;
    read = read_list;
    back = read_items-print_items;
  }

  abbrev print_option : Option A → List ℕ
  print_option none = 0 ∷ []
  print_option (some a) = 1 ∷ c.print a

  abbrev read_option : List ℕ → Option (Option A × List ℕ)
  read_option [] = none
  read_option (zero ∷ xs) = some (none, xs)
  read_option (suc n ∷ xs) = and_then (c.read xs) λ p. some (some p.0, p.1)

  pub read_option-print_option :
      (o : Option A) (rest : List ℕ) → read_option (print_option o ++ rest) ≡ some (o, rest)
  read_option-print_option none rest = refl
  read_option-print_option (some a) rest = rw (c.back a rest)

  abbrev pub optional : Codec (Option A)
  optional = record { print = print_option; read = read_option; back = read_option-print_option }

abbrev pub cid : Codec Cid
cid =
    through (λ c. (c.codec, c.digest)) (λ p. record { codec = p.0; digest = p.1 }) (λ c. refl)
      (both number (list number))

abbrev sample_entry : Codec SampleEntry
sample_entry =
    through (λ s. (s.offset, (s.length, s.pcm_root)))
      (λ p. record { offset = p.0; length = p.1.0; pcm_root = p.1.1 }) (λ s. refl)
      (both number (both number cid))

abbrev pcm_root : Codec PcmRoot
pcm_root =
    through (λ r. (r.chunks, r.length)) (λ p. record { chunks = p.0; length = p.1 }) (λ r. refl)
      (both (list cid) number)

abbrev pub cdc_config : Codec CdcConfig
cdc_config =
    through (λ c. (c.min_size, (c.avg_size, c.max_size)))
      (λ p. record { min_size = p.0; avg_size = p.1.0; max_size = p.1.1 }) (λ c. refl)
      (both number (both number number))

abbrev seek_table : Codec SeekTable
seek_table =
    through (λ t. (t.order_seconds, t.checkpoints))
      (λ p. record { order_seconds = p.0; checkpoints = p.1 }) (λ t. refl)
      (both
        (list (
          through (λ o. (o.order, o.seconds)) (λ p. record { order = p.0; seconds = p.1 })
            (λ o. refl) (both number number)))
        (list (
          through (λ k. (k.order, k.samples)) (λ p. record { order = p.0; samples = p.1 })
            (λ k. refl) (both number (list number)))))

abbrev manifest : Codec Manifest
manifest =
    through
      (λ m. (
        m.v,
        (
          m.format,
          (m.original_length, (m.cdc, (m.skeleton_chunks, (m.samples, (m.segment0, m.seek))))),
        ),
      ))
      (λ p. record {
        v = p.0;
        format = p.1.0;
        original_length = p.1.1.0;
        cdc = p.1.1.1.0;
        skeleton_chunks = p.1.1.1.1.0;
        samples = p.1.1.1.1.1.0;
        segment0 = p.1.1.1.1.1.1.0;
        seek = p.1.1.1.1.1.1.1;
      })
      (λ m. refl)
      (both number (
        both (list number) (
          both number (
            both cdc_config (
              both (list cid) (
                both (list sample_entry) (both (optional (list number)) (optional seek_table))))))))

abbrev pub decode : {A : Type 0} → Codec A → List ℕ → Option A
decode c xs = and_then (c.read xs) λ p. some p.0

pub decode-print : {A : Type 0} (c : Codec A) (a : A) → decode c (c.print a) ≡ some a
decode-print c a =
    let h : c.read (c.print a) ≡ some (a, []) = rw (append-nil (c.print a)) at (c.back a []) in rw h

-- Blocks are written with the codecs above, and a block's digest is the block.
pub plain_ipld : Ipld
plain_ipld = record {
  sha256 = λ xs. xs;
  encode_manifest = manifest.print;
  decode_manifest = decode manifest;
  encode_pcm_root = pcm_root.print;
  decode_pcm_root = decode pcm_root;
}

pub plain_laws : IpldLaws plain_ipld
unfolding plain_ipld
plain_laws = record {
  sha256_injective = λ a b e. e;
  manifest_back = decode-print manifest;
  pcm_root_back = decode-print pcm_root;
}
