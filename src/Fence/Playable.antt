-- ===== src/Fence/Playable.antt =====
-- playableSeconds of packages/ui/src/audio/fence.ts tests the checkpoints' orders alone, and that is enough.
use trackerstream.Common.{
  ℕ, zero, suc, ◌≤◌, ◌<◌, ◌≡◌, refl, sym, ap, ◌∙◌, true, false, Option, none, some, List, [], ◌∷◌,
  ◌==◌, length, get_elem?, arith, Bool-cases, inl, inr,
}
use mathlib.Core.Path.{subst}
use trackerstream.Fence.{
  Checkpoint, Fence, order_at, all_provided, required_at, stall_among, first_stall,
}
use trackerstream.Fence.Floor.{Ascending, count_upto, count_upto-length, order_at-count_upto}
use trackerstream.Fence.Window.{Reached, Reached-Ascending, all_cps, window, union_range-window}
use trackerstream.Fence.Ready.{union_range-all_cps}

-- The order comes before the stall, if there is one.
abbrev pub Before : ℕ → Option ℕ → Type 0
Before order none = Unit {0}
Before order (some stall) = order < stall

count_upto_mono : (cs : List Checkpoint) (a b : ℕ) → a ≤ b → count_upto cs a ≤ count_upto cs b
count_upto_mono [] a b h = omega arith
count_upto_mono (c ∷ cs) a b h = ground (arith, count_upto_mono cs a b)

get-order :
    (low : ℕ) (cs : List Checkpoint) (m : ℕ) (c : Checkpoint)
    → Ascending low cs
    → get_elem? cs m ≡ some c
    → low ≤ c.order
get-order low [] m c a g = cc
get-order low (d ∷ ds) zero c (l, a) g = ground arith
get-order low (d ∷ ds) (suc m) c (l, a) g = let h = get-order d.order ds m c a g in omega arith

get_some :
    (cs : List Checkpoint) (m : ℕ) → m < length cs → (c : Checkpoint) × (get_elem? cs m ≡ some c)
get_some [] m h = absurd (let no : ⊥ = omega arith in no)
get_some (c ∷ cs) zero h = (c, refl)
get_some (c ∷ cs) (suc m) h = get_some cs m (omega arith)

order_at-get :
    (cs : List Checkpoint) (m : ℕ) (c : Checkpoint)
    → get_elem? cs m ≡ some c
    → order_at cs m ≡ c.order
unfolding order_at
order_at-get cs m c g = rw (g, order_at)

-- The last checkpoint at or before an order has the same count as the order.
floor_count :
    (cs : List Checkpoint) (order m : ℕ)
    → Ascending 0 cs
    → count_upto cs order ≡ suc m
    → (c : Checkpoint) × (get_elem? cs m ≡ some c)
      × (c.order ≤ order)
      × (count_upto cs c.order ≡ count_upto cs order)
floor_count cs order m a n =
    let bound = count_upto-length cs order in
    let within : m < length cs = omega arith in
    let (c, g) = get_some cs m within in
    let at = order_at-get cs m c g in
    let here = order_at-count_upto 0 cs order m a within in
    let own = order_at-count_upto 0 cs c.order m a within in
    let low : c.order ≤ order = ground arith in
    let high : m < count_upto cs c.order = ground arith in
    let mono = count_upto_mono cs c.order order low in (c, g, low, omega arith)

some-eq : {c d : Checkpoint} → some c ≡ some d → c ≡ d
some-eq h = cc

stall_among-Before :
    (f : Fence) (low : ℕ) (cs : List Checkpoint) (order m : ℕ) (c : Checkpoint)
    → Ascending low cs
    → Before order (stall_among f cs)
    → get_elem? cs m ≡ some c
    → c.order ≤ order
    → all_provided f.provided (required_at f c.order) ≡ true
unfolding stall_among
stall_among-Before f low [] order m c a b g h = cc
stall_among-Before f low (d ∷ ds) order zero c (l, a) b g h =
    elim (Bool-cases (all_provided f.provided (required_at f d.order))) [
      | inl there ↦
          subst (λ k. all_provided f.provided (required_at f k.order) ≡ true) (some-eq g) there
      | inr missing ↦
          let early : order < d.order = rw missing at b in
          let late = get-order d.order (d ∷ ds) 0 c (omega arith, a) g in
          absurd (let no : ⊥ = omega arith in no)
    ]
stall_among-Before f low (d ∷ ds) order (suc m) c (l, a) b g h =
    elim (Bool-cases (all_provided f.provided (required_at f d.order))) [
      | inl there ↦ stall_among-Before f d.order ds order m c a (rw there at b) g h
      | inr missing ↦
          let early : order < d.order = rw missing at b in
          let late = get-order d.order ds m c a g in absurd (let no : ⊥ = omega arith in no)
    ]

required-count :
    (f : Fence) (a b : ℕ)
    → Ascending 0 f.cps
    → count_upto f.cps a ≡ count_upto f.cps b
    → all_provided f.provided (required_at f a) ≡ all_provided f.provided (required_at f b)
unfolding required_at
required-count f a b s same =
    union_range-window f.provided f a 1 s
    ∙ ap (λ n. all_cps f.provided (window f.cps n 1)) same
    ∙ sym (union_range-window f.provided f b 1 s)

all_cps-nil : (p : List ℕ) (cs : List Checkpoint) → (length cs == 0) ≡ true → all_cps p cs ≡ true
all_cps-nil p [] h = refl
all_cps-nil p (c ∷ cs) h = absurd (let no : ⊥ = ground arith in no)

required-nil :
    (f : Fence) (order : ℕ)
    → Ascending 0 f.cps
    → (length f.cps == 0) ≡ true
    → all_provided f.provided (required_at f order) ≡ true
unfolding required_at
required-nil f order a h = union_range-all_cps f order 1 a (all_cps-nil f.provided f.cps h)

required-Before :
    (f : Fence) (order : ℕ)
    → Ascending 0 f.cps
    → all_provided f.provided (required_at f 0) ≡ true
    → Before order (stall_among f f.cps)
    → (n : ℕ) → count_upto f.cps order ≡ n
    → all_provided f.provided (required_at f order) ≡ true
required-Before f order a start b zero n =
    let mono = count_upto_mono f.cps 0 order (omega arith) in
    required-count f order 0 a (omega arith) ∙ start
required-Before f order a start b (suc m) n =
    let (c, g, low, same) = floor_count f.cps order m a n in
    required-count f order c.order a (sym same) ∙ stall_among-Before f 0 f.cps order m c a b g low

-- In every fence that calls reach: at every order before the one where playableSeconds stops, and at
-- every order where it finds no stop, all samples that the fence requires are provided.
pub first_stall-Before :
    (plan : List Checkpoint) (lookahead : ℕ) (f : Fence) (order : ℕ)
    → Reached plan lookahead f
    → Before order (first_stall f)
    → all_provided f.provided (required_at f order) ≡ true
unfolding first_stall
first_stall-Before plan lookahead f order r b =
    let a = Reached-Ascending plan lookahead f r in
    elim (Bool-cases (length f.cps == 0)) [
      | inl empty ↦ required-nil f order a empty
      | inr some_cps ↦ elim (Bool-cases (all_provided f.provided (required_at f 0))) [
        | inl start ↦ required-Before f order a start (rw (some_cps, start) at b) _ refl
        | inr late ↦
            absurd (let h : order < 0 = rw (some_cps, late) at b in let no : ⊥ = omega arith in no)
      ]
    ]

stall_among-missing :
    (f : Fence) (cs : List Checkpoint) (order : ℕ)
    → stall_among f cs ≡ some order
    → all_provided f.provided (required_at f order) ≡ false
unfolding stall_among
stall_among-missing f [] order h = cc
stall_among-missing f (c ∷ cs) order h = ground (arith, stall_among-missing f cs order)

pub first_stall-missing :
    (f : Fence) (order : ℕ)
    → first_stall f ≡ some order
    → all_provided f.provided (required_at f order) ≡ false
unfolding first_stall
first_stall-missing f order h = ground (arith, stall_among-missing f f.cps order)
