-- ===== src/Fence/Window.antt =====
-- The fence of packages/ui/src/audio/fence.ts holds playback until the samples of its window are there.
use trackerstream.Common.{
  ℕ, zero, suc, ◌+◌, ◌-◌, ◌≤◌, ◌<◌, min, ◌≡◌, refl, sym, ap, ◌∙◌, Bool, true, false, ◌&&◌, some,
  List, [], ◌∷◌, ◌++◌, ◌==◌, length, get_elem?, take, drop, arith,
}
use mathlib.Core.Path.{subst}
use trackerstream.Fence.{
  Checkpoint, Fence, new_fence, has, add_to, provide, floor_idx, all_provided, add_all, gather,
  first_index, index_past, union_range, ready,
}
use trackerstream.Fence.Floor.{
  Ascending, count_upto, last_index, sort_checkpoints-Ascending, floor_idx_lem,
}

-- The fences that calls reach from a fresh one.
pub data Reached (plan : List Checkpoint) (lookahead : ℕ) : Fence → Type 0 where
  fresh : Reached plan lookahead (new_fence plan lookahead)
  provided_more :
      (f : Fence) (s : ℕ) → Reached plan lookahead f → Reached plan lookahead (provide f s)
  asked :
      (f : Fence) (order : ℕ) → Reached plan lookahead f → Reached plan lookahead (ready f order).1

ready-cps : (f : Fence) (order : ℕ) → (ready f order).1.cps ≡ f.cps
unfolding ready
ready-cps f order = ground arith

pub Reached-Ascending :
    (plan : List Checkpoint) (k : ℕ) (f : Fence) → Reached plan k f → Ascending 0 f.cps
unfolding new_fence provide
Reached-Ascending plan k f fresh = sort_checkpoints-Ascending plan
Reached-Ascending plan k f (provided_more g s r) = Reached-Ascending plan k g r
Reached-Ascending plan k f (asked g order r) =
    subst (Ascending 0) (sym (ready-cps g order)) (Reached-Ascending plan k g r)

-- Every sample of every checkpoint is there.
abbrev pub all_cps : List ℕ → List Checkpoint → Bool
all_cps p [] = true
all_cps p (c ∷ cs) = all_provided p c.samples && all_cps p cs

has-all_provided :
    (p set : List ℕ) (s : ℕ) → has set s ≡ true → all_provided p set ≡ true → has p s ≡ true
unfolding has all_provided
has-all_provided p [] s h a = cc
has-all_provided p (x ∷ xs) s h a = ground (arith, has-all_provided p xs s)

all_provided-snoc :
    (p set : List ℕ) (s : ℕ) → all_provided p (set ++ (s ∷ [])) ≡ (all_provided p set && has p s)
unfolding all_provided
all_provided-snoc p [] s = ground arith
all_provided-snoc p (x ∷ xs) s = ground (arith, all_provided-snoc p xs s)

all_provided-add_to :
    (p set : List ℕ) (s : ℕ) → all_provided p (add_to set s) ≡ (all_provided p set && has p s)
unfolding add_to
all_provided-add_to p set s = ground (arith, has-all_provided p set s, all_provided-snoc p set s)

and_assoc : (a b c : Bool) → ((a && b) && c) ≡ (a && (b && c))
and_assoc true b c = refl
and_assoc false b c = refl

and_true : (a : Bool) → (a && true) ≡ a
and_true true = refl
and_true false = refl

all_provided-add_all :
    (p set ss : List ℕ)
    → all_provided p (add_all set ss) ≡ (all_provided p set && all_provided p ss)
unfolding add_all all_provided
all_provided-add_all p set [] = sym (and_true (all_provided p set))
all_provided-add_all p set (s ∷ ss) =
    all_provided-add_all p (add_to set s) ss
    ∙ ap (λ b. b && all_provided p ss) (all_provided-add_to p set s)
    ∙ and_assoc (all_provided p set) (has p s) (all_provided p ss)

all_provided-gather :
    (p : List ℕ) (cs : List Checkpoint) (set : List ℕ)
    → all_provided p (gather cs set) ≡ (all_provided p set && all_cps p cs)
unfolding gather
all_provided-gather p [] set = sym (and_true (all_provided p set))
all_provided-gather p (c ∷ cs) set =
    all_provided-gather p cs (add_all set c.samples)
    ∙ ap (λ b. b && all_cps p cs) (all_provided-add_all p set c.samples)
    ∙ and_assoc (all_provided p set) (all_provided p c.samples) (all_cps p cs)

-- The checkpoints from the floor of `order` on to `more` behind it.
abbrev pub window : List Checkpoint → ℕ → ℕ → List Checkpoint
window cps n more = take (min (n + more) (length cps) - (n - 1)) (drop (n - 1) cps)

past-last_index : (n more : ℕ) → index_past (last_index n) more ≡ n + more
past-last_index zero more = omega arith
past-last_index (suc m) more = omega arith

first-last_index : (n : ℕ) → first_index (last_index n) ≡ n - 1
first-last_index zero = refl
first-last_index (suc m) = omega arith

pub union_range-window :
    (p : List ℕ) (f : Fence) (order more : ℕ)
    → Ascending 0 f.cps
    → all_provided p (union_range f (floor_idx f order) more)
      ≡ all_cps p (window f.cps (count_upto f.cps order) more)
unfolding union_range floor_idx all_provided
union_range-window p f order more a =
    rw
      (
        floor_idx_lem f.cps order a,
        past-last_index (count_upto f.cps order) more,
        first-last_index (count_upto f.cps order),
      )
      (all_provided-gather p (window f.cps (count_upto f.cps order) more) [])

pub all_cps-get :
    (p : List ℕ) (cs : List Checkpoint) (lo n j : ℕ) (c : Checkpoint)
    → all_cps p (take n (drop lo cs)) ≡ true
    → get_elem? cs j ≡ some c
    → lo ≤ j
    → j < lo + n
    → all_provided p c.samples ≡ true
all_cps-get p [] lo n j c h g l u = cc
all_cps-get p (d ∷ ds) zero zero j c h g l u = absurd (let no : ⊥ = omega arith in no)
all_cps-get p (d ∷ ds) zero (suc n) zero c h g l u = ground arith
all_cps-get p (d ∷ ds) zero (suc n) (suc j) c h g l u = ground (arith, all_cps-get p ds 0 n j c)
all_cps-get p (d ∷ ds) (suc lo) n zero c h g l u = absurd (let no : ⊥ = omega arith in no)
all_cps-get p (d ∷ ds) (suc lo) n (suc j) c h g l u =
    all_cps-get p ds lo n j c h g (omega arith) (omega arith)

pub get-length :
    (cs : List Checkpoint) (j : ℕ) (c : Checkpoint) → get_elem? cs j ≡ some c → j < length cs
get-length [] j c g = cc
get-length (d ∷ ds) zero c g = omega arith
get-length (d ∷ ds) (suc j) c g = let h = get-length ds j c g in omega arith

pub all_provided-nil : (p ss : List ℕ) → (length ss == 0) ≡ true → all_provided p ss ≡ true
unfolding all_provided
all_provided-nil p [] h = refl
all_provided-nil p (s ∷ ss) h = absurd (let no : ⊥ = ground arith in no)

all_cps-take :
    (p : List ℕ) (cs : List Checkpoint) (m n : ℕ)
    → m ≤ n
    → all_cps p (take n cs) ≡ true
    → all_cps p (take m cs) ≡ true
all_cps-take p cs zero n h a = refl
all_cps-take p [] (suc m) n h a = refl
all_cps-take p (c ∷ cs) (suc m) zero h a = absurd (let no : ⊥ = omega arith in no)
all_cps-take p (c ∷ cs) (suc m) (suc n) h a = ground (arith, all_cps-take p cs m n)

pub all_cps-window :
    (p : List ℕ) (cs : List Checkpoint) (n more : ℕ)
    → all_cps p (window cs n (1 + more)) ≡ true
    → all_cps p (window cs n 1) ≡ true
all_cps-window p cs n more a =
    all_cps-take p (drop (n - 1) cs) _ (min (n + (1 + more)) (length cs) - (n - 1)) (omega arith) a
