-- ===== src/Common/Index.antt =====
-- Lists position by position: what is read behind an update, and equality from equal readings.
use Prim.Native.Nat.{ℕ, zero, suc, ◌+◌, ◌-◌, ◌≤◌, ◌<◌}
use mathlib.Core.Path.{◌≡◌, refl, ap, ◌∙◌}
use mathlib.Core.Logic.{inl, inr}
use mathlib.Core.Bool.{true, false}
use mathlib.Core.List.{List, [], ◌∷◌, ◌++◌}
use native.Mathlib.Omega.{arith}
use trackerstream.Common.Tests.{ltb, if◌then◌else◌, Bool-cases, ltb→lt}
use trackerstream.Common.Lists.{length, get_or, take, drop, replicate, length-take, get_or-drop}

pub get_or-append :
    (xs ys : List ℕ) (i d : ℕ)
    → get_or (xs ++ ys) i d
      ≡ (if ltb i (length xs) then get_or xs i d else get_or ys (i - length xs) d)
get_or-append [] ys i d = ground arith
get_or-append (x ∷ xs) ys zero d = ground arith
get_or-append (x ∷ xs) ys (suc i) d = ground (arith, get_or-append xs ys i d)

pub get_or-take : (n i d : ℕ) (xs : List ℕ) → i < n → get_or (take n xs) i d ≡ get_or xs i d
get_or-take zero i d xs h = absurd (let no : ⊥ = omega arith in no)
get_or-take (suc n) i d [] h = refl
get_or-take (suc n) zero d (x ∷ xs) h = refl
get_or-take (suc n) (suc i) d (x ∷ xs) h = get_or-take n i d xs (omega arith)

pub get_or-replicate : (n i a : ℕ) → get_or (replicate n a) i a ≡ a
get_or-replicate zero i a = refl
get_or-replicate (suc n) zero a = refl
get_or-replicate (suc n) (suc i) a = get_or-replicate n i a

-- Lists of one length that read the same at each position are equal.
pub get_or_ext :
    (xs ys : List ℕ)
    → length xs ≡ length ys
    → ((i : ℕ) → i < length xs → get_or xs i 0 ≡ get_or ys i 0)
    → xs ≡ ys
get_or_ext [] [] e h = refl
get_or_ext [] (y ∷ ys) e h = absurd (let no : ⊥ = omega (arith, e) in no)
get_or_ext (x ∷ xs) [] e h = absurd (let no : ⊥ = omega (arith, e) in no)
get_or_ext (x ∷ xs) (y ∷ ys) e h =
    let head : x ≡ y = h 0 (omega arith) in
    let tail : xs ≡ ys = get_or_ext xs ys (omega (arith, e)) (λ i l. h (suc i) (omega arith)) in
    cc (head, tail)

pub get_or_past : (xs : List ℕ) (i d : ℕ) → length xs ≤ i → get_or xs i d ≡ d
get_or_past [] i d h = refl
get_or_past (x ∷ xs) zero d h = absurd (let no : ⊥ = omega arith in no)
get_or_past (x ∷ xs) (suc i) d h = get_or_past xs i d (omega arith)

-- A part put in the place of the bytes from `w` on.
pub get_or_splice :
    (b part : List ℕ) (w x : ℕ)
    → w + length part ≤ length b
    → get_or (take w b ++ (part ++ drop (w + length part) b)) x 0 ≡ (
        if ltb x w
        then get_or b x 0
        else if ltb x (w + length part)
        then get_or part (x - w) 0
        else get_or b x 0)
get_or_splice b part w x h =
    let before = get_or-append (take w b) (part ++ drop (w + length part) b) x 0 in
    let inside = get_or-append part (drop (w + length part) b) (x - length (take w b)) 0 in
    let width : length (take w b) ≡ w = omega (arith, length-take w b) in
    elim (Bool-cases (ltb x w)) [
      | inl early ↦
          let here : ltb x (length (take w b)) ≡ true = ground (arith, width) in
          rw (before, here, early) (get_or-take w x 0 b (ltb→lt x w early))
      | inr late ↦
          let here : ltb x (length (take w b)) ≡ false = ground (arith, width) in
          rw (before, here, late, inside, width)
            (elim (Bool-cases (ltb x (w + length part))) [
              | inl mid ↦
                  let there : ltb (x - w) (length part) ≡ true = ground arith in rw (there, mid)
              | inr out ↦
                  let there : ltb (x - w) (length part) ≡ false = ground arith in
                  rw (there, out)
                    (get_or-drop (w + length part) (x - w - length part) b 0
                      ∙ ap (λ k. get_or b k 0)
                          (let e : w + length part + (x - w - length part) ≡ x = ground arith in e))
            ])
    ]
