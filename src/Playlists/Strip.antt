-- ===== src/Playlists/Strip.antt =====
-- The string operations of parseLink and buildLink in packages/playlists-web/src/link.ts.
use trackerstream.Common.{
  ℕ, zero, suc, ◌≡◌, refl, Bool, true, false, not, ◌&&◌, ◌||◌, none, some, List, [], ◌∷◌, ◌++◌,
  ◌==◌, length, replicate, All, arith, Bool-cases, inl, inr,
}
use trackerstream.Playlists.Url.{
  is_alnum, is_space, strip_end, starts_with, split_hash, all_alnum, to_url, from_url, each, trim,
  strip_start,
}

-- No unit of the list is one of those.
abbrev pub Free : (ℕ → Bool) → List ℕ → Type 0
Free p cs = All (λ c. p c ≡ false) cs

abbrev none_of : (ℕ → Bool) → List ℕ → Bool
none_of p [] = true
none_of p (c ∷ cs) = not (p c) && none_of p cs

-- For a fixed text.
pub none_of-Free : (p : ℕ → Bool) (xs : List ℕ) → none_of p xs ≡ true → Free p xs
none_of-Free p [] h = tt
none_of-Free p (x ∷ xs) h = elim (Bool-cases (p x)) [
  | inl hit ↦ cc (rw hit at h)
  | inr miss ↦ (miss, none_of-Free p xs (rw miss at h))
]

pub Free-append : (p : ℕ → Bool) (xs ys : List ℕ) → Free p xs → Free p ys → Free p (xs ++ ys)
Free-append p [] ys h k = k
Free-append p (x ∷ xs) ys (h, hs) k = (h, Free-append p xs ys hs k)

pub strip_end-Free : (p : ℕ → Bool) (xs : List ℕ) → Free p xs → strip_end p xs ≡ xs
unfolding strip_end
strip_end-Free p [] h = refl
strip_end-Free p (x ∷ []) (h, hs) = rw h refl
strip_end-Free p (x ∷ y ∷ ys) (h, hs) = rw (strip_end-Free p (y ∷ ys) hs) refl

strip_end-replicate : (p : ℕ → Bool) (k c : ℕ) → p c ≡ true → strip_end p (replicate k c) ≡ []
unfolding strip_end
strip_end-replicate p zero c h = refl
strip_end-replicate p (suc k) c h = rw (strip_end-replicate p k c h, h) refl

pub strip_end-append :
    (p : ℕ → Bool) (xs : List ℕ) (k c : ℕ)
    → Free p xs
    → p c ≡ true
    → strip_end p (xs ++ replicate k c) ≡ xs
unfolding strip_end
strip_end-append p [] k c h e = strip_end-replicate p k c e
strip_end-append p (x ∷ []) k c (h, hs) e = rw (strip_end-replicate p k c e, h, strip_end) refl
strip_end-append p (x ∷ y ∷ ys) k c (h, hs) e =
    let ih : strip_end p (y ∷ (ys ++ replicate k c)) ≡ y ∷ ys =
      strip_end-append p (y ∷ ys) k c hs e in
    rw ih refl

pub trim-Free : (x : ℕ) (xs : List ℕ) → Free is_space (x ∷ xs) → trim (x ∷ xs) ≡ x ∷ xs
unfolding trim strip_start
trim-Free x xs (h, hs) = rw h (strip_end-Free is_space (x ∷ xs) (h, hs))

pub starts_with-append : (ps cs : List ℕ) → starts_with ps (ps ++ cs) ≡ true
unfolding starts_with
starts_with-append [] cs = refl
starts_with-append (p ∷ ps) cs = ground (arith, starts_with-append ps cs)

pub split_hash-append :
    (xs ys : List ℕ) → Free (λ c. c == 35) xs → split_hash (xs ++ (35 ∷ ys)) ≡ some (xs, ys)
unfolding split_hash
split_hash-append [] ys h = refl
split_hash-append (x ∷ xs) ys (h, hs) = rw (h, split_hash-append xs ys hs) refl

pub split_hash-Free : (xs : List ℕ) → Free (λ c. c == 35) xs → split_hash xs ≡ none
unfolding split_hash
split_hash-Free [] h = refl
split_hash-Free (x ∷ xs) (h, hs) = rw (h, split_hash-Free xs hs) refl

-- Letters and digits are none of the units that the parser looks for.
abbrev pub apart : ℕ → Bool
apart c = is_space c || (c == 35 || (c == 47 || (c == 45 || (c == 95 || c == 61))))

alnum_apart : (c : ℕ) → is_alnum c ≡ true → apart c ≡ false
alnum_apart c h = ground arith

pub all_alnum-Free : (cs : List ℕ) → all_alnum cs ≡ true → Free apart cs
unfolding all_alnum
all_alnum-Free [] h = tt
all_alnum-Free (c ∷ cs) h = elim (Bool-cases (is_alnum c)) [
  | inl one ↦ (alnum_apart c one, all_alnum-Free cs (rw one at h))
  | inr other ↦ cc (rw other at h)
]

-- A test that is part of another.
pub Free-weaken :
    (p q : ℕ → Bool) (cs : List ℕ) → ((c : ℕ) → p c ≡ false → q c ≡ false) → Free p cs → Free q cs
Free-weaken p q [] w h = tt
Free-weaken p q (c ∷ cs) w (h, hs) = (w c h, Free-weaken p q cs w hs)

-- The letters of base64, without the padding.
abbrev pub in_alphabet : ℕ → Bool
in_alphabet c = is_alnum c || (c == 43 || c == 47)

abbrev pub Alphabet : List ℕ → Type 0
Alphabet cs = All (λ c. in_alphabet c ≡ true) cs

pub from_url-to_url : (cs : List ℕ) → Alphabet cs → each from_url (each to_url cs) ≡ cs
unfolding each
from_url-to_url [] h = refl
from_url-to_url (c ∷ cs) (h, hs) =
    let one : from_url (to_url c) ≡ c = ground arith in rw (one, from_url-to_url cs hs) refl

-- What a link's fragment is free of.
abbrev pub fragment_apart : ℕ → Bool
fragment_apart c = is_space c || (c == 35 || c == 61)

to_url-apart : (c : ℕ) → in_alphabet c ≡ true → fragment_apart (to_url c) ≡ false
to_url-apart c h = ground arith

pub to_url-Free : (cs : List ℕ) → Alphabet cs → Free fragment_apart (each to_url cs)
unfolding each
to_url-Free [] h = tt
to_url-Free (c ∷ cs) (h, hs) = (to_url-apart c h, to_url-Free cs hs)

pub each-append : (f : ℕ → ℕ) (xs ys : List ℕ) → each f (xs ++ ys) ≡ each f xs ++ each f ys
unfolding each
each-append f [] ys = refl
each-append f (x ∷ xs) ys = rw (each-append f xs ys) refl

pub each-replicate : (f : ℕ → ℕ) (k c : ℕ) → f c ≡ c → each f (replicate k c) ≡ replicate k c
unfolding each
each-replicate f zero c h = refl
each-replicate f (suc k) c h = rw (each-replicate f k c h, h) refl

pub length-each : (f : ℕ → ℕ) (xs : List ℕ) → length (each f xs) ≡ length xs
unfolding each
length-each f [] = refl
length-each f (x ∷ xs) = omega (arith, length-each f xs)
