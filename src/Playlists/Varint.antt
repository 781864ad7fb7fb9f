-- ===== src/Playlists/Varint.antt =====
-- The variable-length numbers of packages/playlists-web/src/wire.ts, link.ts and beacon.ts. The bit
-- operators of the source work on 32 bits: a value is its 32 bits, and `int32` reads them with a sign.
use trackerstream.Common.{
  ℕ, zero, suc, ◌+◌, ◌-◌, ◌*◌, ◌/◌, ◌%◌, ◌^◌, ◌≤◌, ◌<◌, ◌≡◌, refl, ap, ◌∙◌, Bool, true, false,
  Option, none, some, List, [], ◌∷◌, ltb, if◌then◌else◌, length, get_elem?, drop, arith, bit_or,
  Bool-cases, inl, inr,
}
use native.Mathlib.Nat.{suc-mul, add-mul, mul-le-mul_right, mul-le-mul_left}
use trackerstream.Common.Bits.{bit_or_shift, pow_seven, pow_le}
use trackerstream.Common.Int.{ℤ, pos, negsuc}

abbrev pub int32 : ℕ → ℤ
int32 v = if ltb v (2 ^ 31) then pos v else negsuc (2 ^ 32 - v - 1)

-- `x | ((c & 0x7f) << s)`; a shift counts modulo 32.
unfoldable pub or_bits : ℕ → ℕ → ℕ → ℕ
or_bits x c s = bit_or x (c % 128 * 2 ^ (s % 32) % 2 ^ 32)

-- The loop that writes a number; `n >>> 7` on 32 bits.
unfoldable pub uvarint_from : ℕ → ℕ → List ℕ
uvarint_from zero n = n ∷ []
uvarint_from (suc fuel) n =
    let more = uvarint_from fuel (n % 2 ^ 32 / 128) in
    if ltb n 128 then n ∷ [] else (n % 128 + 128) ∷ more

-- A number of 32 bits takes five bytes at most.
unfoldable pub uvarint : ℕ → List ℕ
uvarint n = uvarint_from 5 n

-- `b[i]`, undefined outside.
abbrev pub byte_ℤ : List ℕ → ℤ → Option ℕ
byte_ℤ b (pos i) = get_elem? b i
byte_ℤ b (negsuc i) = none

abbrev pub below : ℤ → ℕ → Bool
below (pos i) n = ltb i n
below (negsuc i) n = true

abbrev pub exceeds : ℤ → ℕ → Bool
exceeds (pos i) n = ltb n i
exceeds (negsuc i) n = false

pub drop-cons :
    (b : List ℕ) (i c : ℕ) (t : List ℕ)
    → drop i b ≡ c ∷ t
    → (get_elem? b i ≡ some c) × (i < length b) × (drop (i + 1) b ≡ t)
drop-cons [] zero c t e = cc
drop-cons [] (suc i) c t e = cc
drop-cons (x ∷ b) zero c t e = (cc, omega arith, cc)
drop-cons (x ∷ b) (suc i) c t e =
    let (at, l, rest) = drop-cons b i c t e in
    (
      at,
      omega arith,
      ap (λ k. drop k (x ∷ b)) (let s : suc i + 1 ≡ suc (i + 1) = omega arith in s) ∙ rest,
    )

-- A number that is written or read in part: the bits read, the rest of the number, and where it stands.
pub record Midway (whole x n s : ℕ) : Type 0 where
  pub sum : x + n * 2 ^ s ≡ whole
  pub small : whole < 2 ^ 31
  pub low : x < 2 ^ s
  pub shift : s < 32

times_le : (n p : ℕ) → 1 ≤ n → p ≤ n * p
times_le zero p h = absurd (omega arith)
times_le (suc n) p h = omega (arith, suc-mul n p)

pow_small : (s : ℕ) → 2 ^ s < 2 ^ 31 → s < 32
pow_small s h = elim (Bool-cases (ltb s 32)) [
  | inl fits ↦ ground arith
  | inr big ↦
      let e : s - 32 + 32 ≡ s = ground arith in
      absurd (let false' : ⊥ = omega (arith, pow_le (s - 32) 32, ap (λ t. 2 ^ t) e) in false')
]

or_bits-Midway : (whole x n s : ℕ) → Midway whole x n s → or_bits x n s ≡ x + n % 128 * 2 ^ s
unfolding or_bits
or_bits-Midway whole x n s m =
    let shift : s % 32 ≡ s = omega (arith, m.shift) in
    let p : ℕ = 2 ^ s in
    let split : n ≡ 128 * (n / 128) + n % 128 = omega arith in
    let expand : n * p ≡ 128 * (n / 128) * p + n % 128 * p =
      ap (λ t. t * p) split ∙ add-mul (128 * (n / 128)) (n % 128) p in
    let fits : n % 128 * p % 2 ^ 32 ≡ n % 128 * p = omega (arith, m.sum, m.small, expand) in
    ap (λ t. bit_or x (n % 128 * 2 ^ t % 2 ^ 32)) shift
    ∙ ap (λ t. bit_or x t) fits
    ∙ bit_or_shift s x (n % 128) m.low

-- The next seven bits.
pub Midway-next :
    (whole x n s : ℕ)
    → Midway whole x n s
    → 128 ≤ n
    → Midway whole (x + n % 128 * 2 ^ s) (n / 128) (s + 7)
Midway-next whole x n s m big =
    let p : ℕ = 2 ^ s in
    let q : ℕ = n / 128 in
    let split : n ≡ 128 * q + n % 128 = omega arith in
    let expand : n * p ≡ 128 * q * p + n % 128 * p =
      ap (λ t. t * p) split ∙ add-mul (128 * q) (n % 128) p in
    let seven : 2 ^ (s + 7) ≡ 128 * p = pow_seven s in
    let shifted : q * 2 ^ (s + 7) ≡ 128 * q * p = ap (λ t. q * t) seven ∙ grind arith in
    let most : n % 128 * p ≤ 127 * p =
      mul-le-mul_right p (let l : n % 128 ≤ 127 = omega arith in l) in
    let wide : 2 ^ (s + 7) ≤ q * 2 ^ (s + 7) = times_le q (2 ^ (s + 7)) (omega arith) in
    record {
      sum = omega (arith, m.sum, expand, shifted);
      small = m.small;
      low = omega (arith, m.low, seven, most);
      shift = pow_small (s + 7) (omega (arith, m.sum, m.small, expand, shifted, wide));
    }

pow_pos : (s : ℕ) → 1 ≤ 2 ^ s
pow_pos s = let e : s + 0 ≡ s = omega arith in omega (arith, pow_le s 0, ap (λ t. 2 ^ t) e)

number_small : (whole x n s : ℕ) → Midway whole x n s → n < 2 ^ 31
number_small whole x n s m = omega (arith, m.sum, m.small, mul-le-mul_left n (pow_pos s))

-- What the writer does next, in the reader's terms.
pub uvarint_from-more :
    (whole x n s fuel : ℕ)
    → Midway whole x n s
    → 128 ≤ n
    → uvarint_from (suc fuel) n ≡ (n % 128 + 128) ∷ uvarint_from fuel (n / 128)
unfolding uvarint_from
uvarint_from-more whole x n s fuel m big =
    let small : n % 2 ^ 32 ≡ n = omega (arith, number_small whole x n s m) in
    let test : ltb n 128 ≡ false = ground arith in rw (test, small) refl

pub uvarint_from_last : (fuel n : ℕ) → n < 128 → uvarint_from (suc fuel) n ≡ n ∷ []
unfolding uvarint_from
uvarint_from_last fuel n h = let test : ltb n 128 ≡ true = ground arith in rw test refl

pub uvarint_from-length : (fuel n : ℕ) → 1 ≤ length (uvarint_from fuel n)
unfolding uvarint_from
uvarint_from-length zero n = omega arith
uvarint_from-length (suc fuel) n = elim (Bool-cases (ltb n 128)) [
  | inl last ↦ rw last (omega arith)
  | inr more ↦ rw more (omega arith)
]

pub uvarint-length : (n : ℕ) → 1 ≤ length (uvarint n)
unfolding uvarint
uvarint-length n = uvarint_from-length 5 n

pub or_bits_next :
    (whole x n s : ℕ) → Midway whole x n s → or_bits x (n % 128 + 128) s ≡ x + n % 128 * 2 ^ s
unfolding or_bits
or_bits_next whole x n s m =
    let same : (n % 128 + 128) % 128 ≡ n % 128 = omega arith in
    ap (λ t. bit_or x (t * 2 ^ (s % 32) % 2 ^ 32)) same ∙ or_bits-Midway whole x n s m

pub or_bits-whole : (whole x n s : ℕ) → Midway whole x n s → n < 128 → or_bits x n s ≡ whole
or_bits-whole whole x n s m last =
    let same : n % 128 ≡ n = omega arith in
    or_bits-Midway whole x n s m ∙ ap (λ t. x + t * 2 ^ s) same ∙ m.sum

pub or_bits_last :
    (whole x n s : ℕ) → Midway whole x n s → n < 128 → int32 (or_bits x n s) ≡ pos whole
or_bits_last whole x n s m last =
    let fits : ltb whole (2 ^ 31) ≡ true = ground (arith, m.small) in
    ap int32 (or_bits-whole whole x n s m last) ∙ rw fits refl

pub Midway-start : (n : ℕ) → n < 2 ^ 31 → Midway n 0 n 0
Midway-start n h = record { sum = omega arith; small = h; low = omega arith; shift = omega arith }
