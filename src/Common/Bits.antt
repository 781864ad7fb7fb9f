-- ===== src/Common/Bits.antt =====
-- The inclusive or of numbers whose digits do not meet, and powers of two.
use Prim.Native.Nat.{
  ℕ, zero, suc, ◌+◌, ◌*◌, ◌/◌, ◌%◌, ◌^◌, ◌≤◌, ◌<◌, max, bit_or, digits, bit_or-bitwise,
}
use mathlib.Core.Path.{◌≡◌, refl, ap, ◌∙◌}
use native.Mathlib.Omega.{arith}
use native.Mathlib.Numerals.{towards_suc}
use native.Mathlib.Nat.{pow-suc}

abbrev or_digits : ℕ → ℕ → ℕ → ℕ
or_digits n a b = digits (λ b. b) max n a b

or_digits_fuel : (n m a b : ℕ) → a ≤ n → a ≤ m → or_digits n a b ≡ or_digits m a b
or_digits_fuel zero zero a b p q = refl
or_digits_fuel zero (suc m) zero b p q = refl
or_digits_fuel zero (suc m) (suc a) b p q = absurd (omega arith)
or_digits_fuel (suc n) zero zero b p q = refl
or_digits_fuel (suc n) zero (suc a) b p q = absurd (omega arith)
or_digits_fuel (suc n) (suc m) zero b p q = refl
or_digits_fuel (suc n) (suc m) (suc a) b p q =
    omega (arith, or_digits_fuel n m (suc a / 2) (b / 2) (omega arith) (omega arith))

pub bit_or-zero : (b : ℕ) → bit_or 0 b ≡ b
bit_or-zero b = bit_or-bitwise 0 b

bit_or_step : (a b : ℕ) → bit_or a b ≡ bit_or (a / 2) (b / 2) * 2 + max (a % 2) (b % 2)
bit_or_step zero b = omega (arith, bit_or-zero b, bit_or-zero (b / 2))
bit_or_step (suc a) b = omega (
  arith,
  bit_or-bitwise (suc a) b,
  bit_or-bitwise (suc a / 2) (b / 2),
  or_digits_fuel a (suc a / 2) (suc a / 2) (b / 2) (omega arith) (omega arith),
)

pub pow_double : (k : ℕ) → 2 ^ suc k ≡ 2 * 2 ^ k
pow_double k = omega (arith, pow-suc 2 k)

pub pow_seven : (k : ℕ) → 2 ^ (k + 7) ≡ 128 * 2 ^ k
pow_seven k = simp towards_suc (omega arith)

zero_plus : (k : ℕ) → k ≡ 0 + k
zero_plus k = omega arith

ap_le : {m n : ℕ} → m ≡ n → m ≤ n
ap_le e = omega arith

pub pow_le : (j k : ℕ) → 2 ^ k ≤ 2 ^ (j + k)
pow_le zero k = ap_le (ap (λ t. 2 ^ t) (zero_plus k))
pow_le (suc j) k =
    let e : suc j + k ≡ suc (j + k) = omega arith in
    omega (arith, pow_le j k, pow_double (j + k), ap (λ t. 2 ^ t) e)

-- Digits above those of the first number.
pub bit_or_shift : (k x y : ℕ) → x < 2 ^ k → bit_or x (y * 2 ^ k) ≡ x + y * 2 ^ k
bit_or_shift zero x y h =
    let nothing : x ≡ 0 = omega arith in
    rw nothing (bit_or-zero (y * 2 ^ 0) ∙ zero_plus (y * 2 ^ 0))
bit_or_shift (suc k) x y h =
    let p : ℕ = 2 ^ k in
    let double = pow_double k in
    let q : ℕ = y * 2 ^ k in
    let whole : y * 2 ^ suc k ≡ 2 * q = ap (λ t. y * t) double ∙ omega arith in
    let half : (2 * q) / 2 ≡ q = omega arith in
    let ih = bit_or_shift k (x / 2) y (omega (arith, double)) in
    let step : bit_or x (2 * q) ≡ bit_or (x / 2) q * 2 + max (x % 2) ((2 * q) % 2) =
      bit_or_step x (2 * q) ∙ ap (λ t. bit_or (x / 2) t * 2 + max (x % 2) ((2 * q) % 2)) half in
    ap (λ t. bit_or x t) whole ∙ omega (arith, step, ih, whole)
