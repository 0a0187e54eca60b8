-- ===== src/Base/Bits.antt =====
-- The operations on binary digits: one equation for the lowest digit of each, fields, masks and
-- bounds, as arithmetic.
use Prim.Native.Nat.{
  ℕ, zero, suc, ◌+◌, ◌-◌, ◌*◌, ◌/◌, ◌%◌, ◌^◌, ◌≤◌, ◌<◌, min, max, differ, digits, bitwise, bit_and,
  bit_or, bit_xor, bit_and-bitwise, bit_or-bitwise, bit_xor-bitwise,
}
use mathlib.Core.Path.{◌≡◌, refl, sym, ap, ◌∙◌}
use native.Mathlib.Nat.{le_refl, pow-suc, div-div-eq-div-mul, one-le-pow}
use native.Mathlib.Omega.{arith}

module _ (z : ℕ → ℕ) (f : ℕ → ℕ → ℕ) where
  digits-zero : (fuel b : ℕ) → digits z f fuel 0 b ≡ z b
  digits-zero zero b = refl
  digits-zero (suc fuel) b = refl

  -- Fuel that covers the first number is as good as any other.
  digits_agree : (b a m n : ℕ) → a ≤ m → a ≤ n → digits z f m a b ≡ digits z f n a b
  digits_agree b zero m n p q = digits-zero m b ∙ sym (digits-zero n b)
  digits_agree b (suc a) (suc m) (suc n) p q =
      ap (λ (t : ℕ). t * 2 + f (suc a % 2) (b % 2))
        (digits_agree (b / 2) (suc a / 2) m n (omega arith) (omega arith))
  digits_agree b (suc a) zero n p q = absurd (omega arith)
  digits_agree b (suc a) (suc m) zero p q = absurd (omega arith)

  -- The equation of a bitwise operation at the lowest digit.
  bitwise_lowest :
      (b a : ℕ)
      → bitwise z f (suc a) b ≡ bitwise z f (suc a / 2) (b / 2) * 2 + f (suc a % 2) (b % 2)
  bitwise_lowest b a =
      ap (λ (t : ℕ). t * 2 + f (suc a % 2) (b % 2))
        (digits_agree (b / 2) (suc a / 2) a (suc a / 2) (omega arith) (le_refl _))

pub bit_or-digit : (a b : ℕ) → bit_or a b ≡ bit_or (a / 2) (b / 2) * 2 + max (a % 2) (b % 2)
bit_or-digit zero b = simp bit_or-bitwise (omega arith)
bit_or-digit (suc a) b = simp bit_or-bitwise (bitwise_lowest (λ y. y) max b a)

pub bit_and-digit : (a b : ℕ) → bit_and a b ≡ bit_and (a / 2) (b / 2) * 2 + min (a % 2) (b % 2)
bit_and-digit zero b = simp bit_and-bitwise (omega arith)
bit_and-digit (suc a) b = simp bit_and-bitwise (bitwise_lowest (λ y. 0) min b a)

pub bit_xor-digit : (a b : ℕ) → bit_xor a b ≡ bit_xor (a / 2) (b / 2) * 2 + differ (a % 2) (b % 2)
bit_xor-digit zero b = simp bit_xor-bitwise (omega arith)
bit_xor-digit (suc a) b = simp bit_xor-bitwise (bitwise_lowest (λ y. y) differ b a)

bit_and_nothing : (n a : ℕ) → a ≤ n → bit_and a 0 ≡ 0
bit_and_nothing n zero h = refl
bit_and_nothing zero (suc a) h = absurd (omega arith)
bit_and_nothing (suc n) (suc a) h =
    omega (arith, bit_and-digit (suc a) 0, bit_and_nothing n (suc a / 2) (omega arith))

differ_below : (a b : ℕ) → a < 2 → b < 2 → differ a b < 2
differ_below zero b h l = l
differ_below (suc zero) zero h l = omega arith
differ_below (suc zero) (suc zero) h l = omega arith
differ_below (suc zero) (suc (suc b)) h l = absurd (omega arith)
differ_below (suc (suc a)) b h l = absurd (omega arith)

-- On numbers of `k` digits the operations stay within `k` digits.
pub bit_xor_below : (k a b : ℕ) → a < 2 ^ k → b < 2 ^ k → bit_xor a b < 2 ^ k
bit_xor_below zero a b h l =
    let x : a ≡ 0 = omega arith in let y : b ≡ 0 = omega arith in rw (x, y) (omega arith)
bit_xor_below (suc k) a b h l =
    let ih =
      bit_xor_below k (a / 2) (b / 2) (omega (arith, pow-suc 2 k)) (omega (arith, pow-suc 2 k)) in
    ground (
      arith,
      ih,
      bit_xor-digit a b,
      differ_below (a % 2) (b % 2) (omega arith) (omega arith),
      pow-suc 2 k,
    )

pub bit_or_below : (k a b : ℕ) → a < 2 ^ k → b < 2 ^ k → bit_or a b < 2 ^ k
bit_or_below zero a b h l =
    let x : a ≡ 0 = omega arith in let y : b ≡ 0 = omega arith in rw (x, y) (omega arith)
bit_or_below (suc k) a b h l =
    let ih =
      bit_or_below k (a / 2) (b / 2) (omega (arith, pow-suc 2 k)) (omega (arith, pow-suc 2 k)) in
    ground (arith, ih, bit_or-digit a b, pow-suc 2 k)

-- Whatever the first operand, a mask of `k` digits leaves no more.
pub bit_and_below : (k a b : ℕ) → b < 2 ^ k → bit_and a b < 2 ^ k
bit_and_below zero a b h =
    let y : b ≡ 0 = omega arith in rw y (omega (arith, bit_and_nothing a a (le_refl a)))
bit_and_below (suc k) a b h =
    let ih = bit_and_below k (a / 2) (b / 2) (omega (arith, pow-suc 2 k)) in
    ground (arith, ih, bit_and-digit a b, pow-suc 2 k)

bit_or-zero : (n a : ℕ) → a ≤ n → bit_or a 0 ≡ a
bit_or-zero n zero h = refl
bit_or-zero zero (suc a) h = absurd (omega arith)
bit_or-zero (suc n) (suc a) h =
    omega (arith, bit_or-digit (suc a) 0, bit_or-zero n (suc a / 2) (omega arith))

double_shift : (m k : ℕ) → m * 2 ^ suc k ≡ 2 * (m * 2 ^ k)
double_shift m k = omega (arith, ap (λ (power : ℕ). m * power) (pow-suc 2 k))

-- `(q << k) | r` is a sum when `r` fits `k` bits.
pub bit_or_fields : (k q r : ℕ) → r < 2 ^ k → bit_or (q * 2 ^ k) r ≡ q * 2 ^ k + r
bit_or_fields zero q r fits =
    let none : r ≡ 0 = omega arith in
    let one : q * 2 ^ 0 ≡ q = omega arith in
    rw (none, one) (omega (arith, bit_or-zero q q (le_refl q)))
bit_or_fields (suc k) q r fits = ground (
  arith,
  bit_or-digit (q * 2 ^ suc k) r,
  double_shift q k,
  bit_or_fields k q (r / 2) (omega (arith, pow-suc 2 k)),
)

-- A mask moved up by `k` digits reads the digits from there on.
pub bit_and-shifted : (k a m : ℕ) → bit_and a (m * 2 ^ k) ≡ bit_and (a / 2 ^ k) m * 2 ^ k
bit_and-shifted zero a m =
    let one : m * 2 ^ 0 ≡ m = omega arith in
    let same : a / 2 ^ 0 ≡ a = omega arith in rw (one, same) (omega arith)
bit_and-shifted (suc k) a m =
    let even : m * 2 ^ suc k / 2 ≡ m * 2 ^ k = omega (arith, double_shift m k) in
    let digit : m * 2 ^ suc k % 2 ≡ 0 = omega (arith, double_shift m k) in
    let deeper : a / 2 ^ suc k ≡ a / 2 / 2 ^ k =
      (let twice : 2 ^ suc k ≡ 2 * 2 ^ k = omega (arith, pow-suc 2 k) in
        rw twice (sym (div-div-eq-div-mul a 2 (2 ^ k)))) in
    omega (
      arith,
      bit_and-digit a (m * 2 ^ suc k),
      ap (λ (t : ℕ). bit_and (a / 2) t) even,
      bit_and-shifted k (a / 2) m,
      ap (λ (t : ℕ). bit_and t m * 2 ^ suc k) deeper,
      double_shift (bit_and (a / 2 / 2 ^ k) m) k,
      digit,
    )

bit_and-fields : (k q r : ℕ) → r < 2 ^ k → bit_and (q * 2 ^ k + r) (2 ^ k - 1) ≡ r
bit_and-fields zero q r fits =
    let none : r ≡ 0 = omega arith in
    let one : q * 2 ^ 0 ≡ q = omega arith in
    rw (none, one) (bit_and_nothing (q + 0) (q + 0) (le_refl _))
bit_and-fields (suc k) q r fits = ground (
  arith,
  bit_and-digit (q * 2 ^ suc k + r) (2 ^ suc k - 1),
  double_shift q k,
  pow-suc 2 k,
  bit_and-fields k q (r / 2) (omega (arith, pow-suc 2 k)),
)

-- A mask of `k` ones is the remainder by `2 ^ k`.
pub bit_and_ones : (k a : ℕ) → bit_and a (2 ^ k - 1) ≡ a % 2 ^ k
bit_and_ones k a = ground (arith, one-le-pow k 2, bit_and-fields k (a / 2 ^ k) (a % 2 ^ k))
