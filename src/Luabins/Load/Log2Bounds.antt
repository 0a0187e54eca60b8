-- ===== src/Luabins/Load/Log2Bounds.antt =====
-- What `ceillog2` computes: the exponent of the least power of two that is not below its argument.
use native.Mathlib.Nat.{pow-suc, pow-le-pow_right}
use native.Mathlib.Numerals.{towards_suc}
use lua_cmake_source.Base.{
  passes_below, passes_below-at, ℕ, zero, suc, ◌+◌, ◌-◌, ◌*◌, ◌/◌, ◌^◌, ◌≤◌, ◌<◌, Bool, true, ◌&&◌,
  ◌||◌, ◌≡◌, refl, ◌∙◌, arith, leb, ltb, ◌==◌, Bool-cases, ltb→lt, leb→le, inl, inr,
}
use lua_cmake_source.Luabins.Load.Log2.{log_2_at, log2_loop, ceillog2, max_bits}

-- `b` is the number of bits of `y`.
record HasBits (y b : ℕ) : Type 0 where
  above : y < 2 ^ b
  below : 0 < y → 2 ^ b ≤ 2 * y
  zero_bits : y ≡ 0 → b ≡ 0

has_bits : ℕ → ℕ → Bool
has_bits y b = ltb y (2 ^ b) && ((y == 0 && b == 0) || (ltb 0 y && leb (2 ^ b) (2 * y)))

has_bits-HasBits : (y b : ℕ) → has_bits y b ≡ true → HasBits y b
unfolding has_bits
has_bits-HasBits y b h = ground arith

log_2_table : passes_below (λ y. has_bits y (log_2_at y)) 256 ≡ true
unfolding passes_below has_bits log_2_at
log_2_table = refl

log_2_at-HasBits : (y : ℕ) → y < 256 → HasBits y (log_2_at y)
log_2_at-HasBits y h =
    has_bits-HasBits y (log_2_at y)
      (passes_below-at (λ i. has_bits i (log_2_at i)) 256 y h log_2_table)

pow-add_eight : (b : ℕ) → 2 ^ (b + 8) ≡ 256 * 2 ^ b
pow-add_eight b = simp towards_suc (omega arith)

HasBits-shift : (y b : ℕ) → 256 ≤ y → HasBits (y / 256) b → HasBits y (b + 8)
HasBits-shift y b h s = record {
  above = omega (arith, pow-add_eight b, s.above);
  below = λ pos. omega (arith, pow-add_eight b, s.below (omega arith));
  zero_bits = λ e. absurd (omega arith);
}

log2_loop-HasBits :
    (rounds l y : ℕ) → y < 256 ^ suc rounds → (b : ℕ) × (log2_loop rounds l y ≡ l + b) × HasBits y b
unfolding log2_loop
log2_loop-HasBits zero l y h = (log_2_at y, refl, log_2_at-HasBits y h)
log2_loop-HasBits (suc rounds) l y h = elim (Bool-cases (ltb y 256)) [
  | inl small ↦ (log_2_at y, rw small, log_2_at-HasBits y (ltb→lt y 256 small))
  | inr large ↦
      let (b, e, s) =
        log2_loop-HasBits rounds (l + 8) (y / 256) (omega (arith, pow-suc 256 (suc rounds))) in
      (b + 8, rw large (e ∙ omega arith), HasBits-shift y b (ground arith) s)
]

power_below : (x b : ℕ) → 0 < x → HasBits (x - 1) b → 2 ^ b < 2 * x
power_below zero b pos s = elim pos [ ]
power_below (suc zero) b pos s = rw (s.zero_bits (omega arith)) (omega arith)
power_below (suc (suc x)) b pos s = omega (arith, s.below (omega arith))

-- For an unsigned int that is not 0, `ceillog2` is the exponent of the least power of two that is
-- not below it.
ceillog2_bounds : (x : ℕ) → 0 < x → x < 2 ^ 32 → (x ≤ 2 ^ ceillog2 x) × (2 ^ ceillog2 x < 2 * x)
unfolding ceillog2
ceillog2_bounds x pos h =
    let (b, e, s) = log2_loop-HasBits 3 0 (x - 1) (omega arith) in
    let same : log2_loop 3 0 (x - 1) ≡ b = omega (arith, e) in
    rw same (omega (arith, s.above), power_below x b pos s)

-- A size up to 2 ^ MAXBITS passes the test of a table header.
pub ceillog2-le-max_bits : (x : ℕ) → 0 < x → x ≤ 2 ^ 26 → ceillog2 x ≤ max_bits
ceillog2-le-max_bits x pos h = elim (Bool-cases (leb (ceillog2 x) max_bits)) [
  | inl fits ↦ leb→le (ceillog2 x) max_bits fits
  | inr over ↦
      let more : 27 ≤ ceillog2 x = ground arith in
      absurd (
        omega
          (arith, ceillog2_bounds x pos (omega arith), pow-le-pow_right {n = 2} (omega arith) more))
]
