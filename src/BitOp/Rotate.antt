-- ===== src/BitOp/Rotate.antt =====
-- Rotations of 32-bit words, against arithmetic.
use native.Mathlib.Nat.{
  one-le-pow, div-add-mod', mul-add-mod_self_right, mul-add-div_right, mod-eq_of_lt, div-eq_of_lt,
  div-lt_iff_lt-mul, mul-le-mul_right, mod-lt, mul-lt-mul_of_pos_right,
}
use lua_cmake_source.Base.{
  ℕ, ◌+◌, ◌-◌, ◌*◌, ◌/◌, ◌%◌, ◌^◌, ◌<◌, passes_below, passes_below-at, true, ltb, ◌==◌, ==_iff, ◌≡◌,
  refl, ap, ◌∙◌, arith, lt→ltb, ltb→lt, ltb_false→le, Bool-cases, inl, inr, ◌↔◌,
}
use lua_cmake_source.Base.Bits.{bit_or_fields}
use lua_cmake_source.BitOp.Args.{ok, undefined, ◌>>=◌}
use lua_cmake_source.BitOp.Words.{bshl, bshr, brol, bror}

powers_table : passes_below (λ k. 2 ^ k * 2 ^ (32 - k) == 2 ^ 32) 32 ≡ true
unfolding passes_below
powers_table = refl

powers : (k : ℕ) → k < 32 → 2 ^ k * 2 ^ (32 - k) ≡ 2 ^ 32
powers k h = (==_iff _ (2 ^ 32)).0 (passes_below-at _ 32 k h powers_table)

-- The two halves of a word of `p * q` values.
module _ (p q b : ℕ) (p_pos : 0 < p) (q_pos : 0 < q) (size : p * q ≡ 2 ^ 32) where
  low_half : b * p % 2 ^ 32 ≡ b % q * p
  low_half =
      let split : b * p ≡ b / q * 2 ^ 32 + b % q * p =
        omega (arith, ap (λ (t : ℕ). t * p) (div-add-mod' b q), ap (λ (t : ℕ). b / q * t) size) in
      let r_lt : b % q * p < 2 ^ 32 =
        omega (arith, mul-lt-mul_of_pos_right (mod-lt b q_pos) p_pos, size) in
      rw split (mul-add-mod_self_right (b / q) (2 ^ 32) (b % q * p) ∙ mod-eq_of_lt r_lt)

  high_half : b < 2 ^ 32 → b / q < p
  high_half h = (div-lt_iff_lt-mul q_pos).1 (omega (arith, size))

  -- The low half moves up and the high half comes in below it.
  moved_high : b < 2 ^ 32 → (b % q * p + b / q) / p ≡ b % q
  moved_high h = mul-add-div_right p_pos (b % q) (b / q) ∙ omega (arith, div-eq_of_lt (high_half h))

  moved_low : b < 2 ^ 32 → (b % q * p + b / q) % p ≡ b / q
  moved_low h = mul-add-mod_self_right (b % q) p (b / q) ∙ mod-eq_of_lt (high_half h)

  moved_below : b < 2 ^ 32 → b % q * p + b / q < 2 ^ 32
  moved_below h = omega (arith, high_half h, mul-le-mul_right p (mod-lt b q_pos), size)

-- A rotation, as arithmetic.
brol-eq :
    (b n : ℕ)
    → b < 2 ^ 32
    → 0 < n
    → n < 32
    → brol b n ≡ ok (b % 2 ^ (32 - n) * 2 ^ n + b / 2 ^ (32 - n))
unfolding brol bshl bshr
brol-eq b n h low high =
    let p_pos = one-le-pow n 2 in
    let q_pos = one-le-pow (32 - n) 2 in
    rw (
      lt→ltb n 32 high,
      lt→ltb (32 - n) 32 (omega arith),
      low_half (2 ^ n) (2 ^ (32 - n)) b (omega arith) (omega arith) (powers n high),
      bit_or_fields n (b % 2 ^ (32 - n)) (b / 2 ^ (32 - n))
          (high_half (2 ^ n) (2 ^ (32 - n)) b (omega arith) (omega arith) (powers n high) h),
    )

bror-brol_of : (b n : ℕ) → n < 32 → bror b n ≡ brol b (32 - n)
unfolding bror brol
bror-brol_of b n h = let back : 32 - (32 - n) ≡ n = omega arith in rw back

-- A rotation to the right takes a rotation of a word to the left by the same count back, for the
-- counts from 1 to 31.
bror-brol : (b n : ℕ) → b < 2 ^ 32 → 0 < n → n < 32 → (brol b n >>= λ c. bror c n) ≡ ok b
bror-brol b n h low high =
    let p = 2 ^ n in
    let q = 2 ^ (32 - n) in
    let p_pos : 0 < p = omega (arith, one-le-pow n 2) in
    let q_pos : 0 < q = omega (arith, one-le-pow (32 - n) 2) in
    let c = b % q * p + b / q in
    let c_lt = moved_below p q b p_pos q_pos (powers n high) h in
    let back : 32 - (32 - n) ≡ n = omega arith in
    let again : brol c (32 - n) ≡ ok (c % 2 ^ (32 - (32 - n)) * q + c / 2 ^ (32 - (32 - n))) =
      brol-eq c (32 - n) c_lt (omega arith) (omega arith) in
    rw (
      brol-eq b n h low high,
      bror-brol_of c n high,
      again,
      back,
      moved_high p q b p_pos q_pos (powers n high) h,
      moved_low p q b p_pos q_pos (powers n high) h,
      div-add-mod' b q,
    )

-- A rotation by a count below 32 is undefined in C exactly when the count is 0: it then shifts the
-- word by 32 bits.
pub brol_undefined_iff : (b n : ℕ) → n < 32 → (brol b n ≡ undefined) ↔ (n ≡ 0)
unfolding brol bshl bshr
brol_undefined_iff b n h = elim (Bool-cases (ltb 0 n)) [
  | inl e ↦
      let low = ltb→lt 0 n e in
      rw (lt→ltb n 32 h, lt→ltb (32 - n) 32 (omega arith)) ((λ u. cc), (λ z. absurd (omega arith)))
  | inr e ↦
      let none : n ≡ 0 = omega (arith, ltb_false→le 0 n e) in rw none ((λ u. refl), (λ z. refl))
]
