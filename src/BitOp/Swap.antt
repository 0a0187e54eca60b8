-- ===== src/BitOp/Swap.antt =====
-- The byte swap of a 32-bit word, against its bytes.
use mathlib.Core.List.{reverse}
use lua_cmake_source.Base.{
  ℕ, zero, suc, ◌+◌, ◌*◌, ◌/◌, ◌%◌, ◌^◌, ◌≤◌, ◌<◌, ◌≡◌, refl, ◌∙◌, arith, le_bytes, bit_and, bit_or,
}
use lua_cmake_source.Base.Bits.{bit_or-digit, bit_or_fields, bit_and-shifted, bit_and_ones}
use lua_cmake_source.BitOp.Words.{bswap}

bit_or_comm : (n a b : ℕ) → a ≤ n → b ≤ n → bit_or a b ≡ bit_or b a
bit_or_comm zero a b h l =
    let x : a ≡ 0 = omega arith in let y : b ≡ 0 = omega arith in rw (x, y) refl
bit_or_comm (suc n) a b h l = ground (
  arith,
  bit_or-digit a b,
  bit_or-digit b a,
  bit_or_comm n (a / 2) (b / 2) (omega arith) (omega arith),
)

-- A field comes in above.
or_above : (k q r : ℕ) → r < 2 ^ k → bit_or r (q * 2 ^ k) ≡ q * 2 ^ k + r
or_above k q r h =
    bit_or_comm (r + q * 2 ^ k) r (q * 2 ^ k) (omega arith) (omega arith) ∙ bit_or_fields k q r h

-- The second byte of a word, in place.
second_byte : (a : ℕ) → bit_and a 0xff00 ≡ a / 256 % 256 * 256
second_byte a = bit_and-shifted 8 a 255 ∙ omega (arith, bit_and_ones 8 (a / 256))

bswap-sum :
    (b : ℕ)
    → b < 2 ^ 32
    → bswap b
      ≡ b % 256 * 2 ^ 24 + (b / 2 ^ 8 % 256 * 2 ^ 16 + (b / 2 ^ 16 % 256 * 2 ^ 8 + b / 2 ^ 24))
unfolding bswap
bswap-sum b h =
    let third : bit_and (b / 2 ^ 8) 0xff00 ≡ b / 2 ^ 16 % 256 * 2 ^ 8 =
      omega (arith, second_byte (b / 2 ^ 8)) in
    let second : bit_and b 0xff00 * 2 ^ 8 % 2 ^ 32 ≡ b / 2 ^ 8 % 256 * 2 ^ 16 =
      omega (arith, second_byte b) in
    let first : b * 2 ^ 24 % 2 ^ 32 ≡ b % 256 * 2 ^ 24 = omega arith in
    let two = or_above 8 (b / 2 ^ 16 % 256) (b / 2 ^ 24) (omega arith) in
    let three =
      or_above 16 (b / 2 ^ 8 % 256) (b / 2 ^ 16 % 256 * 2 ^ 8 + b / 2 ^ 24) (omega arith) in
    let four =
      or_above 24 (b % 256) (b / 2 ^ 8 % 256 * 2 ^ 16 + (b / 2 ^ 16 % 256 * 2 ^ 8 + b / 2 ^ 24))
        (omega arith) in
    rw (third, second, first, two, three, four)

-- The bytes of a swapped word are the bytes of the word in the other order.
le_bytes-bswap : (b : ℕ) → b < 2 ^ 32 → le_bytes 4 (bswap b) ≡ reverse (le_bytes 4 b)
unfolding le_bytes
le_bytes-bswap b h =
    let sum = bswap-sum b h in
    let e₀ : bswap b % 256 ≡ b / 256 / 256 / 256 % 256 = omega (arith, sum) in
    let e₁ : bswap b / 256 % 256 ≡ b / 256 / 256 % 256 = omega (arith, sum) in
    let e₂ : bswap b / 256 / 256 % 256 ≡ b / 256 % 256 = omega (arith, sum) in
    let e₃ : bswap b / 256 / 256 / 256 % 256 ≡ b % 256 = omega (arith, sum) in rw (e₀, e₁, e₂, e₃)
