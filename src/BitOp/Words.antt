-- ===== src/BitOp/Words.antt =====
-- libs/luabitop/bit.c: the operations on unsigned ints of 32 bits.
use lua_cmake_source.Base.{
  ℕ, zero, suc, ◌-◌, ◌*◌, ◌/◌, ◌%◌, ◌^◌, [], ◌∷◌, ◌++◌, ltb, ◌==◌, if◌then◌else◌, get_or, Bytes,
  codes, bit_and, bit_or,
}
use lua_cmake_source.Base.Int.{ℤ, pos, negsuc, to_word, from_word32}
use lua_cmake_source.BitOp.Args.{Result, ok, undefined, ◌>>=◌}

-- `b << n` and `b >> n`; a shift by 32 bits is undefined.
unfoldable pub bshl : ℕ → ℕ → Result ℕ
bshl b n = if ltb n 32 then ok (b * 2 ^ n % 2 ^ 32) else undefined

unfoldable pub bshr : ℕ → ℕ → Result ℕ
bshr b n = if ltb n 32 then ok (b / 2 ^ n) else undefined

abbrev shift_right_ℤ : ℤ → ℕ → ℤ
shift_right_ℤ (pos m) n = pos (m / 2 ^ n)
shift_right_ℤ (negsuc m) n = negsuc (m / 2 ^ n)

-- An arithmetic shift of a signed int, which the self-test of `luaopen_bit` demands.
unfoldable pub bsar : ℕ → ℕ → Result ℕ
bsar b n = if ltb n 32 then ok (to_word 32 (shift_right_ℤ (from_word32 b) n)) else undefined

unfoldable pub brol : ℕ → ℕ → Result ℕ
brol b n = bshl b n >>= λ high. bshr b (32 - n) >>= λ low. ok (bit_or high low)

unfoldable pub bror : ℕ → ℕ → Result ℕ
bror b n = bshl b (32 - n) >>= λ high. bshr b n >>= λ low. ok (bit_or high low)

-- The body of `bit_bswap`.
unfoldable pub bswap : ℕ → ℕ
bswap b =
    bit_or
      (bit_or (bit_or (b / 2 ^ 24) (bit_and (b / 2 ^ 8) 0xff00))
        (bit_and b 0xff00 * 2 ^ 8 % 2 ^ 32))
      (b * 2 ^ 24 % 2 ^ 32)

abbrev pub lower_digits : Bytes
lower_digits = codes "0123456789abcdef"

abbrev pub upper_digits : Bytes
upper_digits = codes "0123456789ABCDEF"

-- The loop of `bit_tohex`, which fills `buf` from its end: `i` digits of `b`.
unfoldable pub hex_loop : Bytes → ℕ → ℕ → Bytes
hex_loop digits zero b = []
hex_loop digits (suc i) b = hex_loop digits i (b / 2 ^ 4) ++ get_or digits (bit_and b 15) 0 ∷ []

abbrev pub at_most_8 : ℕ → ℕ
at_most_8 n = if ltb 8 n then 8 else n

-- `bit_tohex` of the word `b` with the count `n`. The negation of the least int overflows.
unfoldable pub hex : ℕ → ℤ → Result Bytes
hex b (pos n) = ok (hex_loop lower_digits (at_most_8 n) b)
hex b (negsuc m) =
    if suc m == 2 ^ 31 then undefined else ok (hex_loop upper_digits (at_most_8 (suc m)) b)
