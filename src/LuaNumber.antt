-- ===== src/LuaNumber.antt =====
-- A lua_Number is an IEEE double, given by its bit pattern; lua_Integer is ptrdiff_t, of 64 bits.
use lua_cmake_source.Base.{
  ℕ, zero, suc, ◌+◌, ◌-◌, ◌*◌, ◌/◌, ◌%◌, ◌^◌, Bool, not, ◌&&◌, ◌||◌, leb, ltb, ◌==◌, if◌then◌else◌,
}
use lua_cmake_source.Base.Int.{ℤ, pos, negsuc}

abbrev pub is_negative : ℕ → Bool
is_negative n = n / 2 ^ 63 % 2 == 1

abbrev exponent : ℕ → ℕ
exponent n = n / 2 ^ 52 % 2048

-- The magnitude is `mantissa n * 2 ^ power n / 2 ^ 1075`.
abbrev mantissa : ℕ → ℕ
mantissa n = if exponent n == 0 then n % 2 ^ 52 else n % 2 ^ 52 + 2 ^ 52

abbrev power : ℕ → ℕ
power n = if exponent n == 0 then 1 else exponent n

-- `finite(number)`
unfoldable pub is_float_finite : ℕ → Bool
is_float_finite n = not (exponent n == 2047)

-- The magnitude without its fraction, and whether there is no fraction.
unfoldable pub truncated : ℕ → ℕ
truncated n =
    if leb 1075 (power n)
    then mantissa n * 2 ^ (power n - 1075)
    else mantissa n / 2 ^ (1075 - power n)

unfoldable pub is_whole : ℕ → Bool
is_whole n = leb 1075 (power n) || (mantissa n % 2 ^ (1075 - power n) == 0)

abbrev signed : Bool → ℕ → ℤ
signed negative zero = pos 0
signed negative (suc m) = if negative then negsuc m else pos (suc m)

-- `(lua_Integer)number`. Where the integer does not fit, C leaves the result open, and a 64-bit
-- x86 gives the least integer.
unfoldable pub to_integer : ℕ → ℤ
unfolding is_float_finite truncated
to_integer n =
    if is_float_finite n && ltb (truncated n) (2 ^ 63)
    then signed (is_negative n) (truncated n)
    else negsuc (2 ^ 63 - 1)

-- `number == (lua_Integer)number`
unfoldable pub is_integer : ℕ → Bool
unfolding is_float_finite truncated is_whole
is_integer n =
    is_float_finite n
    && is_whole n
    && (ltb (truncated n) (2 ^ 63) || (truncated n == 2 ^ 63 && is_negative n))
