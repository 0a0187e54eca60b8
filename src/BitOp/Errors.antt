-- ===== src/BitOp/Errors.antt =====
-- libs/luabitop/bit.c: every function of the module refuses a call without arguments.
use lua_cmake_source.Base.{◌%◌, ◌^◌, List, All, none, ◌≡◌, refl, Bytes}
use lua_cmake_source.LuaValue.{Value}
use lua_cmake_source.BitOp.Args.{Platform, Result, type_error, number_at, barg}
use lua_cmake_source.BitOp.Module.{
  Returned, bit_tobit, bit_bnot, bit_band, bit_bor, bit_bxor, bit_lshift, bit_rshift, bit_arshift,
  bit_rol, bit_ror, bit_bswap, bit_tohex, bit_funcs,
}

-- Raises the error on its first argument when it has none, or one that is no number.
abbrev pub Refuses : List Value → Bytes × (List Value → Result Returned) → Type 0
Refuses args f = f.1 args ≡ type_error 1

barg_refuses :
    (p : Platform) (args : List Value)
    → p.add_magic 0 % 2 ^ 32 ≡ 0
    → number_at p args 1 ≡ none
    → barg p args 1 ≡ type_error 1
unfolding barg
barg_refuses p args no_word h = rw (h, no_word) refl

-- Where the addition of 2^52 + 2^51 to 0 has 0 in its low 32 bits, every function of the module
-- raises the error on its first argument when that is missing or no number.
pub bit_funcs-Refuses :
    (p : Platform) (args : List Value)
    → p.add_magic 0 % 2 ^ 32 ≡ 0
    → number_at p args 1 ≡ none
    → All (Refuses args) (bit_funcs p)
unfolding bit_funcs bit_tobit bit_bnot bit_band bit_bor bit_bxor bit_lshift bit_rshift bit_arshift
    bit_rol bit_ror bit_bswap bit_tohex
bit_funcs-Refuses p args no_word h = rw (barg_refuses p args no_word h) (
  refl,
  (refl, (refl, (refl, (refl, (refl, (refl, (refl, (refl, (refl, (refl, (refl, tt))))))))))),
)
