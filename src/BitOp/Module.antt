-- ===== src/BitOp/Module.antt =====
-- libs/luabitop/bit.c: the functions that Lua code calls, on the arguments of the call.
use lua_cmake_source.Base.{
  ℕ, zero, suc, ◌+◌, ◌-◌, ◌%◌, ◌^◌, Bool, false, ◌&&◌, List, [], ◌∷◌, leb, ◌==◌, if◌then◌else◌,
  codes, length, Bytes, bit_and, bit_or, bit_xor,
}
use lua_cmake_source.Base.Int.{ℤ, pos, from_word32}
use lua_cmake_source.LuaValue.{Value}
use lua_cmake_source.BitOp.Args.{Platform, Result, ok, ◌>>=◌, barg}
use lua_cmake_source.BitOp.Words.{bshl, bshr, bsar, brol, bror, bswap, hex}

-- BRET: the word as a signed number.
abbrev bret : Result ℕ → Result ℤ
bret r = r >>= λ b. ok (from_word32 b)

module _ (p : Platform) where
  unfoldable pub bit_tobit : List Value → Result ℤ
  bit_tobit args = bret (barg p args 1)

  unfoldable pub bit_bnot : List Value → Result ℤ
  bit_bnot args = bret (barg p args 1 >>= λ b. ok (2 ^ 32 - 1 - b))

  -- BIT_OP: the loop goes from the last argument down to the second.
  unfoldable pub op_loop : (ℕ → ℕ → ℕ) → List Value → ℕ → ℕ → Result ℕ
  op_loop opr args zero b = ok b
  op_loop opr args (suc i) b = barg p args (suc i + 1) >>= λ c. op_loop opr args i (opr b c)

  abbrev bit_op : (ℕ → ℕ → ℕ) → List Value → Result ℤ
  bit_op opr args = bret (barg p args 1 >>= λ b. op_loop opr args (length args - 1) b)

  unfoldable pub bit_band : List Value → Result ℤ
  bit_band = bit_op bit_and

  unfoldable pub bit_bor : List Value → Result ℤ
  bit_bor = bit_op bit_or

  unfoldable pub bit_bxor : List Value → Result ℤ
  bit_bxor = bit_op bit_xor

  -- BIT_SH
  abbrev bit_sh : (ℕ → ℕ → Result ℕ) → List Value → Result ℤ
  bit_sh fn args = bret (barg p args 1 >>= λ b. barg p args 2 >>= λ n. fn b (bit_and n 31))

  unfoldable pub bit_lshift : List Value → Result ℤ
  bit_lshift = bit_sh bshl

  unfoldable pub bit_rshift : List Value → Result ℤ
  bit_rshift = bit_sh bshr

  unfoldable pub bit_arshift : List Value → Result ℤ
  bit_arshift = bit_sh bsar

  unfoldable pub bit_rol : List Value → Result ℤ
  bit_rol = bit_sh brol

  unfoldable pub bit_ror : List Value → Result ℤ
  bit_ror = bit_sh bror

  unfoldable pub bit_bswap : List Value → Result ℤ
  bit_bswap args = bret (barg p args 1 >>= λ b. ok (bswap b))

  unfoldable pub bit_tohex : List Value → Result Bytes
  bit_tohex args = barg p args 1 >>= λ b.
      (if leb 2 (length args) then (barg p args 2 >>= λ n. ok (from_word32 n)) else ok (pos 8))
      >>= λ n. hex b n

-- What a function of the module returns.
pub data Returned : Type 0 where
  signed : ℤ → Returned
  text : Bytes → Returned

abbrev pub as_signed : (List Value → Result ℤ) → List Value → Result Returned
as_signed f args = f args >>= λ z. ok (signed z)

abbrev pub as_text : (List Value → Result Bytes) → List Value → Result Returned
as_text f args = f args >>= λ t. ok (text t)

-- `bit_funcs`: the names under which the functions are registered.
unfoldable pub bit_funcs : Platform → List (Bytes × (List Value → Result Returned))
bit_funcs p =
    (codes "tobit", as_signed (bit_tobit p))
    ∷ (codes "bnot", as_signed (bit_bnot p))
    ∷ (codes "band", as_signed (bit_band p))
    ∷ (codes "bor", as_signed (bit_bor p))
    ∷ (codes "bxor", as_signed (bit_bxor p))
    ∷ (codes "lshift", as_signed (bit_lshift p))
    ∷ (codes "rshift", as_signed (bit_rshift p))
    ∷ (codes "arshift", as_signed (bit_arshift p))
    ∷ (codes "rol", as_signed (bit_rol p))
    ∷ (codes "ror", as_signed (bit_ror p))
    ∷ (codes "bswap", as_signed (bit_bswap p))
    ∷ (codes "tohex", as_text (bit_tohex p))
    ∷ []

-- The self-test of `luaopen_bit`: what the platform makes of the number 1437217655, whose double
-- has this bit pattern, and its arithmetic shift. The flag says that the module is registered.
unfoldable pub luaopen_bit : Platform → Bool
luaopen_bit p =
    (p.add_magic 0x41d56a8cddc00000 % 2 ^ 32 == 1437217655) && shifts (bsar (2 ^ 32 - 8) 2)
  where
    shifts : Result ℕ → Bool
    shifts (ok c) = c == 2 ^ 32 - 2
    shifts _ = false
