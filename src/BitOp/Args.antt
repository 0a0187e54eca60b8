-- ===== src/BitOp/Args.antt =====
-- libs/luabitop/bit.c: the arguments of the operations, and their results.
use lua_cmake_source.Base.{
  ℕ, ◌-◌, ◌%◌, ◌^◌, List, Option, none, some, ◌==◌, if◌then◌else◌, get_elem?,
}
use lua_cmake_source.LuaValue.{Value}

-- The parts of the platform: `lua_tonumber` with `lua_isnumber`, on a value that is there, and the
-- addition of 2^52 + 2^51 to a double, both on the bit patterns of doubles.
pub record Platform : Type 0 where
  pub tonumber : Value → Option ℕ
  pub add_magic : ℕ → ℕ

-- An operation gives its result, raises a Lua error on an argument, or is undefined in C.
pub data Result {ℓ} (A : Type ℓ) : Type ℓ where
  ok : A → Result A
  type_error : ℕ → Result A
  undefined : Result A

infixl 5 ◌>>=◌
abbrev pub ◌>>=◌ {ℓ κ} : {A : Type ℓ} {B : Type κ} → Result A → (A → Result B) → Result B
ok a >>= f = f a
type_error i >>= f = type_error i
undefined >>= f = undefined

-- The value at index `i` of the stack, as a number.
abbrev pub number_at : Platform → List Value → ℕ → Option ℕ
number_at p args i = elim (get_elem? args (i - 1)) [ none ↦ none | some v ↦ p.tonumber v ]

-- `barg`: a value that is no number counts as 0 before it is refused.
abbrev word_of : Platform → ℕ → Option ℕ → Result ℕ
word_of p i none = let b = p.add_magic 0 % 2 ^ 32 in if b == 0 then type_error i else ok b
word_of p i (some n) = ok (p.add_magic n % 2 ^ 32)

unfoldable pub barg : Platform → List Value → ℕ → Result ℕ
barg p args i = word_of p i (number_at p args i)
