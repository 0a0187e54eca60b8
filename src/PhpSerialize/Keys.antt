-- ===== src/PhpSerialize/Keys.antt =====
-- libs/lua-phpserialize/src/lua-phpserialize.c: the pieces of the format, and `Pphpserializekey`.
-- What a function pushes above its base is the list of its pieces.
use lua_cmake_source.Base.{
  ℕ, Bool, true, false, not, ◌&&◌, ◌||◌, List, [], ◌∷◌, ◌++◌, ltb, ◌==◌, if◌then◌else◌, length,
  Bytes, codes,
}
use lua_cmake_source.Base.Int.{ℤ, pos, negsuc, ◌+ℤ◌, ltb_ℤ, to_int32}
use lua_cmake_source.Base.Decimal.{decimal, decimal_ℤ}
use lua_cmake_source.LuaNumber.{is_float_finite, is_integer, to_integer}
use lua_cmake_source.LuaValue.{
  function, thread, userdata, light_userdata, Value, nil, boolean, number, str, table, other,
}

abbrev pub Pieces : Type 0
Pieces = List Bytes

-- An error leaves a message behind nil. `luaL_checkstack` raises a Lua error instead. `undefined` is
-- a write outside a buffer.
pub data Result {ℓ} (A : Type ℓ) : Type ℓ where
  ok : A → Result A
  failed : Bytes → Result A
  raised : Result A
  undefined : Result A

infixl 5 ◌>>=◌
abbrev pub ◌>>=◌ {ℓ κ} : {A : Type ℓ} {B : Type κ} → Result A → (A → Result B) → Result B
ok a >>= f = f a
failed m >>= f = failed m
raised >>= f = raised
undefined >>= f = undefined

-- `g_SerializeStrings`
abbrev pub ssi_null : Bytes
ssi_null = codes "N;"

abbrev pub ssi_integer : Bytes
ssi_integer = codes "i:"

abbrev pub ssi_double : Bytes
ssi_double = codes "d:"

abbrev pub ssi_bool_true : Bytes
ssi_bool_true = codes "b:1;"

abbrev pub ssi_bool_false : Bytes
ssi_bool_false = codes "b:0;"

abbrev pub ssi_string_begin : Bytes
ssi_string_begin = codes "s:"

abbrev pub ssi_string_middle : Bytes
ssi_string_middle = codes ":\""

abbrev pub ssi_string_end : Bytes
ssi_string_end = codes "\";"

abbrev pub ssi_array_begin : Bytes
ssi_array_begin = codes "a:"

abbrev pub ssi_array_middle : Bytes
ssi_array_middle = codes ":{"

abbrev pub ssi_array_end : Bytes
ssi_array_end = codes "}"

abbrev pub ssi_semicolon : Bytes
ssi_semicolon = codes ";"

-- The environment: whether `luaL_checkstack` finds so many slots above those in use, and the text
-- that `sprintf` gives a double with "%#.55f".
pub record Env : Type 0 where
  pub checkstack : ℕ → ℕ → Bool
  pub sprintf_f : ℕ → Bytes

-- The loop of `Plookslikeinteger`: true if a byte that is no digit is met.
unfoldable pub some_non_digit : Bytes → Bool
some_non_digit [] = false
some_non_digit (c ∷ cs) = if ltb c b'0' || ltb b'9' c then true else some_non_digit cs

-- `notguilty`, which is false if the string looks like an integer.
unfoldable pub plookslikeinteger : Bytes → Bool
plookslikeinteger [] = false
plookslikeinteger (c ∷ cs) =
    if ltb 1 (length (c ∷ cs)) && c == b'0' then true else some_non_digit (c ∷ cs)

abbrev pub type_name : Value → Bytes
type_name nil = codes "nil"
type_name (boolean b) = codes "boolean"
type_name (number n) = codes "number"
type_name (str s) = codes "string"
type_name (table es) = codes "table"
type_name (other function) = codes "function"
type_name (other thread) = codes "thread"
type_name (other userdata) = codes "userdata"
type_name (other light_userdata) = codes "userdata"

abbrev pub max_array_int_key : ℤ
max_array_int_key = pos 2110000001

abbrev pub min_array_int_key : ℤ
min_array_int_key = negsuc 2140000000

unfoldable pub out_of_range : ℤ → Bool
out_of_range z = ltb_ℤ max_array_int_key z || ltb_ℤ z min_array_int_key

-- `sprintf(…, "%d", …)` of a lua_Integer, which is read as an int.
abbrev pub sprintf_d : ℤ → Bytes
sprintf_d z = decimal_ℤ (to_int32 z)

abbrev pub unsupported_key : Value → Bytes
unsupported_key v = codes "unsupported key type `" ++ (type_name v ++ codes "'")

unfoldable pub key_pieces : ℤ → Value → Result Pieces
key_pieces base (number n) =
    if not (is_integer n) || not (is_float_finite n)
    then failed (codes "non-integer numeric keys are not supported")
    else if out_of_range (to_integer n)
    then failed (codes "integer key too big/too small")
    else ok
        (ssi_integer ∷ sprintf_d (to_integer n +ℤ to_int32 (base +ℤ negsuc 0)) ∷ ssi_semicolon ∷ [])
key_pieces base (str s) =
    if not (plookslikeinteger s)
    then failed (codes "string keys convertible to integers are not supported")
    else ok (ssi_string_begin ∷ decimal (length s) ∷ ssi_string_middle ∷ s ∷ ssi_string_end ∷ [])
key_pieces base v = failed (unsupported_key v)

-- `Pphpserializekey` with `top` slots in use.
unfoldable pub pphpserializekey : Env → ℕ → ℤ → Value → Result Pieces
unfolding key_pieces
pphpserializekey env top base v = if env.checkstack top 5 then key_pieces base v else raised
