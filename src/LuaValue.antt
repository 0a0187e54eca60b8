-- ===== src/LuaValue.antt =====
-- Lua values as the modules under libs see them through the Lua API. A number is the bit pattern of
-- its 8-byte IEEE double; a string is its bytes; a table is the sequence of key and value pairs
-- in which `lua_next` visits it.
use lua_cmake_source.Base.{
  ℕ, suc, ◌/◌, ◌%◌, ◌^◌, Bool, true, false, not, ◌&&◌, ◌||◌, [], ◌∷◌, ◌==◌, if◌then◌else◌, Bytes,
}

-- The types that have no serial form.
pub data OtherType : Type 0 where
  function thread userdata light_userdata : OtherType

mutual
  pub data Value : Type 0 where
    nil : Value
    boolean : Bool → Value
    number : ℕ → Value
    str : Bytes → Value
    table : Entries → Value
    other : OtherType → Value

  pub data Entries : Type 0 where
    end : Entries
    entry : Value → Value → Entries → Entries

-- `size` pairs.
abbrev pub size : Entries → ℕ
size end = 0
size (entry k v es) = suc (size es)

-- `!luai_numeq(a, a)` on a double: all ones in the exponent and a mantissa that is not zero.
abbrev pub luai_numisnan : ℕ → Bool
luai_numisnan n = (n / 2 ^ 52 % 2048 == 2047) && not (n % 2 ^ 52 == 0)

-- `luai_numeq`: equal patterns that are no NaN, or two zeros.
abbrev pub luai_numeq : ℕ → ℕ → Bool
luai_numeq a b = (a == b && not (luai_numisnan a)) || ((a % 2 ^ 63 == 0) && (b % 2 ^ 63 == 0))

unfoldable pub bytes_eq : Bytes → Bytes → Bool
bytes_eq [] [] = true
bytes_eq (x ∷ xs) (y ∷ ys) = x == y && bytes_eq xs ys
bytes_eq _ _ = false

-- Raw equality of keys. Two tables are the same key only if they are one object, which two
-- tables met in different places of a tree are not.
unfoldable pub raw_eq : Value → Value → Bool
raw_eq nil nil = true
raw_eq (boolean true) (boolean true) = true
raw_eq (boolean false) (boolean false) = true
raw_eq (number a) (number b) = luai_numeq a b
raw_eq (str a) (str b) = bytes_eq a b
raw_eq _ _ = false

-- `lua_rawset`: a value for a key that is there replaces the old one, nil takes it away.
abbrev put : Value → Value → Entries → Entries
put k nil es = es
put k v es = entry k v es

unfoldable pub rawset : Entries → Value → Value → Entries
rawset end k v = put k v end
rawset (entry j w es) k v =
    let after = rawset es k v in if raw_eq j k then put j v es else entry j w after
