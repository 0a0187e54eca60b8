-- ===== src/Luabins/Format.antt =====
-- The constants and size formulas of saveload.h, and the int arithmetic of the code, for a
-- platform with 4-byte int, 8-byte size_t and 8-byte lua_Number.
use lua_cmake_source.Base.{
  ℕ, ◌+◌, ◌-◌, ◌*◌, ◌%◌, ◌^◌, ◌≤◌, ◌<◌, Bool, ◌≡◌, arith, ltb, if◌then◌else◌,
}

abbrev pub max_tuple : ℕ
max_tuple = 250

abbrev pub max_table_nesting : ℕ
max_table_nesting = 250

abbrev pub c_nil : ℕ
c_nil = b'-'

abbrev pub c_false : ℕ
c_false = b'0'

abbrev pub c_true : ℕ
c_true = b'1'

abbrev pub c_number : ℕ
c_number = b'N'

abbrev pub c_string : ℕ
c_string = b'S'

abbrev pub c_table : ℕ
c_table = b'T'

abbrev pub l_int : ℕ
l_int = 4

abbrev pub l_size_t : ℕ
l_size_t = 8

abbrev pub l_number : ℕ
l_number = 8

abbrev pub l_type_byte : ℕ
l_type_byte = 1

abbrev pub min2 : ℕ → ℕ → ℕ
min2 a b = if ltb a b then a else b

abbrev pub min3 : ℕ → ℕ → ℕ → ℕ
min3 a b c = if ltb a b then min2 a c else min2 b c

abbrev pub l_min_table : ℕ
l_min_table = l_type_byte + l_int + l_int

abbrev pub l_min_string : ℕ
l_min_string = l_type_byte + l_size_t

-- LUABINS_LMINLARGEVALUE, which names the string twice.
abbrev pub l_min_large_value : ℕ
l_min_large_value = min3 l_min_table l_min_string l_min_string

-- `luabins_min_table_data_size`, on an unsigned int; the products are of type size_t.
unfoldable pub min_table_data_size : ℕ → ℕ
min_table_data_size total =
    if ltb 2 total
    then 2 * (l_type_byte + l_type_byte) + (total - 2) * (l_min_large_value + l_type_byte)
    else total * (l_type_byte + l_type_byte)

-- An int is its 32-bit pattern.
abbrev pub int_mod : ℕ
int_mod = 2 ^ 32

-- `a < b` on ints.
abbrev pub int_lt : ℕ → ℕ → Bool
int_lt a b = ltb ((a + 2 ^ 31) % int_mod) ((b + 2 ^ 31) % int_mod)

abbrev pub int_sub : ℕ → ℕ → ℕ
int_sub a b = (a + int_mod - b) % int_mod

-- `luabins_min(total_size, array_size)` on ints.
unfoldable pub array_part : ℕ → ℕ → ℕ
array_part total array = if int_lt total array then total else array

-- `luabins_max(0, total_size - array_size)` on ints.
unfoldable pub hash_part : ℕ → ℕ → ℕ
hash_part total array = let rest = int_sub total array in if int_lt rest 0 then 0 else rest

-- Where both counts are non-negative ints, the parts are at most `array` and add up to `total`.
pub parts_of_total :
    (total array : ℕ)
    → total < 2 ^ 31
    → array < 2 ^ 31
    → (array_part total array + hash_part total (array_part total array) ≡ total)
      × (array_part total array ≤ array)
      × (array_part total array ≤ total)
unfolding array_part hash_part
parts_of_total total array h k = (ground arith, ground arith, ground arith)
