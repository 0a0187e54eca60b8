-- ===== src/PhpSerialize/Tests.antt =====
-- The theorems on the serializer at small values.
use lua_cmake_source.Base.{
  ℕ, ◌+◌, replicate, ◌^◌, ◌≤◌, ◌<◌, true, false, [], ◌∷◌, ◌≡◌, ◌↔◌, ◌⊎◌, refl, arith, concat, codes,
}
use lua_cmake_source.Base.Int.{pos, negsuc}
use lua_cmake_source.Base.Decimal.{decimal, decimal_ℤ}
use lua_cmake_source.LuaNumber.{is_float_finite, is_integer, to_integer}
use lua_cmake_source.LuaValue.{Value, boolean, number, str, table, end, entry}
use lua_cmake_source.PhpSerialize.Keys.{
  Env, Pieces, undefined, ok, plookslikeinteger, some_non_digit, ssi_integer, ssi_semicolon,
}
use lua_cmake_source.PhpSerialize.Values.{pphpserializevalue, number_pieces, max_nesting}
use lua_cmake_source.PhpSerialize.Text.{
  text, entries_text, key_text, value_ok, key_ok, value_depth, Yields,
}
use lua_cmake_source.PhpSerialize.Iff.{pphpserializevalue_iff}
use lua_cmake_source.PhpSerialize.Integers.{plookslikeinteger_iff, number_pieces_iff}

abbrev env : Env
env = record { checkstack = λ top n. true; sprintf_f = λ n. codes "0." }

env_grows : (top n : ℕ) → env.checkstack top n ≡ true
env_grows top n = refl

-- The doubles 3 and 2 ^ 31.
abbrev three : ℕ
three = 0x4008000000000000

abbrev two_to_31 : ℕ
two_to_31 = 0x41e0000000000000

abbrev sample : Value
sample = table (entry (str (codes "a")) (number three) end)

-- A table with a key that has no text.
abbrev bad_sample : Value
bad_sample = table (entry (boolean true) (number three) end)

sample_ok : value_ok env sample ≡ true
unfolding value_ok key_ok plookslikeinteger some_non_digit is_float_finite is_integer
sample_ok = refl

sample_shallow : value_depth sample ≤ max_nesting
unfolding value_depth
sample_shallow = omega arith

text-sample : text env (pos 1) sample ≡ codes "a:1:{s:1:\"a\";i:3;}"
unfolding text entries_text key_text is_integer to_integer decimal decimal_ℤ
text-sample = refl

pphpserializevalue_iff_example :
    (Yields (λ ps. Unit) (pphpserializevalue env 1 (pos 1) bad_sample 0)
      ↔ (value_ok env bad_sample ≡ true) × (0 + value_depth bad_sample ≤ max_nesting))
    × ((ps : Pieces)
        → pphpserializevalue env 1 (pos 1) bad_sample 0 ≡ ok ps
        → concat ps ≡ text env (pos 1) bad_sample)
pphpserializevalue_iff_example = pphpserializevalue_iff env env_grows (pos 1) 1 bad_sample 0

plookslikeinteger_iff_example :
    ((plookslikeinteger (codes "-5") ≡ false)
      ↔ ((codes "-5" ≡ []) ⊎ ((n : ℕ) × (codes "-5" ≡ decimal n))))
    × ((n : ℕ) → codes "-5" ≡ decimal_ℤ (negsuc n) → plookslikeinteger (codes "-5") ≡ true)
plookslikeinteger_iff_example = plookslikeinteger_iff (codes "-5")

two_to_31_finite : is_float_finite two_to_31 ≡ true
unfolding is_float_finite
two_to_31_finite = refl

two_to_31_whole : is_integer two_to_31 ≡ true
unfolding is_integer
two_to_31_whole = refl

two_to_31_value : to_integer two_to_31 ≡ pos (2 ^ 31)
unfolding to_integer
two_to_31_value = refl

number_pieces_iff_example :
    (number_pieces env two_to_31 ≡ ok (ssi_integer ∷ decimal (2 ^ 31) ∷ ssi_semicolon ∷ []))
    ↔ (2 ^ 31 < 2 ^ 31)
number_pieces_iff_example =
    number_pieces_iff env two_to_31 (2 ^ 31) two_to_31_finite two_to_31_whole two_to_31_value

-- A double of 256 bytes of text, as from 10 ^ 199 on.
abbrev long_env : Env
long_env = record { checkstack = λ top n. true; sprintf_f = λ n. replicate 256 b'0' }

number_pieces_overflow : number_pieces long_env 0x3ff8000000000000 ≡ undefined
unfolding number_pieces is_float_finite is_integer
number_pieces_overflow = refl
