-- ===== src/BitOp/Tests.antt =====
-- The operations on small arguments, and the theorems on words.
use Prim.Native.Nat.{min}
use lua_cmake_source.Base.{
  All, ◌≤◌, bit_and, bit_or, bit_xor, ℕ, zero, suc, List, ◌-◌, ◌%◌, ◌^◌, [], ◌∷◌, Option, none,
  some, ◌≡◌, ◌↔◌, ◌⊎◌, refl, arith, length, Bytes, codes,
}
use lua_cmake_source.Base.Int.{from_word32, pos, negsuc}
use lua_cmake_source.LuaValue.{Value, number, str}
use lua_cmake_source.BitOp.Args.{Platform, ok, type_error, undefined, barg}
use lua_cmake_source.BitOp.Words.{bshl, bsar, brol, hex, hex_loop}
use lua_cmake_source.BitOp.Module.{
  bit_bnot, bit_band, bit_bor, bit_funcs, bit_bxor, bit_lshift, bit_arshift, op_loop, bit_tohex,
}
use lua_cmake_source.BitOp.Fold.{forward, bit_op-forward}
use lua_cmake_source.BitOp.Errors.{Refuses, bit_funcs-Refuses}
use lua_cmake_source.BitOp.Rotate.{brol_undefined_iff}
use lua_cmake_source.BitOp.Hex.{magnitude, hex_value, hex_lem, AreHexDigits, is_negative}

-- A platform on which a number is its own word.
abbrev to_number : Value → Option ℕ
to_number (number n) = some n
to_number _ = none

abbrev platform : Platform
platform = record { tonumber = to_number; add_magic = λ n. n }

bnot_example : bit_bnot platform (number 0 ∷ []) ≡ ok (negsuc 0)
unfolding bit_bnot barg
bnot_example = refl

bxor_example : bit_bxor platform (number 0x33 ∷ number 0x55 ∷ number 1 ∷ []) ≡ ok (pos 0x67)
unfolding bit_bxor op_loop barg
bxor_example = refl

arshift_example : bit_arshift platform (number 0xfffffff8 ∷ number 34 ∷ []) ≡ ok (negsuc 1)
unfolding bit_arshift bsar barg
arshift_example = refl

missing_count : bit_lshift platform (number 1 ∷ []) ≡ type_error 2
unfolding bit_lshift bshl barg
missing_count = refl

tohex_example : bit_tohex platform (number 0xbeef ∷ number 0xfffffffa ∷ []) ≡ ok (codes "00BEEF")
unfolding bit_tohex barg hex hex_loop
tohex_example = refl

brol_undefined_iff_example : (brol 5 0 ≡ undefined) ↔ (◌≡◌ {A = ℕ} 0 0)
brol_undefined_iff_example = brol_undefined_iff 5 0 (omega arith)

hex_lem_example :
    ((negsuc 3 ≡ negsuc (2 ^ 31 - 1)) × (hex 0xabcdef (negsuc 3) ≡ undefined))
    ⊎ ((t : Bytes) × (hex 0xabcdef (negsuc 3) ≡ ok t)
        × ((length t ≡ min 8 (magnitude (negsuc 3)))
            × (hex_value t ≡ 0xabcdef % 16 ^ length t)
            × AreHexDigits (is_negative (negsuc 3)) t))
hex_lem_example = hex_lem 0xabcdef (negsuc 3)

abbrev three_numbers : List Value
three_numbers = number 0x33 ∷ number 0x55 ∷ number 1 ∷ []

abbrev word_at : ℕ → ℕ
word_at (suc zero) = 0x33
word_at (suc (suc zero)) = 0x55
word_at _ = 1

three_words :
    (i : ℕ) → 1 ≤ i → i ≤ length three_numbers → barg platform three_numbers i ≡ ok (word_at i)
unfolding barg
three_words zero l h = absurd (omega arith)
three_words (suc zero) l h = refl
three_words (suc (suc zero)) l h = refl
three_words (suc (suc (suc zero))) l h = refl
three_words (suc (suc (suc (suc i)))) l h = absurd (omega arith)

bit_op-forward_example :
    (bit_band platform three_numbers ≡ ok (from_word32 (forward bit_and word_at 2 0x33)))
    × (bit_bor platform three_numbers ≡ ok (from_word32 (forward bit_or word_at 2 0x33)))
    × (bit_bxor platform three_numbers ≡ ok (from_word32 (forward bit_xor word_at 2 0x33)))
bit_op-forward_example = bit_op-forward platform three_numbers word_at (omega arith) three_words

bit_funcs-Refuses_example : All (Refuses (str (codes "x") ∷ [])) (bit_funcs platform)
bit_funcs-Refuses_example = bit_funcs-Refuses platform (str (codes "x") ∷ []) refl refl
