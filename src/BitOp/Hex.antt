-- ===== src/BitOp/Hex.antt =====
-- The digits of `bit_tohex`, against the number that they stand for.
use native.Mathlib.Nat.{
  pow-suc, one-le-pow, div-add-mod', mod-lt, mul-add-mod_self_right, mod-eq_of_lt,
}
use Prim.Native.Nat.{min}
use lua_cmake_source.Base.{
  ℕ, zero, suc, ◌+◌, ◌-◌, ◌*◌, ◌/◌, ◌%◌, ◌^◌, ◌<◌, Bool, true, false, ◌||◌, leb, All, All-append,
  ltb, ◌==◌, if◌then◌else◌, [], ◌∷◌, ◌++◌, ◌≡◌, refl, sym, ap, ◌∙◌, arith, length, length-append,
  get_or, Bytes, bit_and, Bool-cases, inl, inr, ◌⊎◌, ◌&&◌, passes_below, passes_below-at,
  &&-eq-true, ==_iff,
}
use lua_cmake_source.Base.Int.{ℤ, pos, negsuc}
use lua_cmake_source.Base.Bits.{bit_and_ones}
use lua_cmake_source.BitOp.Args.{ok, undefined}
use lua_cmake_source.BitOp.Words.{hex, hex_loop, at_most_8, lower_digits, upper_digits}

-- What a hexadecimal digit stands for.
unfoldable pub hex_digit : ℕ → ℕ
hex_digit c = if ltb c b'A' then c - b'0' else if ltb c b'a' then c - b'A' + 10 else c - b'a' + 10

-- The number that a text of digits stands for, read from the left.
unfoldable pub hex_value_from : ℕ → Bytes → ℕ
hex_value_from acc [] = acc
hex_value_from acc (c ∷ cs) = hex_value_from (acc * 16 + hex_digit c) cs

abbrev pub hex_value : Bytes → ℕ
hex_value = hex_value_from 0

-- The digits read back as they should.
abbrev IsDigits : Bytes → Type 0
IsDigits digits = (d : ℕ) → d < 16 → hex_digit (get_or digits d 0) ≡ d

hex_value_from-snoc :
    (cs : Bytes) (acc c : ℕ)
    → hex_value_from acc (cs ++ c ∷ []) ≡ hex_value_from acc cs * 16 + hex_digit c
unfolding hex_value_from
hex_value_from-snoc [] acc c = refl
hex_value_from-snoc (d ∷ cs) acc c = hex_value_from-snoc cs (acc * 16 + hex_digit d) c

length-hex_loop : (digits : Bytes) (i b : ℕ) → length (hex_loop digits i b) ≡ i
unfolding hex_loop
length-hex_loop digits zero b = refl
length-hex_loop digits (suc i) b = omega (
  arith,
  length-append (hex_loop digits i (b / 16)) (get_or digits (bit_and b 15) 0 ∷ []),
  length-hex_loop digits i (b / 16),
)

last_digits : (i b : ℕ) → b / 16 % 16 ^ i * 16 + b % 16 ≡ b % 16 ^ suc i
last_digits i b =
    let p = 16 ^ i in
    let q = b / 16 / p in
    let r = b / 16 % p in
    let next : 16 ^ suc i ≡ 16 * p = omega (arith, pow-suc 16 i) in
    let whole : q * p + r ≡ b / 16 = div-add-mod' (b / 16) p in
    let fits : r < p = mod-lt (b / 16) (omega (arith, one-le-pow i 16)) in
    let split : b ≡ q * (16 * p) + (r * 16 + b % 16) = omega (arith, whole) in
    let rest : (q * (16 * p) + (r * 16 + b % 16)) % (16 * p) ≡ r * 16 + b % 16 =
      mul-add-mod_self_right q (16 * p) (r * 16 + b % 16) ∙ mod-eq_of_lt (omega (arith, fits)) in
    sym (ap (λ (t : ℕ). b % t) next ∙ (ap (λ (t : ℕ). t % (16 * p)) split ∙ rest))

hex_value-hex_loop :
    (digits : Bytes) → IsDigits digits → (i b : ℕ) → hex_value (hex_loop digits i b) ≡ b % 16 ^ i
unfolding hex_loop hex_value_from
hex_value-hex_loop digits h zero b = omega arith
hex_value-hex_loop digits h (suc i) b =
    let low : bit_and b 15 ≡ b % 16 = omega (arith, bit_and_ones 4 b) in
    hex_value_from-snoc (hex_loop digits i (b / 16)) 0 (get_or digits (bit_and b 15) 0)
    ∙ rw (hex_value-hex_loop digits h i (b / 16), low, h (b % 16) (omega arith)) (last_digits i b)

digits_table :
    passes_below
      (λ d.
        (hex_digit (get_or lower_digits d 0) == d) && (hex_digit (get_or upper_digits d 0) == d))
      16
    ≡ true
unfolding passes_below hex_digit
digits_table = refl

digits_read :
    (d : ℕ)
    → d < 16
    → (hex_digit (get_or lower_digits d 0) ≡ d) × (hex_digit (get_or upper_digits d 0) ≡ d)
digits_read d h =
    let (low, high) = &&-eq-true _ _ (passes_below-at _ 16 d h digits_table) in
    ((==_iff _ d).0 low, (==_iff _ d).0 high)

abbrev pub magnitude : ℤ → ℕ
magnitude (pos n) = n
magnitude (negsuc n) = suc n

-- The loop with a count that is cut off at eight.
read :
    (digits : Bytes) (b n : ℕ)
    → IsDigits digits
    → (length (hex_loop digits (at_most_8 n) b) ≡ min 8 n)
      × (hex_value (hex_loop digits (at_most_8 n) b)
          ≡ b % 16 ^ length (hex_loop digits (at_most_8 n) b))
read digits b n h =
    let len = length-hex_loop digits (at_most_8 n) b in
    let cut : at_most_8 n ≡ min 8 n = ground arith in
    (len ∙ cut, hex_value-hex_loop digits h (at_most_8 n) b ∙ ap (λ (t : ℕ). b % 16 ^ t) (sym len))

-- A digit of hexadecimal numerals, with a capital letter or without.
unfoldable pub is_hex_digit : Bool → ℕ → Bool
is_hex_digit true c = (leb b'0' c && leb c b'9') || (leb b'A' c && leb c b'F')
is_hex_digit false c = (leb b'0' c && leb c b'9') || (leb b'a' c && leb c b'f')

abbrev pub AreHexDigits : Bool → Bytes → Type 0
AreHexDigits capital = All (λ c. is_hex_digit capital c ≡ true)

abbrev AreDigitsOf : Bool → Bytes → Type 0
AreDigitsOf capital digits = (d : ℕ) → d < 16 → is_hex_digit capital (get_or digits d 0) ≡ true

hex_loop-AreHexDigits :
    (capital : Bool) (digits : Bytes)
    → AreDigitsOf capital digits
    → (i b : ℕ) → AreHexDigits capital (hex_loop digits i b)
unfolding hex_loop
hex_loop-AreHexDigits capital digits h zero b = tt
hex_loop-AreHexDigits capital digits h (suc i) b =
    let low : bit_and b 15 ≡ b % 16 = omega (arith, bit_and_ones 4 b) in
    All-append _ (hex_loop digits i (b / 16)) _ (hex_loop-AreHexDigits capital digits h i (b / 16))
      (rw low (h (b % 16) (omega arith)), tt)

lower_digits_table : passes_below (λ d. is_hex_digit false (get_or lower_digits d 0)) 16 ≡ true
unfolding passes_below is_hex_digit
lower_digits_table = refl

upper_digits_table : passes_below (λ d. is_hex_digit true (get_or upper_digits d 0)) 16 ≡ true
unfolding passes_below is_hex_digit
upper_digits_table = refl

abbrev pub is_negative : ℤ → Bool
is_negative (pos n) = false
is_negative (negsuc n) = true

-- The least int as count is undefined in C, for its negation overflows. Any other count `n` gives the
-- last `|n|` hexadecimal digits of the word, at most eight, with the letters A to F where `n` is
-- negative and a to f where it is not.
pub hex_lem :
    (b : ℕ) (n : ℤ)
    → ((n ≡ negsuc (2 ^ 31 - 1)) × (hex b n ≡ undefined))
      ⊎ ((t : Bytes) × (hex b n ≡ ok t)
          × ((length t ≡ min 8 (magnitude n))
              × (hex_value t ≡ b % 16 ^ length t)
              × AreHexDigits (is_negative n) t))
unfolding hex
hex_lem b (pos n) =
    let (len, value) = read lower_digits b n (λ d h. (digits_read d h).0) in
    let digits = λ (d : ℕ) (h : d < 16). passes_below-at _ 16 d h lower_digits_table in
    inr (_, refl, (len, value, hex_loop-AreHexDigits false lower_digits digits (at_most_8 n) b))
hex_lem b (negsuc m) = elim (Bool-cases (suc m == 2 ^ 31)) [
  | inl e ↦ let least : m ≡ 2 ^ 31 - 1 = ground arith in inl (ap negsuc least, rw e refl)
  | inr e ↦
      let (len, value) = read upper_digits b (suc m) (λ d h. (digits_read d h).1) in
      let digits = λ (d : ℕ) (h : d < 16). passes_below-at _ 16 d h upper_digits_table in
      inr (
        _,
        rw e,
        (len, value, hex_loop-AreHexDigits true upper_digits digits (at_most_8 (suc m)) b),
      )
]
