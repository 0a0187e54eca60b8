-- ===== src/Random/Twister.antt =====
-- libs/lrandom/random.c: the generator. An unsigned long has 64 bits; the words of the array keep 32.
use lua_cmake_source.Base.{
  ℕ, zero, suc, ◌+◌, ◌-◌, ◌*◌, ◌/◌, ◌%◌, ◌^◌, List, [], ◌∷◌, leb, ◌==◌, if◌then◌else◌, get_or, set,
  bit_and, bit_or, bit_xor,
}
use lua_cmake_source.Base.Int.{ℤ}

abbrev pub n_words : ℕ
n_words = 624

abbrev pub m_words : ℕ
m_words = 397

abbrev pub matrix_a : ℕ
matrix_a = 0x9908b0df

abbrev pub upper_mask : ℕ
upper_mask = 0x80000000

abbrev pub lower_mask : ℕ
lower_mask = 0x7fffffff

-- `MT`
pub record Mt : Type 0 where
  pub v : List ℕ
  pub i : ℕ

abbrev pub ulong : ℕ → ℕ
ulong n = n % 2 ^ 64

-- `mt[kk]`
abbrev pub at : List ℕ → ℕ → ℕ
at v k = get_or v k 0

-- The loop of `init_genrand`, with `mti` from `k` on for so many rounds.
unfoldable pub init_loop : ℕ → ℕ → List ℕ → List ℕ
init_loop zero k v = v
init_loop (suc rounds) k v =
    let last = at v (k - 1) in
    let next = ulong (ulong (1812433253 * bit_xor last (last / 2 ^ 30)) + k) in
    init_loop rounds (k + 1) (set v k (bit_and next 0xffffffff))

-- `init_genrand` with the seed as an unsigned long, on the array as it was.
unfoldable pub init_genrand : Mt → ℕ → Mt
init_genrand o s = record {
  v = init_loop (n_words - 1) 1 (set o.v 0 (bit_and s 0xffffffff));
  i = n_words;
}

-- `y = (a & UPPER_MASK) | (b & LOWER_MASK)`
unfoldable pub joined : ℕ → ℕ → ℕ
joined a b = bit_or (bit_and a upper_mask) (bit_and b lower_mask)

-- `mag01[x]`
abbrev pub mag_01 : ℕ → ℕ
mag_01 x = get_or (0 ∷ matrix_a ∷ []) x 0

-- `m ^ (y >> 1) ^ mag01[y & 1]`
unfoldable pub mixed : ℕ → ℕ → ℕ
mixed m y = bit_xor (bit_xor m (y / 2)) (mag_01 (bit_and y 1))

-- The two loops over `kk`, for so many rounds; the second reads `mt[kk+(M-N)]`.
unfoldable pub first_loop : ℕ → ℕ → List ℕ → List ℕ
first_loop zero k v = v
first_loop (suc rounds) k v =
    first_loop rounds (k + 1)
      (set v k (mixed (at v (k + m_words)) (joined (at v k) (at v (k + 1)))))

unfoldable pub second_loop : ℕ → ℕ → List ℕ → List ℕ
second_loop zero k v = v
second_loop (suc rounds) k v =
    second_loop rounds (k + 1)
      (set v k (mixed (at v (k + m_words - n_words)) (joined (at v k) (at v (k + 1)))))

-- The whole array anew.
unfoldable pub regenerate : List ℕ → List ℕ
regenerate v =
    let w = second_loop (m_words - 1) (n_words - m_words) (first_loop (n_words - m_words) 0 v) in
    set w (n_words - 1) (mixed (at w (m_words - 1)) (joined (at w (n_words - 1)) (at w 0)))

-- The tempering, with the shifts on an unsigned long.
unfoldable pub tempered : ℕ → ℕ
tempered y =
    let y₁ = bit_xor y (y / 2 ^ 11) in
    let y₂ = bit_xor y₁ (bit_and (ulong (y₁ * 2 ^ 7)) 0x9d2c5680) in
    let y₃ = bit_xor y₂ (bit_and (ulong (y₂ * 2 ^ 15)) 0xefc60000) in bit_xor y₃ (y₃ / 2 ^ 18)

-- The array before a word is taken: anew when all its words are used up.
unfoldable pub refilled : Mt → Mt
refilled o =
    if leb n_words o.i
    then record {
      v = regenerate (if o.i == n_words + 1 then (init_genrand o 5489).v else o.v);
      i = 0;
    }
    else o

unfoldable pub genrand_int32 : Mt → ℕ × Mt
genrand_int32 o = let r = refilled o in (tempered (at r.v r.i), record { v = r.v; i = r.i + 1 })

-- The arithmetic of doubles, on their bit patterns, and the conversions to double.
pub record Doubles : Type 0 where
  pub of_ulong : ℕ → ℕ
  pub of_int : ℤ → ℕ
  pub plus : ℕ → ℕ → ℕ
  pub times : ℕ → ℕ → ℕ
  pub over : ℕ → ℕ → ℕ
  pub floor : ℕ → ℕ

-- 1.0, 4294967295.0, 4294967296.0, 67108864.0 and 9007199254740992.0
abbrev double_1 : ℕ
double_1 = 0x3ff0000000000000

abbrev double_4294967295 : ℕ
double_4294967295 = 0x41efffffffe00000

abbrev double_4294967296 : ℕ
double_4294967296 = 0x41f0000000000000

abbrev double_67108864 : ℕ
double_67108864 = 0x4190000000000000

abbrev double_9007199254740992 : ℕ
double_9007199254740992 = 0x4340000000000000

module _ (f : Doubles) where
  unfoldable pub genrand_real1 : Mt → ℕ × Mt
  genrand_real1 o =
      let (n, o₁) = genrand_int32 o in
      (f.times (f.of_ulong n) (f.over double_1 double_4294967295), o₁)

  unfoldable pub genrand_real2 : Mt → ℕ × Mt
  genrand_real2 o =
      let (n, o₁) = genrand_int32 o in
      (f.times (f.of_ulong n) (f.over double_1 double_4294967296), o₁)

  unfoldable pub genrand_res53 : Mt → ℕ × Mt
  genrand_res53 o =
      let (a, o₁) = genrand_int32 o in
      let (b, o₂) = genrand_int32 o₁ in
      let high = f.times (f.of_ulong (a / 2 ^ 5)) double_67108864 in
      let whole = f.plus high (f.of_ulong (b / 2 ^ 6)) in
      (f.times whole (f.over double_1 double_9007199254740992), o₂)
