-- ===== src/Random/Bounds.antt =====
-- libs/lrandom/random.c: the state of a generator stays 624 words of 32 bits with an index.
use lua_cmake_source.Base.{
  ℕ, zero, suc, ◌+◌, ◌-◌, ◌*◌, ◌/◌, ◌^◌, ◌≤◌, ◌<◌, false, List, ◌≡◌, ◌≢◌, ◌∙◌, arith, leb, ltb,
  ◌==◌, Bool-cases, inl, inr, leb_false→lt, ltb→lt, ltb_false→le, length, length-set, get_or-set,
  get_or-set_ne, set, bit_and, bit_xor,
}
use lua_cmake_source.Base.Bits.{bit_xor_below, bit_or_below, bit_and_below}
use lua_cmake_source.Random.Twister.{
  n_words, m_words, upper_mask, lower_mask, Mt, at, ulong, init_loop, init_genrand, joined, mag_01,
  mixed, first_loop, second_loop, regenerate, tempered, refilled, genrand_int32,
}

-- The first `k` words fit 32 bits.
abbrev pub Fits : List ℕ → ℕ → Type 0
Fits v k = (j : ℕ) → j < k → at v j < 2 ^ 32

pub record HasState (o : Mt) : Type 0 where
  pub sized : length o.v ≡ n_words
  pub fits : Fits o.v n_words
  pub index : o.i ≤ n_words

-- A write that fits; what the word was before is no matter.
Fits-write :
    (v : List ℕ) (k i x : ℕ)
    → ((j : ℕ) → j < k → i ≢ j → at v j < 2 ^ 32)
    → x < 2 ^ 32
    → i < length v
    → Fits (set v i x) k
Fits-write v k i x f h l j b = elim (Bool-cases (i == j)) [
  | inl e ↦ let same : j ≡ i = ground arith in rw same (omega (arith, get_or-set v i x 0 l, h))
  | inr e ↦
      let apart : i ≢ j = ground arith in omega (arith, get_or-set_ne v i j x 0 apart, f j b apart)
]

Fits-next : (v : List ℕ) (k x : ℕ) → Fits v k → x < 2 ^ 32 → k < length v → Fits (set v k x) (k + 1)
Fits-next v k x f h l = Fits-write v (k + 1) k x (λ j b n. f j (lower j b n)) h l
  where
    lower : (j : ℕ) → j < k + 1 → k ≢ j → j < k
    lower j b n = elim (Bool-cases (ltb j k)) [
      | inl e ↦ ltb→lt j k e
      | inr e ↦ absurd (n (omega (arith, ltb_false→le j k e)))
    ]

Fits-set :
    (v : List ℕ) (i x : ℕ) → Fits v n_words → x < 2 ^ 32 → i < length v → Fits (set v i x) n_words
Fits-set v i x f h l = Fits-write v n_words i x (λ j b n. f j b) h l

init_loop-Fits :
    (rounds k : ℕ) (v : List ℕ)
    → length v ≡ n_words
    → Fits v k
    → k + rounds ≤ n_words
    → (length (init_loop rounds k v) ≡ n_words) × Fits (init_loop rounds k v) (k + rounds)
unfolding init_loop
init_loop-Fits zero k v len f h = (len, λ j l. f j (omega arith))
init_loop-Fits (suc rounds) k v len f h =
    let next : k + suc rounds ≡ k + 1 + rounds = omega arith in
    rw next (
      init_loop-Fits rounds (k + 1) (set v k _) (length-set v k _ ∙ len)
        (Fits-next v k _ f (bit_and_below 32 _ 0xffffffff (omega arith)) (omega arith))
        (omega arith))

-- Whatever the array held and whatever the seed, `init_genrand` leaves a state.
pub init_genrand-HasState : (o : Mt) (s : ℕ) → length o.v ≡ n_words → HasState (init_genrand o s)
unfolding init_genrand
init_genrand-HasState o s len =
    let first = bit_and s 0xffffffff in
    let low : Fits (set o.v 0 first) 1 =
      Fits-next o.v 0 first (λ j l. absurd (omega arith))
        (bit_and_below 32 s 0xffffffff (omega arith)) (omega arith) in
    let (l, f) =
      init_loop-Fits (n_words - 1) 1 (set o.v 0 first) (length-set o.v 0 first ∙ len) low
        (omega arith) in
    record { sized = l; fits = f; index = omega arith }

joined_below : (a b : ℕ) → joined a b < 2 ^ 32
unfolding joined
joined_below a b =
    bit_or_below 32 _ _ (bit_and_below 32 a upper_mask (omega arith))
      (bit_and_below 32 b lower_mask (omega arith))

mag_01_below : (x : ℕ) → mag_01 x < 2 ^ 32
mag_01_below zero = omega arith
mag_01_below (suc zero) = omega arith
mag_01_below (suc (suc x)) = omega arith

mixed_below : (m y : ℕ) → m < 2 ^ 32 → y < 2 ^ 32 → mixed m y < 2 ^ 32
unfolding mixed
mixed_below m y h l =
    bit_xor_below 32 _ _ (bit_xor_below 32 m (y / 2) h (omega arith)) (mag_01_below (bit_and y 1))

-- The array before and after a write of a mixed word.
abbrev IsArray : List ℕ → Type 0
IsArray v = (length v ≡ n_words) × Fits v n_words

write_mixed :
    (v : List ℕ) (k m a b : ℕ)
    → IsArray v
    → k < n_words
    → m < n_words
    → IsArray (set v k (mixed (at v m) (joined a b)))
write_mixed v k m a b (len, f) h l = (
  length-set v k _ ∙ len,
  Fits-set v k _ f (mixed_below _ _ (f m l) (joined_below a b)) (omega arith),
)

first_loop-IsArray :
    (rounds k : ℕ) (v : List ℕ)
    → IsArray v
    → k + rounds ≤ n_words - m_words
    → IsArray (first_loop rounds k v)
unfolding first_loop
first_loop-IsArray zero k v a h = a
first_loop-IsArray (suc rounds) k v a h =
    first_loop-IsArray rounds (k + 1) _
      (write_mixed v k (k + m_words) _ _ a (omega arith) (omega arith)) (omega arith)

second_loop-IsArray :
    (rounds k : ℕ) (v : List ℕ)
    → IsArray v
    → k + rounds ≤ n_words - 1
    → IsArray (second_loop rounds k v)
unfolding second_loop
second_loop-IsArray zero k v a h = a
second_loop-IsArray (suc rounds) k v a h =
    second_loop-IsArray rounds (k + 1) _
      (write_mixed v k (k + m_words - n_words) _ _ a (omega arith) (omega arith)) (omega arith)

regenerate-IsArray : (v : List ℕ) → IsArray v → IsArray (regenerate v)
unfolding regenerate
regenerate-IsArray v a =
    write_mixed _ (n_words - 1) (m_words - 1) _ _
      (second_loop-IsArray (m_words - 1) (n_words - m_words) _
        (first_loop-IsArray (n_words - m_words) 0 v a (omega arith)) (omega arith))
      (omega arith) (omega arith)

tempered_below : (y : ℕ) → y < 2 ^ 32 → tempered y < 2 ^ 32
unfolding tempered
tempered_below y h =
    let y₁ = bit_xor y (y / 2 ^ 11) in
    let h₁ : y₁ < 2 ^ 32 = bit_xor_below 32 y (y / 2 ^ 11) h (omega arith) in
    let y₂ = bit_xor y₁ (bit_and (ulong (y₁ * 2 ^ 7)) 0x9d2c5680) in
    let h₂ : y₂ < 2 ^ 32 = bit_xor_below 32 y₁ _ h₁ (bit_and_below 32 _ 0x9d2c5680 (omega arith)) in
    let y₃ = bit_xor y₂ (bit_and (ulong (y₂ * 2 ^ 15)) 0xefc60000) in
    let h₃ : y₃ < 2 ^ 32 = bit_xor_below 32 y₂ _ h₂ (bit_and_below 32 _ 0xefc60000 (omega arith)) in
    bit_xor_below 32 y₃ (y₃ / 2 ^ 18) h₃ (omega arith)

refilled_lem : (o : Mt) → HasState o → IsArray (refilled o).v × ((refilled o).i < n_words)
unfolding refilled
refilled_lem o s = elim (Bool-cases (leb n_words o.i)) [
  | inl e ↦
      let not_fresh : (o.i == n_words + 1) ≡ false = ground (arith, s.index) in
      rw (e, not_fresh) (regenerate-IsArray o.v (s.sized, s.fits), omega arith)
  | inr e ↦ rw e ((s.sized, s.fits), leb_false→lt n_words o.i e)
]

-- A generator in a state gives a number of 32 bits and is left in a state.
pub genrand_int32_lem :
    (o : Mt) → HasState o → ((genrand_int32 o).0 < 2 ^ 32) × HasState (genrand_int32 o).1
unfolding genrand_int32
genrand_int32_lem o s =
    let ((len, f), i) = refilled_lem o s in
    (tempered_below _ (f _ i), record { sized = len; fits = f; index = omega (arith, i) })
