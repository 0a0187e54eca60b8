-- ===== src/PhpSerialize/Integers.antt =====
-- Integers in keys and values: what `Plookslikeinteger` refuses, and where "%d" goes wrong.
use lua_cmake_source.Base.{
  ℕ, zero, suc, ◌+◌, ◌-◌, ◌*◌, ◌/◌, ◌%◌, ◌^◌, ◌≤◌, ◌<◌, true, false, [], ◌∷◌, ◌++◌, ltb, ◌==◌, ◌≡◌,
  ◌≢◌, ◌↔◌, ◌⊎◌, refl, sym, ap, ◌∙◌, arith, Bool-cases, ltb→lt, lt→ltb, ltb_false→le, inl, inr,
  append-nil, append_assoc, length, Bytes,
}
use lua_cmake_source.Base.Int.{pos, negsuc}
use lua_cmake_source.Base.Decimal.{
  decimal, decimal_from, decimal_ℤ, decimal-snoc, value_from, value_from-decimal,
}
use lua_cmake_source.LuaNumber.{is_float_finite, is_integer, to_integer}
use lua_cmake_source.PhpSerialize.Keys.{
  some_non_digit, plookslikeinteger, sprintf_d, ok, Env, ssi_integer, ssi_semicolon,
}
use lua_cmake_source.PhpSerialize.Values.{number_pieces}

some_non_digit-snoc :
    (s : Bytes) (c : ℕ)
    → some_non_digit s ≡ false
    → c < 10
    → some_non_digit (s ++ (b'0' + c) ∷ []) ≡ false
unfolding some_non_digit
some_non_digit-snoc [] c h k = ground arith
some_non_digit-snoc (d ∷ s) c h k = ground (arith, some_non_digit-snoc s c)

-- A numeral with a first digit that is not zero.
abbrev Leads : Bytes → Type 0
Leads s = (c : ℕ) × (cs : Bytes) × (s ≡ c ∷ cs) × ((c == b'0') ≡ false) × (some_non_digit s ≡ false)

decimal_from-Leads : (f n : ℕ) → n < f → 0 < n → Leads (decimal_from f n)
unfolding decimal_from
decimal_from-Leads zero n h k = absurd (omega arith)
decimal_from-Leads (suc f) n h k = elim (Bool-cases (ltb n 10)) [
  | inl small ↦ rw small (b'0' + n, [], refl, ground arith, unfold some_non_digit in ground arith)
  | inr large ↦
      let ten : 10 ≤ n = ltb_false→le n 10 large in
      let (c, cs, e, lead, digits) = decimal_from-Leads f (n / 10) (omega arith) (omega arith) in
      rw large (
        c,
        cs ++ (b'0' + n % 10) ∷ [],
        ap (λ (t : Bytes). t ++ (b'0' + n % 10) ∷ []) e,
        lead,
        some_non_digit-snoc (decimal_from f (n / 10)) (n % 10) digits (omega arith),
      )
]

-- A byte string with a first digit that is not zero.
looks-Leads : (s : Bytes) → Leads s → plookslikeinteger s ≡ false
unfolding plookslikeinteger
looks-Leads [] l = refl
looks-Leads (c ∷ cs) (d, ds, e, lead, digits) = let same : c ≡ d = cc in rw digits (ground arith)

decimal-looks : (n : ℕ) → plookslikeinteger (decimal n) ≡ false
decimal-looks zero = unfold decimal plookslikeinteger some_non_digit in refl
decimal-looks (suc n) =
    unfold decimal in
    looks-Leads (decimal_from (suc (suc n)) (suc n))
      (decimal_from-Leads (suc (suc n)) (suc n) (omega arith) (omega arith))

digit_facts :
    (c : ℕ) (cs : Bytes)
    → some_non_digit (c ∷ cs) ≡ false
    → (b'0' ≤ c) × (c ≤ b'9') × (some_non_digit cs ≡ false)
unfolding some_non_digit
digit_facts c cs h = (ground arith, ground arith, ground arith)

decimal_small : (d : ℕ) → d < 10 → decimal d ≡ (b'0' + d) ∷ []
unfolding decimal decimal_from
decimal_small d h = ground arith

-- Digits behind a numeral that is not zero make a numeral.
decimal-append :
    (n : ℕ) (cs : Bytes)
    → 0 < n
    → some_non_digit cs ≡ false
    → decimal n ++ cs ≡ decimal (value_from n cs)
unfolding value_from
decimal-append n [] h k = append-nil (decimal n)
decimal-append n (c ∷ cs) h k =
    let (low, high, rest) = digit_facts c cs k in
    let digit : b'0' + (c - b'0') ≡ c = omega arith in
    let step : decimal n ++ c ∷ [] ≡ decimal (n * 10 + (c - b'0')) =
      sym (decimal-snoc n (c - b'0') h (omega arith) ∙ rw digit) in
    sym (append_assoc (decimal n) (c ∷ []) cs)
    ∙ ap (λ (t : Bytes). t ++ cs) step
    ∙ decimal-append (n * 10 + (c - b'0')) cs (omega arith) rest

looks_facts :
    (c : ℕ) (cs : Bytes)
    → plookslikeinteger (c ∷ cs) ≡ false
    → ((cs ≡ []) ⊎ (c ≢ b'0')) × (some_non_digit (c ∷ cs) ≡ false)
unfolding plookslikeinteger
looks_facts c [] h = (inl refl, ground arith)
looks_facts c (d ∷ cs) h = (inr (ground arith), ground arith)

first_digit :
    (c : ℕ) (cs : Bytes)
    → decimal (c - b'0') ≡ c ∷ []
    → b'0' ≤ c
    → some_non_digit cs ≡ false
    → (cs ≡ []) ⊎ (c ≢ b'0')
    → c ∷ cs ≡ decimal (value_from (c - b'0') cs)
first_digit c cs first low rest (inl none_left) = rw none_left (unfold value_from in sym first)
first_digit c cs first low rest (inr lead) =
    ap (λ (t : Bytes). t ++ cs) (sym first) ∙ decimal-append (c - b'0') cs (omega arith) rest

looks-decimal :
    (c : ℕ) (cs : Bytes)
    → plookslikeinteger (c ∷ cs) ≡ false
    → c ∷ cs ≡ decimal (value_from 0 (c ∷ cs))
unfolding value_from
looks-decimal c cs h =
    let (no_zero, digits) = looks_facts c cs h in
    let (low, high, rest) = digit_facts c cs digits in
    let digit : b'0' + (c - b'0') ≡ c = omega arith in
    let first : decimal (c - b'0') ≡ c ∷ [] = decimal_small (c - b'0') (omega arith) ∙ rw digit in
    let alone : 0 * 10 + (c - b'0') ≡ c - b'0' = omega arith in
    rw alone (first_digit c cs first low rest no_zero)

minus-looks : (t : Bytes) → plookslikeinteger (b'-' ∷ t) ≡ true
unfolding plookslikeinteger some_non_digit
minus-looks t = elim (Bool-cases (ltb 1 (suc (length t)))) [ inl e ↦ rw e refl | inr e ↦ rw e refl ]

-- Plookslikeinteger returns 0 exactly for the empty string and for the decimal numerals of natural
-- numbers. A numeral of a number below zero, though convertible to an integer, is not refused.
pub plookslikeinteger_iff :
    (s : Bytes)
    → ((plookslikeinteger s ≡ false) ↔ ((s ≡ []) ⊎ ((n : ℕ) × (s ≡ decimal n))))
      × ((n : ℕ) → s ≡ decimal_ℤ (negsuc n) → plookslikeinteger s ≡ true)
plookslikeinteger_iff s = ((numeral s, λ n. integer s n), λ n e. below_zero n s e)
  where
    numeral : (t : Bytes) → plookslikeinteger t ≡ false → (t ≡ []) ⊎ ((n : ℕ) × (t ≡ decimal n))
    numeral [] h = inl refl
    numeral (c ∷ cs) h = inr (value_from 0 (c ∷ cs), looks-decimal c cs h)

    integer : (t : Bytes) → (t ≡ []) ⊎ ((n : ℕ) × (t ≡ decimal n)) → plookslikeinteger t ≡ false
    integer t (inl e) = rw e (unfold plookslikeinteger in refl)
    integer t (inr (n, e)) = rw e (decimal-looks n)

    below_zero : (n : ℕ) (t : Bytes) → t ≡ decimal_ℤ (negsuc n) → plookslikeinteger t ≡ true
    below_zero n t e = rw e (unfold decimal_ℤ in minus-looks (decimal (suc n)))

decimal_digits : (n : ℕ) → 0 < n → some_non_digit (decimal n) ≡ false
decimal_digits n h =
    let (c, cs, e, lead, digits) = decimal_from-Leads (suc n) n (omega arith) h in
    unfold decimal in digits

-- Where a lua_Integer lies from 2 ^ 31 on but in the range of its 64 bits, "%d" writes another
-- number.
pub sprintf_d_wrong : (n : ℕ) → 2 ^ 31 ≤ n → sprintf_d (pos n) ≢ decimal_ℤ (pos n)
sprintf_d_wrong n h e = elim (Bool-cases (ltb (n % 2 ^ 32) (2 ^ 31))) [
  | inl plus ↦
      let same : decimal (n % 2 ^ 32) ≡ decimal n = unfold decimal_ℤ in rw plus at e in
      let value : n % 2 ^ 32 ≡ n =
        sym (value_from-decimal (n % 2 ^ 32)) ∙ ap (value_from 0) same ∙ value_from-decimal n in
      omega (arith, ltb→lt (n % 2 ^ 32) (2 ^ 31) plus)
  | inr minus ↦
      let written : b'-' ∷ decimal (suc (2 ^ 32 - n % 2 ^ 32 - 1)) ≡ decimal n =
        unfold decimal_ℤ in rw minus at e in
      let digits : some_non_digit (b'-' ∷ decimal (suc (2 ^ 32 - n % 2 ^ 32 - 1))) ≡ false =
        rw written (decimal_digits n (omega arith)) in
      omega (arith, digit_facts b'-' (decimal (suc (2 ^ 32 - n % 2 ^ 32 - 1))) digits)
]

decimal_ℤ-pos : (n : ℕ) → decimal_ℤ (pos n) ≡ decimal n
unfolding decimal_ℤ
decimal_ℤ-pos n = refl

second : {a b b' c : Bytes} → ok (a ∷ b ∷ c ∷ []) ≡ ok (a ∷ b' ∷ c ∷ []) → b ≡ b'
second h = cc

-- A whole number from 0 on is written as its decimal numeral exactly when it is an int: "%d" reads
-- the low 32 bits of the lua_Integer, though a lua_Integer has 64.
pub number_pieces_iff :
    (env : Env) (n z : ℕ)
    → is_float_finite n ≡ true
    → is_integer n ≡ true
    → to_integer n ≡ pos z
    → (number_pieces env n ≡ ok (ssi_integer ∷ decimal z ∷ ssi_semicolon ∷ [])) ↔ (z < 2 ^ 31)
unfolding number_pieces
number_pieces_iff env n z finite whole value = (
  λ h. elim (Bool-cases (ltb z (2 ^ 31))) [
    | inl fits ↦ ltb→lt z (2 ^ 31) fits
    | inr over ↦
        let same : sprintf_d (pos z) ≡ decimal z = second (rw (finite, whole, value) at h) in
        absurd (sprintf_d_wrong z (ltb_false→le z (2 ^ 31) over) (same ∙ sym (decimal_ℤ-pos z)))
  ],
  λ h.
      let low : z % 2 ^ 32 ≡ z = omega arith in
      rw (finite, whole, value, low, lt→ltb z (2 ^ 31) h, decimal_ℤ-pos z),
)
