-- ===== src/Random/Recurrence.antt =====
-- libs/lrandom/random.c: the array that `genrand_int32` makes anew, in place, against the recurrence
-- of the Mersenne Twister.
use lua_cmake_source.Base.{
  ℕ, zero, suc, ◌+◌, ◌-◌, ◌≤◌, ◌<◌, List, ◌≡◌, refl, sym, ◌∙◌, arith, ltb, if◌then◌else◌,
  Bool-cases, inl, inr, ltb→lt, ltb_false→le, lt→ltb, le→ltb_false, length, length-set, get_or-set,
  get_or-set_ne, set,
}
use lua_cmake_source.Random.Twister.{
  n_words, m_words, at, joined, mixed, first_loop, second_loop, regenerate,
}

-- The words of an array, followed by those of the next one.
abbrev pub stream : List ℕ → List ℕ → ℕ → ℕ
stream v w j = if ltb j n_words then at v j else at w (j - n_words)

-- What the recurrence makes of the words at `j`, `j + 1` and `j + 397`.
abbrev pub twisted : List ℕ → List ℕ → ℕ → ℕ
twisted v w j = mixed (stream v w (j + m_words)) (joined (stream v w j) (stream v w (j + 1)))

abbrev old_word : (v w : List ℕ) (j : ℕ) → j < n_words → stream v w j ≡ at v j
old_word v w j h = rw (lt→ltb j n_words h) refl

abbrev new_word : (v w : List ℕ) (j : ℕ) → n_words ≤ j → stream v w j ≡ at w (j - n_words)
new_word v w j h = rw (le→ltb_false j n_words h) refl

-- The array `w` is made anew below `k`, and is still `v` from there on.
record Partly (v w : List ℕ) (k : ℕ) : Type 0 where
  sized : length w ≡ n_words
  old : (j : ℕ) → k ≤ j → at w j ≡ at v j
  new : (j : ℕ) → j < k → at w j ≡ twisted v w j

module _ (v : List ℕ) where
  stream-same :
      (u w : List ℕ) (k m : ℕ)
      → ((i : ℕ) → i < k → at w i ≡ at u i)
      → m < n_words + k
      → stream v w m ≡ stream v u m
  stream-same u w k m h l = elim (Bool-cases (ltb m n_words)) [
    | inl e ↦ rw e
    | inr e ↦ rw e (h (m - n_words) (omega (arith, ltb_false→le m n_words e)))
  ]

  twisted-same :
      (u w : List ℕ) (k j : ℕ)
      → ((i : ℕ) → i < k → at w i ≡ at u i)
      → j ≤ k
      → twisted v w j ≡ twisted v u j
  twisted-same u w k j h l = rw (
    stream-same u w k (j + m_words) h (omega arith),
    stream-same u w k j h (omega arith),
    stream-same u w k (j + 1) h (omega arith),
  )

  -- One more word.
  write :
      (u : List ℕ) (k x : ℕ)
      → Partly v u k
      → k < n_words
      → x ≡ twisted v u k
      → Partly v (set u k x) (k + 1)
  write u k x p h e = record {
    sized = length-set u k x ∙ p.sized;
    old = λ j l.
        get_or-set_ne u k j x 0 (λ same. absurd (omega (arith, same))) ∙ p.old j (omega arith);
    new = λ j l. elim (Bool-cases (ltb j k)) [
      | inl b ↦
          kept j (ltb→lt j k b)
          ∙ p.new j (ltb→lt j k b)
          ∙ sym (twisted-same u (set u k x) k j kept (omega (arith, ltb→lt j k b)))
      | inr b ↦
          let here : j ≡ k = omega (arith, ltb_false→le j k b) in
          rw here (
            get_or-set u k x 0 (omega (arith, p.sized))
            ∙ e
            ∙ sym (twisted-same u (set u k x) k k kept (omega arith)))
    ];
  }
    where
      kept : (i : ℕ) → i < k → at (set u k x) i ≡ at u i
      kept i l = get_or-set_ne u k i x 0 (λ same. absurd (omega (arith, same)))

  first :
      (rounds k : ℕ) (u : List ℕ)
      → Partly v u k
      → k + rounds ≤ n_words - m_words
      → Partly v (first_loop rounds k u) (k + rounds)
  unfolding first_loop
  first zero k u p h = let same : k + 0 ≡ k = omega arith in rw same p
  first (suc rounds) k u p h =
      let next : k + suc rounds ≡ k + 1 + rounds = omega arith in
      rw next (
        first rounds (k + 1) _
          (write u k _ p (omega arith) (
            rw (
              old_word v u (k + m_words) (omega arith),
              old_word v u k (omega arith),
              old_word v u (k + 1) (omega arith),
              p.old (k + m_words) (omega arith),
              p.old k (omega arith),
              p.old (k + 1) (omega arith),
            )))
          (omega arith))

  second :
      (rounds k : ℕ) (u : List ℕ)
      → Partly v u k
      → n_words - m_words ≤ k
      → k + rounds ≤ n_words - 1
      → Partly v (second_loop rounds k u) (k + rounds)
  unfolding second_loop
  second zero k u p l h = let same : k + 0 ≡ k = omega arith in rw same p
  second (suc rounds) k u p l h =
      let next : k + suc rounds ≡ k + 1 + rounds = omega arith in
      rw next (
        second rounds (k + 1) _
          (write u k _ p (omega arith) (
            rw (
              new_word v u (k + m_words) (omega arith),
              old_word v u k (omega arith),
              old_word v u (k + 1) (omega arith),
              p.old k (omega arith),
              p.old (k + 1) (omega arith),
            )))
          (omega arith) (omega arith))

  last :
      (u : List ℕ)
      → Partly v u (n_words - 1)
      → Partly v
          (set u (n_words - 1) (mixed (at u (m_words - 1)) (joined (at u (n_words - 1)) (at u 0))))
          n_words
  last u p = write u (n_words - 1) _ p (omega arith) (rw (p.old (n_words - 1) (omega arith)))

  regenerate-Partly : length v ≡ n_words → Partly v (regenerate v) n_words
  unfolding regenerate
  regenerate-Partly len =
      let start : Partly v v 0 = record {
        sized = len;
        old = λ j l. refl;
        new = λ j l. absurd (omega arith);
      } in
      last _ (
        second (m_words - 1) (n_words - m_words) _
          (first (n_words - m_words) 0 v start (omega arith)) (omega arith) (omega arith))

  -- The array of 624 words made anew continues the old one by the recurrence of the Mersenne
  -- Twister: every word is mixed from those 624, 623 and 227 places before it.
  pub regenerate_lem :
      (k : ℕ)
      → length v ≡ n_words
      → k < n_words
      → stream v (regenerate v) (k + n_words) ≡ twisted v (regenerate v) k
  regenerate_lem k len h =
      let back : k + n_words - n_words ≡ k = omega arith in
      new_word v (regenerate v) (k + n_words) (omega arith)
      ∙ rw back ((regenerate-Partly len).new k h)
