-- ===== src/Rex/Plain/First.antt =====
-- plainfind gives the first place where the pattern occurs.
use lua_cmake_source.Base.{
  ℕ, zero, suc, ◌+◌, ◌≤◌, ◌<◌, Bool, true, false, &&-eq-true, [], ◌∷◌, Option, none, some, leb,
  leb→le, leb_false→lt, ◌==◌, ==_iff, Bool-cases, inl, inr, ◌↔◌, ◌≡◌, refl, sym, ap, ◌∙◌, arith,
  length, take, drop, drop-drop, drop_beyond, Bytes, map,
}
use lua_cmake_source.Base.Int.{ℤ}
use lua_cmake_source.Rex.Find.{get_startoffset}
use lua_cmake_source.Rex.Plain.{equal_at, plain_loop, folded, positions, plainfind_func}

module _ (fold : ℕ → ℕ) (text pattern : Bytes) where
  -- The pattern stands in the text at a position, up to what is compared.
  abbrev pub Occurs : ℕ → Type 0
  Occurs i =
      (i + length pattern ≤ length text)
      × (map fold (take (length pattern) (drop i text)) ≡ map fold pattern)

  -- The first occurrence from a position on, or none if there is none.
  pub data IsFirst (start : ℕ) : Option (ℕ × ℕ) → Type 0 where
    first_at :
        (i : ℕ)
        → start ≤ i
        → Occurs i
        → ((j : ℕ) → start ≤ j → j < i → ¬ Occurs j)
        → IsFirst start (some (i + 1, i + length pattern))
    nowhere : ((j : ℕ) → start ≤ j → ¬ Occurs j) → IsFirst start none

equal_at_iff :
    (fold : ℕ → ℕ) (pattern s : Bytes)
    → length pattern ≤ length s
    → (equal_at fold pattern s ≡ true) ↔ (map fold (take (length pattern) s) ≡ map fold pattern)
unfolding equal_at
equal_at_iff fold [] s h = (λ _. refl, λ _. refl)
equal_at_iff fold (p ∷ ps) [] h = elim h [ ]
equal_at_iff fold (p ∷ ps) (c ∷ cs) h =
    let (into, back) = equal_at_iff fold ps cs (omega arith) in
    (
      λ e.
          let (same, rest) = &&-eq-true (fold c == fold p) _ e in
          cc ((==_iff (fold c) (fold p)).0 same, into rest),
      λ e.
          let same : fold c ≡ fold p = cc e in
          let rest : map fold (take (length ps) cs) ≡ map fold ps = cc e in
          rw ((==_iff (fold c) (fold p)).1 same, back rest),
    )

length_of_rest : (i : ℕ) (xs : Bytes) → length xs ≤ i + length (drop i xs)
length_of_rest zero xs = omega arith
length_of_rest (suc i) [] = omega arith
length_of_rest (suc i) (x ∷ xs) = omega (arith, length_of_rest i xs)

rest_inside : (i c : ℕ) (cs xs : Bytes) → drop i xs ≡ c ∷ cs → i + length (c ∷ cs) ≡ length xs
rest_inside zero c cs xs e = omega (arith, ap length e)
rest_inside (suc i) c cs [] e = cc
rest_inside (suc i) c cs (x ∷ xs) e = omega (arith, rest_inside i c cs xs e)

IsFirst-later :
    {fold : ℕ → ℕ} {text pattern : Bytes} (i : ℕ) (r : Option (ℕ × ℕ))
    → ¬ Occurs fold text pattern i
    → IsFirst fold text pattern (i + 1) r
    → IsFirst fold text pattern i r
IsFirst-later i r n (first_at k h occurs before) = first_at k (omega arith) occurs λ j low high.
    elim (Bool-cases (i == j)) [
      | inl e ↦ let same : i ≡ j = ground arith in rw (← same) n
      | inr e ↦ before j (ground arith) high
    ]
IsFirst-later i r n (nowhere none_after) = nowhere λ j low. elim (Bool-cases (i == j)) [
  | inl e ↦ let same : i ≡ j = ground arith in rw (← same) n
  | inr e ↦ none_after j (ground arith)
]

module _ (fold : ℕ → ℕ) (text pattern : Bytes) (some_bytes : 0 < length pattern) where
  -- The rest of the text from a position is too short.
  too_short :
      (i : ℕ) (s : Bytes)
      → drop i text ≡ s
      → length s < length pattern
      → (j : ℕ) → i ≤ j
      → ¬ Occurs fold text pattern j
  too_short i s e h j k (fits, _) = omega (arith, ap length e, length_of_rest i text)

  not_here : {A : Type 0} {b : Bool} → b ≡ false → b ≡ true → A
  not_here e h = cc (e, h)

  plain_loop-IsFirst :
      (s : Bytes) (i : ℕ)
      → drop i text ≡ s
      → IsFirst fold text pattern i (positions (length pattern) (plain_loop fold pattern s i))
  unfolding plain_loop
  plain_loop-IsFirst [] i e = nowhere (too_short i [] e (omega arith))
  plain_loop-IsFirst (c ∷ cs) i e =
      let next =
        plain_loop-IsFirst cs (i + 1) (sym (drop-drop i 1 (i + 1) text refl) ∙ ap (drop 1) e) in
      elim (Bool-cases (leb (length pattern) (length (c ∷ cs)))) [
        | inr short ↦ rw short (nowhere (too_short i (c ∷ cs) e (leb_false→lt _ _ short)))
        | inl long ↦
            let enough = leb→le (length pattern) (length (c ∷ cs)) long in
            let (into, back) = equal_at_iff fold pattern (c ∷ cs) enough in
            elim (Bool-cases (equal_at fold pattern (c ∷ cs))) [
              | inl here ↦
                  rw (long, here)
                    (first_at i (omega arith)
                      (omega (arith, rest_inside i c cs text e), rw e (into here))
                      (λ j k h. absurd (omega arith)))
              | inr other ↦
                  rw (long, other)
                    (IsFirst-later i _ (λ (fits, same). not_here other (back (rw (← e) same))) next)
            ]
      ]

-- plainfind returns the positions of the first occurrence of the pattern from the start offset on,
-- where characters are compared by toupper if so asked, and nil exactly if there is none.
pub plainfind_func-IsFirst :
    (toupper : ℕ → ℕ) (text pattern : Bytes) (init : Option ℤ) (ci : Bool)
    → IsFirst
        (folded toupper ci)
        text
        pattern
        (get_startoffset init (length text))
        (plainfind_func toupper text pattern init ci)
unfolding plainfind_func
plainfind_func-IsFirst toupper text [] init ci =
    let start = get_startoffset init (length text) in
    elim (Bool-cases (leb start (length text))) [
      | inl e ↦ rw e (
          first_at start (omega arith) (omega (arith, leb→le start (length text) e), refl)
            (λ j low high. absurd (omega arith)))
      | inr e ↦
          let beyond = leb_false→lt start (length text) e in
          rw (e, drop_beyond start text (omega arith))
            (unfold plain_loop in nowhere λ j low (fits, _). omega arith)
    ]
plainfind_func-IsFirst toupper text (c ∷ cs) init ci =
    let filled : (suc (length cs) == 0) ≡ false = ground arith in
    rw filled (
      plain_loop-IsFirst (folded toupper ci) text (c ∷ cs) (omega arith)
        (drop (get_startoffset init (length text)) text) (get_startoffset init (length text)) refl)
