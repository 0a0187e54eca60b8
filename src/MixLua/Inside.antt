-- ===== src/MixLua/Inside.antt =====
-- The loops of mixlua stay in a buffer that has a zero byte behind it, whatever stands behind that
-- byte: no result depends on it.
use lua_cmake_source.Base.{
  ℕ, zero, suc, ◌+◌, ◌-◌, ◌%◌, ◌≤◌, ◌<◌, Bool, true, false, not, ◌&&◌, ◌||◌, [], ◌∷◌, ◌≡◌, refl,
  arith, Option, none, some, ltb, leb, ltb→lt, ◌==◌, if◌then◌else◌, &&-eq-true, length, Bytes, All,
  Bool-cases, inl, inr, ◌++◌,
}
use lua_cmake_source.MixLua.State.{
  Source, size, char_at, is_l2d, is_d2l, starts_at, Step, ok, raised, out_of_fuel, ◌>>=◌,
}
use lua_cmake_source.MixLua.Skip.{
  skip_equals, bracket, skip_string, skip_lstring, skip_line, skip_comment,
}
use lua_cmake_source.MixLua.Total.{Ends, yields}
use lua_cmake_source.MixLua.Reader.{code_loop, data_loop, head_of, temp_size, escaped}

-- `P` holds of the value that a loop gives, if it gives one.
pub data Always {A : Type 0} (P : A → Type 0) : Step A → Type 0 where
  gives : {a : A} → P a → Always P (ok a)
  raises : Always P raised
  runs_out : Always P out_of_fuel

pub Always-bind :
    {A B : Type 0} {P : A → Type 0} {Q : B → Type 0} {r : Step A} {f : A → Step B}
    → Always P r
    → ((a : A) → P a → Always Q (f a))
    → Always Q (r >>= f)
Always-bind (gives {a} h) k = k a h
Always-bind raises k = raises
Always-bind runs_out k = runs_out

pub Always-map :
    {A : Type 0} {P Q : A → Type 0} {r : Step A} → Always P r → ((a : A) → P a → Q a) → Always Q r
Always-map (gives {a} h) k = gives (k a h)
Always-map raises k = raises
Always-map runs_out k = runs_out

pub Always-both :
    {A : Type 0} {P Q : A → Type 0} {r : Step A}
    → Always P r
    → Always Q r
    → Always (λ a. P a × Q a) r
Always-both (gives p) (gives q) = gives (p, q)
Always-both raises q = raises
Always-both runs_out q = runs_out

pub Always-and :
    {A : Type 0} {P Q : A → Type 0} {r : Step A} → Ends P r → Always Q r → Always (λ a. P a × Q a) r
Always-and (yields p) (gives q) = gives (p, q)
Always-and (Ends.raises) q = raises

pub Always-if :
    {A : Type 0} {P : A → Type 0} (b : Bool) {x y : Step A}
    → (b ≡ true → Always P x)
    → (b ≡ false → Always P y)
    → Always P (if b then x else y)
Always-if true hx hy = hx refl
Always-if false hx hy = hy refl

module _ (s : Source) (zero_behind : s.behind 0 ≡ 0) where
  -- A byte that is not zero stands in the buffer, and not right behind it.
  pub char_at_inside :
      (c pos : ℕ) → 0 < c → pos ≤ size s → (char_at s pos == c) ≡ true → pos < size s
  unfolding char_at
  char_at_inside c pos some_byte h e = elim (Bool-cases (ltb pos (size s))) [
    | inl inside ↦ ltb→lt pos (size s) inside
    | inr outside ↦
        let last : pos - size s ≡ 0 = ground arith in
        let read : (0 == c) ≡ true = rw (outside, last, zero_behind) at e in absurd (ground arith)
  ]

  -- So does a tag of such bytes.
  pub starts_at_inside :
      (tag : Bytes) (pos : ℕ)
      → All (λ c. 0 < c) tag
      → pos ≤ size s
      → starts_at s tag pos ≡ true
      → pos + length tag ≤ size s
  unfolding starts_at
  starts_at_inside [] pos no_zero h e = omega arith
  starts_at_inside (c ∷ cs) pos no_zero h e = elim (Bool-cases (char_at s pos == c)) [
    | inl here ↦
        let inside = char_at_inside c pos no_zero.0 h here in
        let more : (c == 0) ≡ false = ground arith in
        omega (arith, starts_at_inside cs (pos + 1) no_zero.1 (omega arith) (rw (here, more) at e))
    | inr other ↦ cc (rw other at e)
  ]

  skip_equals_inside :
      (f pos cnt : ℕ)
      → pos ≤ size s
      → Always (λ (r : ℕ × ℕ). r.0 ≤ size s) (skip_equals s f pos cnt)
  unfolding skip_equals
  skip_equals_inside zero pos cnt h = runs_out
  skip_equals_inside (suc f) pos cnt h =
      Always-if (ltb pos (size s) && char_at s pos == b'=')
        (λ go.
          let inside = ltb→lt pos (size s) (&&-eq-true (ltb pos (size s)) _ go).0 in
          skip_equals_inside f (pos + 1) (cnt + 1) (omega arith))
        (λ _. gives h)

  abbrev Behind : Option (ℕ × ℕ) → Type 0
  Behind none = Unit
  Behind (some (level, p)) = p ≤ size s

  bracket_inside : (c pos : ℕ) → 0 < c → pos ≤ size s → Always Behind (bracket c s pos)
  unfolding bracket
  bracket_inside c pos some_byte h =
      Always-if (not (char_at s pos == c)) (λ _. gives tt)
        (λ here.
          let inside : pos < size s = char_at_inside c pos some_byte h (ground arith) in
          Always-bind (skip_equals_inside (size s + 1) (pos + 1) 0 (omega arith)) λ (p, cnt) low.
            Always-if (p == size s || not (char_at s p == c)) (λ _. gives tt)
              (λ closed.
                let before = char_at_inside c p some_byte low (read p closed) in
                gives (omega arith)))
    where
      read : (p : ℕ) → (p == size s || not (char_at s p == c)) ≡ false → (char_at s p == c) ≡ true
      read p closed = ground arith

  skip_string_inside : (type f pos : ℕ) → Always (λ p. p ≤ size s) (skip_string s type f pos)
  unfolding skip_string
  skip_string_inside type zero pos = runs_out
  skip_string_inside type (suc f) pos =
      Always-if (ltb pos (size s))
        (λ in_buffer.
          let inside = ltb→lt pos (size s) in_buffer in
          Always-if (char_at s pos == type) (λ _. gives (omega arith))
            (λ _. skip_string_inside type f (if char_at s pos == b'\\' then pos + 2 else pos + 1)))
        (λ _. raises)

  skip_lstring_inside : (level f pos : ℕ) → Always (λ p. p ≤ size s) (skip_lstring s level f pos)
  unfolding skip_lstring
  skip_lstring_inside level zero pos = runs_out
  skip_lstring_inside level (suc f) pos =
      Always-if (ltb pos (size s))
        (λ in_buffer.
          let inside = ltb→lt pos (size s) in_buffer in
          Always-bind (bracket_inside b']' pos (omega arith) (omega arith)) (elim [
            | none ↦ λ _. skip_lstring_inside level f (pos + 1)
            | some (tmp, q) ↦ λ low.
                Always-if (tmp == level) (λ _. gives low) (λ _. skip_lstring_inside level f q)
          ]))
        (λ _. raises)

  skip_line_inside : (f pos : ℕ) → pos ≤ size s → Always (λ p. p ≤ size s) (skip_line s f pos)
  unfolding skip_line
  skip_line_inside zero pos h = runs_out
  skip_line_inside (suc f) pos h =
      Always-if (ltb pos (size s) && not (char_at s pos == b'\n'))
        (λ go.
          let inside = ltb→lt pos (size s) (&&-eq-true (ltb pos (size s)) _ go).0 in
          skip_line_inside f (pos + 1) (omega arith))
        (λ _. gives h)

  skip_comment_inside : (pos : ℕ) → pos ≤ size s → Always (λ p. p ≤ size s) (skip_comment s pos)
  unfolding skip_comment
  skip_comment_inside pos h =
      Always-bind (bracket_inside b'[' pos (omega arith) (omega arith)) (elim [
        | none ↦ λ _. skip_line_inside (size s + 1) pos h
        | some (level, q) ↦ λ _. skip_string_inside (level % 256) (size s + 1) q
      ])

  -- Lua code ends at the end of the buffer, or where `l2d` starts.
  abbrev pub CodeEnd : ℕ → Type 0
  CodeEnd p = (p ≤ size s) × (p < size s → is_l2d s p ≡ true)

  pub code_loop_inside : (f pos : ℕ) → pos ≤ size s → Always CodeEnd (code_loop s f pos)
  unfolding code_loop
  code_loop_inside zero pos h = runs_out
  code_loop_inside (suc f) pos h =
      Always-if (not (ltb pos (size s))) (λ stop. gives (h, λ inside. absurd (ground arith)))
        (λ in_buffer.
          let inside : pos < size s = ground arith in
          let next = code_loop_inside f (pos + 1) (omega arith) in
          let on : (p : ℕ) → p ≤ size s → Always CodeEnd (code_loop s f p) =
            λ p low. code_loop_inside f p low in
          Always-if (char_at s pos == b'\'')
            (λ _. Always-bind (skip_string_inside b'\'' (size s + 1) (pos + 1)) on)
            (λ _.
              Always-if (char_at s pos == b'"')
                (λ _. Always-bind (skip_string_inside b'"' (size s + 1) (pos + 1)) on)
                (λ _.
                  Always-if (char_at s pos == b'[')
                    (λ _. Always-bind (bracket_inside b'[' pos (omega arith) (omega arith)) (elim [
                      | none ↦ λ _. next
                      | some (level, q) ↦
                          λ _. Always-bind (skip_lstring_inside level (size s + 1) q) on
                    ]))
                    (λ _.
                      Always-if (char_at s pos == b'-')
                        (λ _.
                          Always-if (char_at s (pos + 1) == b'-')
                            (λ dash.
                              let before =
                                char_at_inside b'-' (pos + 1) (omega arith) (omega arith) dash in
                              Always-bind (skip_comment_inside (pos + 2) (omega arith)) on)
                            (λ _. next))
                        (λ _.
                          Always-if (char_at s pos == head_of s.l2d && is_l2d s pos)
                            (λ stop.
                              gives
                                (h, λ _. (&&-eq-true (char_at s pos == head_of s.l2d) _ stop).1))
                            (λ _. next))))))

  -- The loop over data ends with a full buffer behind where it started, at the end of the buffer,
  -- or where `d2l` starts.
  abbrev pub DataEnd : ℕ → Bool × ℕ × Bytes → Type 0
  DataEnd pos r =
      (pos ≤ r.1)
      × (r.1 ≤ size s)
      × (r.0 ≡ true → pos < r.1)
      × (r.0 ≡ false → r.1 < size s → is_d2l s r.1 ≡ true)

  pub data_loop_inside :
      (f pos : ℕ) (temp : Bytes) → pos ≤ size s → Always (DataEnd pos) (data_loop s f pos temp)
  unfolding data_loop
  data_loop_inside zero pos temp h = runs_out
  data_loop_inside (suc f) pos temp h =
      Always-if (not (ltb pos (size s)) || (char_at s pos == head_of s.d2l && is_d2l s pos))
        (λ stop. gives (omega arith, h, (λ e. cc), λ _ inside. at_tag stop inside))
        (λ go.
          let inside : pos < size s = ground arith in
          Always-if (leb (temp_size - 1) (length (temp ++ escaped (char_at s pos))))
            (λ _. gives (omega arith, omega arith, (λ _. omega arith), λ e. cc))
            (λ _.
              Always-map
                (data_loop_inside f (pos + 1) (temp ++ escaped (char_at s pos)) (omega arith))
                λ r e. (omega arith, e.1, (λ _. omega arith), e.3)))
    where
      at_tag :
          (not (ltb pos (size s)) || (char_at s pos == head_of s.d2l && is_d2l s pos)) ≡ true
          → pos < size s
          → is_d2l s pos ≡ true
      at_tag stop inside = ground arith
