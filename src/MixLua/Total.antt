-- ===== src/MixLua/Total.antt =====
-- Every loop of mixlua ends: one more round than the buffer has bytes is enough.
use lua_cmake_source.Base.{
  ℕ, zero, suc, ◌+◌, ◌-◌, ◌%◌, ◌≤◌, ◌<◌, Bool, true, false, not, ◌&&◌, ◌||◌, [], ◌≡◌, ◌≢◌, refl,
  arith, Option, none, some, ltb, ltb→lt, ◌==◌, if◌then◌else◌, &&-eq-true, length,
}
use lua_cmake_source.MixLua.State.{
  Token, d2l, d2e, text, lua, exp, Source, Cursor, size, char_at, is_l2d, Step, ok, raised,
  out_of_fuel, ◌>>=◌,
}
use lua_cmake_source.MixLua.Skip.{
  skip_equals, bracket, skip_string, skip_lstring, skip_line, skip_comment,
}
use lua_cmake_source.MixLua.Reader.{code_loop, head_of, code_part, data_part, mix_reader, Chunk}
use lua_cmake_source.MixLua.Data.{data_loop-Escapes}

-- The loop ends, and `P` holds of its value if it raises no error.
pub data Ends {A : Type 0} (P : A → Type 0) : Step A → Type 0 where
  yields : {a : A} → P a → Ends P (ok a)
  raises : Ends P raised

pub Ends-bind :
    {A B : Type 0} {P : A → Type 0} {Q : B → Type 0} {r : Step A} {f : A → Step B}
    → Ends P r
    → ((a : A) → P a → Ends Q (f a))
    → Ends Q (r >>= f)
Ends-bind (yields {a} h) k = k a h
Ends-bind raises k = raises

pub Ends-map :
    {A : Type 0} {P Q : A → Type 0} {r : Step A} → Ends P r → ((a : A) → P a → Q a) → Ends Q r
Ends-map (yields {a} h) k = yields (k a h)
Ends-map raises k = raises

pub Ends-if :
    {A : Type 0} {P : A → Type 0} (b : Bool) {x y : Step A}
    → (b ≡ true → Ends P x)
    → (b ≡ false → Ends P y)
    → Ends P (if b then x else y)
Ends-if true hx hy = hx refl
Ends-if false hx hy = hy refl

Ends-ne : {A : Type 0} {P : A → Type 0} {r : Step A} → Ends P r → r ≢ out_of_fuel
Ends-ne (yields h) = cc
Ends-ne raises = cc

module _ (s : Source) where
  skip_equals-Ends :
      (f pos cnt : ℕ)
      → size s < f + pos
      → 0 < f
      → Ends (λ (r : ℕ × ℕ). pos ≤ r.0) (skip_equals s f pos cnt)
  unfolding skip_equals
  skip_equals-Ends zero pos cnt h k = elim k [ ]
  skip_equals-Ends (suc f) pos cnt h k =
      Ends-if (ltb pos (size s) && char_at s pos == b'=')
        (λ go.
          let inside = ltb→lt pos (size s) (&&-eq-true (ltb pos (size s)) _ go).0 in
          Ends-map (skip_equals-Ends f (pos + 1) (cnt + 1) (omega arith) (omega arith))
            λ r p. omega arith)
        (λ stop. yields (omega arith))

  abbrev Ahead : ℕ → Option (ℕ × ℕ) → Type 0
  Ahead pos none = Unit
  Ahead pos (some (level, p)) = pos < p

  bracket-Ends : (c pos : ℕ) → Ends (Ahead pos) (bracket c s pos)
  unfolding bracket
  bracket-Ends c pos =
      Ends-if (not (char_at s pos == c)) (λ _. yields tt)
        (λ _.
          Ends-bind (skip_equals-Ends (size s + 1) (pos + 1) 0 (omega arith) (omega arith))
            λ (p, cnt) ahead.
              Ends-if (p == size s || not (char_at s p == c)) (λ _. yields tt)
                (λ _. yields (omega arith)))

  skip_string-Ends :
      (type f pos : ℕ) → size s < f + pos → 0 < f → Ends (λ p. pos < p) (skip_string s type f pos)
  unfolding skip_string
  skip_string-Ends type zero pos h k = elim k [ ]
  skip_string-Ends type (suc f) pos h k =
      Ends-if (ltb pos (size s))
        (λ in_buffer.
          let inside = ltb→lt pos (size s) in_buffer in
          Ends-if (char_at s pos == type) (λ _. yields (omega arith))
            (λ _.
              let next = if char_at s pos == b'\\' then pos + 2 else pos + 1 in
              let on : pos < next = ground arith in
              Ends-map (skip_string-Ends type f next (omega arith) (omega arith))
                λ p e. omega arith))
        (λ _. raises)

  skip_lstring-Ends :
      (level f pos : ℕ)
      → size s < f + pos
      → 0 < f
      → Ends (λ p. pos < p) (skip_lstring s level f pos)
  unfolding skip_lstring
  skip_lstring-Ends level zero pos h k = elim k [ ]
  skip_lstring-Ends level (suc f) pos h k =
      Ends-if (ltb pos (size s))
        (λ in_buffer.
          let inside = ltb→lt pos (size s) in_buffer in
          Ends-bind (bracket-Ends b']' pos) (elim [
            | none ↦ λ _.
                Ends-map (skip_lstring-Ends level f (pos + 1) (omega arith) (omega arith))
                  λ p e. omega arith
            | some (tmp, q) ↦ λ ahead.
                Ends-if (tmp == level) (λ _. yields ahead)
                  (λ _.
                    Ends-map (skip_lstring-Ends level f q (omega arith) (omega arith))
                      λ p e. omega arith)
          ]))
        (λ _. raises)

  skip_line-Ends : (f pos : ℕ) → size s < f + pos → 0 < f → Ends (λ p. pos ≤ p) (skip_line s f pos)
  unfolding skip_line
  skip_line-Ends zero pos h k = elim k [ ]
  skip_line-Ends (suc f) pos h k =
      Ends-if (ltb pos (size s) && not (char_at s pos == b'\n'))
        (λ go.
          let inside = ltb→lt pos (size s) (&&-eq-true (ltb pos (size s)) _ go).0 in
          Ends-map (skip_line-Ends f (pos + 1) (omega arith) (omega arith)) λ p e. omega arith)
        (λ _. yields (omega arith))

  skip_comment-Ends : (pos : ℕ) → Ends (λ p. pos ≤ p) (skip_comment s pos)
  unfolding skip_comment
  skip_comment-Ends pos = Ends-bind (bracket-Ends b'[' pos) (elim [
    | none ↦ λ _. skip_line-Ends (size s + 1) pos (omega arith) (omega arith)
    | some (level, q) ↦ λ ahead.
        Ends-map (skip_string-Ends (level % 256) (size s + 1) q (omega arith) (omega arith))
          λ p e. omega arith
  ])

  -- What follows a part that was skipped.
  code_after :
      (f pos : ℕ) {r : Step ℕ}
      → ((p : ℕ) → pos < p → Ends (λ q. p ≤ q) (code_loop s f p))
      → Ends (λ p. pos < p) r
      → Ends (λ q. pos ≤ q) (r >>= λ p. code_loop s f p)
  code_after f pos ih e = Ends-bind e λ p ahead. Ends-map (ih p ahead) λ q on. omega arith

  string_after : (type pos : ℕ) → Ends (λ p. pos < p) (skip_string s type (size s + 1) (pos + 1))
  string_after type pos =
      Ends-map (skip_string-Ends type (size s + 1) (pos + 1) (omega arith) (omega arith))
        λ p e. omega arith

  lstring_after :
      (level pos q : ℕ) → pos < q → Ends (λ p. pos < p) (skip_lstring s level (size s + 1) q)
  lstring_after level pos q ahead =
      Ends-map (skip_lstring-Ends level (size s + 1) q (omega arith) (omega arith))
        λ p e. omega arith

  comment_after : (pos : ℕ) → Ends (λ p. pos < p) (skip_comment s (pos + 2))
  comment_after pos = Ends-map (skip_comment-Ends (pos + 2)) λ p e. omega arith

  pub code_loop-Ends :
      (f pos : ℕ) → size s < f + pos → 0 < f → Ends (λ p. pos ≤ p) (code_loop s f pos)
  unfolding code_loop
  code_loop-Ends zero pos h k = elim k [ ]
  code_loop-Ends (suc f) pos h k =
      Ends-if (not (ltb pos (size s))) (λ _. yields (omega arith))
        (λ in_buffer.
          let inside : pos < size s = ground arith in
          let on : (p : ℕ) → pos < p → Ends (λ q. p ≤ q) (code_loop s f p) =
            λ p ahead. code_loop-Ends f p (omega arith) (omega arith) in
          let next : Ends (λ q. pos ≤ q) (code_loop s f (pos + 1)) =
            Ends-map (on (pos + 1) (omega arith)) (λ p e. omega arith) in
          Ends-if (char_at s pos == b'\'') (λ _. code_after f pos on (string_after b'\'' pos))
            (λ _.
              Ends-if (char_at s pos == b'"') (λ _. code_after f pos on (string_after b'"' pos))
                (λ _.
                  Ends-if (char_at s pos == b'[')
                    (λ _. Ends-bind (bracket-Ends b'[' pos) (elim [
                      | none ↦ λ _. next
                      | some (level, q) ↦
                          λ ahead. code_after f pos on (lstring_after level pos q ahead)
                    ]))
                    (λ _.
                      Ends-if (char_at s pos == b'-')
                        (λ _.
                          Ends-if (char_at s (pos + 1) == b'-')
                            (λ _. code_after f pos on (comment_after pos)) (λ _. next))
                        (λ _.
                          Ends-if (char_at s pos == head_of s.l2d && is_l2d s pos)
                            (λ _. yields (omega arith)) (λ _. next))))))

  code_part-Ends : (is_code : Bool) (old : ℕ) → Ends (λ (c : Chunk). Unit) (code_part s is_code old)
  unfolding code_part
  code_part-Ends is_code old =
      Ends-bind (code_loop-Ends (size s + 1) old (omega arith) (omega arith)) λ pos _.
        Ends-if (pos == size s) (λ _. yields tt)
          (λ _.
            Ends-if (not (pos - old == 0)) (λ _. yields tt)
              (λ _. Ends-if is_code (λ _. yields tt) (λ _. yields tt)))

  data_part-Ends : (old : ℕ) → Ends (λ (c : Chunk). Unit) (data_part s old)
  unfolding data_part
  data_part-Ends old =
      let (r, e, _) =
        data_loop-Escapes s (size s + 1) old [] (omega arith) (omega arith) (omega arith) in
      rw e (
        Ends-if r.0 (λ _. yields tt)
          (λ _. Ends-if (not (length r.2 == 0)) (λ _. yields tt) (λ _. yields tt)))

  -- Every call of `mix_reader` returns a chunk or NULL, or raises the error of an unexpected end of
  -- file, whatever the state: the fuel of its loops, one more than the size of the buffer, suffices.
  pub mix_reader_ends : (c : Cursor) → mix_reader s c ≢ out_of_fuel
  mix_reader_ends c = Ends-ne (reader c.failed c.token)
    where
      reader :
          (failed : Bool) (t : Token)
          → Ends
              (λ (r : Chunk). Unit)
              (mix_reader s (record { pos = c.pos; token = t; failed = failed }))
      reader true t = unfold mix_reader in yields tt
      reader false text = unfold mix_reader in data_part-Ends c.pos
      reader false lua = unfold mix_reader in code_part-Ends true c.pos
      reader false exp = unfold mix_reader in code_part-Ends false c.pos
      reader false d2l = unfold mix_reader in yields tt
      reader false d2e = unfold mix_reader in yields tt
      reader false _ = unfold mix_reader in yields tt
