-- ===== src/MixLua/Ending.antt =====
-- Every chunk of mixlua moves the cursor on, inside the buffer.
use lua_cmake_source.Base.{
  ℕ, zero, suc, ◌+◌, ◌-◌, ◌*◌, ◌≤◌, ◌<◌, Bool, true, false, not, ◌&&◌, [], ◌≡◌, ◌≢◌, refl, arith,
  ap, ◌∙◌, none, some, ltb, ltb→lt, ◌==◌, if◌then◌else◌, length, All, Bool-cases, inl, ◌⊎◌, inr,
}
use lua_cmake_source.MixLua.State.{
  Token, sh, d2l, l2d, d2e, e2d, text, lua, exp, eof, Source, Cursor, size, char_at, is_exp, is_d2l,
}
use lua_cmake_source.MixLua.Reader.{
  at, Chunk, mix_reader, data_part, code_part, d2l_part, dispatch, start, sh_loop,
}
use lua_cmake_source.MixLua.Total.{code_loop-Ends, Ends, yields, Ends-if, Ends-bind}
use lua_cmake_source.MixLua.Inside.{
  Always, gives, Always-bind, Always-if, Always-and, starts_at_inside, code_loop_inside,
  data_loop_inside,
}

-- A buffer with a zero byte behind it, and separators of bytes other than zero, of which those
-- around code are not empty.
pub record IsText (s : Source) : Type 0 where
  pub zero_behind : s.behind 0 ≡ 0
  pub d2l_bytes : All (λ c. 0 < c) s.d2l
  pub l2d_bytes : All (λ c. 0 < c) s.l2d
  pub exp_bytes : All (λ c. 0 < c) s.exp
  pub some_d2l : 0 < length s.d2l
  pub some_l2d : 0 < length s.l2d

-- The calls that can follow without a step over a separator.
abbrev rank : Token → ℕ
rank eof = 0
rank lua = 1
rank exp = 1
rank d2e = 2
rank d2l = 3
rank text = 4
rank l2d = 5
rank e2d = 6
rank sh = 6

abbrev pub left : Source → Cursor → ℕ
left s c = 8 * (size s - c.pos) + rank c.token

-- Behind a chunk the cursor is in the buffer, and less is left.
abbrev pub MovesOn : Source → ℕ → Chunk → Type 0
MovesOn s n (none, c) = Unit
MovesOn s n (some bs, c) = (c.pos ≤ size s) × (left s c < n)

-- Where the first line of a program is one for the shell, a newline ends it.
abbrev pub HasLine : Source → Type 0
HasLine s =
    (ltb 0 (size s) && char_at s 0 == b'#') ≡ true → (i : ℕ) × (i < size s) × (char_at s i ≡ b'\n')

-- Where the reader starts: at the first byte, or behind a line for the shell.
abbrev pub IsStart : Source → Cursor → Type 0
IsStart s c = (c ≡ at 0 l2d) ⊎ (pos : ℕ) × (c ≡ at pos sh)

module _ (s : Source) (is : IsText s) where
  d2l_part-MovesOn :
      (pos n : ℕ)
      → pos ≤ size s
      → 8 * (size s - pos) + 2 < n
      → Always (MovesOn s n) (d2l_part s pos)
  d2l_part-MovesOn pos n h k = elim (Bool-cases (pos == size s)) [
    | inl end ↦ rw end (gives (omega arith, omega arith))
    | inr more ↦ elim (Bool-cases (is_exp s pos)) [
      | inl e ↦
          let inside = starts_at_inside s is.zero_behind s.exp pos is.exp_bytes h e in
          rw (more, e) (gives (inside, omega arith))
      | inr e ↦ rw (more, e) (gives (h, omega arith))
    ]
  ]

  code_part-MovesOn :
      (is_code : Bool) (old : ℕ)
      → old ≤ size s
      → Always (MovesOn s (8 * (size s - old) + 1)) (code_part s is_code old)
  unfolding code_part
  code_part-MovesOn is_code old h =
      Always-bind
        (Always-and (code_loop-Ends s (size s + 1) old (omega arith) (omega arith))
          (code_loop_inside s is.zero_behind (size s + 1) old h))
        λ pos (on, (low, tag)).
          Always-if (pos == size s) (λ _. gives tt)
            (λ more.
              let some_tag = is.some_l2d in
              let inside =
                starts_at_inside s is.zero_behind s.l2d pos is.l2d_bytes low (tag (ground arith)) in
              Always-if (not (pos - old == 0))
                (λ _. elim (Bool-cases is_code) [
                  | inl e ↦ rw e (gives (inside, omega arith))
                  | inr e ↦ rw e (gives (inside, omega arith))
                ])
                (λ _.
                  Always-if is_code (λ _. gives (inside, omega arith))
                    (λ _. gives (inside, omega arith))))

  behind_d2l :
      (pos : ℕ)
      → pos ≤ size s
      → (pos < size s → is_d2l s pos ≡ true)
      → (if ltb pos (size s) then pos + length s.d2l else pos) ≤ size s
  behind_d2l pos low tag = elim (Bool-cases (ltb pos (size s))) [
    | inl e ↦
        rw e (
          starts_at_inside s is.zero_behind s.d2l pos is.d2l_bytes low
            (tag (ltb→lt pos (size s) e)))
    | inr e ↦ rw e low
  ]

  data_part-MovesOn :
      (old : ℕ) → old ≤ size s → Always (MovesOn s (8 * (size s - old) + 4)) (data_part s old)
  unfolding data_part
  data_part-MovesOn old h =
      Always-bind (data_loop_inside s is.zero_behind (size s + 1) old [] h)
        λ r (on, low, full, tag).
          Always-if r.0
            (λ e.
              let further = full e in
              elim (Bool-cases (r.1 == size s)) [
                | inl end ↦ rw end (gives (omega arith, omega arith))
                | inr more ↦ rw more (gives (low, omega arith))
              ])
            (λ e.
              let pos' = if ltb r.1 (size s) then r.1 + length s.d2l else r.1 in
              let inside : pos' ≤ size s = behind_d2l r.1 low (tag e) in
              let forward : old ≤ pos' = ground arith in
              Always-if (not (length r.2 == 0)) (λ _. gives (inside, omega arith))
                (λ _. d2l_part-MovesOn pos' _ inside (omega arith)))

  dispatch-MovesOn :
      (t : Token) (pos : ℕ)
      → pos ≤ size s
      → Always (MovesOn s (left s (at pos t))) (dispatch s t pos)
  dispatch-MovesOn text pos h = data_part-MovesOn pos h
  dispatch-MovesOn lua pos h = code_part-MovesOn true pos h
  dispatch-MovesOn exp pos h = code_part-MovesOn false pos h
  dispatch-MovesOn d2l pos h = d2l_part-MovesOn pos _ h (omega arith)
  dispatch-MovesOn d2e pos h = gives (h, omega arith)
  dispatch-MovesOn l2d pos h = gives (h, omega arith)
  dispatch-MovesOn e2d pos h = gives (h, omega arith)
  dispatch-MovesOn sh pos h = gives (h, omega arith)
  dispatch-MovesOn eof pos h = gives tt

  pub mix_reader-MovesOn :
      (c : Cursor) → c.pos ≤ size s → Always (MovesOn s (left s c)) (mix_reader s c)
  unfolding mix_reader
  mix_reader-MovesOn c h =
      Always-if c.failed (λ _. gives tt) (λ _. dispatch-MovesOn c.token c.pos h)

  sh_loop-Ends :
      (i f pos : ℕ)
      → size s < f + pos
      → pos ≤ i
      → i < size s
      → char_at s i ≡ b'\n'
      → Ends (λ p. p < size s) (sh_loop s f pos)
  unfolding sh_loop
  sh_loop-Ends i zero pos h low high e = absurd (omega arith)
  sh_loop-Ends i (suc f) pos h low high e =
      Ends-if (ltb pos (size s) && not (char_at s pos == b'\n'))
        (λ go.
          let apart : pos ≢ i = λ same. not_newline go (ap (char_at s) same ∙ e) in
          sh_loop-Ends i f (pos + 1) (omega arith) (omega arith) high e)
        (λ _. yields (omega arith))
    where
      not_newline :
          (ltb pos (size s) && not (char_at s pos == b'\n')) ≡ true → char_at s pos ≢ b'\n'
      not_newline go same = ground arith

  pub start-Ends :
      HasLine s → Ends (λ c. (c.pos ≤ size s) × (left s c ≤ 8 * size s + 6) × IsStart s c) (start s)
  unfolding start
  start-Ends line =
      Ends-if (ltb 0 (size s) && char_at s 0 == b'#')
        (λ e.
          let (i, high, newline) = line e in
          Ends-bind (sh_loop-Ends i (size s + 1) 0 (omega arith) (omega arith) high newline)
            λ pos low. yields (omega arith, omega arith, inr (pos + 1, refl)))
        (λ _. yields (omega arith, omega arith, inl refl))
