-- ===== src/MixLua/Faults.antt =====
-- Inputs on which mixlua does not do what its comments say: long comments, and in Unclosed
-- separators that another test hides.
pub mod Unclosed
use lua_cmake_source.Base.{
  ℕ, zero, suc, ◌+◌, ◌-◌, ◌%◌, ◌≤◌, ◌<◌, Bool, true, false, ◌&&◌, [], ◌∷◌, ◌≡◌, ◌≢◌, refl, ap,
  arith, some, ltb, ltb→lt, le→ltb_false, ltb_false→le, ◌==◌, if◌then◌else◌, Bool-cases, inl, inr,
  length, Bytes,
}
use lua_cmake_source.MixLua.State.{
  Token, sh, d2l, l2d, d2e, e2d, text, lua, exp, eof, Source, Cursor, size, char_at, is_exp, Step,
  ok, raised, out_of_fuel, ◌>>=◌,
}
use lua_cmake_source.MixLua.Skip.{bracket_open, skip_string, skip_comment}
use lua_cmake_source.MixLua.Reader.{
  at, data_loop, code_loop, code_part, data_part, d2l_part, mix_reader, sh_loop, start, Chunk,
  chunks, without_last,
}

-- The character does not stand between `p` and the end of the buffer.
abbrev pub Absent : Source → ℕ → ℕ → Type 0
Absent s c p = (i : ℕ) → p ≤ i → i < size s → (char_at s i == c) ≡ false

skip_string-Absent :
    (s : Source) (type f pos : ℕ)
    → size s < f + pos
    → 0 < f
    → Absent s type pos
    → skip_string s type f pos ≡ raised
unfolding skip_string
skip_string-Absent s type zero pos h k a = elim k [ ]
skip_string-Absent s type (suc f) pos h k a = elim (Bool-cases (ltb pos (size s))) [
  | inl e ↦
      let inside = ltb→lt pos (size s) e in
      let next = if char_at s pos == b'\\' then pos + 2 else pos + 1 in
      let on : pos < next = ground arith in
      rw (e, a pos (omega arith) inside)
        (skip_string-Absent s type f next (omega arith) (omega arith)
          (λ i low high. a i (omega arith) high))
  | inr e ↦ rw e
]

-- A long comment, closed or not, raises the error of an unexpected end of file, unless the byte
-- whose value is its level stands somewhere behind its opening bracket: `mix_skip_comment` looks
-- for that byte in place of the closing bracket.
pub skip_comment_long :
    (s : Source) (pos level p : ℕ)
    → bracket_open s pos ≡ ok (some (level, p))
    → Absent s (level % 256) p
    → skip_comment s pos ≡ raised
unfolding skip_comment
skip_comment_long s pos level p opened a =
    rw opened (skip_string-Absent s (level % 256) (size s + 1) p (omega arith) (omega arith) a)
