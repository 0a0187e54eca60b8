-- ===== src/MixLua/Page/Sent.antt =====
-- What the reader still sends from each of its states, if the program ends without an error.
use lua_cmake_source.Base.{
  ℕ, ◌+◌, ◌-◌, ◌<◌, false, [], ◌++◌, ◌≡◌, ◌≢◌, refl, arith, none, some, ◌==◌, length, Bytes,
  Bool-cases, inl, inr, codes,
}
use lua_cmake_source.MixLua.State.{
  Token, sh, d2l, l2d, d2e, e2d, text, lua, exp, eof, Source, size, is_exp,
}
use lua_cmake_source.MixLua.Reader.{Chunk, d2l_part, slice, without_last}
use lua_cmake_source.MixLua.Data.{escape_all}
use lua_cmake_source.MixLua.Inside.{Always, gives}
use lua_cmake_source.MixLua.Page.{
  IsData, after_data, IsCode, Page, section, CodePage, ends, code, expression,
}

module _ (s : Source) where
  abbrev pub CodeSent : (Bytes → Bytes) → ℕ → Bytes → Type 0
  CodeSent f pos bs =
      (r : ℕ) × (more : Bytes) × IsCode s pos r
      × Page s (r + length s.l2d) more
      × (bs ≡ slice s pos (r - pos) ++ f more)

  abbrev pub Sent : Token → ℕ → Bytes → Type 0
  Sent l2d pos bs = Page s pos bs
  Sent text pos bs =
      (q : ℕ) × (more : Bytes) × IsData s pos q
      × CodePage s (after_data s q) more
      × (bs ≡ escape_all (slice s pos (q - pos)) ++ (codes "')" ++ more))
  Sent d2l pos bs = (more : Bytes) × CodePage s pos more × (bs ≡ codes "')" ++ more)
  Sent eof pos bs = bs ≡ []
  Sent lua pos bs = CodeSent (λ more. more) pos bs
  Sent exp pos bs = CodeSent (λ more. codes ")" ++ more) pos bs
  Sent d2e pos bs =
      (rest : Bytes) × CodeSent (λ more. codes ")" ++ more) pos rest
      × (bs ≡ without_last s.out ++ rest)
  Sent e2d pos bs = (more : Bytes) × Page s pos more × (bs ≡ codes ")" ++ more)
  Sent sh pos bs = (more : Bytes) × Page s pos more × (bs ≡ codes "\n" ++ more)

  -- A chunk with bytes in it, and what is sent behind it; or nothing more.
  abbrev pub Sends : Token → ℕ → Chunk → Type 0
  Sends t pos (none, c) = c.failed ≡ false → Sent t pos []
  Sends t pos (some bs, c) =
      (0 < length bs) × ((more : Bytes) → Sent c.token c.pos more → Sent t pos (bs ++ more))

  pub Sends-from :
      (t t' : Token) (pos pos' : ℕ) (c : Chunk)
      → ((bs : Bytes) → Sent t' pos' bs → Sent t pos bs)
      → Sends t' pos' c
      → Sends t pos c
  Sends-from t t' pos pos' (none, c) k h = λ e. k [] (h e)
  Sends-from t t' pos pos' (some bs, c) k h = (h.0, λ more m. k (bs ++ more) (h.1 more m))

  pub d2l_part-Sends : (pos : ℕ) → Always (Sends d2l pos) (d2l_part s pos)
  d2l_part-Sends pos = elim (Bool-cases (pos == size s)) [
    | inl end ↦
        let same : pos ≡ size s = ground arith in
        rw end (gives (omega arith, λ more e. (more, rw e (ends same), refl)))
    | inr go ↦
        let apart : pos ≢ size s = ground arith in
        elim (Bool-cases (is_exp s pos)) [
          | inl e ↦
              rw (go, e)
                (gives (
                  omega arith,
                  λ bs (rest, (r, more, is_code, page, made), all).
                      (bs, rw (all, made) (expression apart e is_code page), refl),
                ))
          | inr e ↦
              rw (go, e)
                (gives (
                  omega arith,
                  λ bs (r, more, is_code, page, made).
                      (bs, rw made (code apart e is_code page), refl),
                ))
        ]
  ]

  pub section-Sent : (pos : ℕ) (bs : Bytes) → Sent text pos bs → Page s pos (s.out ++ bs)
  section-Sent pos bs (q, more, is_data, page, made) = rw made (section is_data page)
