-- ===== src/MixLua/Page/Back.antt =====
-- A program that has a description is read to its end, and its chunks are what is described.
use lua_cmake_source.Base.{
  ℕ, ◌+◌, ◌-◌, ◌≤◌, Bool, true, false, [], ◌++◌, ◌≡◌, refl, sym, ap, ◌∙◌, arith, none, some, ltb,
  ltb→lt, ltb_false→le, ◌==◌, if◌then◌else◌, length, Bytes, Bool-cases, inl, inr, codes,
  nil_of_length,
}
use lua_cmake_source.MixLua.State.{
  Token, sh, d2l, l2d, d2e, e2d, text, lua, exp, eof, Source, size, Step, ok, raised, out_of_fuel,
}
use lua_cmake_source.MixLua.Reader.{
  at, Chunk, data_loop, data_part, code_part, d2l_part, dispatch, slice,
}
use lua_cmake_source.MixLua.Data.{escape_all, data_loop-Escapes}
use lua_cmake_source.MixLua.Inside.{Always, gives}
use lua_cmake_source.MixLua.Ending.{IsText}
use lua_cmake_source.MixLua.Page.{
  IsData, after_data, IsCode, Page, section, CodePage, ends, code, expression,
}
use lua_cmake_source.MixLua.Page.Pieces.{IsPiece, data_loop-IsPiece, escape_all-slice}
use lua_cmake_source.MixLua.Page.CodeParts.{slice-none}
use lua_cmake_source.MixLua.Page.Sent.{Sent}

Always-ok : {A : Type 0} {P : A → Type 0} {a : A} → Always P (ok a) → P a
Always-ok (gives p) = p

module _ (s : Source) where
  -- The reader goes on without an error, and its chunk is the first part of `bs`.
  abbrev pub Follows : Bytes → Step Chunk → Type 0
  Follows bs raised = ⊥
  Follows bs out_of_fuel = ⊥
  Follows bs (ok (none, c)) = (c.failed ≡ false) × (bs ≡ [])
  Follows bs (ok (some chunk, c)) =
      (c.failed ≡ false) × (rest : Bytes) × Sent s c.token c.pos rest × (bs ≡ chunk ++ rest)

  Page-Follows : (pos : ℕ) (bs : Bytes) → Page s pos bs → Follows bs (ok (some s.out, at pos text))
  Page-Follows pos bs (section {q = q} {bs = more} d page) = (
    refl,
    escape_all (slice s pos (q - pos)) ++ (codes "')" ++ more),
    (q, more, d, page, refl),
    refl,
  )

  d2l_part-Follows :
      (pos : ℕ) (more bs : Bytes)
      → CodePage s pos more
      → bs ≡ codes "')" ++ more
      → Follows bs (d2l_part s pos)
  d2l_part-Follows pos more bs (ends same) e =
      let end : (pos == size s) ≡ true = ground arith in rw end (refl, [], refl, e)
  d2l_part-Follows pos more bs (code {r = r} {bs = rest} apart plain is_code page) e =
      let go : (pos == size s) ≡ false = ground arith in
      rw (go, plain) (refl, slice s pos (r - pos) ++ rest, (r, rest, is_code, page, refl), e)
  d2l_part-Follows pos more bs (expression {r = r} {bs = rest} apart opens is_code page) e =
      let go : (pos == size s) ≡ false = ground arith in
      rw (go, opens) (refl, more, (_, (r, rest, is_code, page, refl), refl), e)

  go_on : {pos r : ℕ} → IsCode s pos r → (r == size s) ≡ false
  go_on is_code = let apart = is_code.closed in ground arith

  lua-Follows : (pos : ℕ) (bs : Bytes) → Sent s lua pos bs → Follows bs (code_part s true pos)
  unfolding code_part
  lua-Follows pos bs (r, more, is_code, page, e) = elim (Bool-cases (r - pos == 0)) [
    | inl nothing ↦
        let none_read = slice-none s pos r (ground arith) in
        let same : bs ≡ more = e ∙ ap (λ (t : Bytes). t ++ more) none_read in
        rw (is_code.read, go_on is_code, nothing)
          (rw same (Page-Follows (r + length s.l2d) more page))
    | inr bytes ↦ rw (is_code.read, go_on is_code, bytes) (refl, more, page, e)
  ]

  exp-Follows : (pos : ℕ) (bs : Bytes) → Sent s exp pos bs → Follows bs (code_part s false pos)
  unfolding code_part
  exp-Follows pos bs (r, more, is_code, page, e) = elim (Bool-cases (r - pos == 0)) [
    | inl nothing ↦
        let none_read = slice-none s pos r (ground arith) in
        rw (is_code.read, go_on is_code, nothing)
          (refl, more, page, e ∙ ap (λ (t : Bytes). t ++ (codes ")" ++ more)) none_read)
    | inr bytes ↦
        rw (is_code.read, go_on is_code, bytes) (refl, codes ")" ++ more, (more, page, refl), e)
  ]

  data_loop-IsPiece_ok :
      (pos : ℕ)
      → IsText s
      → pos ≤ size s
      → (r : Bool × ℕ × Bytes) × (data_loop s (size s + 1) pos [] ≡ ok r) × IsPiece s pos r
  data_loop-IsPiece_ok pos is h =
      let (r, e, _) =
        data_loop-Escapes s (size s + 1) pos [] (omega arith) (omega arith) (omega arith) in
      (r, e, Always-ok (rw e at (data_loop-IsPiece s pos is h)))

  -- A piece does not go past the next separator, and ends there if the buffer is not full.
  piece-le : (pos q : ℕ) (r : Bool × ℕ × Bytes) → IsPiece s pos r → IsData s pos q → r.1 ≤ q
  piece-le pos q r piece d = elim (Bool-cases (ltb q r.1)) [
    | inl e ↦
        let before = ltb→lt q r.1 e in
        let low = d.forward in
        let high = piece.inside in cc (piece.free q low before, d.tag_behind (omega arith))
    | inr e ↦ ltb_false→le q r.1 e
  ]

  piece-eq :
      (pos q : ℕ) (r : Bool × ℕ × Bytes) → IsPiece s pos r → IsData s pos q → r.0 ≡ false → q ≡ r.1
  piece-eq pos q r piece d stop = elim (Bool-cases (ltb r.1 q)) [
    | inl e ↦
        let before = ltb→lt r.1 q e in
        let low = piece.forward in
        let high = d.inside in
        cc (d.none_before r.1 low before, piece.tag_behind stop (omega arith))
    | inr e ↦ omega (arith, ltb_false→le r.1 q e, piece-le pos q r piece d)
  ]

  full-Follows :
      (pos q : ℕ) (more bs : Bytes) (r : Bool × ℕ × Bytes)
      → IsPiece s pos r
      → IsData s pos q
      → CodePage s (after_data s q) more
      → bs ≡ escape_all (slice s pos (q - pos)) ++ (codes "')" ++ more)
      → Follows bs (ok (some r.2, at r.1 (if r.1 == size s then d2l else text)))
  full-Follows pos q more bs r piece d page e =
      let before = piece-le pos q r piece d in
      let high = d.inside in
      let on = piece.forward in
      elim (Bool-cases (r.1 == size s)) [
        | inl end ↦
            let same : q ≡ r.1 = ground arith in
            let outside : ltb r.1 (size s) ≡ false = ground arith in
            rw end (
              refl,
              codes "')" ++ more,
              (more, rw outside at (rw same at page), refl),
              rw (piece.content, e, same),
            )
        | inr further ↦
            let rest : IsData s r.1 q = record {
              forward = before;
              inside = high;
              none_before = λ i low less. d.none_before i (omega arith) less;
              tag_behind = d.tag_behind;
            } in
            rw further (
              refl,
              escape_all (slice s r.1 (q - r.1)) ++ (codes "')" ++ more),
              (q, more, rest, page, refl),
              rw (piece.content, e)
                  (sym (escape_all-slice s pos r.1 q (codes "')" ++ more) on before)),
            )
      ]

  text-Follows :
      (pos : ℕ) (bs : Bytes)
      → IsText s
      → pos ≤ size s
      → Sent s text pos bs
      → Follows bs (data_part s pos)
  unfolding data_part
  text-Follows pos bs is h (q, more, d, page, e) =
      let (r, run, piece) = data_loop-IsPiece_ok pos is h in
      elim (Bool-cases r.0) [
        | inl full ↦ rw (run, full) (full-Follows pos q more bs r piece d page e)
        | inr stop ↦
            let same = piece-eq pos q r piece d stop in
            let page' : CodePage s (after_data s r.1) more = rw same at page in
            let made : bs ≡ r.2 ++ (codes "')" ++ more) = rw (piece.content) (rw same at e) in
            elim (Bool-cases (length r.2 == 0)) [
              | inl nothing ↦
                  let none_left : r.2 ≡ [] = nil_of_length r.2 (ground arith) in
                  rw (run, stop, nothing)
                    (d2l_part-Follows (after_data s r.1) more bs page' (rw none_left at made))
              | inr some_left ↦
                  rw (run, stop, some_left) (refl, codes "')" ++ more, (more, page', refl), made)
            ]
      ]

  pub dispatch-Follows :
      (t : Token) (pos : ℕ) (bs : Bytes)
      → IsText s
      → pos ≤ size s
      → Sent s t pos bs
      → Follows bs (dispatch s t pos)
  dispatch-Follows text pos bs is h sent = text-Follows pos bs is h sent
  dispatch-Follows lua pos bs is h sent = lua-Follows pos bs sent
  dispatch-Follows exp pos bs is h sent = exp-Follows pos bs sent
  dispatch-Follows d2l pos bs is h (more, page, e) = d2l_part-Follows pos more bs page e
  dispatch-Follows d2e pos bs is h (rest, sent, e) = (refl, rest, sent, e)
  dispatch-Follows l2d pos bs is h page = Page-Follows pos bs page
  dispatch-Follows e2d pos bs is h (more, page, e) = (refl, more, page, e)
  dispatch-Follows sh pos bs is h (more, page, e) = (refl, more, page, e)
  dispatch-Follows eof pos bs is h e = (refl, e)
