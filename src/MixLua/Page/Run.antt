-- ===== src/MixLua/Page/Run.antt =====
-- The run of the reader, from its start to the end of the program.
use mathlib.Core.Path.{subst}
use lua_cmake_source.Base.{
  ℕ, zero, suc, ◌+◌, ◌*◌, ◌≤◌, ◌<◌, Bool, true, false, List, [], ◌∷◌, ◌≡◌, ◌≢◌, refl, ap, ◌∙◌,
  arith, none, some, length, concat, Bytes, inl, inr,
}
use lua_cmake_source.MixLua.State.{
  Token, sh, d2l, l2d, d2e, e2d, text, lua, exp, eof, Source, Cursor, size, Step, ok, raised,
  out_of_fuel, ◌>>=◌,
}
use lua_cmake_source.MixLua.Reader.{
  Chunk, mix_reader, dispatch, chunks, without_last, Ending, ended, start, after_call, ending,
}
use lua_cmake_source.MixLua.Inside.{Always, gives, Always-if, Always-both}
use lua_cmake_source.MixLua.Ending.{
  IsText, HasLine, left, MovesOn, mix_reader-MovesOn, IsStart, start-Ends,
}
use lua_cmake_source.MixLua.Total.{Ends, yields, Ends-bind, Ends-map, mix_reader_ends}
use lua_cmake_source.MixLua.Page.{Program, plain, with_line}
use lua_cmake_source.MixLua.Page.Sent.{Sent, Sends, section-Sent, d2l_part-Sends}
use lua_cmake_source.MixLua.Page.CodeParts.{code_part-lua, code_part-exp}
use lua_cmake_source.MixLua.Page.DataParts.{data_part-Sends}

module _ (s : Source) (is : IsText s) (long_out : 1 < length s.out) where
  length-without_last : (bs : Bytes) → 1 < length bs → 0 < length (without_last bs)
  length-without_last [] h = absurd (omega arith)
  length-without_last (b ∷ []) h = absurd (omega arith)
  length-without_last (b ∷ c ∷ bs) h = omega arith

  dispatch-Sends : (t : Token) (pos : ℕ) → pos ≤ size s → Always (Sends s t pos) (dispatch s t pos)
  dispatch-Sends text pos h = data_part-Sends s pos is h
  dispatch-Sends lua pos h = code_part-lua s (omega arith) pos
  dispatch-Sends exp pos h = code_part-exp s (omega arith) pos
  dispatch-Sends d2l pos h = d2l_part-Sends s pos
  dispatch-Sends d2e pos h = gives (length-without_last s.out long_out, λ bs sent. (bs, sent, refl))
  dispatch-Sends l2d pos h = gives (omega arith, λ bs sent. section-Sent s pos bs sent)
  dispatch-Sends e2d pos h = gives (omega arith, λ bs page. (bs, page, refl))
  dispatch-Sends sh pos h = gives (omega arith, λ bs page. (bs, page, refl))
  dispatch-Sends eof pos h = gives (λ e. refl)

  pub mix_reader-Sends :
      (c : Cursor) → c.pos ≤ size s → Always (Sends s c.token c.pos) (mix_reader s c)
  unfolding mix_reader
  mix_reader-Sends c h =
      Always-if c.failed (λ failed. gives (λ e. cc)) (λ _. dispatch-Sends c.token c.pos h)

  -- What a run has sent when it ends with no error.
  abbrev Complete : Cursor → Step (List Bytes × Ending) → Type 0
  Complete c = Ends (λ (r : List Bytes × Ending). r.1 ≡ ended → Sent s c.token c.pos (concat r.0))

  ended_well : (failed : Bool) → ending failed ≡ ended → failed ≡ false
  ended_well true e = cc
  ended_well false e = refl

  after_call-Complete :
      (next : Cursor → Step (List Bytes × Ending)) (c : Cursor) (r : Step Chunk)
      → r ≢ out_of_fuel
      → Always (λ x. MovesOn s (left s c) x × Sends s c.token c.pos x) r
      → ((c' : Cursor) → c'.pos ≤ size s → left s c' < left s c → Complete c' (next c'))
      → Complete c (after_call next r)
  after_call-Complete next c raised h a k = yields (λ e. cc)
  after_call-Complete next c out_of_fuel h a k = absurd (h refl)
  after_call-Complete next c (ok (none, c')) h (gives (_, sent)) k =
      yields (λ e. sent (ended_well c'.failed e))
  after_call-Complete next c (ok (some [], c')) h (gives (_, (some_bytes, _))) k =
      absurd (omega arith)
  after_call-Complete next c (ok (some (b ∷ bs), c')) h (gives (moves, (_, sent))) k =
      Ends-bind (k c' moves.0 moves.1) λ (cs, e) rest. yields (λ well. sent (concat cs) (rest well))

  chunks-Complete : (f : ℕ) (c : Cursor) → c.pos ≤ size s → left s c < f → Complete c (chunks s f c)
  unfolding chunks
  chunks-Complete zero c h k = absurd (omega arith)
  chunks-Complete (suc f) c h k =
      after_call-Complete (chunks s f) c (mix_reader s c) (mix_reader_ends s c)
        (Always-both (mix_reader-MovesOn s is c h) (mix_reader-Sends c h))
        λ c' inside less. chunks-Complete f c' inside (omega arith)

  Sent-Program :
      {bs : Bytes} (c : Cursor)
      → start s ≡ ok c
      → IsStart s c
      → Sent s c.token c.pos bs
      → Program s bs
  Sent-Program {bs = bs} c e (inl same) sent =
      plain (e ∙ ap ok same) (subst (λ (c : Cursor). Sent s c.token c.pos bs) same sent)
  Sent-Program {bs = bs} c e (inr (pos, same)) sent =
      let (more, page, made) = subst (λ (c : Cursor). Sent s c.token c.pos bs) same sent in
      rw made (with_line (e ∙ ap ok same) page)

  start_then :
      (f : ℕ) (r : Step Cursor)
      → 8 * size s + 6 < f
      → start s ≡ r
      → Ends (λ c. (c.pos ≤ size s) × (left s c ≤ 8 * size s + 6) × IsStart s c) r
      → Ends (λ r. r.1 ≡ ended → Program s (concat r.0)) (r >>= λ c. chunks s f c)
  start_then f raised h e a = Ends.raises
  start_then f out_of_fuel h e a = elim a [ ]
  start_then f (ok c) h e (yields d) =
      Ends-map (chunks-Complete f c d.0 (omega arith))
        λ r sent well. Sent-Program c e d.2 (sent well)

pub start-chunks-Ends :
    (s : Source) (f : ℕ)
    → IsText s
    → 1 < length s.out
    → HasLine s
    → 8 * size s + 6 < f
    → Ends (λ r. r.1 ≡ ended → Program s (concat r.0)) (start s >>= λ c. chunks s f c)
start-chunks-Ends s f is long_out line h =
    start_then s is long_out f (start s) h refl (start-Ends s is line)
