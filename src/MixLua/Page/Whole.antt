-- ===== src/MixLua/Page/Whole.antt =====
-- The run of the reader and the description of its program agree.
use lua_cmake_source.Base.{
  ℕ, zero, suc, ◌+◌, ◌*◌, ◌≤◌, ◌<◌, Bool, false, List, [], ◌∷◌, ◌≡◌, refl, sym, ap, arith, none,
  some, length, concat, Bytes,
}
use lua_cmake_source.MixLua.State.{
  sh, l2d, Source, Cursor, size, Step, ok, raised, out_of_fuel, ◌>>=◌,
}
use lua_cmake_source.MixLua.Reader.{
  at, Chunk, mix_reader, chunks, start, Ending, ended, after_call, ending,
}
use lua_cmake_source.MixLua.Inside.{Always, gives, Always-both}
use lua_cmake_source.MixLua.Total.{Ends, yields}
use lua_cmake_source.MixLua.Ending.{
  IsText, HasLine, left, MovesOn, mix_reader-MovesOn, IsStart, start-Ends,
}
use lua_cmake_source.MixLua.Page.{Program, plain, with_line}
use lua_cmake_source.MixLua.Page.Sent.{Sent, Sends}
use lua_cmake_source.MixLua.Page.Run.{mix_reader-Sends, start-chunks-Ends}
use lua_cmake_source.MixLua.Page.Back.{Follows, dispatch-Follows}

-- The run ends without an error, and its chunks make up the bytes.
abbrev pub GivesAll : Bytes → Step (List Bytes × Ending) → Type 0
GivesAll bs r = (cs : List Bytes) × (r ≡ ok (cs, ended)) × (concat cs ≡ bs)

module _ (s : Source) (is : IsText s) (long_out : 1 < length s.out) where
  mix_reader-Follows :
      (c : Cursor) (bs : Bytes)
      → c.pos ≤ size s
      → c.failed ≡ false
      → Sent s c.token c.pos bs
      → Follows s bs (mix_reader s c)
  unfolding mix_reader
  mix_reader-Follows c bs h goes_on sent =
      rw goes_on (dispatch-Follows s c.token c.pos bs is h sent)

  after_call-GivesAll :
      (next : Cursor → Step (List Bytes × Ending)) (c : Cursor) (bs : Bytes) (r : Step Chunk)
      → Follows s bs r
      → Always (λ x. MovesOn s (left s c) x × Sends s c.token c.pos x) r
      → ((c' : Cursor) (rest : Bytes)
          → c'.pos ≤ size s
          → left s c' < left s c
          → c'.failed ≡ false
          → Sent s c'.token c'.pos rest
          → GivesAll rest (next c'))
      → GivesAll bs (after_call next r)
  after_call-GivesAll next c bs raised h a k = elim h [ ]
  after_call-GivesAll next c bs out_of_fuel h a k = elim h [ ]
  after_call-GivesAll next c bs (ok (none, c')) (goes_on, e) a k =
      ([], ap (λ (failed : Bool). ok ([], ending failed)) goes_on, sym e)
  after_call-GivesAll next c bs (ok (some [], c')) h (gives (_, (some_bytes, _))) k =
      absurd (omega arith)
  after_call-GivesAll next c bs (ok (some (b ∷ ds), c')) (goes_on, rest, sent, e) (gives (moves, _))
        k =
      let (cs, run, made) = k c' rest moves.0 moves.1 goes_on sent in
      ((b ∷ ds) ∷ cs, rw run, rw made (sym e))

  chunks-GivesAll :
      (f : ℕ) (c : Cursor) (bs : Bytes)
      → c.pos ≤ size s
      → left s c < f
      → c.failed ≡ false
      → Sent s c.token c.pos bs
      → GivesAll bs (chunks s f c)
  unfolding chunks
  chunks-GivesAll zero c bs h k goes_on sent = absurd (omega arith)
  chunks-GivesAll (suc f) c bs h k goes_on sent =
      after_call-GivesAll (chunks s f) c bs (mix_reader s c)
        (mix_reader-Follows c bs h goes_on sent)
        (Always-both (mix_reader-MovesOn s is c h) (mix_reader-Sends s is long_out c h))
        λ c' rest inside less on sent'. chunks-GivesAll f c' rest inside (omega arith) on sent'

  start_inside :
      (c : Cursor) → HasLine s → start s ≡ ok c → (c.pos ≤ size s) × (left s c ≤ 8 * size s + 6)
  start_inside c line e = inside (rw e at (start-Ends s is line))
    where
      inside :
          Ends (λ c. (c.pos ≤ size s) × (left s c ≤ 8 * size s + 6) × IsStart s c) (ok c)
          → (c.pos ≤ size s) × (left s c ≤ 8 * size s + 6)
      inside (yields d) = (d.0, d.1)

  Program-GivesAll :
      (f : ℕ) (bs : Bytes)
      → HasLine s
      → 8 * size s + 6 < f
      → Program s bs
      → GivesAll bs (start s >>= λ c. chunks s f c)
  Program-GivesAll f bs line h (plain e page) =
      let (low, few) = start_inside (at 0 l2d) line e in
      rw e (chunks-GivesAll f (at 0 l2d) bs low (omega arith) refl page)
  Program-GivesAll f bs line h (with_line {pos = pos} {bs = more} e page) =
      let (low, few) = start_inside (at pos sh) line e in
      rw e (chunks-GivesAll f (at pos sh) _ low (omega arith) refl (more, page, refl))

-- Where a zero byte follows the buffer, the separators have no zero byte and those around code are
-- not empty, the name of the output function with the start of its argument has at least two bytes,
-- and a first line that starts with # ends with a newline, lua_load gets to the end of the program
-- or to an error within 8 calls of mix_reader for each byte of the buffer and 7 more. It gets to the
-- end without an error exactly where the program can be described as sections, and its chunks then
-- make up the Lua code described: each section of data, up to the next opening separator, is escaped
-- and sent as one call of the output function, and what stands between the separators is sent as
-- code, or as an argument of that function where the separator of expressions starts it.
pub start-chunks-Program :
    (s : Source) (f : ℕ)
    → IsText s
    → 1 < length s.out
    → HasLine s
    → 8 * size s + 6 < f
    → Ends (λ r. r.1 ≡ ended → Program s (concat r.0)) (start s >>= λ c. chunks s f c)
      × ((bs : Bytes) → Program s bs → GivesAll bs (start s >>= λ c. chunks s f c))
start-chunks-Program s f is long_out line h = (
  start-chunks-Ends s f is long_out line h,
  λ bs described. Program-GivesAll s is long_out f bs line h described,
)
