-- ===== src/MixLua/Reader.antt =====
-- libs/mixlua/mixlua.c: `mix_reader`, which gives Lua the next chunk of its program, and
-- `mix_loadbuffer`.
use lua_cmake_source.Base.{
  ℕ, zero, suc, ◌+◌, ◌-◌, Bool, true, false, not, ◌&&◌, ◌||◌, List, [], ◌∷◌, ◌++◌, Option, none,
  some, ltb, leb, ◌==◌, if◌then◌else◌, length, get_or, Bytes, codes,
}
use lua_cmake_source.MixLua.State.{
  raised, Token, sh, d2l, l2d, d2e, e2d, text, lua, exp, eof, Source, Cursor, size, char_at, is_d2l,
  is_l2d, is_exp, Step, ok, out_of_fuel, ◌>>=◌,
}
use lua_cmake_source.MixLua.Skip.{bracket_open, skip_string, skip_lstring, skip_comment}

abbrev pub temp_size : ℕ
temp_size = 4096

-- A chunk, or none for NULL, with the cursor after the call.
abbrev pub Chunk : Type 0
Chunk = Option Bytes × Cursor

abbrev pub at : ℕ → Token → Cursor
at pos token = record { pos = pos; token = token; failed = false }

abbrev pub must_escape : ℕ → Bool
must_escape c = c == b'\\' || (c == b'\n' || c == b'\'')

abbrev pub escaped : ℕ → Bytes
escaped c = if must_escape c then b'\\' ∷ c ∷ [] else c ∷ []

abbrev pub head_of : Bytes → ℕ
head_of tag = get_or tag 0 0

-- The loop over data, with the bytes in `temp`: the flag says that it left with a full buffer.
unfoldable pub data_loop : Source → ℕ → ℕ → Bytes → Step (Bool × ℕ × Bytes)
data_loop s zero pos temp = out_of_fuel
data_loop s (suc f) pos temp =
    let c = char_at s pos in
    let temp' = temp ++ escaped c in
    let next = data_loop s f (pos + 1) temp' in
    if not (ltb pos (size s)) || (c == head_of s.d2l && is_d2l s pos)
    then ok (false, pos, temp)
    else if leb (temp_size - 1) (length temp')
    then ok (true, pos + 1, temp')
    else next

-- Lua code up to the separator `l2d` or the end of the buffer.
unfoldable pub code_loop : Source → ℕ → ℕ → Step ℕ
code_loop s zero pos = out_of_fuel
code_loop s (suc f) pos =
    let c = char_at s pos in
    let next = code_loop s f (pos + 1) in
    if not (ltb pos (size s))
    then ok pos
    else if c == b'\''
    then (skip_string s b'\'' (size s + 1) (pos + 1) >>= λ p. code_loop s f p)
    else if c == b'"'
    then (skip_string s b'"' (size s + 1) (pos + 1) >>= λ p. code_loop s f p)
    else if c == b'['
    then (bracket_open s pos >>= λ b. elim b [
      | none ↦ code_loop s f (pos + 1)
      | some (level, p) ↦ skip_lstring s level (size s + 1) p >>= λ q. code_loop s f q
    ])
    else if c == b'-'
    then (if char_at s (pos + 1) == b'-'
        then (skip_comment s (pos + 2) >>= λ p. code_loop s f p)
        else next)
    else if c == head_of s.l2d && is_l2d s pos
    then ok pos
    else next

-- `size` bytes of the buffer from `pos` on.
unfoldable pub slice : Source → ℕ → ℕ → Bytes
slice s pos zero = []
slice s pos (suc n) = char_at s pos ∷ slice s (pos + 1) n

-- The parts of `mix_reader`, last part first, for the parts follow one another.
abbrev pub l2d_part : Source → ℕ → Step Chunk
l2d_part s pos = ok (some s.out, at pos text)

abbrev pub e2d_part : Source → ℕ → Step Chunk
e2d_part s pos = ok (some (codes ")"), at pos l2d)

-- In state `lua` or `exp`; the flag says which.
unfoldable pub code_part : Source → Bool → ℕ → Step Chunk
code_part s is_code old = code_loop s (size s + 1) old >>= λ pos.
    if pos == size s
    then ok (none, record { pos = pos; token = if is_code then lua else exp; failed = true })
    else if not (pos - old == 0)
    then ok (some (slice s old (pos - old)), at (pos + length s.l2d) (if is_code then l2d else e2d))
    else if is_code
    then l2d_part s (pos + length s.l2d)
    else e2d_part s (pos + length s.l2d)

-- The first `outsize - 1` bytes.
abbrev pub without_last : Bytes → Bytes
without_last [] = []
without_last (c ∷ []) = []
without_last (c ∷ d ∷ cs) = c ∷ without_last (d ∷ cs)

abbrev pub d2e_part : Source → ℕ → Step Chunk
d2e_part s pos = ok (some (without_last s.out), at pos exp)

abbrev pub d2l_part : Source → ℕ → Step Chunk
d2l_part s pos = ok (
  some (codes "')"),
  if pos == size s
      then at pos eof
      else if is_exp s pos
      then at (pos + length s.exp) d2e
      else at pos lua,
)

unfoldable pub data_part : Source → ℕ → Step Chunk
data_part s old = data_loop s (size s + 1) old [] >>= λ (full, pos, temp).
    if full
    then ok (some temp, at pos (if pos == size s then d2l else text))
    else (let pos' = if ltb pos (size s) then pos + length s.d2l else pos in
        if not (length temp == 0) then ok (some temp, at pos' d2l) else d2l_part s pos')

abbrev pub dispatch : Source → Token → ℕ → Step Chunk
dispatch s text pos = data_part s pos
dispatch s d2l pos = d2l_part s pos
dispatch s d2e pos = d2e_part s pos
dispatch s lua pos = code_part s true pos
dispatch s exp pos = code_part s false pos
dispatch s l2d pos = l2d_part s pos
dispatch s e2d pos = e2d_part s pos
dispatch s sh pos = ok (some (codes "\n"), at pos l2d)
dispatch s eof pos = ok (none, at pos eof)

unfoldable pub mix_reader : Source → Cursor → Step Chunk
mix_reader s c = if c.failed then ok (none, c) else dispatch s c.token c.pos

-- The first line, if it starts with `#`, up to its end.
unfoldable pub sh_loop : Source → ℕ → ℕ → Step ℕ
sh_loop s zero pos = out_of_fuel
sh_loop s (suc f) pos =
    let next = sh_loop s f (pos + 1) in
    if ltb pos (size s) && not (char_at s pos == b'\n') then next else ok pos

-- The cursor with which `mix_loadbuffer` calls `lua_load`.
unfoldable pub start : Source → Step Cursor
start s =
    if ltb 0 (size s) && char_at s 0 == b'#'
    then (sh_loop s (size s + 1) 0 >>= λ pos. ok (at (pos + 1) sh))
    else ok (at 0 l2d)

-- How the reader ends: with NULL, with NULL and `S->error` set, or with a Lua error.
pub data Ending : Type 0 where
  ended : Ending
  ended_with_error : Ending
  ended_by_raise : Ending

abbrev pub ending : Bool → Ending
ending failed = if failed then ended_with_error else ended

-- `lua_load` after a call of the reader: it stops at NULL and at a chunk of no bytes.
abbrev pub after_call :
    (Cursor → Step (List Bytes × Ending)) → Step Chunk → Step (List Bytes × Ending)
after_call next raised = ok ([], ended_by_raise)
after_call next out_of_fuel = out_of_fuel
after_call next (ok (none, c)) = ok ([], ending c.failed)
after_call next (ok (some [], c)) = ok ([], ending c.failed)
after_call next (ok (some (b ∷ bs), c)) = next c >>= λ (rest, e). ok ((b ∷ bs) ∷ rest, e)

-- The chunks that `lua_load` gets if it reads on to the end.
unfoldable pub chunks : Source → ℕ → Cursor → Step (List Bytes × Ending)
chunks s zero c = out_of_fuel
chunks s (suc f) c = after_call (chunks s f) (mix_reader s c)
