-- ===== src/MixLua/Page.antt =====
-- What the Lua code made of a program is, described section by section.
pub mod Pieces
pub mod Sent
pub mod CodeParts
pub mod DataParts
pub mod Run
pub mod Back
pub mod Whole
use lua_cmake_source.Base.{
  ℕ, ◌+◌, ◌-◌, ◌≤◌, ◌<◌, true, false, List, [], ◌∷◌, ◌++◌, ◌≡◌, ◌≢◌, ltb, if◌then◌else◌, length,
  Bytes, codes,
}
use lua_cmake_source.MixLua.State.{Source, Cursor, size, is_d2l, is_exp, sh, l2d, Step, ok}
use lua_cmake_source.MixLua.Reader.{at, slice, without_last, code_loop, start}
use lua_cmake_source.MixLua.Data.{escape_all}

-- From `pos` to `q` stands data: up to the first `d2l`, or to the end of the buffer.
pub record IsData (s : Source) (pos q : ℕ) : Type 0 where
  pub forward : pos ≤ q
  pub inside : q ≤ size s
  pub none_before : (i : ℕ) → pos ≤ i → i < q → is_d2l s i ≡ false
  pub tag_behind : q < size s → is_d2l s q ≡ true

-- The position behind the data that ends at `q` and behind its separator.
abbrev pub after_data : Source → ℕ → ℕ
after_data s q = if ltb q (size s) then q + length s.d2l else q

-- From `pos` to `r` stands Lua code, up to a separator `l2d` outside of what the reader skips as
-- strings and comments.
pub record IsCode (s : Source) (pos r : ℕ) : Type 0 where
  pub read : code_loop s (size s + 1) pos ≡ ok r
  pub closed : r ≢ size s

mutual
  -- The code made of a program from `pos` on, where data starts: a call of the output function with
  -- the data as a string, and what follows.
  pub data Page (s : Source) : ℕ → Bytes → Type 0 where
    section :
        {pos q : ℕ} {bs : Bytes}
        → IsData s pos q
        → CodePage s (after_data s q) bs
        → Page s pos (s.out ++ (escape_all (slice s pos (q - pos)) ++ (codes "')" ++ bs)))

  -- From `pos` on, where code starts. An expression is made an argument of the output function.
  pub data CodePage (s : Source) : ℕ → Bytes → Type 0 where
    ends : {pos : ℕ} → pos ≡ size s → CodePage s pos []
    code :
        {pos r : ℕ} {bs : Bytes}
        → pos ≢ size s
        → is_exp s pos ≡ false
        → IsCode s pos r
        → Page s (r + length s.l2d) bs
        → CodePage s pos (slice s pos (r - pos) ++ bs)
    expression :
        {pos r : ℕ} {bs : Bytes}
        → pos ≢ size s
        → is_exp s pos ≡ true
        → IsCode s (pos + length s.exp) r
        → Page s (r + length s.l2d) bs
        → CodePage s pos (
            without_last s.out
            ++ (slice s (pos + length s.exp) (r - (pos + length s.exp)) ++ (codes ")" ++ bs)))

-- A whole program. A first line that starts with # leaves a newline.
pub data Program (s : Source) : Bytes → Type 0 where
  plain : {bs : Bytes} → start s ≡ ok (at 0 l2d) → Page s 0 bs → Program s bs
  with_line :
      {pos : ℕ} {bs : Bytes}
      → start s ≡ ok (at pos sh)
      → Page s pos bs
      → Program s (codes "\n" ++ bs)
