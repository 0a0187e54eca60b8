-- ===== src/MixLua/Data/Section.antt =====
-- The data of a section reach the output function.
use lua_cmake_source.Base.{
  ℕ, zero, suc, ◌+◌, ◌-◌, ◌≤◌, Bool, [], ◌∷◌, ◌++◌, ◌≡◌, ◌≢◌, refl, arith, some, length, Bytes, All,
  ◌<◌, ltb, ltb→lt, ltb_false→le, Bool-cases, inl, inr,
}
use lua_cmake_source.MixLua.State.{Source, size, char_at, ok}
use lua_cmake_source.MixLua.Reader.{temp_size, data_loop, slice}
use lua_cmake_source.MixLua.Data.{data_loop-Escapes}
use lua_cmake_source.MixLua.Data.Quoted.{read_string, read_string-escape_all, NoReturn}

-- No byte of the buffer is a carriage return.
abbrev pub HasNoReturn : Source → Type 0
HasNoReturn s = (i : ℕ) → i < size s → char_at s i ≢ 13

slice-NoReturn :
    (s : Source) (pos n : ℕ)
    → HasNoReturn s
    → (0 < n → pos + n ≤ size s)
    → All NoReturn (slice s pos n)
unfolding slice
slice-NoReturn s pos zero h k = tt
slice-NoReturn s pos (suc n) h k =
    let inside = k (omega arith) in
    (h pos (omega arith), slice-NoReturn s (pos + 1) n h λ _. omega arith)

pub length-slice : (s : Source) (pos n : ℕ) → length (slice s pos n) ≡ n
unfolding slice
length-slice s pos zero = refl
length-slice s pos (suc n) = omega (arith, length-slice s (pos + 1) n)

-- From a position in the buffer the loop over data ends with a chunk that fits its array of 4096
-- bytes, and Lua reads that chunk, up to the closing quote, as the bytes passed over, if the
-- program holds no carriage return.
pub data_loop-read_string :
    (s : Source) (pos : ℕ) (rest : Bytes)
    → HasNoReturn s
    → (r : Bool × ℕ × Bytes) × (data_loop s (size s + 1) pos [] ≡ ok r)
      × (pos ≤ r.1)
      × (length r.2 ≤ temp_size)
      × (read_string (r.1 - pos + 1) b'\'' (r.2 ++ b'\'' ∷ rest)
          ≡ some (slice s pos (r.1 - pos), rest))
data_loop-read_string s pos rest h =
    let (r, e, done) =
      data_loop-Escapes s (size s + 1) pos [] (omega arith) (omega arith) (omega arith) in
    (
      r,
      e,
      done.forward,
      done.fits,
      rw done.content (
          read_string-escape_all (slice s pos (r.1 - pos)) rest (r.1 - pos + 1)
            (slice-NoReturn s pos (r.1 - pos) h (passed r.1 done.stays))
            (omega (arith, length-slice s pos (r.1 - pos)))),
    )
  where
    passed :
        (stop : ℕ) → (size s < stop → stop ≡ pos) → 0 < stop - pos → pos + (stop - pos) ≤ size s
    passed stop stays some_bytes = elim (Bool-cases (ltb (size s) stop)) [
      | inl e ↦ let here = stays (ltb→lt (size s) stop e) in absurd (omega arith)
      | inr e ↦ omega (arith, ltb_false→le (size s) stop e)
    ]
