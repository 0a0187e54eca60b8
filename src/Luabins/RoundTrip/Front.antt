-- ===== src/Luabins/RoundTrip/Front.antt =====
-- Numbers, headers and strings are read off the front of the data.
use lua_cmake_source.Base.{
  ℕ, suc, ◌+◌, ◌-◌, ◌%◌, ◌^◌, ◌≤◌, ◌<◌, true, false, [], ◌∷◌, ◌++◌, ◌≡◌, refl, arith, leb, le→leb,
  some, drop-append, length, Bytes, le_bytes, length-le_bytes, from_le-le_bytes,
}
use lua_cmake_source.LuaValue.{str}
use lua_cmake_source.Luabins.Result.{Result, ok, err, bad_data, bad_size}
use lua_cmake_source.Luabins.Format.{min_table_data_size, l_int, l_size_t, int_mod}
use lua_cmake_source.Luabins.Load.Log2Bounds.{ceillog2-le-max_bits}
use lua_cmake_source.Luabins.Load.State.{
  LoadState, state, size_t_mod, readbyte, eat, copy, copied, readbytes,
}
use lua_cmake_source.Luabins.Load.Values.{bad_header, load_header, load_string}

-- `u` bytes are unread behind `bs`.
abbrev pub front : Bytes → Bytes → ℕ → LoadState
front bs rest u = state (some (bs ++ rest)) (length bs + u)

abbrev pub behind : Bytes → ℕ → LoadState
behind rest u = state (some rest) u

pub copy-append : (bs rest : Bytes) → copy (length bs) (bs ++ rest) ≡ ok bs
unfolding copy
copy-append [] rest = refl
copy-append (b ∷ bs) rest = rw (copy-append bs rest)

pub copied-append :
    (otherwise : Result (Bytes × LoadState)) (bs rest : Bytes) (u : ℕ)
    → copied (length bs) otherwise (eat (some (bs ++ rest)) (length bs + u) (length bs))
      ≡ ok (bs, behind rest u)
unfolding eat
copied-append otherwise bs rest u =
    let fits : leb (length bs) (length bs + u) ≡ true = le→leb _ _ (omega arith) in
    let left : length bs + u - length bs ≡ u = omega arith in
    rw (fits, copy-append bs rest, drop-append bs rest, left)

-- An integer of `w` bytes.
pub readbytes-le_bytes :
    (w x : ℕ) (rest : Bytes) (u : ℕ)
    → readbytes (state (some (le_bytes w x ++ rest)) (w + u)) w ≡ ok (le_bytes w x, behind rest u)
unfolding readbytes
readbytes-le_bytes w x rest u =
    rw length-le_bytes at (copied-append (err bad_data) (le_bytes w x) rest u)

pub readbyte-front :
    (b : ℕ) (rest : Bytes) (u : ℕ)
    → u + 1 < size_t_mod
    → readbyte (some (b ∷ rest)) (suc u) ≡ ok (b, behind rest u)
unfolding readbyte
readbyte-front b rest u h =
    let wraps : (suc u + size_t_mod - 1) % size_t_mod ≡ u = omega arith in rw wraps

pub bad_header-false :
    (a h u : ℕ)
    → a ≤ 2 ^ 26
    → h ≤ 2 ^ 26
    → min_table_data_size (a + h) ≤ u
    → bad_header a h u ≡ false
unfolding bad_header
bad_header-false a h u ha hh fits =
    let whole : (a + h) % int_mod ≡ a + h = omega arith in
    rw whole (ground (arith, ceillog2-le-max_bits h))

pub load_header-encode :
    (a h : ℕ) (rest : Bytes) (u : ℕ)
    → a ≤ 2 ^ 26
    → h ≤ 2 ^ 26
    → min_table_data_size (a + h) ≤ u
    → load_header
        (state (some (le_bytes l_int a ++ (le_bytes l_int h ++ rest))) (l_int + (l_int + u)))
      ≡ ok (a + h, behind rest u)
load_header-encode a h rest u ha hh fits =
    let whole : (a + h) % int_mod ≡ a + h = omega arith in
    unfold load_header in
    rw (
      readbytes-le_bytes l_int a (le_bytes l_int h ++ rest) (l_int + u),
      readbytes-le_bytes l_int h rest u,
      from_le-le_bytes l_int a (omega arith),
      from_le-le_bytes l_int h (omega arith),
      bad_header-false a h u ha hh fits,
      whole,
    )

pub load_string-encode :
    (s rest : Bytes) (u : ℕ)
    → length s < 2 ^ 64
    → load_string
        (state (some (le_bytes l_size_t (length s) ++ (s ++ rest))) (l_size_t + (length s + u)))
      ≡ ok (str s, behind rest u)
unfolding load_string
load_string-encode s rest u h = rw (
  readbytes-le_bytes l_size_t (length s) (s ++ rest) (length s + u),
  from_le-le_bytes l_size_t (length s) h,
  copied-append (err bad_size) s rest u,
)
