-- ===== src/Luabins/Load/Values.antt =====
-- `load_value` and `load_table`. A value takes at least one byte, and each entry of a
-- table two, so that fuel above twice the length of the memory is enough.
use lua_cmake_source.Base.{
  ℕ, zero, suc, ◌+◌, ◌%◌, Bool, true, false, ◌&&◌, ◌||◌, ltb, ◌==◌, if◌then◌else◌, from_le,
}
use lua_cmake_source.LuaValue.{
  Value, nil, boolean, number, str, table, Entries, end, luai_numisnan, rawset,
}
use lua_cmake_source.Luabins.Result.{Result, ok, err, out_of_fuel, bad_data, bad_size, ◌>>=◌}
use lua_cmake_source.Luabins.Format.{
  c_nil, c_false, c_true, c_number, c_string, c_table, l_int, l_size_t, l_number, int_mod, int_lt,
  min_table_data_size,
}
use lua_cmake_source.Luabins.Load.Log2.{ceillog2, max_bits, max_asize}
use lua_cmake_source.Luabins.Load.State.{
  Room, pushed, called, LoadState, good, readbyte, readbytes, eat, copied,
}

-- The condition under which a table header is refused; the arguments are the two sizes and the
-- number of bytes that are left.
unfoldable pub bad_header : ℕ → ℕ → ℕ → Bool
bad_header array hash unread =
    int_lt array 0
    || int_lt max_asize array
    || int_lt hash 0
    || (int_lt 0 hash && ltb max_bits (ceillog2 hash))
    || ltb unread (min_table_data_size ((array + hash) % int_mod))

-- The two sizes: their sum is the number of entries to read.
unfoldable pub load_header : LoadState → Result (ℕ × LoadState)
load_header ls = do
  (array, ls₁) ← readbytes ls l_int
  (hash, ls₂) ← readbytes ls₁ l_int
  if bad_header (from_le array) (from_le hash) ls₂.unread
      then err bad_size
      else ok ((from_le array + from_le hash) % int_mod, ls₂)

unfoldable pub load_string : LoadState → Result (Value × LoadState)
load_string ls = do
  (bs, ls₁) ← readbytes ls l_size_t
  (s, ls₂) ← copied (from_le bs) (err bad_size) (eat ls₁.pos ls₁.unread (from_le bs))
  ok (str s, ls₂)

-- The cases of the switch other than LUABINS_CTABLE.
unfoldable pub load_scalar : ℕ → LoadState → Result (Value × LoadState)
load_scalar type ls =
    if type == c_nil
    then ok (nil, ls)
    else if type == c_false
    then ok (boolean false, ls)
    else if type == c_true
    then ok (boolean true, ls)
    else if type == c_number
    then (readbytes ls l_number >>= λ (bs, ls₁). ok (number (from_le bs), ls₁))
    else if type == c_string
    then load_string ls
    else err bad_data

-- A table key can be neither nil nor NaN.
abbrev pub bad_key : Value → Bool
bad_key nil = true
bad_key (number n) = luai_numisnan n
bad_key _ = false

-- `top` slots of the Lua stack are in use, and `depth` calls of load_value are open. A value is pushed
-- last, a table before its entries.
unfoldable mutual
  pub load_value : Room → ℕ → ℕ → ℕ → LoadState → Result (Value × LoadState)
  load_value room top depth zero ls = out_of_fuel
  load_value room top depth (suc f) ls = called room depth (
      readbyte ls.pos ls.unread >>= λ (type, ls₁).
      let as_table = load_header ls₁ >>= pushed room top >>= λ (total, ls₂).
      load_entries room (top + 1) (depth + 1) f total ls₂ end >>= λ (es, ls₃). ok (table es, ls₃) in
      if good ls₁.pos
      then (if type == c_table then as_table else load_scalar type ls₁ >>= pushed room top)
      else err bad_data)

  -- The loop of `load_table`, on the table read so far, which stands in the last slot in use.
  pub load_entries : Room → ℕ → ℕ → ℕ → ℕ → LoadState → Entries → Result (Entries × LoadState)
  load_entries room top depth zero total ls es = out_of_fuel
  load_entries room top depth (suc f) zero ls es = ok (es, ls)
  load_entries room top depth (suc f) (suc total) ls es =
      load_value room top depth f ls >>= λ (k, ls₁).
      let more = load_value room (top + 1) depth f ls₁ >>= λ (v, ls₂).
      load_entries room top depth f total ls₂ (rawset es k v) in
      if bad_key k then err bad_data else more
