-- ===== src/PhpSerialize/Values.antt =====
-- libs/lua-phpserialize/src/lua-phpserialize.c: `Pphpserializevalue` and `Cphpserialize`.
use lua_cmake_source.Base.{
  ℕ, ◌+◌, not, List, [], ◌∷◌, ◌++◌, ltb, if◌then◌else◌, length, concat, codes,
}
use lua_cmake_source.Base.Int.{ℤ}
use lua_cmake_source.Base.Decimal.{decimal}
use lua_cmake_source.LuaNumber.{is_float_finite, is_integer, to_integer}
use lua_cmake_source.LuaValue.{Value, nil, boolean, number, str, table, other, Entries, end, entry}
use lua_cmake_source.PhpSerialize.Keys.{
  Pieces, Result, ok, failed, raised, undefined, ◌>>=◌, Env, pphpserializekey, sprintf_d, type_name,
  ssi_null, ssi_integer, ssi_double, ssi_bool_true, ssi_bool_false, ssi_string_begin,
  ssi_string_middle, ssi_string_end, ssi_array_begin, ssi_array_middle, ssi_array_end,
  ssi_semicolon,
}

abbrev pub max_nesting : ℕ
max_nesting = 128

-- The bytes of `big_integer`, of which the last is the zero byte behind the text.
abbrev pub big_integer_size : ℕ
big_integer_size = 256

-- The case of a number. `sprintf` writes without a limit.
unfoldable pub number_pieces : Env → ℕ → Result Pieces
number_pieces env n =
    if not (is_float_finite n)
    then failed (codes "NaN/Infinte values are not supported")
    else if not (is_integer n)
    then (if ltb (length (env.sprintf_f n)) big_integer_size
        then ok (ssi_double ∷ env.sprintf_f n ∷ ssi_semicolon ∷ [])
        else undefined)
    else ok (ssi_integer ∷ sprintf_d (to_integer n) ∷ ssi_semicolon ∷ [])

-- The tests before the switch: of the nesting, and of the stack.
abbrev pub admitted : Env → ℕ → ℕ → Result Pieces → Result Pieces
admitted env top nesting r =
    if ltb max_nesting nesting
    then failed (codes "too deep")
    else if env.checkstack top 10
    then r
    else raised

-- `top` counts the stack slots in use. In the loop over a table, `acc` holds the pieces above `top`
-- (the placeholder for the size is one), and `size` counts the entries before.
unfoldable mutual
  pub pphpserializevalue : Env → ℕ → ℤ → Value → ℕ → Result Pieces
  pphpserializevalue env top base nil nesting = admitted env top nesting (ok (ssi_null ∷ []))
  pphpserializevalue env top base (boolean b) nesting =
      admitted env top nesting (ok ((if b then ssi_bool_true else ssi_bool_false) ∷ []))
  pphpserializevalue env top base (number n) nesting =
      admitted env top nesting (number_pieces env n)
  pphpserializevalue env top base (str s) nesting =
      admitted env top nesting
        (ok (ssi_string_begin ∷ decimal (length s) ∷ ssi_string_middle ∷ s ∷ ssi_string_end ∷ []))
  pphpserializevalue env top base (table es) nesting =
      let body = serialize_entries env (top + 3) base es nesting [] 0 in
      admitted env top nesting (
        body >>= λ (ps, size).
        ok (ssi_array_begin ∷ decimal size ∷ ssi_array_middle ∷ (ps ++ ssi_array_end ∷ [])))
  pphpserializevalue env top base (other t) nesting =
      admitted env top nesting
        (failed (codes "unsupported value type `" ++ (type_name (other t) ++ codes "'")))

  -- The `while` loop: key and value stand above the pieces.
  pub serialize_entries : Env → ℕ → ℤ → Entries → ℕ → Pieces → ℕ → Result (Pieces × ℕ)
  serialize_entries env top base end nesting acc size = ok (acc, size)
  serialize_entries env top base (entry k v es) nesting acc size =
      let slots = top + length acc + 2 in
      pphpserializekey env slots base k >>= λ key.
      pphpserializevalue env (slots + length key) base v (nesting + 1) >>= λ val.
      serialize_entries env top base es nesting (acc ++ (key ++ val)) (size + 1)

-- What `Cphpserialize` returns to Lua: a string, or nil and a message. `lost` is no reply at all.
pub data Reply : Type 0 where
  returns : List Value → Reply
  raises : Reply
  lost : Reply

-- `Cphpserialize` on the arguments; `base` is the second, or 1. A missing first argument is
-- serialised like nil.
abbrev pub first_argument : List Value → Value
first_argument [] = nil
first_argument (v ∷ vs) = v

abbrev pub reply : Result Pieces → Reply
reply (ok ps) = returns (str (concat ps) ∷ [])
reply (failed message) = returns (nil ∷ str message ∷ [])
reply raised = raises
reply undefined = lost

unfoldable pub cphpserialize : Env → List Value → ℤ → Reply
cphpserialize env args base =
    reply (pphpserializevalue env (length args) base (first_argument args) 0)
