-- ===== src/Luabins/Save/Values.antt =====
-- libs/luabins/src/save.c. The stack above the base of a function is the list of the byte strings
-- that it has pushed, in order; the placeholders for the two sizes of a table are filled in place.
use lua_cmake_source.Base.{
  ℕ, ◌+◌, ◌%◌, Bool, List, [], ◌∷◌, ◌++◌, ltb, leb, if◌then◌else◌, length, concat, Bytes, le_bytes,
}
use lua_cmake_source.LuaValue.{
  Value, nil, boolean, number, str, table, other, Entries, end, entry, size,
}
use lua_cmake_source.Luabins.Result.{bad_type, too_deep, no_stack, Result, ok, err, ◌>>=◌}
use lua_cmake_source.Luabins.Format.{
  max_table_nesting, c_nil, c_false, c_true, c_number, c_string, c_table, l_int, l_size_t, l_number,
  int_mod, array_part, hash_part,
}

abbrev pub Pieces : Type 0
Pieces = List Bytes

-- LUABINS_CONCATTHRESHOLD
abbrev pub concat_threshold : ℕ
concat_threshold = 1024

-- `maybe_concat`: from the threshold on the pieces above `base` become one. With `retain` the top
-- element is no piece: it is moved below them and back to the top.
unfoldable pub maybe_concat : Pieces → Pieces
maybe_concat ps = if leb concat_threshold (length ps) then concat ps ∷ [] else ps

-- The Lua API's part: `lua_objlen` of a table, and whether `lua_checkstack` finds the
-- LUABINS_EXTRASTACK slots when so many slots are in use.
pub record Api : Type 0 where
  pub objlen : Entries → ℕ
  pub checkstack : ℕ → Bool

-- What `save_table` writes: both sizes in place of the placeholders, then the entries' pieces.
abbrev pub table_pieces : Api → Entries → Pieces → Pieces
table_pieces api es ps =
    let total = size es % int_mod in
    let array = array_part total (api.objlen es % int_mod) in
    le_bytes l_int array ∷ le_bytes l_int (hash_part total array) ∷ ps

-- The first argument counts the stack slots in use. In `save_entries` they end with the key that
-- `lua_next` takes; `acc` holds the pieces above the placeholders.
unfoldable mutual
  pub save_value : Api → ℕ → Value → ℕ → Result Pieces
  save_value api top nil nesting =
      if api.checkstack top then ok ((c_nil ∷ []) ∷ []) else err no_stack
  save_value api top (boolean b) nesting =
      if api.checkstack top then ok (((if b then c_true else c_false) ∷ []) ∷ []) else err no_stack
  save_value api top (number n) nesting =
      if api.checkstack top then ok ((c_number ∷ []) ∷ le_bytes l_number n ∷ []) else err no_stack
  save_value api top (str s) nesting =
      if api.checkstack top
      then ok ((c_string ∷ []) ∷ le_bytes l_size_t (length s) ∷ s ∷ [])
      else err no_stack
  save_value api top (table es) nesting =
      let body = save_entries api (top + 3) es (nesting + 1) [] in
      if api.checkstack top
      then (if ltb max_table_nesting (nesting + 1)
          then err too_deep
          else (body >>= λ ps. ok ((c_table ∷ []) ∷ table_pieces api es ps)))
      else err no_stack
  save_value api top (other t) nesting = if api.checkstack top then err bad_type else err no_stack

  pub save_entries : Api → ℕ → Entries → ℕ → Pieces → Result Pieces
  save_entries api base end nesting acc = ok acc
  save_entries api base (entry k v es) nesting acc =
      save_value api (base + length acc + 2) k nesting >>= λ key.
      let key' = maybe_concat key in
      save_value api (base + length acc + 2 + length key') v nesting >>= λ val.
      save_entries api base es nesting (maybe_concat (acc ++ (key' ++ val)))
