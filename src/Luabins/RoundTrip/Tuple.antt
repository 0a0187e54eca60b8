-- ===== src/Luabins/RoundTrip/Tuple.antt =====
-- `luabins_save` and `luabins_load` on tuples of values.
use lua_cmake_source.Base.{
  ℕ, suc, ◌+◌, ◌*◌, ◌^◌, ◌≤◌, ◌<◌, List, [], ◌∷◌, ◌++◌, All, ◌≡◌, refl, ap, ◌∙◌, arith, ltb,
  le→ltb_false, length, length-append, append-nil, Bytes, true, some,
}
use lua_cmake_source.LuaValue.{Value, Entries, boolean, str}
use lua_cmake_source.Luabins.Result.{bad_size, tail_left}
use lua_cmake_source.Luabins.Outcome.{Outcome, done, failed, undefined, report}
use lua_cmake_source.Luabins.Format.{max_tuple}
use lua_cmake_source.Luabins.Load.State.{Room, state, size_t_mod}
use lua_cmake_source.Luabins.Load.Tuple.{load_run, load_message, luabins_load, no_tail}
use lua_cmake_source.Luabins.Module.{l_save, l_load, save_reply, load_reply}
use lua_cmake_source.Luabins.Save.Values.{Api}
use lua_cmake_source.Luabins.Save.Encode.{encode_all}
use lua_cmake_source.Luabins.Save.Tuple.{luabins_save}
use lua_cmake_source.Luabins.Save.Loop.{luabins_save-encode}
use lua_cmake_source.Luabins.RoundTrip.Storable.{IsStorable}
use lua_cmake_source.Luabins.RoundTrip.Reads.{load_items-encode_all}
use lua_cmake_source.Luabins.RoundTrip.Front.{readbyte-front}

save_reply-eq-done :
    (o : Outcome Bytes) {bs : Bytes} → save_reply o ≡ done (str bs ∷ []) → o ≡ done bs
save_reply-eq-done (done b) h = cc
save_reply-eq-done (failed code message) h = cc
save_reply-eq-done undefined h = cc

-- `lua_objlen` of a table is a non-negative int.
abbrev pub HasIntLengths : Api → Type 0
HasIntLengths api = (es : Entries) → api.objlen es < 2 ^ 31

module _ (room : Room) (api : Api) (is_int : HasIntLengths api) where
  -- The run of the load on an encoded tuple with more data behind it.
  load_run-encode :
      (top : ℕ) (vs : List Value) (more beyond : Bytes)
      → All IsStorable vs
      → length vs ≤ max_tuple
      → length (encode_all api.objlen vs) + length more + 2 < size_t_mod
      → top + 2 * length (encode_all api.objlen vs) ≤ room.slots
      → length (encode_all api.objlen vs) ≤ room.frames
      → load_run room top
          (length vs ∷ (encode_all api.objlen vs ++ (more ++ beyond)))
          (length (length vs ∷ (encode_all api.objlen vs ++ more)))
        ≡ no_tail (vs, state (some (more ++ beyond)) (length more))
  load_run-encode top vs more beyond s few h stack calls =
      let body = encode_all api.objlen vs in
      let memory = length vs ∷ (body ++ (more ++ beyond)) in
      let n = length body + length more in
      let len : length (length vs ∷ (body ++ more)) ≡ suc n =
        omega (arith, length-append body more) in
      let some_data : ltb 0 (suc n) ≡ true = ground arith in
      rw (
        len,
        some_data,
        readbyte-front (length vs) (body ++ (more ++ beyond)) n (omega arith),
        le→ltb_false max_tuple (length vs) few,
        load_items-encode_all room api.objlen is_int (2 * length memory + 1) top vs (more ++ beyond)
            n (length more) s refl (omega arith)
            (omega (arith, length-append body (more ++ beyond))) stack calls,
      )

  module _ (pre vs post : List Value) (bs : Bytes) (s : All IsStorable vs)
      (some_values : 1 ≤ length vs) (few : length vs ≤ max_tuple)
      (small : length bs + 1 < size_t_mod) (top : ℕ) (stack : top + 2 * length bs ≤ room.slots)
      (calls : length bs ≤ room.frames)
      (saved : luabins_save api (pre ++ (vs ++ post)) (length pre + 1) (length pre + length vs)
        ≡ done bs) where
    saved_bytes : bs ≡ length vs ∷ encode_all api.objlen vs
    saved_bytes =
        luabins_save-encode api pre vs post some_values (omega arith) saved
        ∙ ap (λ (n : ℕ). n ∷ encode_all api.objlen vs) (omega arith)

    -- Loading what `luabins_save` wrote for a range of the stack gives the values of the range,
    -- whatever stands behind the data in memory, if the range has 1 to LUABINS_MAXTUPLE values that
    -- are storable, `lua_objlen` is a non-negative int, the data fits a size_t, and there is room for
    -- two slots of the Lua stack and a call of load_value for each of its bytes.
    pub luabins_load-luabins_save :
        (beyond : Bytes) → luabins_load room top (bs ++ beyond) (length bs) ≡ done vs
    unfolding luabins_load
    luabins_load-luabins_save beyond =
        let body = encode_all api.objlen vs in
        let fits : length body + 2 < size_t_mod = omega (arith, ap length saved_bytes) in
        let run =
          load_run-encode top vs [] beyond s few (omega arith)
            (omega (arith, ap length saved_bytes)) (omega (arith, ap length saved_bytes)) in
        rw saved_bytes (ap (report load_message (λ ws. ws)) (rw append-nil at run))

    -- One or more bytes behind data that was saved so, and the load refuses it as extra data at the
    -- end, if all fits a size_t.
    luabins_load_tail :
        (b : ℕ) (more beyond : Bytes)
        → length bs + length more + 2 < size_t_mod
        → luabins_load room top (bs ++ ((b ∷ more) ++ beyond)) (length (bs ++ b ∷ more))
          ≡ failed tail_left "extra data at end"
    unfolding luabins_load load_message
    luabins_load_tail b more beyond h =
        let body = encode_all api.objlen vs in
        let fits : length body + length (b ∷ more) + 2 < size_t_mod =
          omega (arith, ap length saved_bytes) in
        let run =
          load_run-encode top vs (b ∷ more) beyond s few fits (omega (arith, ap length saved_bytes))
            (omega (arith, ap length saved_bytes)) in
        let left : ltb 0 (suc (length more)) ≡ true = ground arith in
        rw saved_bytes (ap (report load_message (λ ws. ws)) run ∙ rw left)

  -- When `save` returns a string for 1 to LUABINS_MAXTUPLE storable values, `load` of that string
  -- returns true and the values, if `lua_objlen` is a non-negative int, the string fits a size_t, and
  -- there is room for two slots of the Lua stack and a call of load_value for each of its bytes.
  pub l_load-l_save :
      (vs : List Value) (bs beyond : Bytes)
      → All IsStorable vs
      → 1 ≤ length vs
      → length vs ≤ max_tuple
      → length bs + 1 < size_t_mod
      → 2 + 2 * length bs ≤ room.slots
      → length bs ≤ room.frames
      → l_save api vs ≡ done (str bs ∷ [])
      → l_load room bs beyond ≡ done (boolean true ∷ vs)
  unfolding l_load l_save
  l_load-l_save vs bs beyond s some_values few small stack calls saved =
      let alone : 0 + length vs ≡ length vs = omega arith in
      let done_save = save_reply-eq-done (luabins_save api vs 1 (length vs)) saved in
      ap load_reply (
        luabins_load-luabins_save [] vs [] bs s some_values few small 2 stack calls
          (rw (append-nil, alone) done_save) (0 ∷ beyond))

-- When one value more than LUABINS_MAXTUPLE is saved, and the data fits a size_t, the load refuses
-- what was saved.
pub luabins_load_over_max :
    (room : Room) (top : ℕ) (api : Api) (vs : List Value) (bs beyond : Bytes)
    → length vs ≡ max_tuple + 1
    → length bs < size_t_mod
    → luabins_save api vs 1 (length vs) ≡ done bs
    → luabins_load room top (bs ++ beyond) (length bs) ≡ failed bad_size "corrupt data: bad size"
unfolding luabins_load load_message
luabins_load_over_max room top api vs bs beyond e small saved =
    let body = encode_all api.objlen vs in
    let alone : 0 + length vs ≡ length vs = omega arith in
    let bytes : bs ≡ length vs ∷ body =
      luabins_save-encode api [] vs [] (omega arith) (omega arith) (rw (append-nil, alone) saved)
      ∙ ap (λ (n : ℕ). n ∷ body) (omega arith) in
    let some_data : ltb 0 (suc (length body)) ≡ true = ground arith in
    let over : ltb max_tuple (length vs) ≡ true = ground arith in
    let fits : length body + 1 < size_t_mod = omega (arith, ap length bytes) in
    rw (bytes, some_data, readbyte-front (length vs) (body ++ beyond) (length body) fits, over)
