-- ===== src/Luabins/Save/Tuple.antt =====
-- `luabins_save` on absolute stack indices. The arguments are the values at indices 1, 2, ….
use lua_cmake_source.Base.{
  ℕ, zero, suc, ◌+◌, ◌-◌, ◌%◌, List, [], ◌∷◌, ◌++◌, ◌||◌, ltb, String, if◌then◌else◌, length,
  concat, Bytes, get_elem?, none, some,
}
use lua_cmake_source.LuaValue.{Value}
use lua_cmake_source.Luabins.Result.{
  Code, failure, bad_type, too_deep, no_stack, Result, ok, fault, ◌>>=◌,
}
use lua_cmake_source.Luabins.Outcome.{Outcome, failed, report}
use lua_cmake_source.Luabins.Format.{max_tuple}
use lua_cmake_source.Luabins.Save.Values.{Pieces, maybe_concat, Api, save_value}

unfoldable pub value_at : List Value → ℕ → Result Value
value_at stack zero = fault
value_at stack (suc i) = elim (get_elem? stack i) [ none ↦ fault | some v ↦ ok v ]

-- The loop from `index` on, over `left` rounds.
unfoldable pub save_loop : Api → List Value → ℕ → ℕ → Pieces → Result Pieces
save_loop api stack zero index acc = ok acc
save_loop api stack (suc left) index acc = value_at stack index >>= λ v.
    let acc' = maybe_concat acc in
    save_value api (length stack + length acc') v 0 >>= λ ps.
    save_loop api stack left (index + 1) (acc' ++ ps)

unfoldable pub save_message : Code → String
save_message bad_type = "can't save: unsupported type detected"
save_message too_deep = "can't save: nesting is too deep"
save_message no_stack = "can't save: can't grow stack"
save_message _ = "save failed"

abbrev pub save_run : Api → List Value → ℕ → ℕ → ℕ → Outcome Bytes
save_run api stack num left from =
    report save_message concat (save_loop api stack left from ((num % 256 ∷ []) ∷ []))

unfoldable pub luabins_save : Api → List Value → ℕ → ℕ → Outcome Bytes
luabins_save api stack from to =
    if ltb max_tuple (to - from)
    then failed failure "can't save that many items"
    else if ltb to from
    then save_run api stack 0 (0 + 1 - from) from
    else if ltb (length stack) from || ltb (length stack) to
    then failed failure "inexistant indices"
    else save_run api stack (to - from + 1) (to + 1 - from) from
