-- ===== src/Luabins/Load/Tuple.antt =====
-- `luabins_load`, on the memory that starts at `data`, with `top` slots of the Lua stack in use.
use lua_cmake_source.Base.{
  ℕ, zero, suc, ◌+◌, ◌*◌, List, [], ◌∷◌, ltb, if◌then◌else◌, length, Bytes, String,
}
use lua_cmake_source.LuaValue.{Value}
use lua_cmake_source.Luabins.Result.{Code, Result, ok, err, bad_data, bad_size, tail_left, ◌>>=◌}
use lua_cmake_source.Luabins.Outcome.{Outcome, report}
use lua_cmake_source.Luabins.Format.{max_tuple}
use lua_cmake_source.Luabins.Load.State.{Room, LoadState, init, good, readbyte}
use lua_cmake_source.Luabins.Load.Values.{load_value}

-- The loop over the items, with the fuel for each value.
unfoldable pub load_items : Room → ℕ → ℕ → ℕ → LoadState → Result (List Value × LoadState)
load_items room top fuel zero ls = ok ([], ls)
load_items room top fuel (suc n) ls = load_value room top 0 fuel ls >>= λ (v, ls₁).
    load_items room (top + 1) fuel n ls₁ >>= λ (vs, ls₂). ok (v ∷ vs, ls₂)

abbrev pub no_tail : List Value × LoadState → Result (List Value)
no_tail (vs, ls) = if ltb 0 ls.unread then err tail_left else ok vs

abbrev pub load_run : Room → ℕ → Bytes → ℕ → Result (List Value)
load_run room top memory len =
    let ls = init memory len in
    readbyte ls.pos ls.unread >>= λ (num_items, ls₁).
    if good ls₁.pos
    then (if ltb max_tuple num_items
        then err bad_size
        else (load_items room top (2 * length memory + 1) num_items ls₁ >>= no_tail))
    else err bad_data

unfoldable pub load_message : Code → String
load_message bad_data = "corrupt data"
load_message bad_size = "corrupt data: bad size"
load_message tail_left = "extra data at end"
load_message _ = "load failed"

unfoldable pub luabins_load : Room → ℕ → Bytes → ℕ → Outcome (List Value)
luabins_load room top memory len = report load_message (λ vs. vs) (load_run room top memory len)
