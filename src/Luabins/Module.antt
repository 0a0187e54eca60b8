-- ===== src/Luabins/Module.antt =====
-- libs/luabins/src/luabins.c: the functions that Lua code calls. The argument is the Lua stack of
-- the call, the result the values returned.
use lua_cmake_source.Base.{true, List, [], ◌∷◌, ◌++◌, length, codes, Bytes}
use lua_cmake_source.LuaValue.{Value, nil, boolean, str}
use lua_cmake_source.Luabins.Outcome.{Outcome, done, failed, undefined}
use lua_cmake_source.Luabins.Save.Values.{Api}
use lua_cmake_source.Luabins.Save.Tuple.{luabins_save}
use lua_cmake_source.Luabins.Load.State.{Room}
use lua_cmake_source.Luabins.Load.Tuple.{luabins_load}

-- `undefined` stands for no return.
abbrev pub Reply : Type 0
Reply = Outcome (List Value)

abbrev pub save_reply : Outcome Bytes → Reply
save_reply (done bs) = done (str bs ∷ [])
save_reply (failed code message) = done (nil ∷ str (codes message) ∷ [])
save_reply undefined = undefined

unfoldable pub l_save : Api → List Value → Reply
l_save api args = save_reply (luabins_save api args 1 (length args))

abbrev pub load_reply : Outcome (List Value) → Reply
load_reply (done vs) = done (boolean true ∷ vs)
load_reply (failed code message) = done (nil ∷ str (codes message) ∷ [])
load_reply undefined = undefined

-- The argument is the string at index 1, and true stands behind it; in memory a zero byte and `beyond`
-- stand behind the string.
unfoldable pub l_load : Room → Bytes → Bytes → Reply
l_load room bs beyond = load_reply (luabins_load room 2 (bs ++ 0 ∷ beyond) (length bs))
