-- ===== src/Rex/Pcre/Find.antt =====
-- libs/lrexlib/src: find, match and the methods for the PCRE library, with the entries for named
-- subpatterns (`do_named_subpatterns`).
use lua_cmake_source.Base.{
  ℕ, zero, suc, ◌+◌, ◌*◌, ◌&&◌, List, [], ◌∷◌, Option, ltb, leb, if◌then◌else◌, length, drop,
  get_or, Bytes,
}
use lua_cmake_source.Base.Int.{ℤ}
use lua_cmake_source.LuaValue.{nil}
use lua_cmake_source.Rex.Engine.{Match, Result, ok, ◌>>=◌, c_string, sub_at, sub_or_false}
use lua_cmake_source.Rex.Gsub.State.{Lua, Pattern, check_pattern}
use lua_cmake_source.Rex.Find.{
  get_startoffset, Method, Item, value, Named, finish_generic_find, method_results,
}
use lua_cmake_source.Rex.Pcre.Engine.{
  Pcre, TPcre, CflagsArg, LocaleArg, getcflags, optlocale, findmatch_exec,
}
use lua_cmake_source.Rex.Pcre.Gsub.{alg_base, compiled_pattern}

-- An entry of the table of names: two bytes for the number, and the name with a zero byte.
abbrev pub entry_number : Bytes → ℕ
entry_number tab = 256 * get_or tab 0 0 + get_or tab 1 0

-- The loop of `do_named_subpatterns`, for so many entries.
unfoldable pub names_loop : TPcre → Bytes → Match → ℕ → Bytes → Named
names_loop ud text m zero tab = []
names_loop ud text m (suc k) tab =
    let n = entry_number tab in
    let rest = names_loop ud text m k (drop ud.pr.name_entry_size tab) in
    if ltb 0 n && leb n ud.ncapt
    then (c_string (drop 2 tab), sub_or_false text (sub_at m n)) ∷ rest
    else rest

unfoldable pub do_named_subpatterns : TPcre → Bytes → Match → Named
do_named_subpatterns ud text m = names_loop ud text m ud.pr.name_count ud.pr.name_table

module _ {W : Type 0} (l : Lua W) where
  -- `find` and `match`
  unfoldable pub generic_find_func :
      Pcre
      → Bytes
      → Pattern TPcre
      → Option ℤ
      → CflagsArg
      → ℕ
      → LocaleArg
      → Method
      → Result (List Item)
  generic_find_func p text pattern init given eflags lo method =
      check_pattern pattern >>= λ pattern.
      let startoffset = get_startoffset init (length text) in
      getcflags p 4 given >>= λ cflags. optlocale 6 lo >>= λ tables.
      if ltb (length text) startoffset
      then ok (value nil ∷ [])
      else compiled_pattern p pattern cflags tables >>= λ ud.
          findmatch_exec ud text eflags startoffset
          >>= finish_generic_find l ud.ncapt text (alg_base startoffset) method

  unfoldable pub generic_find_method : TPcre → Bytes → Option ℤ → ℕ → Method → Result (List Item)
  generic_find_method ud text init eflags method =
      let startoffset = get_startoffset init (length text) in
      if ltb (length text) startoffset
      then ok (value nil ∷ [])
      else findmatch_exec ud text eflags startoffset
        >>= method_results l ud.ncapt (do_named_subpatterns ud text) text (alg_base startoffset)
            method
