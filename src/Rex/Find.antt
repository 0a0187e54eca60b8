-- ===== src/Rex/Find.antt =====
-- libs/lrexlib/src/algo.h: find and match, and the methods find, match, exec and tfind.
pub mod Offsets
use lua_cmake_source.Base.{
  ℕ, zero, suc, ◌+◌, ◌-◌, Bool, true, false, List, [], ◌∷◌, ◌++◌, Option, none, some, ltb, ◌==◌,
  if◌then◌else◌, length, drop, between, Bytes,
}
use lua_cmake_source.Base.Int.{ℤ, pos, negsuc}
use lua_cmake_source.LuaValue.{Value, nil, str}
use lua_cmake_source.Rex.Engine.{
  Sub, unset, span, Match, Exec, matched, no_match, failed, Posix, TPosix, Result, ok, ◌>>=◌,
  sub_at, generate_error, findmatch_exec,
}
use lua_cmake_source.Rex.Gsub.State.{Lua, Pattern, check_pattern, pattern_regex}
use lua_cmake_source.Rex.Gsub.Replace.{substrings, push_substrings}

-- `get_startoffset`: the position that an argument names, which is 1 if it is missing; a negative
-- one counts from the end.
unfoldable pub get_startoffset : Option ℤ → ℕ → ℕ
get_startoffset none len = 0
get_startoffset (some (pos zero)) len = 0
get_startoffset (some (pos (suc n))) len = n
get_startoffset (some (negsuc n)) len = len - suc n

-- METHOD_FIND, METHOD_MATCH, METHOD_EXEC, METHOD_TFIND
pub data Method : Type 0 where
  find match exec tfind : Method

-- An entry of the table that exec returns.
pub data Offset : Type 0 where
  at : ℕ → Offset
  not_set : Offset

-- Entries that a table has under the names of subexpressions.
abbrev pub Named : Type 0
Named = List (Bytes × Value)

-- A value that a function pushes: an integer, a value, or a new table.
pub data Item : Type 0 where
  index : ℕ → Item
  value : Value → Item
  table_of : List Value → Named → Item
  offsets : List Offset → Named → Item

abbrev pub values : List Value → List Item
values [] = []
values (v ∷ vs) = value v ∷ values vs

abbrev pub is_find : Method → Bool
is_find find = true
is_find _ = false

-- `ALG_PUSHOFFSETS` of the whole match
abbrev pub whole_offsets : ℕ → Match → List Item
whole_offsets base m = index (base + m.rm_so + 1) ∷ index (base + m.rm_eo) ∷ []

abbrev pub sub_offsets : ℕ → Sub → List Offset
sub_offsets base unset = not_set ∷ not_set ∷ []
sub_offsets base (span b e) = at (base + b + 1) ∷ at (base + e) ∷ []

-- `push_offset_table`, for `n` subexpressions from `i` on.
unfoldable pub push_offset_table : ℕ → Match → ℕ → ℕ → List Offset
push_offset_table base m zero i = []
push_offset_table base m (suc n) i =
    sub_offsets base (sub_at m i) ++ push_offset_table base m n (suc i)

module _ {W : Type 0} (l : Lua W) where
  -- The text is the rest of the subject from the position where the search started.
  unfoldable pub finish_generic_find : ℕ → Bytes → ℕ → Method → Exec → Result (List Item)
  finish_generic_find nsub text startoffset method no_match = ok (value nil ∷ [])
  finish_generic_find nsub text startoffset method (failed errcode) = generate_error errcode
  finish_generic_find nsub text startoffset method (matched m) =
      let front = if is_find method then whole_offsets startoffset m else [] in
      if ltb 0 nsub
      then (push_substrings l nsub text m >>= λ vs. ok (front ++ values vs))
      else if is_find method
      then ok front
      else ok (value (str (between text m.rm_so m.rm_eo)) ∷ [])

  -- `find` and `match`
  unfoldable pub generic_find_func :
      Posix → Bytes → Pattern TPosix → Option ℤ → ℕ → ℕ → Method → Result (List Item)
  generic_find_func p text pattern init cflags eflags method = check_pattern pattern >>= λ pattern.
      let startoffset = get_startoffset init (length text) in
      if ltb (length text) startoffset
      then ok (value nil ∷ [])
      else pattern_regex p pattern cflags >>= λ ud.
          findmatch_exec ud text eflags startoffset
          >>= finish_generic_find ud.nsub (drop startoffset text) startoffset method

  -- The results of a method for what was found. `names` is `DO_NAMED_SUBPATTERNS`.
  unfoldable pub method_results :
      ℕ → (Match → Named) → Bytes → ℕ → Method → Exec → Result (List Item)
  method_results nsub names text startoffset exec (matched m) = ok (
      whole_offsets startoffset m
      ++ offsets (push_offset_table startoffset m nsub 1) (names m) ∷ [])
  method_results nsub names text startoffset tfind (matched m) =
      ok (whole_offsets startoffset m ++ table_of (substrings text m nsub 1) (names m) ∷ [])
  method_results nsub names text startoffset method e =
      finish_generic_find nsub text startoffset method e

  unfoldable pub generic_find_method : TPosix → Bytes → Option ℤ → ℕ → Method → Result (List Item)
  generic_find_method ud text init eflags method =
      let startoffset = get_startoffset init (length text) in
      if ltb (length text) startoffset
      then ok (value nil ∷ [])
      else findmatch_exec ud text eflags startoffset
        >>= method_results ud.nsub (λ m. []) (drop startoffset text) startoffset method
