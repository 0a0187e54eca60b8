-- ===== src/Rex/Pcre/Split.antt =====
-- libs/lrexlib/src/algo.h: split for the PCRE library, with an `ALG_BASE` of 0.
use lua_cmake_source.Base.{
  ℕ, ◌+◌, List, [], Option, none, some, ltb, if◌then◌else◌, length, between, Bytes,
}
use lua_cmake_source.LuaValue.{Value}
use lua_cmake_source.Rex.Engine.{Exec, matched, no_match, failed, Result, ok, ◌>>=◌, generate_error}
use lua_cmake_source.Rex.Gsub.State.{Lua, Pattern, check_pattern}
use lua_cmake_source.Rex.Iterate.{Place, captures, step, after}
use lua_cmake_source.Rex.Pcre.Engine.{Pcre, TPcre, CflagsArg, LocaleArg, getcflags, split_exec}
use lua_cmake_source.Rex.Pcre.Gsub.{alg_base, pattern_regex}
use lua_cmake_source.Rex.Pcre.Gmatch.{Iteration}

-- `split`: the arguments, and the upvalues of the closure.
unfoldable pub split :
    Pcre → Bytes → Pattern TPcre → CflagsArg → ℕ → LocaleArg → Result (Iteration × Place)
split p text pattern given eflags lo = check_pattern pattern >>= λ pattern.
    getcflags p 3 given >>= λ cflags. pattern_regex p pattern cflags lo 5 >>= λ ud.
    ok (record { ud = ud; subject = text; eflags = eflags }, record { startoffset = 0; incr = 0 })

module _ {W : Type 0} (l : Lua W) (it : Iteration) where
  -- The text before the match, and what is returned with it; the last piece stands alone.
  unfoldable pub split_found : Place → Exec → Place × Result (Option (Bytes × List Value))
  split_found s no_match = (
    record { startoffset = length it.subject + 1; incr = s.incr },
    ok (some (between it.subject s.startoffset (length it.subject), [])),
  )
  split_found s (failed errcode) = (s, generate_error errcode)
  split_found s (matched m) =
      let base = alg_base (s.startoffset + s.incr) in
      (
        record { startoffset = base + m.rm_eo; incr = step m },
        captures l it.ud.ncapt it.subject m >>= λ vs.
            ok (some (between it.subject s.startoffset (m.rm_so + base), vs)),
      )

  unfoldable pub split_iter : Place → Place × Result (Option (Bytes × List Value))
  split_iter s =
      if ltb (length it.subject) s.startoffset
      then (s, ok none)
      else after s (split_exec it.ud it.subject it.eflags (s.startoffset + s.incr)) (split_found s)
