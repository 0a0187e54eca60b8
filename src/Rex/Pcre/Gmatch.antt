-- ===== src/Rex/Pcre/Gmatch.antt =====
-- libs/lrexlib/src/algo.h: gmatch for the PCRE library, with `ALG_USERETRY`.
use lua_cmake_source.Base.{
  ℕ, zero, suc, ◌+◌, Bool, false, ◌&&◌, List, Option, none, some, ltb, ◌==◌, if◌then◌else◌, length,
  Bytes,
}
use lua_cmake_source.LuaValue.{Value}
use lua_cmake_source.Rex.Engine.{
  Exec, matched, no_match, failed, Result, ok, out_of_fuel, ◌>>=◌, generate_error,
}
use lua_cmake_source.Rex.Gsub.State.{Lua, Pattern, check_pattern}
use lua_cmake_source.Rex.Iterate.{captures, after}
use lua_cmake_source.Rex.Pcre.Engine.{Pcre, TPcre, CflagsArg, LocaleArg, getcflags, gmatch_exec}
use lua_cmake_source.Rex.Pcre.Gsub.{alg_base, pattern_regex}

-- The upvalues of the iterator that do not change, and those that do.
pub record Iteration : Type 0 where
  pub ud : TPcre
  pub subject : Bytes
  pub eflags : ℕ

pub record Spot : Type 0 where
  pub startoffset : ℕ
  pub retry : Bool

module _ {W : Type 0} (p : Pcre) (l : Lua W) where
  -- `gmatch`: the arguments, and the upvalues of the closure.
  unfoldable pub gmatch :
      Bytes → Pattern TPcre → CflagsArg → ℕ → LocaleArg → Result (Iteration × Spot)
  gmatch text pattern given eflags lo = check_pattern pattern >>= λ pattern.
      getcflags p 3 given >>= λ cflags. pattern_regex p pattern cflags lo 5 >>= λ ud. ok (
        record { ud = ud; subject = text; eflags = eflags },
        record { startoffset = 0; retry = false },
      )

  module _ (it : Iteration) where
    -- The upvalues after a match, and the values that are returned. `from` is the start of the
    -- search.
    unfoldable pub gmatch_found :
        (ℕ → Spot × Result (Option (List Value)))
        → Spot
        → ℕ
        → Bool
        → Exec
        → Spot × Result (Option (List Value))
    gmatch_found next s from retry no_match =
        if retry && ltb from (length it.subject) then next (from + 1) else (s, ok none)
    gmatch_found next s from retry (failed errcode) = (s, generate_error errcode)
    gmatch_found next s from retry (matched m) = (
      record { startoffset = alg_base from + m.rm_eo; retry = m.rm_so == m.rm_eo },
      captures l it.ud.ncapt it.subject m >>= λ vs. ok (some vs),
    )

    -- while (1): the upvalues stay as they are in `s` until a match is found.
    unfoldable pub gmatch_loop : ℕ → Spot → ℕ → Bool → Spot × Result (Option (List Value))
    gmatch_loop zero s from retry = (s, out_of_fuel)
    gmatch_loop (suc f) s from retry =
        after s (gmatch_exec p it.ud it.subject it.eflags from retry)
          (gmatch_found (λ further. gmatch_loop f s further false) s from retry)

    -- A second round has `retry` 0, so that there is no third.
    unfoldable pub gmatch_iter : Spot → Spot × Result (Option (List Value))
    gmatch_iter s =
        if ltb (length it.subject) s.startoffset
        then (s, ok none)
        else gmatch_loop 2 s s.startoffset s.retry
