-- ===== src/Rex/Iterate.antt =====
-- libs/lrexlib/src/algo.h: gmatch and split, with the functions that Lua calls in a loop.
pub mod Gmatch
pub mod Steps
pub mod Split
use lua_cmake_source.Base.{
  ℕ, zero, suc, ◌+◌, List, [], ◌∷◌, Option, none, some, ltb, ◌==◌, if◌then◌else◌, length, drop,
  between, Bytes,
}
use lua_cmake_source.LuaValue.{Value, str}
use lua_cmake_source.Rex.Engine.{
  Match, Exec, matched, no_match, failed, Posix, TPosix, Result, ok, raised, undefined, out_of_fuel,
  ◌>>=◌, generate_error, gmatch_exec, split_exec, gmatch_pushsubject,
}
use lua_cmake_source.Rex.Gsub.State.{Lua, Pattern, check_pattern, pattern_regex}
use lua_cmake_source.Rex.Gsub.Replace.{push_substrings}

-- The upvalues of an iterator that do not change: the expression, the subject and the flags.
pub record Iteration : Type 0 where
  pub ud : TPosix
  pub subject : Bytes
  pub eflags : ℕ

-- Either the captures or the entire match, from a text where the search started.
abbrev pub captures : {W : Type 0} → Lua W → ℕ → Bytes → Match → Result (List Value)
captures l nsub text m =
    if ltb 0 nsub
    then push_substrings l nsub text m
    else ok (str (between text m.rm_so m.rm_eo) ∷ [])

-- 1 behind an empty match.
abbrev pub step : Match → ℕ
step m = if m.rm_so == m.rm_eo then 1 else 0

-- A loop of Lua over an iterator that keeps a state, for so many calls.
abbrev pub and_then :
    {S A : Type 0} → (S → Result (List A)) → S × Result (Option A) → Result (List A)
and_then next (s, ok none) = ok []
and_then next (s, ok (some a)) = next s >>= λ rest. ok (a ∷ rest)
and_then next (s, raised e) = raised e
and_then next (s, undefined) = undefined
and_then next (s, out_of_fuel) = out_of_fuel

unfoldable pub calls : {S A : Type 0} → (S → S × Result (Option A)) → ℕ → S → Result (List A)
calls iter zero s = out_of_fuel
calls iter (suc f) s = and_then (calls iter f) (iter s)

-- The upvalue stays where the search raises an error or is undefined.
abbrev pub after {ℓ κ} :
    {S : Type ℓ} {A : Type κ} → S → Result Exec → (Exec → S × Result A) → S × Result A
after s (ok e) f = f e
after s (raised e) f = (s, raised e)
after s undefined f = (s, undefined)
after s out_of_fuel f = (s, out_of_fuel)

-- The upvalues of split that change.
pub record Place : Type 0 where
  pub startoffset : ℕ
  pub incr : ℕ

module _ {W : Type 0} (p : Posix) (l : Lua W) where
  -- `gmatch` and `split`: the arguments, and the upvalues of the closure.
  unfoldable pub iteration : Bytes → Pattern TPosix → ℕ → ℕ → Result Iteration
  iteration text pattern cflags eflags = check_pattern pattern >>= λ pattern.
      pattern_regex p pattern cflags >>= λ ud.
      ok (record { ud = ud; subject = gmatch_pushsubject text; eflags = eflags })

  module _ (it : Iteration) where
    -- The new start offset, and the values that are returned; none for no value.
    unfoldable pub gmatch_found : ℕ → Exec → ℕ × Result (Option (List Value))
    gmatch_found startoffset no_match = (startoffset, ok none)
    gmatch_found startoffset (failed errcode) = (startoffset, generate_error errcode)
    gmatch_found startoffset (matched m) = (
      startoffset + step m + m.rm_eo,
      captures l it.ud.nsub (drop startoffset it.subject) m >>= λ vs. ok (some vs),
    )

    unfoldable pub gmatch_iter : ℕ → ℕ × Result (Option (List Value))
    gmatch_iter startoffset =
        if ltb (length it.subject) startoffset
        then (startoffset, ok none)
        else after startoffset (gmatch_exec p it.ud it.subject it.eflags startoffset)
            (gmatch_found startoffset)

    -- The text before the match, and what is returned with it; the last piece stands alone.
    unfoldable pub split_found : Place → Exec → Place × Result (Option (Bytes × List Value))
    split_found s no_match = (
      record { startoffset = length it.subject + 1; incr = s.incr },
      ok (some (between it.subject s.startoffset (length it.subject), [])),
    )
    split_found s (failed errcode) = (s, generate_error errcode)
    split_found s (matched m) =
        let newoffset = s.startoffset + s.incr in
        (
          record { startoffset = newoffset + m.rm_eo; incr = step m },
          captures l it.ud.nsub (drop newoffset it.subject) m >>= λ vs.
              ok (some (between it.subject s.startoffset (m.rm_so + newoffset), vs)),
        )

    unfoldable pub split_iter : Place → Place × Result (Option (Bytes × List Value))
    split_iter s =
        if ltb (length it.subject) s.startoffset
        then (s, ok none)
        else after s (split_exec p it.ud it.subject it.eflags (s.startoffset + s.incr))
            (split_found s)
