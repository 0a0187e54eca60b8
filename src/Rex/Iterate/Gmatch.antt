-- ===== src/Rex/Iterate/Gmatch.antt =====
-- The calls of the iterator of gmatch.
use lua_cmake_source.Base.{
  ℕ, zero, suc, ◌+◌, ◌≤◌, ◌<◌, List, [], ◌∷◌, Option, none, some, ltb, ltb→lt, ltb_false→le,
  Bool-cases, inl, inr, ◌⊎◌, ◌≡◌, refl, arith, length, drop, Bytes,
}
use lua_cmake_source.LuaValue.{Value}
use lua_cmake_source.Rex.Engine.{
  Match, Exec, matched, no_match, failed, Posix, Result, ok, raised, undefined, out_of_fuel,
  gmatch_exec, later_flags,
}
use lua_cmake_source.Rex.Total.{
  Ends, yields, raises, undefines, Ends-bind, Ends-if, Ends-value, IsLive, FitsAt,
  regexec_at-FitsAt,
}
use lua_cmake_source.Rex.Gsub.State.{Lua}
use lua_cmake_source.Rex.Gsub.Replace.{push_substrings}
use lua_cmake_source.Rex.Iterate.{
  Iteration, captures, step, gmatch_found, gmatch_iter, calls, and_then, after,
}

pub captures-Ends :
    {W U : Type 0} (l : Lua W) (nsub : ℕ) (text : Bytes) (m : Match)
    → Ends (λ vs. Unit) U (captures l nsub text m)
unfolding push_substrings
captures-Ends l nsub text m =
    Ends-if (ltb 0 nsub) (λ _. Ends-if (l.checkstack nsub) (λ _. yields tt) (λ _. raises))
      (λ _. yields tt)

module _ {W : Type 0} (p : Posix) (l : Lua W) (it : Iteration) where
  -- The values of one match after the other, each searched for behind the one before and one byte
  -- further behind an empty one, until none is found.
  pub data IsMatches : ℕ → List (List Value) → Type 0 where
    none_left :
        {startoffset : ℕ}
        → (length it.subject < startoffset)
          ⊎ (gmatch_exec p it.ud it.subject it.eflags startoffset ≡ ok no_match)
        → IsMatches startoffset []
    one_more :
        {startoffset : ℕ} (m : Match) {vs : List Value} {rest : List (List Value)}
        → gmatch_exec p it.ud it.subject it.eflags startoffset ≡ ok (matched m)
        → captures l it.ud.nsub (drop startoffset it.subject) m ≡ ok vs
        → IsMatches (startoffset + step m + m.rm_eo) rest
        → IsMatches startoffset (vs ∷ rest)

  abbrev pub AreMatches : ℕ → List (List Value) → Type 0
  AreMatches startoffset all =
      IsMatches startoffset all × (length all + startoffset ≤ length it.subject + 1)

  gmatch_exec-FitsAt :
      (startoffset : ℕ)
      → IsLive it.ud
      → startoffset ≤ length it.subject
      → Ends
          (FitsAt it.subject startoffset)
          ⊥
          (gmatch_exec p it.ud it.subject it.eflags startoffset)
  unfolding gmatch_exec
  gmatch_exec-FitsAt startoffset live h =
      regexec_at-FitsAt it.ud it.subject startoffset (later_flags p it.eflags startoffset) live h

  step_on : (m : Match) → m.rm_so ≤ m.rm_eo → 0 < step m + m.rm_eo
  step_on m h = ground arith

  -- What a call returns, and where the next search starts.
  abbrev ReplyAt : ℕ → ℕ → Option (List Value) → Type 0
  ReplyAt startoffset next none =
      (length it.subject < startoffset)
      ⊎ (gmatch_exec p it.ud it.subject it.eflags startoffset ≡ ok no_match)
  ReplyAt startoffset next (some vs) =
      (m : Match) × (gmatch_exec p it.ud it.subject it.eflags startoffset ≡ ok (matched m))
      × (captures l it.ud.nsub (drop startoffset it.subject) m ≡ ok vs)
      × (next ≡ startoffset + step m + m.rm_eo)
      × (startoffset < next)
      × (next ≤ length it.subject + 1)

  abbrev Replies : ℕ → ℕ × Result (Option (List Value)) → Type 0
  Replies startoffset (next, r) = Ends (ReplyAt startoffset next) ⊥ r

  step_inside :
      (startoffset : ℕ) (m : Match)
      → startoffset + m.rm_eo ≤ length it.subject
      → m.rm_so ≤ m.rm_eo
      → startoffset + step m + m.rm_eo ≤ length it.subject + 1
  step_inside startoffset m h k = ground arith

  gmatch_found-Replies :
      (startoffset : ℕ) (r : Result Exec)
      → gmatch_exec p it.ud it.subject it.eflags startoffset ≡ r
      → Ends (FitsAt it.subject startoffset) ⊥ r
      → Replies startoffset (after startoffset r (gmatch_found p l it startoffset))
  unfolding gmatch_found
  gmatch_found-Replies startoffset (ok no_match) e h = yields (inr e)
  gmatch_found-Replies startoffset (ok (failed errcode)) e h = raises
  gmatch_found-Replies startoffset (ok (matched m)) e (yields fits) =
      Ends-bind (Ends-value (captures-Ends l it.ud.nsub (drop startoffset it.subject) m))
        λ vs (_, pushed).
          let on = step_on m fits.0 in
          yields (m, e, pushed, refl, omega arith, step_inside startoffset m fits.1 fits.0)
  gmatch_found-Replies startoffset (raised err) e h = raises
  gmatch_found-Replies startoffset undefined e (undefines u) = absurd u
  gmatch_found-Replies startoffset out_of_fuel e h = elim h [ ]

  gmatch_iter-Replies :
      (startoffset : ℕ) → IsLive it.ud → Replies startoffset (gmatch_iter p l it startoffset)
  unfolding gmatch_iter
  gmatch_iter-Replies startoffset live = elim (Bool-cases (ltb (length it.subject) startoffset)) [
    | inl e ↦ rw e (yields (inl (ltb→lt (length it.subject) startoffset e)))
    | inr e ↦ rw e (
        gmatch_found-Replies startoffset _ refl
          (gmatch_exec-FitsAt startoffset live (ltb_false→le (length it.subject) startoffset e)))
  ]

  and_then-AreMatches :
      (f startoffset : ℕ) (r : ℕ × Result (Option (List Value)))
      → ((next : ℕ)
          → startoffset < next
          → next ≤ length it.subject + 1
          → Ends (AreMatches next) ⊥ (calls (gmatch_iter p l it) f next))
      → startoffset ≤ length it.subject + 1
      → Replies startoffset r
      → Ends (AreMatches startoffset) ⊥ (and_then (calls (gmatch_iter p l it) f) r)
  and_then-AreMatches f startoffset (next, ok none) ih k (yields h) =
      yields (none_left h, omega arith)
  and_then-AreMatches f startoffset (next, ok (some vs)) ih k
        (yields (m, e, pushed, at, on, inside)) =
      Ends-bind (ih next on inside)
        λ rest (found, count). yields (one_more m e pushed (rw (← at) found), omega arith)
  and_then-AreMatches f startoffset (next, raised err) ih k h = raises
  and_then-AreMatches f startoffset (next, undefined) ih k (undefines u) = absurd u
  and_then-AreMatches f startoffset (further, out_of_fuel) ih k h = elim h [ ]

  -- Called again and again from a position in the subject or at its end, the iterator of gmatch comes
  -- to an end or raises an error, for an expression whose matches can be read: it returns the values
  -- of each match behind the last, at most one for each position.
  pub gmatch_iter-AreMatches :
      (f startoffset : ℕ)
      → IsLive it.ud
      → startoffset ≤ length it.subject + 1
      → length it.subject + 1 < f + startoffset
      → Ends (AreMatches startoffset) ⊥ (calls (gmatch_iter p l it) f startoffset)
  unfolding calls
  gmatch_iter-AreMatches zero startoffset live k h = absurd (omega arith)
  gmatch_iter-AreMatches (suc f) startoffset live k h =
      and_then-AreMatches f startoffset (gmatch_iter p l it startoffset)
        (λ next on inside. gmatch_iter-AreMatches f next live inside (omega arith)) k
        (gmatch_iter-Replies startoffset live)
