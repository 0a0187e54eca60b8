-- ===== src/Rex/Pcre/Matches.antt =====
-- The calls of the iterator of gmatch for the PCRE library.
use lua_cmake_source.Base.{
  ℕ, zero, suc, ◌+◌, ◌*◌, ◌-◌, ◌≤◌, ◌<◌, Bool, true, false, ◌&&◌, &&-eq-true, List, [], ◌∷◌, Option,
  none, some, ltb, ltb→lt, ◌==◌, if◌then◌else◌, Bool-cases, inl, inr, ◌≡◌, refl, arith, length,
}
use lua_cmake_source.LuaValue.{Value}
use lua_cmake_source.Rex.Engine.{
  Match, Exec, matched, no_match, failed, Result, ok, raised, undefined, out_of_fuel,
}
use lua_cmake_source.Rex.Total.{Ends, yields, raises, undefines, Ends-bind, Ends-value}
use lua_cmake_source.Rex.Gsub.State.{Lua}
use lua_cmake_source.Rex.Iterate.{captures, calls, and_then, after}
use lua_cmake_source.Rex.Iterate.Gmatch.{captures-Ends}
use lua_cmake_source.Rex.Pcre.Engine.{Pcre, gsub_exec, gmatch_exec}
use lua_cmake_source.Rex.Pcre.Gmatch.{Iteration, Spot, gmatch_found, gmatch_loop, gmatch_iter}
use lua_cmake_source.Rex.Pcre.Trace.{IsLive, FitsFrom, exec-FitsFrom}

match_steps :
    (from so eo len : ℕ) (retry : Bool)
    → from ≤ so
    → so ≤ eo
    → eo ≤ len
    → (retry ≡ true → so < eo)
    → 2 * (len + 1 - (0 + eo)) - (if so == eo then 1 else 0)
      < 2 * (len + 1 - from) - (if retry then 1 else 0)
match_steps from so eo len true low ordered high some_bytes =
    let further = some_bytes refl in ground arith
match_steps from so eo len false low ordered high some_bytes = ground arith

module _ {W : Type 0} (p : Pcre) (l : Lua W) (it : Iteration) where
  abbrev pub search : ℕ → Bool → Result Exec
  search from retry = gmatch_exec p it.ud it.subject it.eflags from retry

  -- A call searches from where the last match ended, and, where that match was empty and no match of
  -- some bytes is there, from one byte further on.
  pub data SearchesFrom (s : Spot) : ℕ → Bool → Type 0 where
    at_end : SearchesFrom s s.startoffset s.retry
    one_further :
        s.retry ≡ true
        → s.startoffset < length it.subject
        → search s.startoffset true ≡ ok no_match
        → SearchesFrom s (s.startoffset + 1) false

  -- The values of one match after the other, until none is found.
  pub data IsMatches : Spot → List (List Value) → Type 0 where
    past_end : {s : Spot} → length it.subject < s.startoffset → IsMatches s []
    none_left :
        {s : Spot} (from : ℕ) (retry : Bool)
        → SearchesFrom s from retry
        → search from retry ≡ ok no_match
        → (retry && ltb from (length it.subject)) ≡ false
        → IsMatches s []
    one_more :
        {s : Spot} (from : ℕ) (retry : Bool) (m : Match) {vs : List Value}
        {rest : List (List Value)}
        → SearchesFrom s from retry
        → search from retry ≡ ok (matched m)
        → captures l it.ud.ncapt it.subject m ≡ ok vs
        → IsMatches (record { startoffset = 0 + m.rm_eo; retry = m.rm_so == m.rm_eo }) rest
        → IsMatches s (vs ∷ rest)

  abbrev pub remaining : Spot → ℕ
  remaining s = 2 * (length it.subject + 1 - s.startoffset) - (if s.retry then 1 else 0)

  abbrev pub AreMatches : Spot → List (List Value) → Type 0
  AreMatches s all = IsMatches s all × (length all ≤ remaining s)

  -- What a call returns, and where the next one goes on.
  abbrev ReplyAt : Spot → Spot → Option (List Value) → Type 0
  ReplyAt s next none = IsMatches s []
  ReplyAt s next (some vs) =
      (from : ℕ) × (retry : Bool) × (m : Match) × SearchesFrom s from retry
      × (search from retry ≡ ok (matched m))
      × (captures l it.ud.ncapt it.subject m ≡ ok vs)
      × (next ≡ record { startoffset = 0 + m.rm_eo; retry = m.rm_so == m.rm_eo })
      × (remaining next < remaining s)

  abbrev Replies : Spot → Spot × Result (Option (List Value)) → Type 0
  Replies s (next, r) = Ends (ReplyAt s next) ⊥ r

  search-Fits :
      (from : ℕ) (retry : Bool)
      → IsLive p it.ud
      → Ends (FitsFrom it.subject from retry) ⊥ (search from retry)
  unfolding gmatch_exec
  search-Fits from retry live =
      unfold gsub_exec in exec-FitsFrom p it.ud it.subject it.eflags from retry live

  less_remains :
      (s : Spot) (from : ℕ) (retry : Bool) (m : Match)
      → SearchesFrom s from retry
      → FitsFrom it.subject from retry (matched m)
      → remaining (record { startoffset = 0 + m.rm_eo; retry = m.rm_so == m.rm_eo }) < remaining s
  less_remains s from retry m at_end fits =
      match_steps s.startoffset m.rm_so m.rm_eo (length it.subject) s.retry fits.0 fits.1 fits.2
        fits.3
  less_remains s from retry m (one_further again inner none_here) fits =
      let less =
        match_steps (s.startoffset + 1) m.rm_so m.rm_eo (length it.subject) false fits.0 fits.1
          fits.2 fits.3 in
      rw again (omega (arith, less))

  gmatch_found-Replies :
      (next : ℕ → Spot × Result (Option (List Value))) (s : Spot) (from : ℕ) (retry : Bool)
      (r : Result Exec)
      → search from retry ≡ r
      → SearchesFrom s from retry
      → (retry ≡ true
          → from < length it.subject
          → search from retry ≡ ok no_match
          → Replies s (next (from + 1)))
      → Ends (FitsFrom it.subject from retry) ⊥ r
      → Replies s (after s r (gmatch_found p l it next s from retry))
  unfolding gmatch_found
  gmatch_found-Replies next s from retry (ok no_match) e searched k h =
      elim (Bool-cases (retry && ltb from (length it.subject))) [
        | inl again ↦
            let (still, inner) = &&-eq-true retry _ again in
            rw again (k still (ltb→lt from (length it.subject) inner) e)
        | inr over ↦ rw over (yields (none_left from retry searched e over))
      ]
  gmatch_found-Replies next s from retry (ok (failed errcode)) e searched k h = raises
  gmatch_found-Replies next s from retry (ok (matched m)) e searched k (yields fits) =
      Ends-bind (Ends-value (captures-Ends l it.ud.ncapt it.subject m)) λ vs (_, pushed).
        yields
          (from, retry, m, searched, e, pushed, refl, less_remains s from retry m searched fits)
  gmatch_found-Replies next s from retry (raised err) e searched k h = raises
  gmatch_found-Replies next s from retry undefined e searched k (undefines u) = absurd u
  gmatch_found-Replies next s from retry out_of_fuel e searched k h = elim h [ ]

  gmatch_iter-Replies : (s : Spot) → IsLive p it.ud → Replies s (gmatch_iter p l it s)
  unfolding gmatch_iter gmatch_loop
  gmatch_iter-Replies s live = elim (Bool-cases (ltb (length it.subject) s.startoffset)) [
    | inl e ↦ rw e (yields (past_end (ltb→lt (length it.subject) s.startoffset e)))
    | inr e ↦ rw e (
        gmatch_found-Replies _ s s.startoffset s.retry _ refl at_end
          (λ again inner none_here.
            gmatch_found-Replies _ s (s.startoffset + 1) false _ refl
              (one_further again inner (rw again at none_here)) (cc)
              (search-Fits (s.startoffset + 1) false live))
          (search-Fits s.startoffset s.retry live))
  ]

  and_then-AreMatches :
      (f : ℕ) (s : Spot) (r : Spot × Result (Option (List Value)))
      → ((next : Spot)
          → remaining next < remaining s
          → Ends (AreMatches next) ⊥ (calls (gmatch_iter p l it) f next))
      → Replies s r
      → Ends (AreMatches s) ⊥ (and_then (calls (gmatch_iter p l it) f) r)
  and_then-AreMatches f s (next, ok none) ih (yields h) = yields (h, omega arith)
  and_then-AreMatches f s (next, ok (some vs)) ih
        (yields (from, retry, m, searched, e, pushed, at, less)) =
      Ends-bind (ih next less) λ rest (found, count).
        yields (one_more from retry m searched e pushed (rw at at found), omega arith)
  and_then-AreMatches f s (next, raised err) ih h = raises
  and_then-AreMatches f s (next, undefined) ih (undefines u) = absurd u
  and_then-AreMatches f s (next, out_of_fuel) ih h = elim h [ ]

  -- Called again and again, the iterator of gmatch for the PCRE library comes to an end or raises an
  -- error, for an expression that was not released and matches as PCRE promises them: it returns the
  -- values of one match after the other, each searched for where the last one ended, and from one
  -- byte further on where that was empty and no match of some bytes is there. In all there are at
  -- most twice as many matches as positions from there to the end of the subject.
  pub gmatch_iter-IsMatches :
      (f : ℕ) (s : Spot)
      → IsLive p it.ud
      → remaining s < f
      → Ends (AreMatches s) ⊥ (calls (gmatch_iter p l it) f s)
  unfolding calls
  gmatch_iter-IsMatches zero s live h = absurd (omega arith)
  gmatch_iter-IsMatches (suc f) s live h =
      and_then-AreMatches f s (gmatch_iter p l it s)
        (λ next less. gmatch_iter-IsMatches f next live (omega arith)) (gmatch_iter-Replies s live)
