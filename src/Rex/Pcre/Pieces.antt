-- ===== src/Rex/Pcre/Pieces.antt =====
-- The calls of the iterator of split for the PCRE library.
use lua_cmake_source.Base.{
  ℕ, zero, suc, ◌+◌, ◌*◌, ◌-◌, ◌≤◌, ◌<◌, true, false, List, [], ◌++◌, append-nil, Option, none,
  some, ltb, le→ltb_false, ltb→lt, ltb_false→le, ◌==◌, Bool-cases, inl, inr, ◌≡◌, refl, sym, ap,
  ◌∙◌, arith, length, drop, between, between-append-drop, between_to_end, drop_beyond, Bytes,
}
use lua_cmake_source.LuaValue.{Value}
use lua_cmake_source.Rex.Engine.{
  Match, Exec, matched, no_match, failed, regex_error, Result, ok, raised, undefined, out_of_fuel,
}
use lua_cmake_source.Rex.Total.{Ends, yields, raises, undefines, Ends-bind}
use lua_cmake_source.Rex.Gsub.State.{Lua}
use lua_cmake_source.Rex.Iterate.{Place, calls, and_then, after}
use lua_cmake_source.Rex.Iterate.Steps.{joined, strings}
use lua_cmake_source.Rex.Pcre.Engine.{Pcre, split_exec}
use lua_cmake_source.Rex.Pcre.Gmatch.{Iteration}
use lua_cmake_source.Rex.Pcre.Split.{split_found, split_iter}
use lua_cmake_source.Rex.Pcre.Trace.{IsLive}

-- Where a match lies that was searched for from a position.
abbrev pub LiesFrom : Bytes → ℕ → Exec → Type 0
LiesFrom text st (matched m) = (st ≤ m.rm_so) × (m.rm_so ≤ m.rm_eo) × (m.rm_eo ≤ length text)
LiesFrom text st _ = Unit

module _ {W : Type 0} (l : Lua W) (it : Iteration) where
  abbrev pub left_over : Place → ℕ
  left_over s = 2 * (length it.subject + 1 - s.startoffset) - s.incr

  abbrev ReplyAt : Place → Place → Option (Bytes × List Value) → Type 0
  ReplyAt s further none = length it.subject < s.startoffset
  ReplyAt s further (some (piece, vs)) =
      (piece ++ (strings vs ++ drop further.startoffset it.subject) ≡ drop s.startoffset it.subject)
      × (further.incr ≤ 1)
      × (left_over further < left_over s)

  abbrev Replies : Place → Place × Result (Option (Bytes × List Value)) → Type 0
  Replies s (further, r) = Ends (ReplyAt s further) ⊥ r

  abbrev pub IsSplit : Place → List (Bytes × List Value) → Type 0
  IsSplit s all = joined all ≡ drop s.startoffset it.subject

  split_exec-LiesFrom :
      (p : Pcre) (offset : ℕ)
      → IsLive p it.ud
      → Ends (LiesFrom it.subject offset) ⊥ (split_exec it.ud it.subject it.eflags offset)
  unfolding split_exec
  split_exec-LiesFrom p offset live = rw live.allocated (yields (lies _ refl))
    where
      lies :
          (e : Exec)
          → it.ud.pr.pcre_exec it.subject offset it.eflags ≡ e
          → LiesFrom it.subject offset e
      lies (matched m) run = live.engine.found it.subject offset it.eflags m run
      lies no_match run = tt
      lies (failed _) run = tt

  module _ (plain : it.ud.ncapt ≡ 0) where
    -- The text before a match, the match, and the rest.
    match_joined :
        (start : ℕ) (m : Match)
        → start ≤ m.rm_so
        → m.rm_so ≤ m.rm_eo
        → between it.subject start (m.rm_so + 0)
            ++ (between it.subject m.rm_so m.rm_eo ++ [] ++ drop (0 + m.rm_eo) it.subject)
          ≡ drop start it.subject
    match_joined start m h k =
        let same_start : m.rm_so + 0 ≡ m.rm_so = omega arith in
        let same_end : 0 + m.rm_eo ≡ m.rm_eo = omega arith in
        rw
          (
            same_start,
            same_end,
            append-nil (between it.subject m.rm_so m.rm_eo),
            between-append-drop it.subject m.rm_so m.rm_eo k,
          )
          (between-append-drop it.subject start m.rm_so h)

    split_found-Replies :
        (s : Place) (r : Result Exec)
        → s.startoffset ≤ length it.subject
        → s.incr ≤ 1
        → Ends (LiesFrom it.subject (s.startoffset + s.incr)) ⊥ r
        → Replies s (after s r (split_found l it s))
    unfolding split_found
    split_found-Replies s (ok no_match) h one lies = yields (
      rw
          (
            drop_beyond (length it.subject + 1) it.subject (omega arith),
            append-nil (between it.subject s.startoffset (length it.subject)),
          )
          (between_to_end it.subject s.startoffset (length it.subject) h (omega arith)),
      one,
      omega arith,
    )
    split_found-Replies s (ok (failed errcode)) h one lies = raises
    split_found-Replies s (ok (matched m)) h one (yields (low, ordered, high)) =
        let whole : ltb 0 it.ud.ncapt ≡ false = le→ltb_false 0 it.ud.ncapt (omega arith) in
        rw whole
          (yields (match_joined s.startoffset m (omega arith) ordered, ground arith, ground arith))
    split_found-Replies s (raised err) h one lies = raises
    split_found-Replies s undefined h one (undefines u) = absurd u
    split_found-Replies s out_of_fuel h one lies = elim lies [ ]

    split_iter-Replies :
        (p : Pcre) (s : Place) → IsLive p it.ud → s.incr ≤ 1 → Replies s (split_iter l it s)
    unfolding split_iter
    split_iter-Replies p s live one = elim (Bool-cases (ltb (length it.subject) s.startoffset)) [
      | inl e ↦ rw e (yields (ltb→lt (length it.subject) s.startoffset e))
      | inr e ↦ rw e (
          split_found-Replies s _ (ltb_false→le (length it.subject) s.startoffset e) one
            (split_exec-LiesFrom p (s.startoffset + s.incr) live))
    ]

    and_then-IsSplit :
        (f : ℕ) (s : Place) (r : Place × Result (Option (Bytes × List Value)))
        → ((further : Place)
            → further.incr ≤ 1
            → left_over further < left_over s
            → Ends (IsSplit further) ⊥ (calls (split_iter l it) f further))
        → Replies s r
        → Ends (IsSplit s) ⊥ (and_then (calls (split_iter l it) f) r)
    and_then-IsSplit f s (further, ok none) ih (yields h) =
        yields (sym (drop_beyond s.startoffset it.subject (omega arith)))
    and_then-IsSplit f s (further, ok (some (piece, vs))) ih (yields (covers, one, less)) =
        Ends-bind (ih further one less)
          λ rest split. yields (ap (λ t. piece ++ (strings vs ++ t)) split ∙ covers)
    and_then-IsSplit f s (further, raised err) ih h = raises
    and_then-IsSplit f s (further, undefined) ih (undefines u) = absurd u
    and_then-IsSplit f s (further, out_of_fuel) ih h = elim h [ ]

    -- Called again and again, the iterator of split for the PCRE library comes to an end or raises an
    -- error, for an expression without subexpressions that was not released and matches as PCRE
    -- promises them: the pieces and the matches that it returns, one after the other, make up the
    -- subject from where it started.
    pub split_iter-IsPieces :
        (p : Pcre) (f : ℕ) (s : Place)
        → IsLive p it.ud
        → s.incr ≤ 1
        → left_over s < f
        → Ends (IsSplit s) ⊥ (calls (split_iter l it) f s)
    unfolding calls
    split_iter-IsPieces p zero s live one h = absurd (omega arith)
    split_iter-IsPieces p (suc f) s live one h =
        and_then-IsSplit f s (split_iter l it s)
          (λ further one less. split_iter-IsPieces p f further live one (omega arith))
          (split_iter-Replies p s live one)

    -- Where the search for the next piece finds the empty text at the end of the subject, and
    -- pcre_exec refuses a start behind the end, the loop over split raises the error of that refusal,
    -- for an expression without subexpressions that was not released.
    pub split_iter-raised :
        (f : ℕ) (s : Place) (m : Match) (errcode : ℕ)
        → it.ud.allocated ≡ true
        → s.startoffset ≤ length it.subject
        → split_exec it.ud it.subject it.eflags (s.startoffset + s.incr) ≡ ok (matched m)
        → m.rm_so ≡ m.rm_eo
        → m.rm_eo ≡ length it.subject
        → it.ud.pr.pcre_exec it.subject (length it.subject + 1) it.eflags ≡ failed errcode
        → calls (split_iter l it) (suc (suc f)) s ≡ raised (regex_error errcode)
    unfolding calls split_iter split_found
    split_iter-raised f s m errcode live h e same end refused =
        let inside : ltb (length it.subject) s.startoffset ≡ false =
          le→ltb_false (length it.subject) s.startoffset h in
        let whole : ltb 0 it.ud.ncapt ≡ false = le→ltb_false 0 it.ud.ncapt (omega arith) in
        let one : (m.rm_so == m.rm_eo) ≡ true = ground arith in
        let at_end : ltb (length it.subject) (0 + m.rm_eo) ≡ false =
          le→ltb_false (length it.subject) (0 + m.rm_eo) (omega arith) in
        let next : 0 + m.rm_eo + 1 ≡ length it.subject + 1 = omega arith in
        rw (inside, e, whole, one, at_end, next) (unfold split_exec in rw (live, refused))
