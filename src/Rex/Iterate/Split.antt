-- ===== src/Rex/Iterate/Split.antt =====
-- The calls of the iterator of split: the pieces and the matches between them make up the subject.
use lua_cmake_source.Base.{
  ℕ, zero, suc, ◌+◌, ◌≤◌, ◌<◌, true, false, List, ◌++◌, Option, none, some, ltb, le→ltb_false, ◌==◌,
  ◌≡◌, sym, ap, ◌∙◌, arith, length, drop, drop_beyond, Bytes,
}
use lua_cmake_source.LuaValue.{Value}
use lua_cmake_source.Rex.Engine.{
  Match, matched, Posix, Result, ok, raised, undefined, out_of_fuel, split_exec,
}
use lua_cmake_source.Rex.Total.{Ends, yields, raises, undefines, Ends-bind, IsLive}
use lua_cmake_source.Rex.Gsub.State.{Lua}
use lua_cmake_source.Rex.Iterate.{Iteration, Place, split_found, split_iter, calls, and_then}
use lua_cmake_source.Rex.Iterate.Steps.{
  joined, strings, EmptyAt, IsPlace, left_over, Replies, split_iter-Replies, beyond-undefined,
}

module _ {W : Type 0} (p : Posix) (l : Lua W) (it : Iteration) where
  module _ (plain : it.ud.nsub ≡ 0) where
    abbrev pub IsSplit : Place → List (Bytes × List Value) → Type 0
    IsSplit s all = joined all ≡ drop s.startoffset it.subject

    and_then-IsSplit :
        (f : ℕ) (s : Place) (r : Place × Result (Option (Bytes × List Value)))
        → ((further : Place)
            → IsPlace p l it further
            → left_over p l it further < left_over p l it s
            → Ends
                (IsSplit further)
                (EmptyAt p l it (length it.subject))
                (calls (split_iter p l it) f further))
        → Replies p l it s r
        → Ends
            (IsSplit s)
            (EmptyAt p l it (length it.subject))
            (and_then (calls (split_iter p l it) f) r)
    and_then-IsSplit f s (further, ok none) ih (yields h) =
        yields (sym (drop_beyond s.startoffset it.subject (omega arith)))
    and_then-IsSplit f s (further, ok (some (piece, vs))) ih (yields (covers, place, less)) =
        Ends-bind (ih further place less)
          λ rest split. yields (ap (λ t. piece ++ (strings vs ++ t)) split ∙ covers)
    and_then-IsSplit f s (further, raised err) ih h = raises
    and_then-IsSplit f s (further, undefined) ih (undefines u) = undefines u
    and_then-IsSplit f s (further, out_of_fuel) ih h = elim h [ ]

    -- Called again and again, the iterator of split comes to an end or raises an error, for an
    -- expression without subexpressions whose matches can be read: the pieces and the matches that it
    -- returns, one after the other, make up the subject from where it started. It is undefined only
    -- where the expression matches the empty text at the end of the subject.
    pub split_iter-IsSplit :
        (f : ℕ) (s : Place)
        → IsLive it.ud
        → IsPlace p l it s
        → left_over p l it s < f
        → Ends (IsSplit s) (EmptyAt p l it (length it.subject)) (calls (split_iter p l it) f s)
    unfolding calls
    split_iter-IsSplit zero s live place h = absurd (omega arith)
    split_iter-IsSplit (suc f) s live place h =
        and_then-IsSplit f s (split_iter p l it s)
          (λ further place less. split_iter-IsSplit f further live place (omega arith))
          (split_iter-Replies p l it plain s live place)

    -- Where the search for the next piece finds the empty text at the end of the subject, the loop
    -- over split goes on to search behind the end, outside the subject.
    pub split_iter-undefined :
        (f : ℕ) (s : Place) (m : Match)
        → IsLive it.ud
        → s.startoffset ≤ length it.subject
        → split_exec p it.ud it.subject it.eflags (s.startoffset + s.incr) ≡ ok (matched m)
        → m.rm_so ≡ m.rm_eo
        → s.startoffset + s.incr + m.rm_eo ≡ length it.subject
        → calls (split_iter p l it) (suc (suc f)) s ≡ undefined
    unfolding calls split_iter split_found
    split_iter-undefined f s m live h e same end =
        let inside : ltb (length it.subject) s.startoffset ≡ false =
          le→ltb_false (length it.subject) s.startoffset h in
        let whole : ltb 0 it.ud.nsub ≡ false = le→ltb_false 0 it.ud.nsub (omega arith) in
        let one : (m.rm_so == m.rm_eo) ≡ true = ground arith in
        let at_end : ltb (length it.subject) (length it.subject) ≡ false =
          le→ltb_false (length it.subject) (length it.subject) (omega arith) in
        rw (
          inside,
          e,
          whole,
          one,
          end,
          at_end,
          beyond-undefined p l it plain (length it.subject + 1) live (omega arith),
        )
