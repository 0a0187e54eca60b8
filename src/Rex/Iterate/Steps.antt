-- ===== src/Rex/Iterate/Steps.antt =====
-- One call of the iterator of split: the piece, what is returned behind it and the place for the next.
use lua_cmake_source.Base.{
  ℕ, ◌+◌, ◌-◌, ◌*◌, ◌≤◌, ◌<◌, false, List, [], ◌∷◌, ◌++◌, append-nil, Option, none, some, ltb, leb,
  le→ltb_false, lt→ltb, ◌==◌, Bool-cases, inl, inr, ◌⊎◌, ◌≡◌, refl, arith, length, drop, between,
  between-append-drop, between-drop, between_to_end, drop_beyond, Bytes,
}
use lua_cmake_source.LuaValue.{Value, str}
use lua_cmake_source.Rex.Engine.{
  Match, Exec, matched, no_match, failed, Posix, Result, ok, raised, undefined, out_of_fuel,
  split_exec, later_flags, regexec_at,
}
use lua_cmake_source.Rex.Total.{Ends, yields, raises, undefines, IsLive, FitsAt, regexec_at-FitsAt}
use lua_cmake_source.Rex.Gsub.State.{Lua}
use lua_cmake_source.Rex.Iterate.{Iteration, Place, step, split_found, split_iter, after}

abbrev pub strings : List Value → Bytes
strings [] = []
strings (str s ∷ vs) = s ++ strings vs
strings (_ ∷ vs) = strings vs

-- The pieces, each with what was returned behind it.
abbrev pub joined : List (Bytes × List Value) → Bytes
joined [] = []
joined ((piece, vs) ∷ rest) = piece ++ (strings vs ++ joined rest)

module _ {W : Type 0} (p : Posix) (l : Lua W) (it : Iteration) where
  -- A match of no bytes that ends at a position.
  abbrev pub EmptyAt : ℕ → Type 0
  EmptyAt e =
      (st : ℕ) × (m : Match) × (split_exec p it.ud it.subject it.eflags st ≡ ok (matched m))
      × (m.rm_so ≡ m.rm_eo)
      × (st + m.rm_eo ≡ e)

  -- Behind the last piece, or in the subject, where a step is taken behind an empty match alone.
  pub data IsPlace (s : Place) : Type 0 where
    ended : length it.subject < s.startoffset → IsPlace s
    inside :
        s.startoffset ≤ length it.subject
        → (s.incr ≡ 0) ⊎ (s.incr ≡ 1) × EmptyAt s.startoffset
        → IsPlace s

  abbrev pub left_over : Place → ℕ
  left_over s = 2 * (length it.subject + 1 - s.startoffset) - s.incr

  abbrev pub ReplyAt : Place → Place → Option (Bytes × List Value) → Type 0
  ReplyAt s further none = length it.subject < s.startoffset
  ReplyAt s further (some (piece, vs)) =
      (piece ++ (strings vs ++ drop further.startoffset it.subject) ≡ drop s.startoffset it.subject)
      × IsPlace further
      × (left_over further < left_over s)

  abbrev pub Replies : Place → Place × Result (Option (Bytes × List Value)) → Type 0
  Replies s (further, r) = Ends (ReplyAt s further) (EmptyAt (length it.subject)) r

  module _ (plain : it.ud.nsub ≡ 0) where
    -- The text before a match, the match, and the rest.
    match_joined :
        (start newoffset : ℕ) (m : Match)
        → start ≤ newoffset
        → m.rm_so ≤ m.rm_eo
        → between it.subject start (m.rm_so + newoffset)
            ++ (between (drop newoffset it.subject) m.rm_so m.rm_eo
                ++ []
                ++ drop (newoffset + m.rm_eo) it.subject)
          ≡ drop start it.subject
    match_joined start newoffset m h k =
        let swap : m.rm_so + newoffset ≡ newoffset + m.rm_so = omega arith in
        rw
          (
            swap,
            append-nil (between (drop newoffset it.subject) m.rm_so m.rm_eo),
            between-drop it.subject newoffset m.rm_so m.rm_eo,
            between-append-drop it.subject (newoffset + m.rm_so) (newoffset + m.rm_eo)
                (omega arith),
          )
          (between-append-drop it.subject start (newoffset + m.rm_so) (omega arith))

    step-IsPlace :
        (newoffset : ℕ) (m : Match)
        → split_exec p it.ud it.subject it.eflags newoffset ≡ ok (matched m)
        → FitsAt it.subject newoffset (matched m)
        → IsPlace (record { startoffset = newoffset + m.rm_eo; incr = step m })
    step-IsPlace newoffset m e fits = elim (Bool-cases (m.rm_so == m.rm_eo)) [
      | inl same ↦ inside fits.1 (inr (ground arith, (newoffset, m, e, ground arith, refl)))
      | inr other ↦ inside fits.1 (inl (ground arith))
    ]

    left_over_falls :
        (start incr : ℕ) (m : Match)
        → start ≤ length it.subject
        → incr ≤ 1
        → FitsAt it.subject (start + incr) (matched m)
        → 2 * (length it.subject + 1 - (start + incr + m.rm_eo)) - step m
          < 2 * (length it.subject + 1 - start) - incr
    left_over_falls start incr m h one fits = ground arith

    split_found-Replies :
        (s : Place) (r : Result Exec)
        → split_exec p it.ud it.subject it.eflags (s.startoffset + s.incr) ≡ r
        → s.startoffset ≤ length it.subject
        → s.incr ≤ 1
        → Ends (FitsAt it.subject (s.startoffset + s.incr)) (EmptyAt (length it.subject)) r
        → Replies s (after s r (split_found p l it s))
    unfolding split_found
    split_found-Replies s (ok no_match) e h one fits = yields (
      rw
          (
            drop_beyond (length it.subject + 1) it.subject (omega arith),
            append-nil (between it.subject s.startoffset (length it.subject)),
          )
          (between_to_end it.subject s.startoffset (length it.subject) h (omega arith)),
      ended (omega arith),
      omega arith,
    )
    split_found-Replies s (ok (failed errcode)) e h one fits = raises
    split_found-Replies s (ok (matched m)) e h one (yields fits) =
        let whole : ltb 0 it.ud.nsub ≡ false = le→ltb_false 0 it.ud.nsub (omega arith) in
        rw whole (
          yields (
            match_joined s.startoffset (s.startoffset + s.incr) m (omega arith) fits.0,
            step-IsPlace (s.startoffset + s.incr) m e fits,
            left_over_falls s.startoffset s.incr m h one fits,
          ))
    split_found-Replies s (raised err) e h one fits = raises
    split_found-Replies s undefined e h one (undefines u) = undefines u
    split_found-Replies s out_of_fuel e h one fits = elim fits [ ]

    -- A search behind the end of the subject.
    pub beyond-undefined :
        (offset : ℕ)
        → IsLive it.ud
        → length it.subject < offset
        → split_exec p it.ud it.subject it.eflags offset ≡ undefined
    unfolding split_exec regexec_at
    beyond-undefined offset live h =
        let outside : leb offset (length it.subject) ≡ false = ground arith in
        rw (live.not_freed, outside)

    end_was_empty :
        (s : Place)
        → s.startoffset ≤ length it.subject
        → (s.incr ≡ 0) ⊎ (s.incr ≡ 1) × EmptyAt s.startoffset
        → length it.subject < s.startoffset + s.incr
        → EmptyAt (length it.subject)
    end_was_empty s h (inl none_left) beyond = absurd (omega arith)
    end_was_empty s h (inr (one, empty)) beyond =
        let same : s.startoffset ≡ length it.subject = omega arith in rw (← same) empty

    split_exec-Ends :
        (s : Place)
        → IsLive it.ud
        → s.startoffset ≤ length it.subject
        → (s.incr ≡ 0) ⊎ (s.incr ≡ 1) × EmptyAt s.startoffset
        → Ends
            (FitsAt it.subject (s.startoffset + s.incr))
            (EmptyAt (length it.subject))
            (split_exec p it.ud it.subject it.eflags (s.startoffset + s.incr))
    unfolding split_exec
    split_exec-Ends s live h k =
        elim (Bool-cases (leb (s.startoffset + s.incr) (length it.subject))) [
          | inl e ↦
              regexec_at-FitsAt it.ud it.subject (s.startoffset + s.incr)
                (later_flags p it.eflags (s.startoffset + s.incr)) live (ground arith)
          | inr e ↦
              rw (beyond-undefined (s.startoffset + s.incr) live (ground arith))
                (undefines (end_was_empty s h k (ground arith)))
        ]

    pub split_iter-Replies :
        (s : Place) → IsLive it.ud → IsPlace s → Replies s (split_iter p l it s)
    unfolding split_iter
    split_iter-Replies s live (ended h) = rw (lt→ltb (length it.subject) s.startoffset h) (yields h)
    split_iter-Replies s live (inside h k) =
        rw (le→ltb_false (length it.subject) s.startoffset h)
          (split_found-Replies s _ refl h (at_most_one k) (split_exec-Ends s live h k))
      where
        at_most_one : (s.incr ≡ 0) ⊎ (s.incr ≡ 1) × EmptyAt s.startoffset → s.incr ≤ 1
        at_most_one (inl none_left) = omega arith
        at_most_one (inr (one, _)) = omega arith
