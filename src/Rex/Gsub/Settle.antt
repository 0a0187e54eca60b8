-- ===== src/Rex/Gsub/Settle.antt =====
-- What a round of gsub has settled for a match.
use lua_cmake_source.Base.{ℕ, ◌+◌, [], if◌then◌else◌, ◌≡◌, refl, drop, Bytes}
use lua_cmake_source.Rex.Buffer.{TBuffer, buffer_clear}
use lua_cmake_source.Rex.Engine.{Match, ok}
use lua_cmake_source.Rex.Total.{Ends, yields, raises, Ends-bind}
use lua_cmake_source.Rex.Gsub.State.{
  Called, returned, threw, Lua, RepType, MaxMatch, unlimited, conditional, at_most, State, Replaced,
  is_conditional,
}
use lua_cmake_source.Rex.Gsub.Loop.{Settled, answered, confirm, settle, p_buf}
use lua_cmake_source.Rex.Gsub.Segments.{matched_text}
use lua_cmake_source.Rex.Gsub.Written.{Writes, Cleared, Asks, new_limit-Ends, first_answer-Writes}

module _ {W : Type 0} (l : Lua W) (subject : Bytes) (nsub : ℕ) (U : Type 0)
    (Fits : Bytes → Match → Bytes → Type 0) where
  abbrev pub SettledAs : TBuffer → ℕ → Match → Settled l subject nsub → Type 0
  SettledAs out st m d =
      Writes out d.out (matched_text subject st m) d.curr_subst (Fits (drop st subject) m)
      × Cleared d.maxmatch d.temp
      × Asks U d.maxmatch

  module _ (st : ℕ) (m : Match) (asked : U → (by : Bytes) → Fits (drop st subject) m by) where
    abbrev pub WritesMatch : TBuffer → Replaced W → Type 0
    WritesMatch before r =
        Writes before r.buffer (matched_text subject st m) r.curr_subst (Fits (drop st subject) m)

    answered-SettledAs :
        (out before : TBuffer) (n_match : ℕ) (r : Replaced W) (w : W × Called)
        → U
        → before.written ≡ []
        → WritesMatch before r
        → Ends
            (SettledAs out st m)
            U
            (answered l subject nsub out n_match (matched_text subject st m) r w)
    unfolding answered buffer_clear
    answered-SettledAs out before n_match r (w, threw e) u empty wr = raises
    answered-SettledAs out before n_match r (w, returned first second) u empty wr =
        let written : r.buffer.written ≡ wr.by = simp (wr.added, empty) in
        let writes =
          first_answer-Writes l nsub U out r.buffer (matched_text subject st m) wr.by r.curr_subst
            first written wr.same (asked u) in
        Ends-bind (new_limit-Ends l nsub U u n_match second) (elim [
          | unlimited ↦ λ _. yields (writes, tt, tt)
          | conditional ↦ λ _. yields (writes, refl, u)
          | at_most n ↦ λ _. yields (writes, tt, tt)
        ])

    pub settle-SettledAs :
        (rep : RepType) (s : State W) (out : TBuffer) (r : Replaced W)
        → Cleared s.maxmatch s.buf_temp
        → Asks U s.maxmatch
        → WritesMatch (p_buf l subject nsub s out) r
        → Ends
            (SettledAs out st m)
            U
            (settle l subject nsub rep s out (st + m.rm_so) (st + m.rm_eo) r)
    unfolding settle confirm
    settle-SettledAs rep s out r cleared asks wr = by_limit s.maxmatch cleared asks wr
      where
        by_limit :
            (max : MaxMatch)
            → Cleared max s.buf_temp
            → Asks U max
            → WritesMatch (if is_conditional max then s.buf_temp else out) r
            → Ends (SettledAs out st m) U (
                if is_conditional max
                then confirm l subject nsub rep out (s.n_match + 1) (st + m.rm_so) (st + m.rm_eo) r
                else ok (record {
                  world = r.world;
                  out = r.buffer;
                  temp = s.buf_temp;
                  curr_subst = r.curr_subst;
                  maxmatch = max;
                }))
        by_limit unlimited cleared asks wr = yields (wr, tt, tt)
        by_limit (at_most n) cleared asks wr = yields (wr, tt, tt)
        by_limit conditional cleared asks wr =
            answered-SettledAs out s.buf_temp (s.n_match + 1) r _ asks cleared wr
