-- ===== src/Rex/Gsub/Trace.antt =====
-- The loop of gsub goes through its subject: it ends, and what it writes are the segments.
use lua_cmake_source.Base.{
  ℕ, zero, suc, ◌+◌, ◌≤◌, ◌<◌, Bool, true, false, List, [], ◌∷◌, ◌++◌, ltb, ltb→lt, if◌then◌else◌,
  Bool-cases, inl, inr, ◌≡◌, refl, arith, length, drop, between-drop, Bytes,
}
use lua_cmake_source.Rex.Buffer.{TBuffer, buffer_addlstring}
use lua_cmake_source.Rex.Engine.{
  Match, Exec, matched, no_match, failed, Posix, TPosix, Result, ok, gsub_exec,
}
use lua_cmake_source.Rex.Total.{
  Ends, yields, raises, Ends-bind, IsLive, FitsAt, Ends-value, gsub_exec-FitsAt,
}
use lua_cmake_source.Rex.Gsub.State.{Lua, RepType, State}
use lua_cmake_source.Rex.Gsub.Loop.{
  skipped, advance, round, gsub_loop, goes_on, repeat, found, p_buf,
}
use lua_cmake_source.Rex.Gsub.Segments.{
  Segment, IsFound, IsTrace, IsTrace-kept, IsTrace-match, of_match,
}
use lua_cmake_source.Rex.Gsub.Written.{Laws, replace-Writes}
use lua_cmake_source.Rex.Gsub.Covers.{Covers, gap}
use lua_cmake_source.Rex.Gsub.Settle.{settle-SettledAs}

module _ {W : Type 0} (l : Lua W) (subject : Bytes) (ud : TPosix) (U : Type 0)
    (Fits : Bytes → Match → Bytes → Type 0) (p : Posix) (eflags : ℕ) where
  abbrev pub F : Segment → Type 0
  F = IsFound p ud subject eflags Fits

  abbrev pub CoversAt : State W → Type 0
  CoversAt = Covers subject U F

  abbrev CoversOn : ℕ → State W × Bool → Type 0
  CoversOn st (s, more) = CoversAt s × (more ≡ true → st < s.st)

  abbrev AdvancedFrom : ℕ → ℕ → ℕ → ℕ × TBuffer × Bool → Type 0
  AdvancedFrom st n_match n_subst (to, out, more) =
      (segs : List Segment) × IsTrace F subject to out.written n_match n_subst segs
      × (to ≤ length subject)
      × (more ≡ true → st < to)

  advance-AdvancedFrom :
      (st to : ℕ) (out : TBuffer) (n_match n_subst : ℕ) (segs : List Segment)
      → st ≤ to
      → to ≤ length subject
      → IsTrace F subject to out.written n_match n_subst segs
      → AdvancedFrom st n_match n_subst (advance l subject ud.nsub st to out)
  unfolding advance buffer_addlstring
  advance-AdvancedFrom st to out n_match n_subst segs h k t = elim (Bool-cases (ltb st to)) [
    | inl e ↦ rw e (segs, t, k, λ _. ltb→lt st to e)
    | inr e ↦
        let same : to ≡ st = ground arith in
        let t : IsTrace F subject st out.written n_match n_subst segs = rw (← same) t in
        elim (Bool-cases (ltb st (length subject))) [
          | inl inner ↦
              let low = ltb→lt st (length subject) inner in
              rw (e, inner)
                (_, IsTrace-kept t (st + 1) (omega arith) (λ _. tt), omega arith, λ _. omega arith)
          | inr outer ↦ rw (e, outer) (segs, t, omega arith, cc)
        ]
  ]

  of_match-F :
      (st : ℕ) (m : Match) (by : Bytes) (curr_subst : Bool)
      → gsub_exec p ud subject eflags st ≡ ok (matched m)
      → Fits (drop st subject) m by
      → F (of_match curr_subst st m by)
  of_match-F st m by true e fits = (e, fits)
  of_match-F st m by false e fits = e

  module _ (rep : RepType) (buf_rep : TBuffer) (laws : Laws U rep buf_rep Fits) where
    round-CoversOn :
        (s : State W) (m : Match)
        → CoversAt s
        → FitsAt subject s.st (matched m)
        → gsub_exec p ud subject eflags s.st ≡ ok (matched m)
        → Ends (CoversOn s.st) U (round l subject ud.nsub rep buf_rep s m)
    unfolding round
    round-CoversOn s m c fits e =
        let from = s.st + m.rm_so in
        let to = s.st + m.rm_eo in
        let out = skipped l subject ud.nsub s.buf_out s.st from in
        let (before, t) =
          gap subject U F (λ _. tt) l ud.nsub s.st from s.buf_out s.n_match s.n_subst c.segs
            (omega arith) c.trace in
        Ends-bind
          (replace-Writes l ud.nsub U buf_rep Fits rep (p_buf l subject ud.nsub s out) s.world
            (drop s.st subject) m laws)
          λ r w.
            Ends-bind
              (settle-SettledAs l subject ud.nsub U Fits s.st m
                (λ u. laws.asked u (drop s.st subject) m) rep s out r c.cleared c.asks
                (rw (← between-drop subject s.st m.rm_so m.rm_eo) w))
              λ d (wr, cleared, asks).
                let matched_to =
                  IsTrace-match t s.st m wr.by d.curr_subst refl fits.0 wr.same
                    (of_match-F s.st m wr.by d.curr_subst e wr.fits) in
                let (segs, trace, inside, on) =
                  advance-AdvancedFrom s.st to d.out (s.n_match + 1)
                    (s.n_subst + (if d.curr_subst then 1 else 0))
                    (before ++ of_match d.curr_subst s.st m wr.by ∷ []) (omega arith) fits.1
                    (rw wr.added matched_to) in
                yields (
                  record {
                    segs = segs;
                    trace = trace;
                    inside = inside;
                    cleared = cleared;
                    asks = asks;
                  },
                  on,
                )

    module _ (next : State W → Result (State W)) (st : ℕ)
        (ih : (s : State W) → st < s.st → CoversAt s → Ends CoversAt U (next s)) where
      repeat-Covers :
          (r : State W × Bool)
          → CoversOn st r
          → Ends CoversAt U (repeat l subject ud p eflags rep buf_rep next r)
      repeat-Covers (s, true) (c, on) = ih s (on refl) c
      repeat-Covers (s, false) (c, on) = yields c

      found-Covers :
          (s : State W) (e : Exec)
          → s.st ≡ st
          → CoversAt s
          → FitsAt subject s.st e × (gsub_exec p ud subject eflags s.st ≡ ok e)
          → Ends CoversAt U (found l subject ud p eflags rep buf_rep next s e)
      found-Covers s no_match at c fits = yields c
      found-Covers s (failed errcode) at c fits = raises
      found-Covers s (matched m) at c fits =
          Ends-bind (round-CoversOn s m c fits.0 fits.1)
            λ r on. repeat-Covers r (on.0, λ more. rw (← at) (on.1 more))

    pub gsub_loop-Covers :
        (f : ℕ) (s : State W)
        → IsLive ud
        → length subject < f + s.st
        → CoversAt s
        → Ends CoversAt U (gsub_loop l subject ud p eflags rep buf_rep f s)
    unfolding gsub_loop
    gsub_loop-Covers zero s live h c = absurd (omega (arith, c.inside))
    gsub_loop-Covers (suc f) s live h c = elim (Bool-cases (goes_on l subject ud.nsub s)) [
      | inl e ↦
          rw (gsub_loop, e)
            (Ends-bind (Ends-value (gsub_exec-FitsAt p ud subject eflags s.st live c.inside))
              λ found fits.
                found-Covers (gsub_loop l subject ud p eflags rep buf_rep f) s.st
                  (λ s' on c'. gsub_loop-Covers f s' live (omega arith) c') s found refl c fits)
      | inr e ↦ rw (gsub_loop, e) (yields c)
    ]
