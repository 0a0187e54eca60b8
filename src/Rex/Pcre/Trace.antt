-- ===== src/Rex/Pcre/Trace.antt =====
-- The loop of gsub for the PCRE library goes through its subject: it ends, and what it writes are
-- the segments.
use lua_cmake_source.Base.{
  ℕ, zero, suc, ◌+◌, ◌*◌, ◌-◌, ◌≤◌, ◌<◌, Bool, true, false, ◌&&◌, [], ◌∷◌, ◌++◌, ltb, ltb→lt,
  if◌then◌else◌, Bool-cases, inl, inr, ◌≡◌, refl, arith, length, between, &&-eq-true, Bytes,
}
use lua_cmake_source.Rex.Buffer.{TBuffer, buffer_addlstring}
use lua_cmake_source.Rex.Engine.{Match, Exec, matched, no_match, failed, Result, ok}
use lua_cmake_source.Rex.Total.{Ends, yields, raises, Ends-bind, Ends-if, Ends-value}
use lua_cmake_source.Rex.Gsub.State.{Lua, RepType, State}
use lua_cmake_source.Rex.Gsub.Loop.{skipped, goes_on, p_buf}
use lua_cmake_source.Rex.Gsub.Segments.{
  Segment, IsTrace-kept, IsTrace-match, kept, replaced, left, of_match, matched_text,
}
use lua_cmake_source.Rex.Gsub.Written.{Laws, replace-Writes}
use lua_cmake_source.Rex.Gsub.Covers.{Covers, gap}
use lua_cmake_source.Rex.Gsub.Settle.{settle-SettledAs}
use lua_cmake_source.Rex.Pcre.Engine.{Pcre, TPcre, gsub_exec, IsPcreExec, retry_flags}
use lua_cmake_source.Rex.Pcre.Gsub.{Round, advance, round, advance_by_1, repeat, found, gsub_loop}

-- Each match is one that pcre_exec has found, and `Fits` holds of what replaces it.
abbrev pub IsFound : Pcre → TPcre → Bytes → ℕ → (Bytes → Match → Bytes → Type 0) → Segment → Type 0
IsFound p ud text eflags Fits (kept s) = Unit
IsFound p ud text eflags Fits (left base m) =
    (base ≡ 0) × (st : ℕ) × (retry : Bool) × (gsub_exec p ud text eflags st retry ≡ ok (matched m))
IsFound p ud text eflags Fits (replaced base m by) =
    (base ≡ 0)
    × ((st : ℕ) × (retry : Bool) × (gsub_exec p ud text eflags st retry ≡ ok (matched m)))
    × Fits text m by

-- An expression whose memory was not released, with matches as PCRE promises them.
pub record IsLive (p : Pcre) (ud : TPcre) : Type 0 where
  pub allocated : ud.allocated ≡ true
  pub engine : IsPcreExec p ud.pr

-- Where a match lies that was searched for from a position, and that it is not empty with `retry`.
abbrev pub FitsFrom : Bytes → ℕ → Bool → Exec → Type 0
FitsFrom text st retry (matched m) =
    (st ≤ m.rm_so)
    × (m.rm_so ≤ m.rm_eo)
    × (m.rm_eo ≤ length text)
    × (retry ≡ true → m.rm_so < m.rm_eo)
FitsFrom text st retry no_match = Unit
FitsFrom text st retry (failed _) = Unit

pub exec-FitsFrom :
    {U : Type 0} (p : Pcre) (ud : TPcre) (text : Bytes) (eflags st : ℕ) (retry : Bool)
    → IsLive p ud
    → Ends (FitsFrom text st retry) U (gsub_exec p ud text eflags st retry)
unfolding gsub_exec
exec-FitsFrom {U} p ud text eflags st retry live = rw live.allocated (yields (fits retry _ refl))
  where
    fits :
        (retry : Bool) (e : Exec)
        → ud.pr.pcre_exec text st (if retry then retry_flags p eflags else eflags) ≡ e
        → FitsFrom text st retry e
    fits retry no_match run = tt
    fits retry (failed _) run = tt
    fits true (matched m) run =
        let (low, ordered, high) = live.engine.found text st _ m run in
        (low, ordered, high, λ _. live.engine.some_bytes text st eflags m run)
    fits false (matched m) run =
        let (low, ordered, high) = live.engine.found text st _ m run in (low, ordered, high, cc)

module _ {W : Type 0} (l : Lua W) (subject : Bytes) (ud : TPcre) (U : Type 0)
    (Fits : Bytes → Match → Bytes → Type 0) (p : Pcre) (eflags : ℕ) where
  abbrev pub F : Segment → Type 0
  F = IsFound p ud subject eflags Fits

  abbrev pub CoversAt : State W → Type 0
  CoversAt = Covers subject U F

  abbrev pub remaining : ℕ → Bool → ℕ
  remaining st retry = 2 * (length subject + 1 - st) - (if retry then 1 else 0)

  abbrev CoversOn : ℕ → Round W → Type 0
  CoversOn n (s, retry, more) = CoversAt s × (more ≡ true → remaining s.st retry < n)

  abbrev AdvancedFrom : ℕ → ℕ → ℕ × Bool × Bool → Type 0
  AdvancedFrom n to (st, retry, more) = (st ≡ to) × (more ≡ true → remaining st retry < n)

  advance-AdvancedFrom :
      (before st to : ℕ) (retry : Bool)
      → before ≤ st
      → st ≤ to
      → to ≤ length subject
      → (retry ≡ true → st < to)
      → AdvancedFrom (remaining before retry) to (advance l subject ud st to)
  unfolding advance
  advance-AdvancedFrom before st to retry h k high on = elim (Bool-cases (ltb st to)) [
    | inl e ↦ let further = ltb→lt st to e in rw e (refl, λ _. ground arith)
    | inr e ↦
        let same : st ≡ to = ground arith in
        let fresh : retry ≡ false = first_time same on in
        elim (Bool-cases (ltb st (length subject))) [
          | inl inner ↦ rw (e, inner, fresh) (same, λ _. omega arith)
          | inr outer ↦ rw (e, outer) (same, cc)
        ]
  ]
    where
      first_time : st ≡ to → (retry ≡ true → st < to) → retry ≡ false
      first_time same on = elim (Bool-cases retry) [
        | inl e ↦ let further = on e in absurd (omega arith)
        | inr e ↦ e
      ]

  of_match-F :
      (st : ℕ) (retry : Bool) (m : Match) (by : Bytes) (curr_subst : Bool)
      → gsub_exec p ud subject eflags st retry ≡ ok (matched m)
      → Fits subject m by
      → F (of_match curr_subst 0 m by)
  of_match-F st retry m by true e fits = (refl, (st, retry, e), fits)
  of_match-F st retry m by false e fits = (refl, st, retry, e)

  module _ (rep : RepType) (buf_rep : TBuffer) (laws : Laws U rep buf_rep Fits) where
    none_before : (k : ℕ) → 0 + k ≡ k
    none_before k = omega arith

    matched_text_0 : (m : Match) → matched_text subject 0 m ≡ between subject m.rm_so m.rm_eo
    matched_text_0 m = rw (none_before m.rm_so, none_before m.rm_eo)

    one_less :
        (s : State W) (retry : Bool) {n : ℕ}
        → retry ≡ true
        → s.st < length subject
        → remaining s.st retry ≡ n
        → remaining (advance_by_1 l subject ud s).st false < n
    unfolding advance_by_1
    one_less s retry again low at = ground arith

    round-CoversOn :
        (s : State W) (retry : Bool) (m : Match)
        → CoversAt s
        → FitsFrom subject s.st retry (matched m)
        → gsub_exec p ud subject eflags s.st retry ≡ ok (matched m)
        → Ends (CoversOn (remaining s.st retry)) U (round l subject ud rep buf_rep s m)
    unfolding round
    round-CoversOn s retry m c (low, ordered, high, some_bytes) e =
        let from = 0 + m.rm_so in
        let to = 0 + m.rm_eo in
        let out = skipped l subject ud.ncapt s.buf_out s.st from in
        let st = if ltb s.st from then from else s.st in
        let pulled : st ≡ m.rm_so = ground arith in
        let (before, t) =
          gap subject U F (λ _. tt) l ud.ncapt s.st from s.buf_out s.n_match s.n_subst c.segs
            (omega arith) c.trace in
        Ends-bind
          (replace-Writes l ud.ncapt U buf_rep Fits rep (p_buf l subject ud.ncapt s out) s.world
            subject m laws)
          λ r w.
            Ends-bind
              (settle-SettledAs l subject ud.ncapt U Fits 0 m (λ u. laws.asked u subject m) rep s
                out r c.cleared c.asks (rw (← matched_text_0 m) at w))
              λ d (wr, cleared, asks).
                let matched_to =
                  IsTrace-match t 0 m wr.by d.curr_subst refl ordered wr.same
                    (of_match-F s.st retry m wr.by d.curr_subst e wr.fits) in
                let (same, less) =
                  advance-AdvancedFrom s.st st to retry (omega arith) (omega arith) (omega arith)
                    (λ again. let bytes = some_bytes again in omega arith) in
                yields (
                  record {
                    segs = before ++ of_match d.curr_subst 0 m wr.by ∷ [];
                    trace = rw (same, wr.added) matched_to;
                    inside = rw same (omega arith);
                    cleared = cleared;
                    asks = asks;
                  },
                  less,
                )

    advance_by_1-Covers :
        (s : State W) → CoversAt s → s.st < length subject → CoversAt (advance_by_1 l subject ud s)
    unfolding advance_by_1 buffer_addlstring
    advance_by_1-Covers s c h = record {
      segs = c.segs ++ kept (between subject s.st (s.st + 1)) ∷ [];
      trace = IsTrace-kept c.trace (s.st + 1) (omega arith) (λ _. tt);
      inside = omega arith;
      cleared = c.cleared;
      asks = c.asks;
    }

    module _ (next : State W → Bool → Result (State W)) (n : ℕ)
        (ih : (s : State W) (retry : Bool)
          → remaining s.st retry < n
          → CoversAt s
          → Ends CoversAt U (next s retry)) where
      repeat-Covers :
          (r : Round W)
          → CoversOn n r
          → Ends CoversAt U (repeat l subject ud p eflags rep buf_rep next r)
      repeat-Covers (s, retry, true) (c, on) = ih s retry (on refl) c
      repeat-Covers (s, retry, false) (c, on) = yields c

      found-Covers :
          (s : State W) (retry : Bool) (e : Exec)
          → remaining s.st retry ≡ n
          → CoversAt s
          → FitsFrom subject s.st retry e × (gsub_exec p ud subject eflags s.st retry ≡ ok e)
          → Ends CoversAt U (found l subject ud p eflags rep buf_rep next s retry e)
      found-Covers s retry no_match at c fits =
          Ends-if (retry && ltb s.st (length subject))
            (λ e.
              let (again, inner) = &&-eq-true retry _ e in
              let low = ltb→lt s.st (length subject) inner in
              ih (advance_by_1 l subject ud s) false (one_less s retry again low at)
                (advance_by_1-Covers s c low))
            (λ _. yields c)
      found-Covers s retry (failed errcode) at c fits = raises
      found-Covers s retry (matched m) at c fits =
          Ends-bind (round-CoversOn s retry m c fits.0 fits.1)
            λ r on. repeat-Covers r (on.0, λ more. rw (← at) (on.1 more))

    pub gsub_loop-Covers :
        (f : ℕ) (s : State W) (retry : Bool)
        → IsLive p ud
        → remaining s.st retry < f
        → CoversAt s
        → Ends CoversAt U (gsub_loop l subject ud p eflags rep buf_rep f s retry)
    unfolding gsub_loop
    gsub_loop-Covers zero s retry live h c = absurd (omega arith)
    gsub_loop-Covers (suc f) s retry live h c = elim (Bool-cases (goes_on l subject ud.ncapt s)) [
      | inl e ↦
          rw (gsub_loop, e)
            (Ends-bind (Ends-value (exec-FitsFrom p ud subject eflags s.st retry live))
              λ found fits.
                found-Covers (gsub_loop l subject ud p eflags rep buf_rep f) (remaining s.st retry)
                  (λ s' retry' on c'. gsub_loop-Covers f s' retry' live (omega arith) c') s retry
                  found refl c fits)
      | inr e ↦ rw (gsub_loop, e) (yields c)
    ]
