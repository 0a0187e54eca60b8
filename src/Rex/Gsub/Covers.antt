-- ===== src/Rex/Gsub/Covers.antt =====
-- What the loop of gsub keeps true, whatever library finds the matches: `F` holds of each segment.
use lua_cmake_source.Base.{
  All, ℕ, ◌≤◌, List, [], ◌∷◌, ◌++◌, ltb, Bool-cases, inl, inr, ◌≡◌, arith, length, take,
  take-append, append-nil, sym, ap, ◌∙◌, between, Bytes,
}
use lua_cmake_source.Rex.Buffer.{TBuffer, buffer_init, buffer_addlstring}
use lua_cmake_source.Rex.Gsub.State.{Lua, MaxMatch, State}
use lua_cmake_source.Rex.Gsub.Loop.{skipped, start}
use lua_cmake_source.Rex.Gsub.Segments.{
  Segment, IsTrace, IsTrace-kept, IsTrace-nil, kept, original, result, matches, substitutions,
}
use lua_cmake_source.Rex.Gsub.Written.{Cleared, Asks}

-- The new text and the two numbers are those of segments that make up the subject.
abbrev pub IsGsubBy : {W : Type 0} → (Segment → Type 0) → Bytes → W × Bytes × ℕ × ℕ → Type 0
IsGsubBy F subject (w, new, n_match, n_subst) =
    (segs : List Segment) × (original subject segs ≡ subject)
    × (result subject segs ≡ new)
    × (matches segs ≡ n_match)
    × (substitutions segs ≡ n_subst)
    × All F segs

take-length : (s : Bytes) → take (length s) s ≡ s
take-length s = ap (take (length s)) (sym (append-nil s)) ∙ take-append s []

module _ {W : Type 0} (subject : Bytes) (U : Type 0) (F : Segment → Type 0) where
  -- The loop may go on from here: the text up to `st` is covered by segments.
  pub record Covers (s : State W) : Type 0 where
    pub segs : List Segment
    pub trace : IsTrace F subject s.st s.buf_out.written s.n_match s.n_subst segs
    pub inside : s.st ≤ length subject
    pub cleared : Cleared s.maxmatch s.buf_temp
    pub asks : Asks U s.maxmatch

  pub start-Covers :
      (w : W) (max : MaxMatch) → Cleared max (buffer_init 1024) → Asks U max → Covers (start w max)
  unfolding buffer_init
  start-Covers w max cleared asks = record {
    segs = [];
    trace = IsTrace-nil subject;
    inside = omega arith;
    cleared = cleared;
    asks = asks;
  }

  module _ (kept_found : (s : Bytes) → F (kept s)) where
    -- The text behind the last match.
    pub Covers-IsGsubBy :
        (s : State W)
        → Covers s
        → IsGsubBy F subject (
          s.world,
          (buffer_addlstring s.buf_out (between subject s.st (length subject))).written,
          s.n_match,
          s.n_subst,
        )
    unfolding buffer_addlstring
    Covers-IsGsubBy s c =
        let t = IsTrace-kept c.trace (length subject) c.inside kept_found in
        (
          c.segs ++ kept (between subject s.st (length subject)) ∷ [],
          t.covers ∙ take-length subject,
          t.writes,
          t.counts,
          t.substitutes,
          t.found,
        )

    -- The text before the match.
    pub gap :
        (l : Lua W) (nsub st from : ℕ) (out : TBuffer) (n_match n_subst : ℕ) (segs : List Segment)
        → st ≤ from
        → IsTrace F subject st out.written n_match n_subst segs
        → (after : List Segment) × IsTrace F subject from
            (skipped l subject nsub out st from).written
            n_match
            n_subst
            after
    unfolding buffer_addlstring
    gap l nsub st from out n_match n_subst segs h t = elim (Bool-cases (ltb st from)) [
      | inl e ↦
          (segs ++ kept (between subject st from) ∷ [], rw e (IsTrace-kept t from h kept_found))
      | inr e ↦ let same : from ≡ st = ground arith in (segs, rw e (rw same t))
    ]
