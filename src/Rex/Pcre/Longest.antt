-- ===== src/Rex/Pcre/Longest.antt =====
-- What dfa_exec returns: the start of the matches and their ends, the longest match first.
use lua_cmake_source.Base.{
  ℕ, zero, suc, ◌+◌, ◌≤◌, ◌<◌, true, List, [], ◌∷◌, Option, length, ◌≡◌, refl, arith, Bytes,
}
use lua_cmake_source.Base.Int.{ℤ}
use lua_cmake_source.Rex.Engine.{ok}
use lua_cmake_source.Rex.Total.{Ends, yields, raises, undefines}
use lua_cmake_source.Rex.Find.{get_startoffset}
use lua_cmake_source.Rex.Pcre.Engine.{
  TPcre, PcreCode, DfaExec, dfa_matched, dfa_partial, dfa_no_match, dfa_failed,
}
use lua_cmake_source.Rex.Pcre.Dfa.{
  count, partial, DfaValues, none_found, dfa_found, ends_loop, found_values, max_matches,
  dfa_values, opt_count, lpcre_dfa_exec,
}

-- A vector of pairs of one start and the ends.
abbrev pub pairs : ℕ → List ℕ → List ℕ
pairs b [] = []
pairs b (e ∷ es) = b ∷ e ∷ pairs b es

-- Ends of matches from `b`, each at most the one before and the first at most `hi`.
abbrev pub AreEnds : ℕ → ℕ → List ℕ → Type 0
AreEnds b hi [] = Unit
AreEnds b hi (e ∷ es) = (b ≤ e) × (e ≤ hi) × AreEnds b e es

-- What pcre_dfa_exec promises: it writes a pair for each match that it counts, or fills the vector
-- with pairs if it has no room for all; all have one start, and the longest is the first. It writes
-- a pair for a partial match if there is room.
pub record IsDfaExec (pr : PcreCode) : Type 0 where
  pub matches :
      (text : Bytes) (start eflags ovecsize wscount n : ℕ) (ovector : List ℕ)
      → pr.pcre_dfa_exec text start eflags ovecsize wscount ≡ dfa_matched n ovector
      → (b : ℕ) × (es : List ℕ) × (ovector ≡ pairs b es)
        × (length es ≡ max_matches ovecsize n)
        × AreEnds b (length text) es
  pub partial_match :
      (text : Bytes) (start eflags ovecsize wscount : ℕ) (ovector : List ℕ)
      → pr.pcre_dfa_exec text start eflags ovecsize wscount ≡ dfa_partial ovector
      → 2 ≤ ovecsize
      → 2 ≤ length ovector

-- The values for a result of pcre_dfa_exec.
abbrev pub IsDfaOf : Bytes → DfaExec → DfaValues → Type 0
IsDfaOf text dfa_no_match none_found = Unit
IsDfaOf text (dfa_matched n ovector) (dfa_found start es (count k)) =
    (k ≡ n) × (b : ℕ) × (start ≡ b + 1) × (ovector ≡ pairs b es) × AreEnds b (length text) es
IsDfaOf text (dfa_partial ovector) (dfa_found start es partial) =
    (b : ℕ) × (e : ℕ) × (more : List ℕ) × (ovector ≡ b ∷ e ∷ more) × (start ≡ b + 1) × (es ≡ e ∷ [])
IsDfaOf _ _ _ = ⊥

-- The loop one pair further on.
ends_loop-pair :
    (x y : ℕ) (ns : List ℕ) (k i : ℕ) → ends_loop (x ∷ y ∷ ns) k (suc i) ≡ ends_loop ns k i
unfolding ends_loop
ends_loop-pair x y ns zero i = refl
ends_loop-pair x y ns (suc k) i =
    let further : suc i + suc i + 1 ≡ suc (suc (i + i + 1)) = omega arith in
    rw (further, ends_loop-pair x y ns k (suc i)) refl

ends_loop-pairs : (b : ℕ) (es : List ℕ) → ends_loop (pairs b es) (length es) 0 ≡ ok es
unfolding ends_loop
ends_loop-pairs b [] = refl
ends_loop-pairs b (e ∷ es) = rw (ends_loop-pair b e (pairs b es), ends_loop-pairs b es) refl

module _ (text : Bytes) (ovecsize : ℕ) where
  matched-IsDfaOf :
      (n : ℕ) (ovector : List ℕ) (b : ℕ) (es : List ℕ)
      → ovector ≡ pairs b es
      → length es ≡ max_matches ovecsize n
      → AreEnds b (length text) es
      → Ends
          (IsDfaOf text (dfa_matched n ovector))
          (ovecsize < 2)
          (found_values ovector (max_matches ovecsize n) (count n))
  matched-IsDfaOf zero ovector b [] same all ends = rw same (undefines (omega arith))
  matched-IsDfaOf (suc n) ovector b [] same all ends = absurd (omega arith)
  matched-IsDfaOf n ovector b (e ∷ es) same all ends =
      rw (same, ← all, ends_loop-pairs b (e ∷ es)) (yields (refl, b, refl, refl, ends))

  partial-IsDfaOf :
      (ovector : List ℕ)
      → (2 ≤ ovecsize → 2 ≤ length ovector)
      → Ends (IsDfaOf text (dfa_partial ovector)) (ovecsize < 2) (found_values ovector 1 partial)
  unfolding ends_loop
  partial-IsDfaOf [] room = undefines (ground arith)
  partial-IsDfaOf (b ∷ []) room = undefines (ground arith)
  partial-IsDfaOf (b ∷ e ∷ more) room = yields (b, e, more, refl, refl, refl)

-- The method dfa_exec raises an error, returns nil where pcre_dfa_exec finds no match, or returns the
-- start of the matches that it has written, counted from 1, and their ends, the longest first, with
-- their number; for a partial match the one start and end. That is so for an expression that was not
-- released, where pcre_dfa_exec writes what PCRE promises. The code is undefined only where the vector
-- has no room for a pair.
pub lpcre_dfa_exec-IsDfaOf :
    (ud : TPcre) (text : Bytes) (init : Option ℤ) (eflags : ℕ) (ovecsize wscount : Option ℕ)
    → ud.allocated ≡ true
    → IsDfaExec ud.pr
    → Ends
        (IsDfaOf text (
          ud.pr.pcre_dfa_exec text
            (get_startoffset init (length text))
            eflags
            (opt_count ovecsize 100)
            (opt_count wscount 50)))
        (opt_count ovecsize 100 < 2)
        (lpcre_dfa_exec ud text init eflags ovecsize wscount)
unfolding lpcre_dfa_exec
lpcre_dfa_exec-IsDfaOf ud text init eflags ovecsize wscount live engine = rw live (values _ refl)
  where
    values :
        (r : DfaExec)
        → ud.pr.pcre_dfa_exec text
            (get_startoffset init (length text))
            eflags
            (opt_count ovecsize 100)
            (opt_count wscount 50)
          ≡ r
        → Ends (IsDfaOf text r) (opt_count ovecsize 100 < 2) (dfa_values (opt_count ovecsize 100) r)
    values dfa_no_match e = yields tt
    values (dfa_failed errcode) e = raises
    values (dfa_partial ovector) e =
        partial-IsDfaOf text _ ovector (engine.partial_match text _ eflags _ _ ovector e)
    values (dfa_matched n ovector) e =
        let (b, es, same, all, ends) = engine.matches text _ eflags _ _ n ovector e in
        matched-IsDfaOf text _ n ovector b es same all ends
