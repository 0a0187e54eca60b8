-- ===== src/Rex/Gsub/Whole.antt =====
-- What gsub returns as a whole.
use lua_cmake_source.Base.{ℕ, ◌+◌, ◌≡◌, refl, arith, length, Bytes}
use lua_cmake_source.Rex.Buffer.{buffer_init}
use lua_cmake_source.Rex.Engine.{Posix, TPosix, ok}
use lua_cmake_source.Rex.Total.{Ends, yields, raises, Ends-bind, IsLive}
use lua_cmake_source.Rex.Gsub.State.{
  Lua, Pattern, source, regex, bad_argument, RepType, template, a_table, a_function, no_replacement,
  Limit, absent, a_limit_function, at_number, no_limit, opt_limit, check_pattern, check_replacement,
  pattern_regex,
}
use lua_cmake_source.Rex.Gsub.Loop.{start, gsub}
use lua_cmake_source.Rex.Gsub.Segments.{IsFound}
use lua_cmake_source.Rex.Gsub.Trace.{gsub_loop-Covers}
use lua_cmake_source.Rex.Gsub.Covers.{IsGsubBy, start-Covers, Covers-IsGsubBy}
use lua_cmake_source.Rex.Gsub.Written.{Cleared, Asks}
use lua_cmake_source.Rex.Gsub.Stored.{IsReplacement, HasLength, rep_buffer-LawsOf}

-- The new text and the two numbers are those of segments that make up the subject, whose matches
-- are those of `ud`.
abbrev pub IsGsubOf :
    {W : Type 0} → Posix → TPosix → Bytes → ℕ → RepType → Limit → W × Bytes × ℕ × ℕ → Type 0
IsGsubOf p ud subject eflags rep limit (w, new, n_match, n_subst) =
    IsGsubBy (IsFound p ud subject eflags (IsReplacement ud.nsub rep limit)) subject
      (w, new, n_match, n_subst)

pub opt_limit-Asks :
    {U : Type 0} (limit : Limit)
    → (limit ≡ a_limit_function → U)
    → Ends (λ max. Cleared max (buffer_init 1024) × Asks U max) U (opt_limit limit)
unfolding opt_limit buffer_init
opt_limit-Asks absent u = yields (tt, tt)
opt_limit-Asks a_limit_function u = yields (refl, u refl)
opt_limit-Asks (at_number a) u = yields (tt, tt)
opt_limit-Asks no_limit u = raises

pub check_pattern-same : {R U : Type 0} (q : Pattern R) → Ends (λ r. r ≡ q) U (check_pattern q)
unfolding check_pattern
check_pattern-same (source t) = yields refl
check_pattern-same (regex ud) = yields refl
check_pattern-same bad_argument = raises

pub check_replacement-same :
    {U : Type 0} (rep : RepType) → Ends (λ r. r ≡ rep) U (check_replacement rep)
unfolding check_replacement
check_replacement-same (template t) = yields refl
check_replacement-same a_table = yields refl
check_replacement-same a_function = yields refl
check_replacement-same no_replacement = raises

module _ {W : Type 0} (p : Posix) (l : Lua W) (subject : Bytes) (ud : TPosix) (eflags : ℕ)
    (rep : RepType) (limit : Limit) where
  -- Where the pattern is an expression whose matches can be read, gsub raises an error or comes to
  -- an end, for a replacement whose length is a size_t. The subject is then a sequence of segments,
  -- each a text or a match that regexec finds; the new text has the same segments, in which matches
  -- alone are replaced, and the numbers are those of the matches and of the replaced ones. By a
  -- string, where the fourth argument is no function, a match is replaced by its expansion. The code
  -- is undefined only where the fourth argument is a function.
  pub gsub-IsGsubOf :
      (w : W) (pattern : Pattern TPosix) (cflags : ℕ)
      → pattern_regex p pattern cflags ≡ ok ud
      → IsLive ud
      → HasLength rep
      → Ends
          (IsGsubOf p ud subject eflags rep limit)
          (limit ≡ a_limit_function)
          (gsub p l w subject pattern rep limit cflags eflags)
  unfolding gsub
  gsub-IsGsubOf w pattern cflags found live h = Ends-bind (check_pattern-same pattern) λ q same.
      Ends-bind (check_replacement-same rep) λ rep' same'.
        Ends-bind (opt_limit-Asks limit (λ e. e)) λ max (cleared, asks).
          rw (same, same', found)
            (Ends-bind (rep_buffer-LawsOf ud.nsub rep limit h) λ buf_rep laws.
              Ends-bind
                (gsub_loop-Covers l subject ud (limit ≡ a_limit_function)
                  (IsReplacement ud.nsub rep limit) p eflags rep buf_rep laws (length subject + 1)
                  (start w max) live (omega arith) (start-Covers subject _ _ w max cleared asks))
                λ s covers. yields (Covers-IsGsubBy subject _ _ (λ _. tt) s covers))
