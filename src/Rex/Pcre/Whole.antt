-- ===== src/Rex/Pcre/Whole.antt =====
-- What gsub returns as a whole, for the PCRE library.
use lua_cmake_source.Base.{ℕ, ◌+◌, ◌*◌, false, ◌≡◌, arith, length, Bytes}
use lua_cmake_source.Rex.Engine.{ok}
use lua_cmake_source.Rex.Total.{Ends, yields, Ends-bind}
use lua_cmake_source.Rex.Gsub.State.{Lua, Pattern, RepType, Limit, a_limit_function}
use lua_cmake_source.Rex.Gsub.Loop.{start}
use lua_cmake_source.Rex.Gsub.Covers.{IsGsubBy, start-Covers, Covers-IsGsubBy}
use lua_cmake_source.Rex.Gsub.Stored.{IsReplacement, HasLength, rep_buffer-LawsOf}
use lua_cmake_source.Rex.Gsub.Whole.{check_pattern-same, check_replacement-same, opt_limit-Asks}
use lua_cmake_source.Rex.Pcre.Engine.{Pcre, TPcre, CflagsArg, LocaleArg, getcflags}
use lua_cmake_source.Rex.Pcre.Gsub.{gsub, pattern_regex}
use lua_cmake_source.Rex.Pcre.Trace.{IsFound, IsLive, gsub_loop-Covers}

module _ {W : Type 0} (p : Pcre) (l : Lua W) (subject : Bytes) (ud : TPcre) (eflags : ℕ)
    (rep : RepType) (limit : Limit) where
  -- Where the pattern is an expression that was not released, and pcre_exec keeps what PCRE promises
  -- of its matches, gsub raises an error or comes to an end, for a replacement whose length is a
  -- size_t. The subject is then a sequence of segments, each a text or a match that pcre_exec finds;
  -- the new text has the same segments, in which matches alone are replaced, and the numbers are
  -- those of the matches and of the replaced ones. By a string, where the fourth argument is no
  -- function, a match is replaced by its expansion. The code is undefined only where the fourth
  -- argument is a function.
  pub gsub-IsGsubBy :
      (w : W) (pattern : Pattern TPcre) (given : CflagsArg) (flags : ℕ) (lo : LocaleArg)
      → getcflags p 5 given ≡ ok flags
      → pattern_regex p pattern flags lo 7 ≡ ok ud
      → IsLive p ud
      → HasLength rep
      → Ends
          (IsGsubBy (IsFound p ud subject eflags (IsReplacement ud.ncapt rep limit)) subject)
          (limit ≡ a_limit_function)
          (gsub p l w subject pattern rep limit given eflags lo)
  unfolding gsub
  gsub-IsGsubBy w pattern given flags lo as_number found live h =
      Ends-bind (check_pattern-same pattern) λ q same.
        Ends-bind (check_replacement-same rep) λ rep' same'.
          Ends-bind (opt_limit-Asks limit (λ e. e)) λ max (cleared, asks).
            rw (same, same', as_number, found)
              (Ends-bind (rep_buffer-LawsOf ud.ncapt rep limit h) λ buf_rep laws.
                Ends-bind
                  (gsub_loop-Covers l subject ud (limit ≡ a_limit_function)
                    (IsReplacement ud.ncapt rep limit) p eflags rep buf_rep laws
                    (2 * length subject + 3) (start w max) false live (omega arith)
                    (start-Covers subject _ _ w max cleared asks))
                  λ s covers. yields (Covers-IsGsubBy subject _ _ (λ _. tt) s covers))
