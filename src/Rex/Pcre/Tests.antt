-- ===== src/Rex/Pcre/Tests.antt =====
-- The theorems on the PCRE library with small engines.
use lua_cmake_source.Base.{
  true, false, [], ◌∷◌, ltb, ◌==◌, ◌≡◌, refl, arith, codes, if◌then◌else◌, length, bit_and, from_le,
  le_bytes,
}
use lua_cmake_source.LuaValue.{str}
use lua_cmake_source.Rex.Buffer.{
  buffer_init, buffer_clear, buffer_addlstring, buffer_z_putrepstring, put_loop, until_percent,
  capture_index, buffer_z_addlstring, buffer_z_addnum, buffer_z_next,
}
use lua_cmake_source.Rex.Engine.{matched, no_match, failed, regex_error, raised, ok}
use lua_cmake_source.Rex.Total.{Ends}
use lua_cmake_source.Rex.Gsub.State.{
  regex, template, absent, a_limit_function, opt_limit, check_pattern, check_replacement,
}
use lua_cmake_source.Rex.Gsub.Loop.{rep_buffer, goes_on, settle}
use lua_cmake_source.Rex.Gsub.Replace.{replace, expand, rep_loop}
use lua_cmake_source.Rex.Gsub.Covers.{IsGsubBy}
use lua_cmake_source.Rex.Gsub.Stored.{IsReplacement}
use lua_cmake_source.Rex.Iterate.{Place, calls}
use lua_cmake_source.Rex.Samples.{lua, pcre, pcre_dash, pcre_dash-IsLive, search_for}
use lua_cmake_source.Rex.Pcre.Engine.{
  TPcre, dfa_no_match, no_cflags, cflags_string, no_locale, getcflags, flags_loop, optlocale,
  gsub_exec, gmatch_exec, split_exec,
}
use lua_cmake_source.Rex.Pcre.Gsub.{
  gsub, pattern_regex, compiled_pattern, gsub_loop, round, advance, advance_by_1,
}
use lua_cmake_source.Rex.Pcre.Trace.{IsFound}
use lua_cmake_source.Rex.Pcre.Whole.{gsub-IsGsubBy}
use lua_cmake_source.Rex.Pcre.Gmatch.{Iteration, gmatch_iter, gmatch_loop, gmatch_found}
use lua_cmake_source.Rex.Pcre.Split.{split_iter, split_found}
use lua_cmake_source.Rex.Pcre.Pieces.{IsSplit, split_iter-IsPieces, split_iter-raised}
use lua_cmake_source.Rex.Pcre.Matches.{AreMatches, gmatch_iter-IsMatches}

-- The empty expression, which has no match of some bytes, and none behind the end.
abbrev pcre_empty : TPcre
pcre_empty = record {
  pr = record {
    capture_count = 0;
    name_count = 0;
    name_entry_size = 0;
    name_table = [];
    pcre_exec = λ text start eflags.
        if ltb (length text) start
        then failed 24
        else if bit_and eflags 1024 == 0
        then matched (record { rm_so = start; rm_eo = start; subs = [] })
        else no_match;
    pcre_dfa_exec = λ text start eflags ovecsize wscount. dfa_no_match;
  };
  ncapt = 0;
  freed = false;
  allocated = true;
}

gsub_runs :
    gsub pcre lua tt
      (codes "a-b-")
      (regex pcre_dash)
      (template (codes "<%0>"))
      absent
      no_cflags
      0
      no_locale
    ≡ ok (tt, codes "a<->b<->", 2, 2)
unfolding gsub search_for check_pattern check_replacement opt_limit pattern_regex compiled_pattern
    rep_buffer buffer_z_putrepstring put_loop until_percent capture_index gsub_loop goes_on
    gsub_exec round replace settle from_le le_bytes buffer_z_addlstring buffer_z_addnum
    buffer_z_next buffer_addlstring buffer_clear buffer_init advance advance_by_1 expand rep_loop
    getcflags optlocale
gsub_runs = refl

gsub_runs_empty :
    gsub pcre lua tt
      (codes "ab")
      (regex pcre_empty)
      (template (codes "."))
      absent
      no_cflags
      0
      no_locale
    ≡ ok (tt, codes ".a.b.", 3, 3)
unfolding gsub check_pattern check_replacement opt_limit pattern_regex compiled_pattern rep_buffer
    buffer_z_putrepstring put_loop until_percent capture_index gsub_loop goes_on gsub_exec round
    replace settle from_le le_bytes buffer_z_addlstring buffer_z_addnum buffer_z_next
    buffer_addlstring buffer_clear buffer_init advance advance_by_1 expand rep_loop getcflags
    optlocale
gsub_runs_empty = refl

getcflags_runs : getcflags pcre 5 (cflags_string (codes "ixz")) ≡ ok 9
unfolding getcflags flags_loop
getcflags_runs = refl

abbrev dashes : Iteration
dashes = record { ud = pcre_dash; subject = codes "a-b-"; eflags = 0 }

gmatch_runs :
    calls (gmatch_iter pcre lua dashes) 11 (record { startoffset = 0; retry = false })
    ≡ ok ((str (codes "-") ∷ []) ∷ (str (codes "-") ∷ []) ∷ [])
unfolding calls gmatch_iter gmatch_loop gmatch_found gmatch_exec search_for
gmatch_runs = refl

gsub-IsGsubBy_example :
    Ends
      (IsGsubBy
        (IsFound pcre pcre_dash (codes "a-b-") 0 (IsReplacement 0 (template (codes "<%0>")) absent))
        (codes "a-b-"))
      (absent ≡ a_limit_function)
      (gsub pcre lua tt
        (codes "a-b-")
        (regex pcre_dash)
        (template (codes "<%0>"))
        absent
        no_cflags
        0
        no_locale)
unfolding getcflags pattern_regex compiled_pattern optlocale
gsub-IsGsubBy_example =
    gsub-IsGsubBy pcre lua (codes "a-b-") pcre_dash 0 (template (codes "<%0>")) absent tt
      (regex pcre_dash) no_cflags 0 no_locale refl refl pcre_dash-IsLive (omega arith)

gmatch_iter-IsMatches_example :
    Ends
      (AreMatches pcre lua dashes (record { startoffset = 0; retry = false }))
      ⊥
      (calls (gmatch_iter pcre lua dashes) 11 (record { startoffset = 0; retry = false }))
gmatch_iter-IsMatches_example =
    gmatch_iter-IsMatches pcre lua dashes 11 (record { startoffset = 0; retry = false })
      pcre_dash-IsLive (omega arith)

abbrev at_start : Place
at_start = record { startoffset = 0; incr = 0 }

split_runs :
    calls (split_iter lua dashes) 11 at_start
    ≡ ok (
        (codes "a", str (codes "-") ∷ []) ∷ (codes "b", str (codes "-") ∷ []) ∷ (codes "", []) ∷ [])
unfolding calls split_iter split_found split_exec search_for
split_runs = refl

split_iter-IsPieces_example :
    Ends (IsSplit lua dashes at_start) ⊥ (calls (split_iter lua dashes) 11 at_start)
split_iter-IsPieces_example =
    split_iter-IsPieces lua dashes refl pcre 11 at_start pcre_dash-IsLive (omega arith)
      (omega arith)

-- The empty expression in a text of one byte, behind its first match.
abbrev empties : Iteration
empties = record { ud = pcre_empty; subject = codes "a"; eflags = 0 }

split_iter-raised_example :
    calls (split_iter lua empties) 2 (record { startoffset = 0; incr = 1 })
    ≡ raised (regex_error 24)
unfolding split_exec
split_iter-raised_example =
    split_iter-raised lua empties refl 0 (record { startoffset = 0; incr = 1 })
      (record { rm_so = 1; rm_eo = 1; subs = [] }) 24 refl (omega arith) refl refl refl refl
