-- ===== src/Rex/Tests.antt =====
-- The theorems on regular expressions with small engines.
use lua_cmake_source.Base.{
  ◌≤◌, false, [], ◌∷◌, none, some, ◌≡◌, refl, arith, inl, codes, from_le, le_bytes, replicate,
}
use lua_cmake_source.Base.Int.{pos, negsuc}
use lua_cmake_source.LuaValue.{str}
use lua_cmake_source.Rex.Buffer.{
  top, buffer_init, buffer_clear, buffer_addlstring, buffer_z_putrepstring, put_loop, until_percent,
  capture_index, buffer_z_addlstring, buffer_z_addnum, buffer_z_next,
}
use lua_cmake_source.Rex.Buffer.Freed.{
  TFreeList, freelist_init, freelist_add, freelist_free, free_loop, add_all,
}
use lua_cmake_source.Rex.Buffer.Room.{init, addlstring, Reached-HasRoom}
use lua_cmake_source.Rex.Engine.{ok, undefined, ◌>>=◌, gsub_exec, split_exec, regexec_at, c_string}
use lua_cmake_source.Rex.Total.{Ends}
use lua_cmake_source.Rex.Template.{expansion, prepend}
use lua_cmake_source.Rex.Gsub.State.{
  regex, template, absent, a_limit_function, at_number, check_pattern, check_replacement, opt_limit,
  pattern_regex,
}
use lua_cmake_source.Rex.Samples.{
  search_for, dash, captured_dash, at_once, empty, dash-IsLive, empty-IsLive, posix, lua,
}
use lua_cmake_source.Rex.Gsub.Loop.{gsub, rep_buffer, gsub_loop, goes_on, round, settle, advance}
use lua_cmake_source.Rex.Gsub.Stored.{captured, written_for, buffer_z_putrepstring-expansion}
use lua_cmake_source.Rex.Gsub.Limit.{AtMost, gsub-AtMost}
use lua_cmake_source.Rex.Gsub.Whole.{IsGsubOf, gsub-IsGsubOf}
use lua_cmake_source.Rex.Find.{
  get_startoffset, find, match, exec, tfind, generic_find_method, generic_find_func,
}
use lua_cmake_source.Rex.Find.Offsets.{
  read_offsets, generic_find_method-tfind, IsFindOf, generic_find_func-IsFindOf,
}
use lua_cmake_source.Rex.Iterate.{calls, split_iter, gmatch_iter, split_found}
use lua_cmake_source.Rex.Iterate.Gmatch.{AreMatches, gmatch_iter-AreMatches}
use lua_cmake_source.Rex.Iterate.Steps.{EmptyAt, inside}
use lua_cmake_source.Rex.Iterate.Split.{IsSplit, split_iter-IsSplit, split_iter-undefined}
use lua_cmake_source.Rex.Plain.{folded, plainfind_func}
use lua_cmake_source.Rex.Plain.First.{IsFirst, plainfind_func-IsFirst}
use lua_cmake_source.Rex.Gsub.Replace.{replace, expand, rep_loop}

-- What gsub returns for a string of pieces: the new text and two numbers.
gsub_runs :
    gsub posix lua tt (codes "a-b-") (regex dash) (template (codes "<%0%%>")) absent 0 0
    ≡ ok (tt, codes "a<-%>b<-%>", 2, 2)
unfolding gsub search_for check_pattern check_replacement opt_limit pattern_regex rep_buffer
    buffer_z_putrepstring put_loop until_percent capture_index gsub_loop goes_on gsub_exec
    regexec_at c_string round replace settle from_le le_bytes buffer_z_addlstring buffer_z_addnum
    buffer_z_next buffer_addlstring buffer_clear buffer_init advance expand rep_loop
gsub_runs = refl

gsub_runs_empty :
    gsub posix lua tt (codes "ab") (regex empty) (template (codes ".")) absent 0 0
    ≡ ok (tt, codes ".a.b.", 3, 3)
unfolding gsub check_pattern check_replacement opt_limit pattern_regex rep_buffer
    buffer_z_putrepstring put_loop until_percent capture_index gsub_loop goes_on gsub_exec
    regexec_at c_string round replace settle from_le le_bytes buffer_z_addlstring buffer_z_addnum
    buffer_z_next buffer_addlstring buffer_clear buffer_init advance expand rep_loop
gsub_runs_empty = refl

split_runs :
    calls
      (split_iter posix lua (record { ud = dash; subject = codes "a-b"; eflags = 0 }))
      9
      (record { startoffset = 0; incr = 0 })
    ≡ ok ((codes "a", str (codes "-") ∷ []) ∷ (codes "b", []) ∷ [])
unfolding calls split_iter search_for split_exec regexec_at split_found c_string
split_runs = refl

gsub-IsGsubOf_example :
    Ends
      (IsGsubOf posix dash (codes "a-b-") 0 (template (codes "<%0%%>")) absent)
      (absent ≡ a_limit_function)
      (gsub posix lua tt (codes "a-b-") (regex dash) (template (codes "<%0%%>")) absent 0 0)
unfolding pattern_regex
gsub-IsGsubOf_example =
    gsub-IsGsubOf posix lua (codes "a-b-") dash 0 (template (codes "<%0%%>")) absent tt (regex dash)
      0 refl dash-IsLive (omega arith)

buffer_z_putrepstring-expansion_example :
    written_for
      (codes "-b")
      at_once
      (buffer_init 4)
      (buffer_z_putrepstring (buffer_init 256) (codes "<%0%9>") 0)
    ≡ prepend [] (expansion 0 (captured (codes "-b") at_once) (codes "<%0%9>"))
unfolding buffer_init
buffer_z_putrepstring-expansion_example =
    buffer_z_putrepstring-expansion 0 (codes "-b") at_once (codes "<%0%9>") (buffer_init 256)
      (buffer_init 4) (omega arith)

Reached-HasRoom_example :
    top (buffer_addlstring (buffer_init 2) (codes "abc"))
    ≤ (buffer_addlstring (buffer_init 2) (codes "abc")).size
Reached-HasRoom_example =
    Reached-HasRoom (buffer_addlstring (buffer_init 2) (codes "abc"))
      (addlstring (codes "abc") (init 2))

gmatch_iter-AreMatches_example :
    Ends
      (AreMatches posix lua (record { ud = dash; subject = codes "a-b-"; eflags = 0 }) 0)
      ⊥
      (calls (gmatch_iter posix lua (record { ud = dash; subject = codes "a-b-"; eflags = 0 })) 6 0)
gmatch_iter-AreMatches_example =
    gmatch_iter-AreMatches posix lua (record { ud = dash; subject = codes "a-b-"; eflags = 0 }) 6 0
      dash-IsLive (omega arith) (omega arith)

split_iter-IsSplit_example :
    Ends
      (IsSplit posix lua
        (record { ud = dash; subject = codes "a-b"; eflags = 0 })
        refl
        (record { startoffset = 0; incr = 0 }))
      (EmptyAt posix lua (record { ud = dash; subject = codes "a-b"; eflags = 0 }) 3)
      (calls
        (split_iter posix lua (record { ud = dash; subject = codes "a-b"; eflags = 0 }))
        9
        (record { startoffset = 0; incr = 0 }))
split_iter-IsSplit_example =
    split_iter-IsSplit posix lua (record { ud = dash; subject = codes "a-b"; eflags = 0 }) refl 9
      (record { startoffset = 0; incr = 0 }) dash-IsLive (inside (omega arith) (inl refl))
      (omega arith)

split_iter-undefined_example :
    calls
      (split_iter posix lua (record { ud = empty; subject = []; eflags = 0 }))
      2
      (record { startoffset = 0; incr = 0 })
    ≡ undefined
unfolding split_exec regexec_at
split_iter-undefined_example =
    split_iter-undefined posix lua (record { ud = empty; subject = []; eflags = 0 }) refl 0
      (record { startoffset = 0; incr = 0 }) at_once empty-IsLive (omega arith) refl refl refl

generic_find_method-tfind_example :
    generic_find_method lua captured_dash (codes "a-b") none 0 tfind ≡ (
      generic_find_method lua captured_dash (codes "a-b") none 0 exec >>= λ items.
      ok (read_offsets (codes "a-b") items))
generic_find_method-tfind_example = generic_find_method-tfind lua captured_dash (codes "a-b") none 0

generic_find_func-IsFindOf_example :
    IsFindOf
      (codes "a-b")
      (generic_find_func lua posix (codes "a-b") (regex dash) (some (pos 2)) 0 0 find)
      (generic_find_func lua posix (codes "a-b") (regex dash) (some (pos 2)) 0 0 match)
unfolding pattern_regex
generic_find_func-IsFindOf_example =
    generic_find_func-IsFindOf lua dash (codes "a-b") refl posix (regex dash) (some (pos 2)) 0 0
      refl dash-IsLive

plainfind_func-IsFirst_example :
    IsFirst
      (folded (λ c. c) false)
      (codes "a-b-b")
      (codes "-b")
      (get_startoffset (some (negsuc 2)) 5)
      (plainfind_func (λ c. c) (codes "a-b-b") (codes "-b") (some (negsuc 2)) false)
plainfind_func-IsFirst_example =
    plainfind_func-IsFirst (λ c. c) (codes "a-b-b") (codes "-b") (some (negsuc 2)) false

gsub-AtMost_example :
    Ends
      (AtMost posix lua tt (codes "a-b-") 1)
      ⊥
      (gsub posix lua tt (codes "a-b-") (regex dash) (template (codes "+")) (at_number (pos 1)) 0 0)
unfolding pattern_regex
gsub-AtMost_example =
    gsub-AtMost posix lua tt (codes "a-b-") (regex dash) (template (codes "+")) (pos 1) 0 0 dash
      refl dash-IsLive (omega arith)

-- A list that was used before.
abbrev some_list : TFreeList
some_list = record { list = replicate 16 7; top = 5 }

freelist_free_runs :
    (add_all (freelist_init some_list) (0 ∷ 1 ∷ 2 ∷ []) >>= λ fl. ok (freelist_free fl).1)
    ≡ ok (2 ∷ 1 ∷ 0 ∷ [])
unfolding add_all freelist_add freelist_free free_loop
freelist_free_runs = refl
