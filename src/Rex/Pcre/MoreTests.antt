-- ===== src/Rex/Pcre/MoreTests.antt =====
-- The theorems on dfa_exec, the messages of errors and __gc, with small engines.
use lua_cmake_source.Base.{
  ℕ, ◌<◌, false, List, [], ◌∷◌, none, Option, ◌≢◌, ltb, ◌≡◌, refl, sym, arith, codes, if◌then◌else◌,
  length, drop, Bool-cases, inl, inr, Bytes,
}
use lua_cmake_source.Base.Int.{ℤ, pos, negsuc}
use lua_cmake_source.Base.Decimal.{decimal, decimal_from, decimal_ℤ}
use lua_cmake_source.LuaValue.{bytes_eq}
use lua_cmake_source.Rex.Engine.{Exec, matched, no_match, failed, undefined, ok, c_string}
use lua_cmake_source.Rex.Total.{Ends}
use lua_cmake_source.Rex.Find.{get_startoffset}
use lua_cmake_source.Rex.Samples.{pcre, pcre_dash, search_for, one_match, dash_code-found}
use lua_cmake_source.Rex.Pcre.Engine.{
  dfa_matched, dfa_partial, lpcre_gc, TPcre, built_in, compile_regex,
}
use lua_cmake_source.Rex.Flags.{get_flag_key, no_table}
use lua_cmake_source.Rex.Pcre.Flags.{error_message, lpcre_get_flags}
use lua_cmake_source.Rex.Pcre.Named.{Explains, error_message-Explains}
use lua_cmake_source.Rex.Pcre.New.{Search, search, lpcre_gc-once}
use lua_cmake_source.Rex.Pcre.Dfa.{count, dfa_found, ends_loop, max_matches, lpcre_dfa_exec}
use lua_cmake_source.Rex.Pcre.Longest.{pairs, AreEnds, IsDfaExec, IsDfaOf, lpcre_dfa_exec-IsDfaOf}

pcre_dash-IsDfaExec : IsDfaExec pcre_dash.pr
pcre_dash-IsDfaExec = record {
  matches = λ text start eflags ovecsize wscount n ovector e.
      one_match-pairs text start ovecsize n ovector _ refl e;
  partial_match = λ text start eflags ovecsize wscount ovector e h.
      absurd (never ovecsize ovector (search_for b'-' [] (drop start text) start) e);
}
  where
    one_match-pairs :
        (text : Bytes) (start ovecsize n : ℕ) (ovector : List ℕ) (r : Exec)
        → search_for b'-' [] (drop start text) start ≡ r
        → one_match ovecsize r ≡ dfa_matched n ovector
        → (b : ℕ) × (es : List ℕ) × (ovector ≡ pairs b es)
          × (length es ≡ max_matches ovecsize n)
          × AreEnds b (length text) es
    one_match-pairs text start ovecsize n ovector no_match run e = cc
    one_match-pairs text start ovecsize n ovector (failed _) run e = cc
    one_match-pairs text start ovecsize n ovector (matched m) run e =
        elim (Bool-cases (ltb ovecsize 2)) [
          | inl small ↦
              let none_written : [] ≡ ovector = cc (rw small at e) in
              let none_counted : 0 ≡ n = cc (rw small at e) in
              (0, [], sym none_written, rw (← none_counted) (ground arith), tt)
          | inr large ↦
              let pair : m.rm_so ∷ m.rm_eo ∷ [] ≡ ovector = cc (rw large at e) in
              let one : 1 ≡ n = cc (rw large at e) in
              let (low, some_bytes, high) = dash_code-found text start m run in
              (m.rm_so, m.rm_eo ∷ [], sym pair, rw (← one) refl, (omega arith, high, tt))
        ]

    never :
        (ovecsize : ℕ) (ovector : List ℕ) (r : Exec)
        → one_match ovecsize r ≡ dfa_partial ovector
        → ⊥
    never ovecsize ovector no_match e = cc
    never ovecsize ovector (failed _) e = cc
    never ovecsize ovector (matched m) e = elim (Bool-cases (ltb ovecsize 2)) [
      | inl small ↦ cc (rw small at e)
      | inr large ↦ cc (rw large at e)
    ]

lpcre_dfa_exec_runs :
    lpcre_dfa_exec pcre_dash (codes "a-b-") none 0 none none ≡ ok (dfa_found 2 (2 ∷ []) (count 1))
unfolding lpcre_dfa_exec get_startoffset search_for ends_loop
lpcre_dfa_exec_runs = refl

lpcre_dfa_exec-IsDfaOf_example :
    Ends
      (IsDfaOf (codes "a-b-") (pcre_dash.pr.pcre_dfa_exec (codes "a-b-") 0 0 100 50))
      (100 < 2)
      (lpcre_dfa_exec pcre_dash (codes "a-b-") none 0 none none)
unfolding get_startoffset
lpcre_dfa_exec-IsDfaOf_example =
    lpcre_dfa_exec-IsDfaOf pcre_dash (codes "a-b-") none 0 none none refl pcre_dash-IsDfaExec

-- Values of macros: NOMATCH, NULL and BADOPTION are errors -1 to -3.
abbrev values : Bytes → ℤ
values key =
    if bytes_eq key (codes "ERROR_NOMATCH")
    then negsuc 0
    else if bytes_eq key (codes "ERROR_NULL")
    then negsuc 1
    else if bytes_eq key (codes "ERROR_BADOPTION")
    then negsuc 2
    else pos 0

error_message_runs : error_message values 3 ≡ codes "error PCRE_ERROR_BADOPTION"
unfolding error_message get_flag_key bytes_eq
error_message_runs = refl

error_message_runs_unnamed : error_message values 99 ≡ codes "PCRE error code -99"
unfolding error_message get_flag_key bytes_eq decimal_ℤ decimal decimal_from
error_message_runs_unnamed = refl

error_message-Explains_example : Ends (Explains values 3) ⊥ (lpcre_get_flags values no_table)
error_message-Explains_example = error_message-Explains values 3 no_table

lpcre_gc-once_example :
    ((text : Bytes) (how : Search) → search pcre pcre_dash text how ≢ undefined)
    × ((after : TPcre) × (lpcre_gc pcre_dash ≡ ok after)
        × (after.allocated ≡ false)
        × (lpcre_gc after ≡ ok after)
        × ((text : Bytes) (how : Search) → search pcre after text how ≡ undefined)
        × ((text : Bytes) (init : Option ℤ) (eflags : ℕ) (ovecsize wscount : Option ℕ)
            → lpcre_dfa_exec after text init eflags ovecsize wscount ≡ undefined))
unfolding compile_regex c_string
lpcre_gc-once_example = lpcre_gc-once pcre (codes "-") 0 built_in pcre_dash refl
