-- ===== src/Rex/Pcre/Engine.antt =====
-- libs/lrexlib/src/pcre/lpcre.c: compiled expressions, the flags of their compilation, and the calls
-- of pcre_exec. The PCRE library and the locales are parameters.
use lua_cmake_source.Base.{
  ℕ, ◌+◌, ◌≤◌, ◌<◌, Bool, true, false, List, [], ◌∷◌, Option, none, some, ◌==◌, if◌then◌else◌, ◌≡◌,
  length, Bytes, bit_or,
}
use lua_cmake_source.Rex.Engine.{
  Match, Exec, matched, bad_locale, not_chartables, compile_error, study_error, type_error, Result,
  ok, raised, undefined, ◌>>=◌, c_string,
}

-- The result of pcre_dfa_exec, with the ints that it has written at the front of the vector.
pub data DfaExec : Type 0 where
  dfa_matched : ℕ → List ℕ → DfaExec
  dfa_partial : List ℕ → DfaExec
  dfa_no_match : DfaExec
  dfa_failed : ℕ → DfaExec

-- A pcre with its pcre_extra, and what pcre_fullinfo tells of it. The offsets of a match count from
-- the start of the text; the code of an error stands without its sign.
pub record PcreCode : Type 0 where
  pub capture_count : ℕ
  pub name_count : ℕ
  pub name_entry_size : ℕ
  pub name_table : Bytes
  pub pcre_exec : Bytes → ℕ → ℕ → Exec
  pub pcre_dfa_exec : Bytes → ℕ → ℕ → ℕ → ℕ → DfaExec

-- The character tables that pcre_compile takes: those of PCRE, those made in a locale, or a
-- userdata of maketables.
pub data Tables : Type 0 where
  built_in : Tables
  of_locale : Bytes → Tables
  given : ℕ → Tables

pub data Compiled : Type 0 where
  compiled : PcreCode → Compiled
  bad_pattern : Bytes → ℕ → Compiled

pub data Studied : Type 0 where
  studied : PcreCode → Studied
  not_studied : Bytes → Studied

pub record Pcre : Type 0 where
  pub pcre_compile : Bytes → ℕ → Tables → Compiled
  pub pcre_study : PcreCode → Studied
  pub set_locale : Bytes → Bool
  pub not_empty : ℕ
  pub anchored : ℕ
  pub caseless : ℕ
  pub multiline : ℕ
  pub dotall : ℕ
  pub extended : ℕ
  pub ungreedy : ℕ
  pub extra : ℕ

-- TPcre. `allocated` tells of the memory at the pointers, which is released by `Lpcre_gc`; `freed` is
-- the field that `Lpcre_gc` and `Lpcre_tostring` look at.
pub record TPcre : Type 0 where
  pub pr : PcreCode
  pub ncapt : ℕ
  pub freed : Bool
  pub allocated : Bool

-- The argument for the flags of the compilation.
pub data CflagsArg : Type 0 where
  no_cflags : CflagsArg
  cflags_number : ℕ → CflagsArg
  cflags_string : Bytes → CflagsArg
  bad_cflags : CflagsArg

-- The argument for the locale. A userdata of maketables has no tables after they were freed.
pub data LocaleArg : Type 0 where
  no_locale : LocaleArg
  locale_name : Bytes → LocaleArg
  chartables : Option ℕ → LocaleArg
  bad_locale_arg : LocaleArg

-- `checkarg` of the locale is `optlocale`; the tables of a freed userdata are NULL.
unfoldable pub optlocale : ℕ → LocaleArg → Result Tables
optlocale pos no_locale = ok built_in
optlocale pos (locale_name s) = ok (of_locale s)
optlocale pos (chartables none) = ok built_in
optlocale pos (chartables (some t)) = ok (given t)
optlocale pos bad_locale_arg = raised (not_chartables pos)

module _ (p : Pcre) where
  abbrev pub flag_of : ℕ → ℕ
  flag_of ch =
      if ch == b'i'
      then p.caseless
      else if ch == b'm'
      then p.multiline
      else if ch == b's'
      then p.dotall
      else if ch == b'x'
      then p.extended
      else if ch == b'U'
      then p.ungreedy
      else if ch == b'X'
      then p.extra
      else 0

  -- while ((ch = *s++) != '\0')
  unfoldable pub flags_loop : Bytes → ℕ → ℕ
  flags_loop [] res = res
  flags_loop (ch ∷ s) res =
      let rest = flags_loop s (bit_or res (flag_of ch)) in if ch == 0 then res else rest

  -- The number is what lua_tointeger makes of the argument.
  unfoldable pub getcflags : ℕ → CflagsArg → Result ℕ
  getcflags pos no_cflags = ok 0
  getcflags pos (cflags_number n) = ok n
  getcflags pos (cflags_string s) = ok (flags_loop s 0)
  getcflags pos bad_cflags = raised (type_error pos)

  abbrev pub set_tables : Tables → Result Tables
  set_tables (of_locale s) =
      if p.set_locale (c_string s) then ok (of_locale s) else raised bad_locale
  set_tables t = ok t

  abbrev pub compiled_code : Compiled → Result PcreCode
  compiled_code (bad_pattern error erroffset) = raised (compile_error error (erroffset + 1))
  compiled_code (compiled pr) = ok pr

  abbrev pub studied_code : Studied → Result PcreCode
  studied_code (not_studied error) = raised (study_error error)
  studied_code (studied pr) = ok pr

  unfoldable pub compile_regex : Bytes → ℕ → Tables → Result TPcre
  compile_regex pattern cflags tables = set_tables tables >>= λ tables.
      compiled_code (p.pcre_compile (c_string pattern) cflags tables) >>= λ pr.
      studied_code (p.pcre_study pr) >>= λ pr.
      ok (record { pr = pr; ncapt = pr.capture_count; freed = false; allocated = true })

  abbrev pub retry_flags : ℕ → ℕ
  retry_flags eflags = bit_or (bit_or eflags p.not_empty) p.anchored

  -- pcre_exec, which reads the memory of the expression.
  abbrev pub exec_at : TPcre → Bytes → ℕ → ℕ → Result Exec
  exec_at ud text startoffset eflags =
      if ud.allocated then ok (ud.pr.pcre_exec text startoffset eflags) else undefined

  unfoldable pub gsub_exec : TPcre → Bytes → ℕ → ℕ → Bool → Result Exec
  gsub_exec ud text eflags st retry =
      exec_at ud text st (if retry then retry_flags eflags else eflags)

  unfoldable pub gmatch_exec : TPcre → Bytes → ℕ → ℕ → Bool → Result Exec
  gmatch_exec ud text eflags startoffset retry =
      exec_at ud text startoffset (if retry then retry_flags eflags else eflags)

unfoldable pub split_exec : TPcre → Bytes → ℕ → ℕ → Result Exec
split_exec ud text eflags offset =
    if ud.allocated then ok (ud.pr.pcre_exec text offset eflags) else undefined

unfoldable pub findmatch_exec : TPcre → Bytes → ℕ → ℕ → Result Exec
findmatch_exec ud text eflags startoffset =
    if ud.allocated then ok (ud.pr.pcre_exec text startoffset eflags) else undefined

-- pcre_free and free of the memory of an expression; a second release is undefined.
unfoldable pub release : TPcre → Result TPcre
release ud = if ud.allocated then ok (record ud { allocated = false }) else undefined

-- `Lpcre_gc`
unfoldable pub lpcre_gc : TPcre → Result TPcre
lpcre_gc ud = if ud.freed then ok ud else release (record ud { freed = true })

-- `chartables_gc`, for the tables of a userdata: what is left, and what is released.
unfoldable pub chartables_gc : Option ℕ → Option ℕ × Option ℕ
chartables_gc t = (none, t)

-- What pcre_exec promises of a match, for an expression without \K in an assertion: it lies between
-- the start of the search and the end of the text, and is not empty where the flags forbid it.
pub record IsPcreExec (p : Pcre) (pr : PcreCode) : Type 0 where
  pub found :
      (text : Bytes) (start eflags : ℕ) (m : Match)
      → pr.pcre_exec text start eflags ≡ matched m
      → (start ≤ m.rm_so) × (m.rm_so ≤ m.rm_eo) × (m.rm_eo ≤ length text)
  pub some_bytes :
      (text : Bytes) (start eflags : ℕ) (m : Match)
      → pr.pcre_exec text start (retry_flags p eflags) ≡ matched m
      → m.rm_so < m.rm_eo
