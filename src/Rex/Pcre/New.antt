-- ===== src/Rex/Pcre/New.antt =====
-- libs/lrexlib/src: the function new of algo.h for the PCRE library, and the userdata of pcre/lpcre.c:
-- expressions and tables of characters.
use lua_cmake_source.Base.{
  ℕ, Bool, true, false, ◌++◌, Option, none, some, if◌then◌else◌, ◌≡◌, ◌≢◌, refl, Bytes, codes,
}
use lua_cmake_source.Base.Int.{ℤ}
use lua_cmake_source.Rex.Engine.{
  Exec, c_string, ok, out_of_fuel, Result, raised, undefined, type_error, ◌>>=◌,
}
use lua_cmake_source.Rex.Pcre.Engine.{
  Pcre, TPcre, Tables, release, CflagsArg, LocaleArg, getcflags, optlocale, compile_regex,
  set_tables, compiled_code, studied_code, gsub_exec, gmatch_exec, split_exec, findmatch_exec,
  lpcre_gc,
}
use lua_cmake_source.Rex.Pcre.Dfa.{lpcre_dfa_exec}

-- `ud_new`, with the string that is its first argument, if it is one.
unfoldable pub ud_new : Pcre → Option Bytes → CflagsArg → LocaleArg → Result TPcre
ud_new p none cf lo = raised (type_error 1)
ud_new p (some pattern) cf lo = getcflags p 2 cf >>= λ cflags.
    optlocale 3 lo >>= λ tables. compile_regex p pattern cflags tables

-- `Lpcre_tostring`, with the text of a pointer.
unfoldable pub lpcre_tostring : (TPcre → Bytes) → TPcre → Bytes
lpcre_tostring address ud =
    if ud.freed
    then codes "rex_pcre_regex (deleted)"
    else codes "rex_pcre_regex (" ++ (address ud ++ codes ")")

-- `Lpcre_maketables`: a userdata with the tables that pcre_maketables makes.
unfoldable pub lpcre_maketables : ℕ → Option ℕ
lpcre_maketables made = some made

value_of :
    {A B : Type 0} (r : Result A) (f : A → Result B) {b : B}
    → (r >>= f) ≡ ok b
    → (a : A) × (f a ≡ ok b)
value_of (ok a) f e = (a, e)
value_of (raised err) f e = cc
value_of undefined f e = cc
value_of out_of_fuel f e = cc

-- What compile_regex makes has memory, which is not released.
compile_regex-fresh :
    (p : Pcre) (pattern : Bytes) (cflags : ℕ) (tables : Tables) {ud : TPcre}
    → compile_regex p pattern cflags tables ≡ ok ud
    → (ud.freed ≡ false) × (ud.allocated ≡ true)
unfolding compile_regex
compile_regex-fresh p pattern cflags tables e =
    let (t, e₁) = value_of (set_tables p tables) _ e in
    let (pr, e₂) = value_of (compiled_code p (p.pcre_compile (c_string pattern) cflags t)) _ e₁ in
    let (pr', e₃) = value_of (studied_code p (p.pcre_study pr)) _ e₂ in fresh (refl, refl) e₃
  where
    fresh :
        {made ud : TPcre}
        → (made.freed ≡ false) × (made.allocated ≡ true)
        → ok made ≡ ok ud
        → (ud.freed ≡ false) × (ud.allocated ≡ true)
    fresh {made} {ud} k e = let same : made ≡ ud = cc in rw (← same) k

-- A search with an expression, of whatever kind.
pub data Search : Type 0 where
  by_gsub : ℕ → ℕ → Bool → Search
  by_gmatch : ℕ → ℕ → Bool → Search
  by_split : ℕ → ℕ → Search
  by_find : ℕ → ℕ → Search

unfoldable pub search : Pcre → TPcre → Bytes → Search → Result Exec
search p ud text (by_gsub eflags st retry) = gsub_exec p ud text eflags st retry
search p ud text (by_gmatch eflags st retry) = gmatch_exec p ud text eflags st retry
search p ud text (by_split eflags offset) = split_exec ud text eflags offset
search p ud text (by_find eflags startoffset) = findmatch_exec ud text eflags startoffset

-- The memory of what compile_regex has made is released by the first call of Lpcre_gc, and by no
-- other, so that it is not released twice. Every search before is defined, and every search after,
-- and dfa_exec, is undefined, for it reads memory that was released.
pub lpcre_gc-once :
    (p : Pcre) (pattern : Bytes) (cflags : ℕ) (tables : Tables) (ud : TPcre)
    → compile_regex p pattern cflags tables ≡ ok ud
    → ((text : Bytes) (how : Search) → search p ud text how ≢ undefined)
      × ((after : TPcre) × (lpcre_gc ud ≡ ok after)
          × (after.allocated ≡ false)
          × (lpcre_gc after ≡ ok after)
          × ((text : Bytes) (how : Search) → search p after text how ≡ undefined)
          × ((text : Bytes) (init : Option ℤ) (eflags : ℕ) (ovecsize wscount : Option ℕ)
              → lpcre_dfa_exec after text init eflags ovecsize wscount ≡ undefined))
unfolding lpcre_gc release search gsub_exec gmatch_exec split_exec findmatch_exec lpcre_dfa_exec
lpcre_gc-once p pattern cflags tables ud e =
    let (kept, allocated) = compile_regex-fresh p pattern cflags tables e in
    (
      before allocated,
      (
        record ud { freed = true; allocated = false },
        rw (kept, allocated) refl,
        refl,
        refl,
        after,
        λ text init eflags ovecsize wscount. refl,
      ),
    )
  where
    before : ud.allocated ≡ true → (text : Bytes) (how : Search) → search p ud text how ≢ undefined
    before a text (by_gsub eflags st retry) = rw a (cc)
    before a text (by_gmatch eflags st retry) = rw a (cc)
    before a text (by_split eflags offset) = rw a (cc)
    before a text (by_find eflags startoffset) = rw a (cc)

    after :
        (text : Bytes) (how : Search)
        → search p (record ud { freed = true; allocated = false }) text how ≡ undefined
    after text (by_gsub eflags st retry) = refl
    after text (by_gmatch eflags st retry) = refl
    after text (by_split eflags offset) = refl
    after text (by_find eflags startoffset) = refl
