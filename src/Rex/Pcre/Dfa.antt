-- ===== src/Rex/Pcre/Dfa.antt =====
-- libs/lrexlib/src/pcre/lpcre.c: the method dfa_exec.
use lua_cmake_source.Base.{
  ℕ, zero, suc, ◌+◌, ◌/◌, List, [], ◌∷◌, Option, none, some, length, Bytes, if◌then◌else◌,
}
use lua_cmake_source.Base.Int.{ℤ}
use lua_cmake_source.Rex.Engine.{Result, ok, undefined, ◌>>=◌, generate_error}
use lua_cmake_source.Rex.Find.{get_startoffset}
use lua_cmake_source.Rex.Pcre.Engine.{
  TPcre, DfaExec, dfa_matched, dfa_partial, dfa_no_match, dfa_failed,
}

-- The number of matches, which is 0 if there is no room for all, or PCRE_ERROR_PARTIAL.
pub data Count : Type 0 where
  count : ℕ → Count
  partial : Count

-- The values returned: nil, or the start of the matches, the table of their ends and the result.
pub data DfaValues : Type 0 where
  none_found : DfaValues
  dfa_found : ℕ → List ℕ → Count → DfaValues

-- An int of the vector, which pcre_dfa_exec has written or malloc has left as it was.
abbrev pub read_int : List ℕ → ℕ → Result ℕ
read_int [] i = undefined
read_int (n ∷ ns) zero = ok n
read_int (n ∷ ns) (suc i) = read_int ns i

-- The loop over the ends of the matches, for so many from `i` on.
unfoldable pub ends_loop : List ℕ → ℕ → ℕ → Result (List ℕ)
ends_loop ovector zero i = ok []
ends_loop ovector (suc k) i =
    read_int ovector (i + i + 1) >>= λ n. ends_loop ovector k (suc i) >>= λ ns. ok (n ∷ ns)

abbrev pub found_values : List ℕ → ℕ → Count → Result DfaValues
found_values ovector max res =
    read_int ovector 0 >>= λ n. ends_loop ovector max 0 >>= λ ns. ok (dfa_found (n + 1) ns res)

-- The number of matches in the vector.
abbrev pub max_matches : ℕ → ℕ → ℕ
max_matches ovecsize zero = ovecsize / 2
max_matches ovecsize (suc n) = suc n

abbrev pub dfa_values : ℕ → DfaExec → Result DfaValues
dfa_values ovecsize (dfa_matched n ovector) =
    found_values ovector (max_matches ovecsize n) (count n)
dfa_values ovecsize (dfa_partial ovector) = found_values ovector 1 partial
dfa_values ovecsize dfa_no_match = ok none_found
dfa_values ovecsize (dfa_failed errcode) = generate_error errcode

abbrev pub opt_count : Option ℕ → ℕ → ℕ
opt_count none n = n
opt_count (some k) n = k

-- `Lpcre_dfa_exec`, for sizes that are not negative.
unfoldable pub lpcre_dfa_exec :
    TPcre → Bytes → Option ℤ → ℕ → Option ℕ → Option ℕ → Result DfaValues
lpcre_dfa_exec ud text init eflags ovecsize wscount =
    let startoffset = get_startoffset init (length text) in
    let size = opt_count ovecsize 100 in
    if ud.allocated
    then dfa_values size (ud.pr.pcre_dfa_exec text startoffset eflags size (opt_count wscount 50))
    else undefined
