-- ===== src/Rex/New.antt =====
-- libs/lrexlib/src: the function new of algo.h and what is left of posix/lposix.c, the tables of flags
-- and the text of an expression. `REX_POSIX_EXT` is not defined.
use lua_cmake_source.Base.{
  ℕ, List, [], map, ◌∷◌, ◌++◌, Option, none, some, if◌then◌else◌, Bytes, codes,
}
use lua_cmake_source.Base.Int.{ℤ}
use lua_cmake_source.Rex.Engine.{Posix, TPosix, Result, raised, type_error, compile_regex}
use lua_cmake_source.Rex.Flags.{FlagPair, Fields, TableArg, get_flags}

-- `ud_new`, with the string that is its first argument, if it is one.
unfoldable pub ud_new : Posix → Option Bytes → ℕ → Result TPosix
ud_new p none cflags = raised (type_error 1)
ud_new p (some pattern) cflags = compile_regex p pattern cflags

-- `Posix_tostring`, with the text of a pointer.
unfoldable pub posix_tostring : (TPosix → Bytes) → TPosix → Bytes
posix_tostring address ud =
    if ud.freed
    then codes "rex_posix_regex (deleted)"
    else codes "rex_posix_regex (" ++ (address ud ++ codes ")")

-- The names in the two arrays, each that of a macro without REG_.
abbrev pub posix_flag_names : List Bytes
posix_flag_names =
    codes "EXTENDED"
    ∷ codes "ICASE"
    ∷ codes "NOSUB"
    ∷ codes "NEWLINE"
    ∷ codes "NOTBOL"
    ∷ codes "NOTEOL"
    ∷ []

abbrev pub posix_error_names : List Bytes
posix_error_names =
    codes "NOMATCH"
    ∷ codes "BADPAT"
    ∷ codes "ECOLLATE"
    ∷ codes "ECTYPE"
    ∷ codes "EESCAPE"
    ∷ codes "ESUBREG"
    ∷ codes "EBRACK"
    ∷ codes "EPAREN"
    ∷ codes "EBRACE"
    ∷ codes "BADBR"
    ∷ codes "ERANGE"
    ∷ codes "ESPACE"
    ∷ codes "BADRPT"
    ∷ []

module _ (macro : Bytes → ℤ) where
  abbrev posix_pair : Bytes → FlagPair
  posix_pair key = record { key = key; val = macro key }

  abbrev pub posix_flags : List FlagPair
  posix_flags = map posix_pair posix_flag_names

  abbrev pub posix_error_flags : List FlagPair
  posix_error_flags = map posix_pair posix_error_names

  unfoldable pub posix_get_flags : TableArg → Result Fields
  posix_get_flags t = get_flags t (posix_flags ∷ posix_error_flags ∷ [])
