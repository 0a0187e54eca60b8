-- ===== src/Rex/Pcre/Flags.antt =====
-- libs/lrexlib/src/pcre/lpcre_f.c: the tables of flags of a PCRE of version 8, and the messages of
-- errors with their names (`generate_error` of lpcre.c). The values of the macros are a parameter.
use lua_cmake_source.Base.{ℕ, List, [], ◌∷◌, ◌++◌, Option, none, some, Bytes, codes}
use lua_cmake_source.Base.Int.{ℤ, minus}
use lua_cmake_source.Base.Decimal.{decimal_ℤ}
use lua_cmake_source.Rex.Engine.{Result}
use lua_cmake_source.Rex.Flags.{
  FlagPair, Fields, set_field, TableArg, a_table, no_fields, get_flags, get_flag_key,
}

-- The names in the three arrays, each that of a macro without PCRE_.
abbrev pub flag_names : List Bytes
flag_names =
    codes "MAJOR"
    ∷ codes "MINOR"
    ∷ codes "CASELESS"
    ∷ codes "MULTILINE"
    ∷ codes "DOTALL"
    ∷ codes "EXTENDED"
    ∷ codes "ANCHORED"
    ∷ codes "DOLLAR_ENDONLY"
    ∷ codes "EXTRA"
    ∷ codes "NOTBOL"
    ∷ codes "NOTEOL"
    ∷ codes "UNGREEDY"
    ∷ codes "NOTEMPTY"
    ∷ codes "UTF8"
    ∷ codes "NO_AUTO_CAPTURE"
    ∷ codes "NO_UTF8_CHECK"
    ∷ codes "AUTO_CALLOUT"
    ∷ codes "PARTIAL"
    ∷ codes "DFA_SHORTEST"
    ∷ codes "DFA_RESTART"
    ∷ codes "FIRSTLINE"
    ∷ codes "DUPNAMES"
    ∷ codes "NEWLINE_CR"
    ∷ codes "NEWLINE_LF"
    ∷ codes "NEWLINE_CRLF"
    ∷ codes "NEWLINE_ANY"
    ∷ codes "NEWLINE_ANYCRLF"
    ∷ codes "BSR_ANYCRLF"
    ∷ codes "BSR_UNICODE"
    ∷ codes "JAVASCRIPT_COMPAT"
    ∷ codes "INFO_OPTIONS"
    ∷ codes "INFO_SIZE"
    ∷ codes "INFO_CAPTURECOUNT"
    ∷ codes "INFO_BACKREFMAX"
    ∷ codes "INFO_FIRSTBYTE"
    ∷ codes "INFO_FIRSTCHAR"
    ∷ codes "INFO_FIRSTTABLE"
    ∷ codes "INFO_LASTLITERAL"
    ∷ codes "INFO_NAMEENTRYSIZE"
    ∷ codes "INFO_NAMECOUNT"
    ∷ codes "INFO_NAMETABLE"
    ∷ codes "INFO_STUDYSIZE"
    ∷ codes "INFO_DEFAULT_TABLES"
    ∷ codes "INFO_OKPARTIAL"
    ∷ codes "INFO_JCHANGED"
    ∷ codes "INFO_HASCRORLF"
    ∷ codes "EXTRA_STUDY_DATA"
    ∷ codes "EXTRA_MATCH_LIMIT"
    ∷ codes "EXTRA_CALLOUT_DATA"
    ∷ codes "EXTRA_TABLES"
    ∷ codes "EXTRA_MATCH_LIMIT_RECURSION"
    ∷ []

abbrev pub error_names : List Bytes
error_names =
    codes "ERROR_NOMATCH"
    ∷ codes "ERROR_NULL"
    ∷ codes "ERROR_BADOPTION"
    ∷ codes "ERROR_BADMAGIC"
    ∷ codes "ERROR_UNKNOWN_OPCODE"
    ∷ codes "ERROR_UNKNOWN_NODE"
    ∷ codes "ERROR_NOMEMORY"
    ∷ codes "ERROR_NOSUBSTRING"
    ∷ codes "ERROR_MATCHLIMIT"
    ∷ codes "ERROR_CALLOUT"
    ∷ codes "ERROR_BADUTF8"
    ∷ codes "ERROR_BADUTF8_OFFSET"
    ∷ codes "ERROR_PARTIAL"
    ∷ codes "ERROR_BADPARTIAL"
    ∷ codes "ERROR_INTERNAL"
    ∷ codes "ERROR_BADCOUNT"
    ∷ codes "ERROR_DFA_UITEM"
    ∷ codes "ERROR_DFA_UCOND"
    ∷ codes "ERROR_DFA_UMLIMIT"
    ∷ codes "ERROR_DFA_WSSIZE"
    ∷ codes "ERROR_DFA_RECURSE"
    ∷ codes "ERROR_RECURSIONLIMIT"
    ∷ codes "ERROR_BADNEWLINE"
    ∷ codes "ERROR_NULLWSLIMIT"
    ∷ []

abbrev pub config_names : List Bytes
config_names =
    codes "CONFIG_UTF8"
    ∷ codes "CONFIG_NEWLINE"
    ∷ codes "CONFIG_LINK_SIZE"
    ∷ codes "CONFIG_POSIX_MALLOC_THRESHOLD"
    ∷ codes "CONFIG_MATCH_LIMIT"
    ∷ codes "CONFIG_STACKRECURSE"
    ∷ codes "CONFIG_UNICODE_PROPERTIES"
    ∷ codes "CONFIG_MATCH_LIMIT_RECURSION"
    ∷ codes "CONFIG_BSR"
    ∷ []

module _ (macro : Bytes → ℤ) where
  -- Each name with the value of its macro.
  abbrev pub pair : Bytes → FlagPair
  pair key = record { key = key; val = macro key }

  abbrev pub pairs : List Bytes → List FlagPair
  pairs [] = []
  pairs (key ∷ keys) = pair key ∷ pairs keys

  abbrev pub pcre_flags : List FlagPair
  pcre_flags = pairs flag_names

  abbrev pub pcre_error_flags : List FlagPair
  pcre_error_flags = pairs error_names

  abbrev pub pcre_config_flags : List FlagPair
  pcre_config_flags = pairs config_names

  unfoldable pub lpcre_get_flags : TableArg → Result Fields
  lpcre_get_flags t = get_flags t (pcre_flags ∷ pcre_error_flags ∷ [])

  -- The loop of `Lpcre_config`; pcre_config gives a value or fails.
  unfoldable pub config_loop : (ℤ → Option ℤ) → Fields → List FlagPair → Fields
  config_loop pcre_config t [] = t
  config_loop pcre_config t (p ∷ ps) = config_loop pcre_config (entered (pcre_config p.val)) ps
    where
      entered : Option ℤ → Fields
      entered none = t
      entered (some val) = set_field t p.key val

  unfoldable pub lpcre_config : (ℤ → Option ℤ) → TableArg → Fields
  lpcre_config pcre_config (a_table t) = config_loop pcre_config t pcre_config_flags
  lpcre_config pcre_config _ = config_loop pcre_config no_fields pcre_config_flags

  -- The message of `generate_error`, for the code without its sign.
  abbrev message_of : ℤ → Option Bytes → Bytes
  message_of code (some key) = codes "error PCRE_" ++ key
  message_of code none = codes "PCRE error code " ++ decimal_ℤ code

  unfoldable pub error_message : ℕ → Bytes
  error_message errcode = message_of (minus errcode) (get_flag_key pcre_error_flags (minus errcode))
