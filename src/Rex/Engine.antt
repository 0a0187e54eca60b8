-- ===== src/Rex/Engine.antt =====
-- libs/lrexlib/src/posix/lposix.c: compiled expressions and the calls of regexec. The POSIX
-- library is a parameter; `REX_POSIX_EXT` is not defined, as with the C library of GNU.
use lua_cmake_source.Base.{
  ℕ, ◌≤◌, Bool, true, false, not, ◌||◌, List, [], ◌∷◌, leb, ltb, ◌==◌, if◌then◌else◌, ◌≡◌, length,
  drop, between, get_or, All, Bytes, bit_and, bit_or, ◌-◌,
}
use lua_cmake_source.LuaValue.{Value, str, boolean}

-- A regmatch_t: not set, or from `rm_so` to `rm_eo`.
pub data Sub : Type 0 where
  unset : Sub
  span : ℕ → ℕ → Sub

-- What regexec writes: the whole match, and one entry for each subexpression.
pub record Match : Type 0 where
  pub rm_so : ℕ
  pub rm_eo : ℕ
  pub subs : List Sub

pub data Exec : Type 0 where
  matched : Match → Exec
  no_match : Exec
  failed : ℕ → Exec

-- A regex_t, with regexec on a C string and the flags of the call.
pub record Regex : Type 0 where
  pub re_nsub : ℕ
  pub regexec : Bytes → ℕ → Exec

pub data Compiled : Type 0 where
  compiled : Regex → Compiled
  refused : ℕ → Compiled

pub record Posix : Type 0 where
  pub regcomp : Bytes → ℕ → Compiled
  pub reg_nosub : ℕ
  pub reg_notbol : ℕ

-- TPosix. With REG_NOSUB regexec writes nothing, and `match` stays as malloc left it.
pub record TPosix : Type 0 where
  pub r : Regex
  pub nsub : ℕ
  pub nosub : Bool
  pub freed : Bool

pub data LuaError : Type 0 where
  type_error : ℕ → LuaError
  regex_error : ℕ → LuaError
  no_stack_slots : ℕ → LuaError
  invalid_capture_index : LuaError
  invalid_replacement : Value → LuaError
  thrown : Value → LuaError
  bad_locale : LuaError
  not_chartables : ℕ → LuaError
  not_a_table : LuaError
  compile_error : Bytes → ℕ → LuaError
  study_error : Bytes → LuaError

-- `undefined`: memory is read outside an object, after it was freed or before it was written, or an
-- int overflows.
pub data Result {ℓ} (A : Type ℓ) : Type ℓ where
  ok : A → Result A
  raised : LuaError → Result A
  undefined : Result A
  out_of_fuel : Result A

infixl 5 ◌>>=◌
abbrev pub ◌>>=◌ {ℓ κ} : {A : Type ℓ} {B : Type κ} → Result A → (A → Result B) → Result B
ok a >>= f = f a
raised e >>= f = raised e
undefined >>= f = undefined
out_of_fuel >>= f = out_of_fuel

-- A string as a C function reads it: up to the first zero byte.
unfoldable pub c_string : Bytes → Bytes
c_string [] = []
c_string (c ∷ cs) = let rest = c_string cs in if c == 0 then [] else c ∷ rest

-- What regexec promises of a match: it lies in the string, and there is an entry for each
-- subexpression, which lies in the string where it is set.
abbrev InString : ℕ → Sub → Type 0
InString n unset = Unit
InString n (span b e) = (b ≤ e) × (e ≤ n)

pub record IsMatchOf (r : Regex) (s : Bytes) (m : Match) : Type 0 where
  pub ordered : m.rm_so ≤ m.rm_eo
  pub inside : m.rm_eo ≤ length s
  pub all_subs : length m.subs ≡ r.re_nsub
  pub subs_inside : All (InString (length s)) m.subs

abbrev pub IsRegexec : Regex → Type 0
IsRegexec r =
    (s : Bytes) (eflags : ℕ) (m : Match) → r.regexec s eflags ≡ matched m → IsMatchOf r s m

-- `ALG_SUBBEG` and `ALG_SUBEND` of a subexpression, counted from 1.
abbrev pub sub_at : Match → ℕ → Sub
sub_at m i = get_or m.subs (i - 1) unset

abbrev pub sub_text : Bytes → Sub → Bytes
sub_text text unset = []
sub_text text (span b e) = between text b e

-- `ALG_PUSHSUB_OR_FALSE`
abbrev pub sub_or_false : Bytes → Sub → Value
sub_or_false text unset = boolean false
sub_or_false text (span b e) = str (between text b e)

-- `generate_error`
abbrev pub generate_error {ℓ} : {A : Type ℓ} → ℕ → Result A
generate_error errcode = raised (regex_error errcode)

abbrev pub readable : Bool → Exec → Result Exec
readable true (matched m) = undefined
readable _ e = ok e

-- regexec at a position of the subject, and then the match that its caller reads.
unfoldable pub regexec_at : TPosix → Bytes → ℕ → ℕ → Result Exec
regexec_at ud text offset eflags =
    if ud.freed || not (leb offset (length text))
    then undefined
    else readable ud.nosub (ud.r.regexec (c_string (drop offset text)) eflags)

module _ (p : Posix) where
  unfoldable pub compile_regex : Bytes → ℕ → Result TPosix
  compile_regex pattern cflags = elim (p.regcomp (c_string pattern) cflags) [
    | refused errcode ↦ generate_error errcode
    | compiled r ↦
        let nosub = not (bit_and cflags p.reg_nosub == 0) in
        ok (record { r = r; nsub = if nosub then 0 else r.re_nsub; nosub = nosub; freed = false })
  ]

  -- The flags of the second and later searches of an iteration.
  abbrev pub later_flags : ℕ → ℕ → ℕ
  later_flags eflags offset = if ltb 0 offset then bit_or eflags p.reg_notbol else eflags

  unfoldable pub gmatch_exec : TPosix → Bytes → ℕ → ℕ → Result Exec
  gmatch_exec ud text eflags startoffset =
      regexec_at ud text startoffset (later_flags eflags startoffset)

  unfoldable pub gsub_exec : TPosix → Bytes → ℕ → ℕ → Result Exec
  gsub_exec ud text eflags st = regexec_at ud text st (later_flags eflags st)

  unfoldable pub split_exec : TPosix → Bytes → ℕ → ℕ → Result Exec
  split_exec ud text eflags offset = regexec_at ud text offset (later_flags eflags offset)

unfoldable pub findmatch_exec : TPosix → Bytes → ℕ → ℕ → Result Exec
findmatch_exec ud text eflags startoffset = regexec_at ud text startoffset eflags

-- `gmatch_pushsubject`
unfoldable pub gmatch_pushsubject : Bytes → Bytes
gmatch_pushsubject text = c_string text

-- `Posix_gc`: the userdata, and whether its memory is released by this call.
unfoldable pub posix_gc : TPosix → TPosix × Bool
posix_gc ud =
    if ud.freed
    then (ud, false)
    else (record { r = ud.r; nsub = ud.nsub; nosub = ud.nosub; freed = true }, true)
