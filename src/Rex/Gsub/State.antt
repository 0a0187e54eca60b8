-- ===== src/Rex/Gsub/State.antt =====
-- libs/lrexlib/src/algo.h: the arguments of gsub and the state of its loop.
use lua_cmake_source.Base.{ℕ, Bool, true, false, List, Bytes}
use lua_cmake_source.Base.Int.{ℤ, pos, negsuc}
use lua_cmake_source.LuaValue.{Value}
use lua_cmake_source.Rex.Buffer.{TBuffer}
use lua_cmake_source.Rex.Engine.{Posix, TPosix, type_error, Result, ok, raised, compile_regex}

-- The first two results of a call, nil where there are fewer, or the error that it raises.
pub data Called : Type 0 where
  returned : Value → Value → Called
  threw : Value → Called

-- The Lua state that the arguments of a call may change, and what the code takes from Lua: the
-- text and the int of a number, room on the stack, the index of the table and the calls of the two
-- functions among the arguments.
pub record Lua (W : Type 0) : Type 0 where
  pub number_text : ℕ → Bytes
  pub to_int : ℕ → ℤ
  pub checkstack : ℕ → Bool
  pub gettable : W → Value → W × Called
  pub call : W → List Value → W × Called
  pub ask : W → ℕ → ℕ → Value → W × Called

-- The second, third and fourth argument. A number as the third is converted to a string before.
pub data Pattern (R : Type 0) : Type 0 where
  source : Bytes → Pattern R
  regex : R → Pattern R
  bad_argument : Pattern R

pub data RepType : Type 0 where
  template : Bytes → RepType
  a_table : RepType
  a_function : RepType
  no_replacement : RepType

pub data Limit : Type 0 where
  absent : Limit
  a_limit_function : Limit
  at_number : ℤ → Limit
  no_limit : Limit

-- `maxmatch`: GSUB_UNLIMITED, GSUB_CONDITIONAL, or a number.
pub data MaxMatch : Type 0 where
  unlimited : MaxMatch
  conditional : MaxMatch
  at_most : ℕ → MaxMatch

abbrev pub not_negative : ℤ → ℕ
not_negative (pos n) = n
not_negative (negsuc n) = 0

unfoldable pub opt_limit : Limit → Result MaxMatch
opt_limit absent = ok unlimited
opt_limit a_limit_function = ok conditional
opt_limit (at_number a) = ok (at_most (not_negative a))
opt_limit no_limit = raised (type_error 4)

unfoldable pub check_pattern : {R : Type 0} → Pattern R → Result (Pattern R)
check_pattern bad_argument = raised (type_error 2)
check_pattern p = ok p

unfoldable pub check_replacement : RepType → Result RepType
check_replacement no_replacement = raised (type_error 3)
check_replacement r = ok r

unfoldable pub pattern_regex : Posix → Pattern TPosix → ℕ → Result TPosix
pattern_regex p (source s) cflags = compile_regex p s cflags
pattern_regex p (regex ud) cflags = ok ud
pattern_regex p bad_argument cflags = raised (type_error 2)

pub record State (W : Type 0) : Type 0 where
  pub world : W
  pub n_match : ℕ
  pub n_subst : ℕ
  pub st : ℕ
  pub buf_out : TBuffer
  pub buf_temp : TBuffer
  pub maxmatch : MaxMatch

-- A replacement was written to the buffer: the value on the stack, and `curr_subst`.
pub record Replaced (W : Type 0) : Type 0 where
  pub world : W
  pub value : Value
  pub buffer : TBuffer
  pub curr_subst : Bool

abbrev pub is_conditional : MaxMatch → Bool
is_conditional conditional = true
is_conditional _ = false
