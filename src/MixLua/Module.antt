-- ===== src/MixLua/Module.antt =====
-- libs/mixlua/mixlua.c: the functions that Lua code calls, with their options. The arguments are
-- those that the checks of the Lua API convert to strings; `none` is one that is not given.
use lua_cmake_source.Base.{
  ℕ, Bool, List, [], ◌∷◌, ◌++◌, Option, none, some, ◌==◌, if◌then◌else◌, length, Bytes, codes,
}
use lua_cmake_source.MixLua.State.{Source, Step, ok, ◌>>=◌}
use lua_cmake_source.MixLua.Reader.{Ending, ended, ended_with_error, ended_by_raise, start, chunks}

-- What Lua code gets: the compiled chunk, nil and a message, or a Lua error on an argument.
pub data Reply : Type 0 where
  compiled : Bytes → Reply
  fails : Bytes → Reply
  bad_argument : ℕ → Bytes → Reply

-- `lua_load` on the chunks of a reader, with the name of the chunk: an error that it meets before
-- it asks for what comes behind them, or else what it makes of the whole.
pub data Loaded : Type 0 where
  stopped : Bytes → Loaded
  function : Bytes → Loaded
  refused : Bytes → Loaded

-- Lua's part: `lua_load`, and the position of the caller that `luaL_error` puts before a message.
pub record Lua : Type 0 where
  pub lua_load : List Bytes → Option Bytes → Loaded
  pub where_1 : Bytes

abbrev pub err_badeof : Bytes
err_badeof = codes "unexpected end of file"

-- The end of `mix_loadbuffer`: the reader's own error goes before the result of `lua_load`, which
-- catches an error that the reader raises.
unfoldable pub load_result : Bytes → Loaded → Ending → Reply
load_result where_1 (stopped message) e = fails message
load_result where_1 (function f) ended = compiled f
load_result where_1 (refused message) ended = fails message
load_result where_1 _ ended_with_error = fails err_badeof
load_result where_1 _ ended_by_raise = fails (where_1 ++ err_badeof)

unfoldable pub mix_loadbuffer : Lua → ℕ → Source → Option Bytes → Step Reply
mix_loadbuffer l fuel s name = start s >>= λ c.
    chunks s fuel c >>= λ (given, e). ok (load_result l.where_1 (l.lua_load given name) e)

-- The options at the indices 2 to 5.
pub record Options : Type 0 where
  pub d2l_option : Bytes
  pub l2d_option : Bytes
  pub exp_option : Option Bytes
  pub out_option : Option Bytes

abbrev pub given : Option Bytes → Bytes → Bytes
given none default = default
given (some s) default = s

abbrev empty : Bytes → Bool
empty s = length s == 0

-- The state that `mix_stateopt` makes, for a buffer and the memory behind it.
abbrev pub state_of : Options → Bytes → (ℕ → ℕ) → Source
state_of o buffer behind = record {
  buffer = buffer;
  behind = behind;
  d2l = o.d2l_option;
  l2d = o.l2d_option;
  exp = given o.exp_option (codes "=");
  out = given o.out_option (codes "io.write") ++ codes "('";
}

-- `mix_stateopt`: the state with its separators, handed to the rest of the function.
unfoldable pub mix_stateopt : Options → Bytes → (ℕ → ℕ) → (Source → Step Reply) → Step Reply
mix_stateopt o buffer behind rest =
    if empty o.d2l_option
    then ok (bad_argument 2 (codes "d2l separator cannot be empty"))
    else if empty o.l2d_option
    then ok (bad_argument 3 (codes "l2d separator cannot be empty"))
    else if empty (given o.exp_option (codes "="))
    then ok (bad_argument 4 (codes "exp separator cannot be empty"))
    else rest (state_of o buffer behind)

-- `mix_loadstring`; the program has no name. It is a Lua string, with a zero byte behind it.
unfoldable pub mix_loadstring : Lua → ℕ → Bytes → (ℕ → ℕ) → Options → Step Reply
mix_loadstring l fuel program behind o =
    mix_stateopt o program behind (λ s. mix_loadbuffer l fuel s none)

-- What the file system gives for a name: no file, a file of so many bytes that cannot be read, or
-- its contents.
pub data File : Type 0 where
  no_file : File
  unreadable : File
  contents : Bytes → File

-- `fread` of one block of the size of the file: a block of no bytes is never read. The memory has
-- the size of the file and no zero byte behind, so that C does not define what a look-ahead at the
-- end of the buffer reads: it is what the parameter `behind` says, from its first byte on.
unfoldable pub mix_loadfile : Lua → ℕ → (Bytes → File) → Bytes → (ℕ → ℕ) → Options → Step Reply
mix_loadfile l fuel opened filename behind o =
    mix_stateopt o [] behind (λ checked. read_file (opened filename) checked)
  where
    cannot_read : Step Reply
    cannot_read = ok (fails (codes "cannot read file <%>"))

    read_file : File → Source → Step Reply
    read_file no_file checked = ok (fails (codes "cannot open file <" ++ (filename ++ codes ">")))
    read_file unreadable checked = cannot_read
    read_file (contents []) checked = cannot_read
    read_file (contents (c ∷ cs)) checked =
        mix_loadbuffer l fuel
          (record {
            buffer = c ∷ cs;
            behind = behind;
            d2l = checked.d2l;
            l2d = checked.l2d;
            exp = checked.exp;
            out = checked.out;
          })
          (some filename)
