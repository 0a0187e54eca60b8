-- ===== src/MixLua/Tests.antt =====
-- The theorems on the preprocessor at small programs.
use lua_cmake_source.Base.{
  ℕ, zero, suc, ◌+◌, ◌-◌, ◌%◌, ◌≤◌, Bool, false, [], ◌∷◌, ◌++◌, All, ◌≡◌, ◌≢◌, refl, arith, length,
  codes, Bytes, none, some, List, concat, inl,
}
use lua_cmake_source.MixLua.State.{starts_at, Source, lua, char_at, ok, raised, out_of_fuel, ◌>>=◌}
use lua_cmake_source.MixLua.Skip.{bracket_open, bracket, skip_equals, skip_comment}
use lua_cmake_source.MixLua.Reader.{
  code_loop, code_part, data_part, sh_loop, ended, mix_reader, data_loop, slice, temp_size, start,
  chunks, Ending, at,
}
use lua_cmake_source.MixLua.Data.{escape_all}
use lua_cmake_source.MixLua.Data.Quoted.{read_string, read_string_return, Inline}
use lua_cmake_source.MixLua.Data.Section.{HasNoReturn, data_loop-read_string}
use lua_cmake_source.MixLua.Total.{Ends, mix_reader_ends}
use lua_cmake_source.MixLua.Ending.{IsText, HasLine}
use lua_cmake_source.MixLua.Page.{Program}
use lua_cmake_source.MixLua.Page.Whole.{GivesAll, start-chunks-Program}
use lua_cmake_source.MixLua.Faults.Unclosed.{Refused, mix_reader_unclosed}
use lua_cmake_source.MixLua.Module.{
  Reply, compiled, Lua, function, Options, load_result, mix_loadstring,
}
use lua_cmake_source.MixLua.Loaded.{mix_loadstring-Program}
use lua_cmake_source.MixLua.Faults.{Absent, skip_comment_long}

-- A zero byte, and then memory that holds something else.
abbrev behind_string : ℕ → ℕ
behind_string zero = 0
behind_string (suc i) = b'='

abbrev program : Bytes → Source
program bs = record {
  buffer = bs;
  behind = behind_string;
  d2l = codes "<?";
  l2d = codes "?>";
  exp = codes "=";
  out = codes "io.write('";
}

abbrev page : Source
page = program (codes "a<?= b ?>'")

-- What `lua_load` gets for a program with data and an expression.
chunks_of_page :
    (start page >>= λ c. chunks page 20 c)
    ≡ ok (
      codes "io.write('"
          ∷ codes "a"
          ∷ codes "')"
          ∷ codes "io.write("
          ∷ codes " b "
          ∷ codes ")"
          ∷ codes "io.write('"
          ∷ codes "\\'"
          ∷ codes "')"
          ∷ [],
      ended,
    )
unfolding start chunks mix_reader data_part data_loop code_part code_loop slice starts_at char_at
    sh_loop
chunks_of_page = refl

page-IsText : IsText page
page-IsText = record {
  zero_behind = refl;
  d2l_bytes = omega arith;
  l2d_bytes = omega arith;
  exp_bytes = omega arith;
  some_d2l = omega arith;
  some_l2d = omega arith;
}

page-HasLine : HasLine page
unfolding char_at
page-HasLine e = cc e

start-chunks-Program_example :
    Ends
      (λ (r : List Bytes × Ending). r.1 ≡ ended → Program page (concat r.0))
      (start page >>= λ c. chunks page 100 c)
    × ((bs : Bytes) → Program page bs → GivesAll bs (start page >>= λ c. chunks page 100 c))
start-chunks-Program_example =
    start-chunks-Program page 100 page-IsText (omega arith) page-HasLine (omega arith)

-- A Lua whose every chunk compiles to the same.
abbrev lua_5 : Lua
lua_5 = record { lua_load = λ given name. function (codes "f"); where_1 = codes "t:1: " }

abbrev options : Options
options = record {
  d2l_option = codes "<?";
  l2d_option = codes "?>";
  exp_option = none;
  out_option = none;
}

mix_loadstring-Program_example :
    (r : Reply) × (mix_loadstring lua_5 100 page.buffer behind_string options ≡ ok r)
    × ((code : Bytes)
        → r ≡ compiled code
        → (cs : List Bytes) × (lua_5.lua_load cs none ≡ function code) × Program page (concat cs))
    × ((bs : Bytes)
        → Program page bs
        → (cs : List Bytes) × (concat cs ≡ bs)
          × (r ≡ load_result lua_5.where_1 (lua_5.lua_load cs none) ended))
mix_loadstring-Program_example =
    mix_loadstring-Program lua_5 100 page.buffer behind_string options page-IsText (omega arith)
      page-HasLine (omega arith)

-- A program whose code is followed by `-->`.
abbrev arrow : Source
arrow = record (program (codes "<? a -->")) { l2d = codes "-->" }

mix_reader_unclosed_example : Ends (Refused arrow refl refl) (mix_reader arrow (at 2 lua))
mix_reader_unclosed_example = mix_reader_unclosed arrow refl refl lua 2 (inl refl) (omega arith)

mix_reader_ends_example :
    mix_reader (program (codes "a = [[ ?> b")) (record { pos = 0; token = lua; failed = false })
    ≢ out_of_fuel
mix_reader_ends_example =
    mix_reader_ends (program (codes "a = [[ ?> b"))
      (record { pos = 0; token = lua; failed = false })

-- A program of one quote.
quote-HasNoReturn : HasNoReturn (program (codes "'"))
unfolding char_at
quote-HasNoReturn zero inside h = omega (arith, h)
quote-HasNoReturn (suc i) inside h = absurd (omega arith)

data_loop-read_string_example :
    (r : Bool × ℕ × Bytes) × (data_loop (program (codes "'")) 2 0 [] ≡ ok r)
    × (0 ≤ r.1)
    × (length r.2 ≤ temp_size)
    × (read_string (r.1 - 0 + 1) b'\'' (r.2 ++ b'\'' ∷ codes ")")
        ≡ some (slice (program (codes "'")) 0 (r.1 - 0), codes ")"))
data_loop-read_string_example =
    data_loop-read_string (program (codes "'")) 0 (codes ")") quote-HasNoReturn

two-Inline : All Inline (codes "ab")
two-Inline = (
  ((λ e. omega (arith, e)), (λ e. omega (arith, e))),
  (((λ e. omega (arith, e)), (λ e. omega (arith, e))), tt),
)

read_string_return_example :
    read_string 9 b'\'' (escape_all (codes "ab") ++ (escape_all (13 ∷ []) ++ codes "\\\n')")) ≡ none
read_string_return_example = read_string_return (codes "ab") (codes "\\\n')") 9 two-Inline

-- What follows `--` in a long comment that is closed.
abbrev comment : Source
comment = program (codes "[[]]")

comment_opened : bracket_open comment 0 ≡ ok (some (0, 2))
unfolding bracket skip_equals char_at
comment_opened = refl

comment_without_zero : Absent comment (0 % 256) 2
unfolding char_at
comment_without_zero zero l h = absurd (omega arith)
comment_without_zero (suc zero) l h = absurd (omega arith)
comment_without_zero (suc (suc zero)) l h = refl
comment_without_zero (suc (suc (suc zero))) l h = refl
comment_without_zero (suc (suc (suc (suc i)))) l h = absurd (omega arith)

skip_comment_long_example : skip_comment comment 0 ≡ raised
skip_comment_long_example = skip_comment_long comment 0 0 2 comment_opened comment_without_zero
