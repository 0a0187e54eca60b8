-- ===== src/MixLua/Skip.antt =====
-- libs/mixlua/mixlua.c: brackets, strings and comments of Lua code are skipped. Each function gives
-- the position behind what it skips.
use lua_cmake_source.Base.{
  ℕ, zero, suc, ◌+◌, ◌%◌, not, ◌&&◌, ◌||◌, Option, none, some, ltb, ◌==◌, if◌then◌else◌,
}
use lua_cmake_source.MixLua.State.{Source, size, char_at, Step, ok, raised, out_of_fuel, ◌>>=◌}

-- The loop over `=` signs in `mix_bracket_open` and `mix_bracket_close`: the position and the count.
unfoldable pub skip_equals : Source → ℕ → ℕ → ℕ → Step (ℕ × ℕ)
skip_equals s zero pos cnt = out_of_fuel
skip_equals s (suc f) pos cnt =
    let next = skip_equals s f (pos + 1) (cnt + 1) in
    if ltb pos (size s) && char_at s pos == b'=' then next else ok (pos, cnt)

-- `mix_bracket_open` and `mix_bracket_close` for the bracket `c`: the level and the position behind,
-- or none for -1, which leaves the position.
unfoldable pub bracket : ℕ → Source → ℕ → Step (Option (ℕ × ℕ))
bracket c s pos =
    if not (char_at s pos == c)
    then ok none
    else (skip_equals s (size s + 1) (pos + 1) 0 >>= λ (p, cnt).
        if p == size s || not (char_at s p == c) then ok none else ok (some (cnt, p + 1)))

abbrev pub bracket_open : Source → ℕ → Step (Option (ℕ × ℕ))
bracket_open = bracket b'['

abbrev pub bracket_close : Source → ℕ → Step (Option (ℕ × ℕ))
bracket_close = bracket b']'

-- `mix_skip_string`
unfoldable pub skip_string : Source → ℕ → ℕ → ℕ → Step ℕ
skip_string s type zero pos = out_of_fuel
skip_string s type (suc f) pos =
    let next = skip_string s type f (if char_at s pos == b'\\' then pos + 2 else pos + 1) in
    if ltb pos (size s) then (if char_at s pos == type then ok (pos + 1) else next) else raised

-- `mix_skip_lstring`
unfoldable pub skip_lstring : Source → ℕ → ℕ → ℕ → Step ℕ
skip_lstring s level zero pos = out_of_fuel
skip_lstring s level (suc f) pos =
    if ltb pos (size s)
    then (bracket_close s pos >>= λ b. elim b [
      | none ↦ skip_lstring s level f (pos + 1)
      | some (tmp, p) ↦ let next = skip_lstring s level f p in if tmp == level then ok p else next
    ])
    else raised

-- The loop of `mix_skip_comment` to the end of the line.
unfoldable pub skip_line : Source → ℕ → ℕ → Step ℕ
skip_line s zero pos = out_of_fuel
skip_line s (suc f) pos =
    let next = skip_line s f (pos + 1) in
    if ltb pos (size s) && not (char_at s pos == b'\n') then next else ok pos

-- `mix_skip_comment`, which hands the level of a long comment to `mix_skip_string` as the closing
-- character.
unfoldable pub skip_comment : Source → ℕ → Step ℕ
skip_comment s pos = bracket_open s pos >>= λ b. elim b [
  | none ↦ skip_line s (size s + 1) pos
  | some (level, p) ↦ skip_string s (level % 256) (size s + 1) p
]
