-- ===== src/Luabins/Load/Log2.antt =====
-- libs/luabins/src/luainternals.c and luainternals.h: `luaO_log2` and `ceillog2`.
use lua_cmake_source.Base.{
  ℕ, zero, suc, ◌+◌, ◌-◌, ◌/◌, ◌^◌, List, ◌∷◌, ◌++◌, ltb, if◌then◌else◌, replicate, get_or,
}

-- The table `log_2`: 2 ^ (j - 1) entries `j` follow the first entry, for j from 1 to 8.
abbrev pub log_2 : List ℕ
log_2 =
    0
    ∷ 1
    ∷ 2
    ∷ 2
    ∷ (replicate 4 3
        ++ (replicate 8 4
            ++ (replicate 16 5 ++ (replicate 32 6 ++ (replicate 64 7 ++ replicate 128 8)))))

unfoldable pub log_2_at : ℕ → ℕ
log_2_at x = get_or log_2 x 0

-- The loop, with `l` one more than in the source, so that it starts at 0. An unsigned int has
-- four bytes, so that three rounds are enough.
unfoldable pub log2_loop : ℕ → ℕ → ℕ → ℕ
log2_loop zero l x = l + log_2_at x
log2_loop (suc rounds) l x =
    let next = log2_loop rounds (l + 8) (x / 2 ^ 8) in if ltb x 256 then l + log_2_at x else next

-- `luaO_log2(x - 1) + 1`.
unfoldable pub ceillog2 : ℕ → ℕ
ceillog2 x = log2_loop 3 0 (x - 1)

abbrev pub max_bits : ℕ
max_bits = 26

abbrev pub max_asize : ℕ
max_asize = 2 ^ 26
