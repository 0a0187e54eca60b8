-- ===== src/Rex/Plain.antt =====
-- libs/lrexlib/src/algo.h: plainfind.
pub mod First
use lua_cmake_source.Base.{
  ℕ, zero, suc, ◌+◌, Bool, true, false, ◌&&◌, [], ◌∷◌, Option, none, some, leb, ◌==◌, if◌then◌else◌,
  length, drop, Bytes,
}
use lua_cmake_source.Base.Int.{ℤ}
use lua_cmake_source.Rex.Find.{get_startoffset}

-- The pattern at the start of a text, with what is compared of each character.
unfoldable pub equal_at : (ℕ → ℕ) → Bytes → Bytes → Bool
equal_at fold [] f = true
equal_at fold (p ∷ ps) [] = false
equal_at fold (p ∷ ps) (c ∷ cs) = fold c == fold p && equal_at fold ps cs

-- for (; from <= end; ++from)
unfoldable pub plain_loop : (ℕ → ℕ) → Bytes → Bytes → ℕ → Option ℕ
plain_loop fold pattern [] i = none
plain_loop fold pattern (c ∷ cs) i =
    let next = plain_loop fold pattern cs (i + 1) in
    if leb (length pattern) (length (c ∷ cs))
    then (if equal_at fold pattern (c ∷ cs) then some i else next)
    else none

abbrev pub folded : (ℕ → ℕ) → Bool → ℕ → ℕ
folded toupper ci c = if ci then toupper c else c

abbrev pub positions : ℕ → Option ℕ → Option (ℕ × ℕ)
positions patlen none = none
positions patlen (some i) = some (i + 1, i + patlen)

-- `plainfind_func`: the first and the last position, or none for nil. `toupper` is that of the C
-- library.
unfoldable pub plainfind_func : (ℕ → ℕ) → Bytes → Bytes → Option ℤ → Bool → Option (ℕ × ℕ)
plainfind_func toupper text pattern init ci =
    let from = get_startoffset init (length text) in
    if length pattern == 0 && leb from (length text)
    then positions (length pattern) (some from)
    else positions (length pattern) (plain_loop (folded toupper ci) pattern (drop from text) from)
