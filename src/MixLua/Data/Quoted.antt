-- ===== src/MixLua/Data/Quoted.antt =====
-- How Lua reads a quoted string: `read_string` of libs/lua/src/llex.c. A data section becomes such
-- a string, so that this is what tells whether the data arrive.
use lua_cmake_source.Base.{
  ℕ, zero, suc, ◌+◌, ◌-◌, ◌*◌, ◌<◌, Bool, true, false, ◌&&◌, ◌||◌, [], ◌∷◌, ◌++◌, ◌≡◌, ◌≢◌, ◌⊎◌,
  refl, arith, Option, none, some, leb, ltb, ◌==◌, if◌then◌else◌, Bool-cases, inl, inr, length,
  Bytes, All,
}
use lua_cmake_source.MixLua.Data.{escape_all}
use lua_cmake_source.MixLua.Reader.{must_escape}

-- What is saved up to the delimiter, and what stands behind it.
abbrev pub Read : Type 0
Read = Option (Bytes × Bytes)

abbrev save : ℕ → Read → Read
save c none = none
save c (some (s, rest)) = some (c ∷ s, rest)

abbrev is_newline : ℕ → Bool
is_newline c = c == 10 || c == 13

-- `inclinenumber` skips `\n`, `\r`, `\n\r` or `\r\n`.
abbrev inclinenumber : ℕ → Bytes → Bytes
inclinenumber old [] = []
inclinenumber old (c ∷ cs) =
    if is_newline c && (if c == old then false else true) then cs else c ∷ cs

abbrev is_digit : ℕ → Bool
is_digit c = leb b'0' c && leb c b'9'

-- Up to three digits.
abbrev read_digits : ℕ → ℕ → Bytes → ℕ × Bytes
read_digits zero c cs = (c, cs)
read_digits (suc n) c [] = (c, [])
read_digits (suc n) c (d ∷ ds) =
    if is_digit d then read_digits n (10 * c + (d - b'0')) ds else (c, d ∷ ds)

abbrev small_byte : (Bytes → Read) → ℕ × Bytes → Read
small_byte next (c, cs) = if ltb 255 c then none else save c (next cs)

-- Behind a backslash.
abbrev read_escape : (Bytes → Read) → Bytes → Read
read_escape next [] = none
read_escape next (c ∷ cs) =
    if c == b'a'
    then save 7 (next cs)
    else if c == b'b'
    then save 8 (next cs)
    else if c == b'f'
    then save 12 (next cs)
    else if c == b'n'
    then save 10 (next cs)
    else if c == b'r'
    then save 13 (next cs)
    else if c == b't'
    then save 9 (next cs)
    else if c == b'v'
    then save 11 (next cs)
    else if is_newline c
    then save 10 (next (inclinenumber c cs))
    else if is_digit c
    then small_byte next (read_digits 3 0 (c ∷ cs))
    else save c (next cs)

-- `fuel` is the number of characters that may be read.
unfoldable pub read_string : ℕ → ℕ → Bytes → Read
read_string zero del cs = none
read_string (suc f) del [] = none
read_string (suc f) del (c ∷ cs) =
    let plain = save c (read_string f del cs) in
    let special = read_escape (read_string f del) cs in
    if c == del
    then some ([], cs)
    else if is_newline c
    then none
    else if c == b'\\'
    then special
    else plain

abbrev pub NoReturn : ℕ → Type 0
NoReturn c = c ≢ 13

plain_facts :
    (c : ℕ)
    → must_escape c ≡ false
    → c ≢ 13
    → ((c == b'\'') ≡ false) × ((c == 10) ≡ false) × ((c == 13) ≡ false) × ((c == b'\\') ≡ false)
plain_facts c e h = (ground arith, ground arith, ground arith, ground arith)

special_cases : (c : ℕ) → must_escape c ≡ true → (c ≡ b'\\') ⊎ ((c ≡ 10) ⊎ (c ≡ b'\''))
special_cases c e = ground arith

-- The first character of escaped data, or the closing quote.
NoReturn-ahead :
    (ds rest : Bytes)
    → All NoReturn ds
    → inclinenumber 10 (escape_all ds ++ b'\'' ∷ rest) ≡ escape_all ds ++ b'\'' ∷ rest
NoReturn-ahead [] rest h = refl
NoReturn-ahead (c ∷ ds) rest h = elim (Bool-cases (must_escape c)) [
  | inl e ↦ rw e
  | inr e ↦
      let line : (c == 10) ≡ false = (plain_facts c e h.0).1 in
      let return : (c == 13) ≡ false = (plain_facts c e h.0).2 in rw (e, line, return)
]

-- Lua reads the data back from what is sent for them, if they hold no carriage return.
pub read_string-escape_all :
    (ds rest : Bytes) (f : ℕ)
    → All NoReturn ds
    → length ds < f
    → read_string f b'\'' (escape_all ds ++ b'\'' ∷ rest) ≡ some (ds, rest)
unfolding read_string
read_string-escape_all ds rest zero h k = elim k [ ]
read_string-escape_all [] rest (suc f) h k = refl
read_string-escape_all (c ∷ ds) rest (suc f) h k =
    let ih = read_string-escape_all ds rest f h.1 (omega arith) in
    elim (Bool-cases (must_escape c)) [
      | inl e ↦ elim (special_cases c e) [
        | inl slash ↦ rw slash (rw ih)
        | inr (inl line) ↦ rw line (rw (NoReturn-ahead ds rest h.1) (rw ih))
        | inr (inr quote) ↦ rw quote (rw ih)
      ]
      | inr e ↦
          let (quote, line, return, slash) = plain_facts c e h.0 in
          rw (e, quote, line, return, slash, ih)
    ]

abbrev pub Inline : ℕ → Type 0
Inline c = (c ≢ 10) × (c ≢ 13)

-- A carriage return that stands in data on one line makes Lua refuse the program: it ends a quoted
-- string there as unfinished, and mixlua does not escape it.
pub read_string_return :
    (ds rest : Bytes) (f : ℕ)
    → All Inline ds
    → read_string f b'\'' (escape_all ds ++ (escape_all (13 ∷ []) ++ rest)) ≡ none
unfolding read_string
read_string_return ds rest zero h = refl
read_string_return [] rest (suc f) h = refl
read_string_return (c ∷ ds) rest (suc f) h =
    let ih = read_string_return ds rest f h.1 in
    elim (Bool-cases (must_escape c)) [
      | inl e ↦ elim (special_cases c e) [
        | inl slash ↦ rw slash (rw ih)
        | inr (inl line) ↦ absurd (h.0.0 line)
        | inr (inr quote) ↦ rw quote (rw ih)
      ]
      | inr e ↦
          let (quote, line, return, slash) = plain_facts c e h.0.1 in
          rw (e, quote, line, return, slash, ih)
    ]
