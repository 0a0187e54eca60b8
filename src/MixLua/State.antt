-- ===== src/MixLua/State.antt =====
-- libs/mixlua/mixlua.c: the state of the preprocessor, and the tests on the bytes at a position.
use lua_cmake_source.Base.{
  ℕ, ◌+◌, ◌-◌, Bool, true, false, [], ◌∷◌, ltb, ◌==◌, if◌then◌else◌, length, get_or, Bytes,
}

-- `mix_token_e`
pub data Token : Type 0 where
  sh d2l l2d d2e e2d text lua exp eof : Token

-- What stays the same: the buffer and the memory behind it, the three separators, and the name of
-- the output function with the two characters that start its argument. `behind` stands for whatever
-- bytes follow the buffer in memory: a zero byte and then anything behind a Lua string, anything at
-- all behind the memory of `mix_loadfile`. C leaves reads of these bytes undefined, but for that
-- zero byte; here they have values, of which nothing is known.
pub record Source : Type 0 where
  pub buffer : Bytes
  pub behind : ℕ → ℕ
  pub d2l : Bytes
  pub l2d : Bytes
  pub exp : Bytes
  pub out : Bytes

-- `failed` is `S->error != NULL`.
pub record Cursor : Type 0 where
  pub pos : ℕ
  pub token : Token
  pub failed : Bool

abbrev pub size : Source → ℕ
size s = length s.buffer

-- `S->buffer[i]`. A position at or above the size lies in the memory behind the buffer, whose first
-- byte is the zero byte of a Lua string.
unfoldable pub char_at : Source → ℕ → ℕ
char_at s i = if ltb i (size s) then get_or s.buffer i 0 else s.behind (i - size s)

-- `!strncmp(tag, S->buffer + pos, n)`, where `n` is the length of the tag; a zero byte ends both.
unfoldable pub starts_at : Source → Bytes → ℕ → Bool
starts_at s [] pos = true
starts_at s (c ∷ cs) pos =
    let rest = starts_at s cs (pos + 1) in
    if char_at s pos == c then (if c == 0 then true else rest) else false

abbrev pub is_d2l : Source → ℕ → Bool
is_d2l s = starts_at s s.d2l

abbrev pub is_l2d : Source → ℕ → Bool
is_l2d s = starts_at s s.l2d

abbrev pub is_exp : Source → ℕ → Bool
is_exp s = starts_at s s.exp

-- A loop ends, or raises the Lua error "unexpected end of file". `out_of_fuel` has no counterpart.
pub data Step {ℓ} (A : Type ℓ) : Type ℓ where
  ok : A → Step A
  raised : Step A
  out_of_fuel : Step A

infixl 5 ◌>>=◌
abbrev pub ◌>>=◌ {ℓ κ} : {A : Type ℓ} {B : Type κ} → Step A → (A → Step B) → Step B
ok a >>= f = f a
raised >>= f = raised
out_of_fuel >>= f = out_of_fuel
