-- ===== src/Random/Module.antt =====
-- libs/lrandom/lrandom.c: the functions that Lua code calls. The generators are userdata; a handle
-- is an index into the list of those made so far. Doubles are bit patterns.
use lua_cmake_source.Base.{
  ℕ, ◌-◌, List, [], ◌∷◌, ◌++◌, Option, none, some, ◌==◌, if◌then◌else◌, length, get_elem?, set,
  Bytes, codes,
}
use lua_cmake_source.Base.Int.{ℤ, pos, ◌+ℤ◌, to_word, to_int32, neg_part, pos_part, sub_ℕ}
use lua_cmake_source.Random.Twister.{
  Mt, init_genrand, Doubles, genrand_real1, genrand_real2, genrand_res53,
}

-- An argument as `luaL_checkudata`, `luaL_checkint` and `luaL_optlong` see it: a generator, a
-- number, converted to a long, nil, or a value of another kind.
pub data Argument : Type 0 where
  handle : ℕ → Argument
  integer : ℤ → Argument
  nil : Argument
  other : Argument

-- The arithmetic of doubles, and the text that "%p" makes of a handle.
pub record Platform : Type 0 where
  pub doubles : Doubles
  pub sprintf_p : ℕ → Bytes

-- What a call returns: a handle, a double, a string or nothing; or the error on an argument.
pub data Answer : Type 0 where
  generator : ℕ → Answer
  double : ℕ → Answer
  string : Bytes → Answer
  nothing : Answer
  bad_argument : ℕ → Answer

abbrev pub Store : Type 0
Store = List Mt

abbrev pub Effect : Type 0
Effect = Answer × Store

abbrev pub argument : List Argument → ℕ → Option Argument
argument args i = get_elem? args (i - 1)

-- `Pget` at index 1, for the rest of the function.
abbrev pub with_mt : Store → Option Argument → (ℕ → Mt → Effect) → Effect
with_mt st (some (handle h)) rest = elim (get_elem? st h) [
  | none ↦ (bad_argument 1, st)
  | some o ↦ rest h o
]
with_mt st _ rest = (bad_argument 1, st)

-- `luaL_optlong(L, i, SEED)` as an unsigned long, and `luaL_checkint(L, i)`.
abbrev pub with_seed : Store → ℕ → Option Argument → (ℕ → Effect) → Effect
with_seed st i none rest = rest 2007
with_seed st i (some nil) rest = rest 2007
with_seed st i (some (integer z)) rest = rest (to_word 64 z)
with_seed st i (some _) rest = (bad_argument i, st)

abbrev pub with_int : Store → ℕ → Option Argument → (ℤ → Effect) → Effect
with_int st i (some (integer z)) rest = rest (to_int32 z)
with_int st i _ rest = (bad_argument i, st)

-- `Lnew`, on the memory that `lua_newuserdata` gives.
unfoldable pub lnew : Mt → Store → List Argument → Effect
lnew memory st args =
    with_seed st 1 (argument args 1)
      (λ seed. (generator (length st), st ++ init_genrand memory seed ∷ []))

unfoldable pub lclone : Store → List Argument → Effect
lclone st args = with_mt st (argument args 1) (λ h c. (generator (length st), st ++ c ∷ []))

unfoldable pub lseed : Store → List Argument → Effect
lseed st args =
    with_mt st (argument args 1)
      (λ h c. with_seed st 2 (argument args 2) (λ seed. (nothing, set st h (init_genrand c seed))))

abbrev pub negated : ℤ → ℤ
negated z = sub_ℕ (neg_part z) (pos_part z)

module _ (p : Platform) where
  unfoldable pub lvalue : Store → List Argument → Effect
  lvalue st args =
      with_mt st (argument args 1)
        (λ h c. let (x, c') = genrand_real1 p.doubles c in (double x, set st h c'))

  -- `floor(a + genrand_real2(c) * (b - a + 1))`, where the range is computed as an int.
  unfoldable pub lvaluei : Store → List Argument → Effect
  lvaluei st args = with_mt st (argument args 1) (λ h c.
      if length args == 2
      then with_int st 2 (argument args 2) (drawn h c (pos 1))
      else with_int st 2 (argument args 2) (λ a. with_int st 3 (argument args 3) (drawn h c a)))
    where
      drawn : ℕ → Mt → ℤ → ℤ → Effect
      drawn h c a b =
          let (x, c') = genrand_real2 p.doubles c in
          let range = to_int32 (b +ℤ negated a +ℤ pos 1) in
          let product = p.doubles.times x (p.doubles.of_int range) in
          (double (p.doubles.floor (p.doubles.plus (p.doubles.of_int a) product)), set st h c')

  unfoldable pub lvaluex : Store → List Argument → Effect
  lvaluex st args =
      with_mt st (argument args 1)
        (λ h c. let (x, c') = genrand_res53 p.doubles c in (double x, set st h c'))

  unfoldable pub ltostring : Store → List Argument → Effect
  ltostring st args =
      with_mt st (argument args 1) (λ h c. (string (codes "random handle " ++ p.sprintf_p h), st))
