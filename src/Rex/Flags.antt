-- ===== src/Rex/Flags.antt =====
-- libs/lrexlib/src/common.c: tables of flags.
use lua_cmake_source.Base.{
  true, &&-eq-true, List, [], ◌∷◌, Option, none, some, ◌==◌, if◌then◌else◌, Bool-cases, inl, inr,
  ◌≡◌, ◌≢◌, refl, sym, ap, ◌∙◌, arith, All, Bytes,
}
use lua_cmake_source.Base.Int.{ℤ, eq_ℤ, eq_ℤ→≡, eq_ℤ_refl}
use lua_cmake_source.LuaValue.{bytes_eq}
use lua_cmake_source.Rex.Engine.{Result, ok, raised, not_a_table}

-- flag_pair
pub record FlagPair : Type 0 where
  pub key : Bytes
  pub val : ℤ

-- The integers that a table of Lua has under strings.
abbrev pub Fields : Type 0
Fields = Bytes → Option ℤ

abbrev pub set_field : Fields → Bytes → ℤ → Fields
set_field t k v = λ other. if bytes_eq k other then some v else t other

-- The first argument.
pub data TableArg : Type 0 where
  no_table : TableArg
  a_table : Fields → TableArg
  not_table : TableArg

-- The inner loop of `get_flags`, and the loop over the arrays.
unfoldable pub fill_pairs : Fields → List FlagPair → Fields
fill_pairs t [] = t
fill_pairs t (p ∷ ps) = fill_pairs (set_field t p.key p.val) ps

unfoldable pub fill : Fields → List (List FlagPair) → Fields
fill t [] = t
fill t (ps ∷ arrs) = fill (fill_pairs t ps) arrs

abbrev pub no_fields : Fields
no_fields = λ k. none

-- `get_flags`: the table that is filled.
unfoldable pub get_flags : TableArg → List (List FlagPair) → Result Fields
get_flags no_table arrs = ok (fill no_fields arrs)
get_flags (a_table t) arrs = ok (fill t arrs)
get_flags not_table arrs = raised not_a_table

-- `get_flag_key`; NULL is none.
unfoldable pub get_flag_key : List FlagPair → ℤ → Option Bytes
get_flag_key [] val = none
get_flag_key (p ∷ ps) val =
    let rest = get_flag_key ps val in if eq_ℤ p.val val then some p.key else rest

bytes_eq→≡ : (a b : Bytes) → bytes_eq a b ≡ true → a ≡ b
unfolding bytes_eq
bytes_eq→≡ [] [] e = refl
bytes_eq→≡ [] (y ∷ ys) e = cc
bytes_eq→≡ (x ∷ xs) [] e = cc
bytes_eq→≡ (x ∷ xs) (y ∷ ys) e =
    let (same, more) = &&-eq-true (x == y) _ e in
    let first : x ≡ y = ground arith in rw (first, bytes_eq→≡ xs ys more) refl

bytes_eq_refl : (a : Bytes) → bytes_eq a a ≡ true
unfolding bytes_eq
bytes_eq_refl [] = refl
bytes_eq_refl (x ∷ xs) =
    let same : (x == x) ≡ true = ground arith in rw (same, bytes_eq_refl xs) refl

module _ (macro : Bytes → ℤ) where
  -- Pairs of the name of a macro and its value.
  abbrev pub AreNamed : List FlagPair → Type 0
  AreNamed = All (λ p. p.val ≡ macro p.key)

  set_field-same :
      (t : Fields) (k key : Bytes)
      → t key ≡ some (macro key)
      → set_field t k (macro k) key ≡ some (macro key)
  set_field-same t k key h = elim (Bool-cases (bytes_eq k key)) [
    | inl e ↦ rw e (ap (λ b. some (macro b)) (bytes_eq→≡ k key e))
    | inr e ↦ rw e h
  ]

  fill_pairs-same :
      (ps : List FlagPair) (t : Fields) (key : Bytes)
      → AreNamed ps
      → t key ≡ some (macro key)
      → fill_pairs t ps key ≡ some (macro key)
  unfolding fill_pairs
  fill_pairs-same [] t key named h = h
  fill_pairs-same (p ∷ ps) t key (same, named) h =
      fill_pairs-same ps (set_field t p.key p.val) key named
        (rw same (set_field-same t p.key key h))

  pub fill-same :
      (arrs : List (List FlagPair)) (t : Fields) (key : Bytes)
      → All AreNamed arrs
      → t key ≡ some (macro key)
      → fill t arrs key ≡ some (macro key)
  unfolding fill
  fill-same [] t key named h = h
  fill-same (ps ∷ arrs) t key (here, named) h =
      fill-same arrs (fill_pairs t ps) key named (fill_pairs-same ps t key here h)

  -- The key of a value stands under the value in the table that is filled.
  pub fill_pairs-key :
      (ps : List FlagPair) (t : Fields) (val : ℤ) (key : Bytes)
      → AreNamed ps
      → get_flag_key ps val ≡ some key
      → (fill_pairs t ps key ≡ some (macro key)) × (macro key ≡ val)
  unfolding fill_pairs get_flag_key
  fill_pairs-key [] t val key named found = cc
  fill_pairs-key (p ∷ ps) t val key (same, named) found = elim (Bool-cases (eq_ℤ p.val val)) [
    | inl e ↦
        let here : p.key ≡ key = cc (rw e at found) in
        let value = eq_ℤ→≡ p.val val e in
        (
          fill_pairs-same ps (set_field t p.key p.val) key named
              (rw (← here, bytes_eq_refl p.key, same) refl),
          ap macro (sym here) ∙ (sym same ∙ value),
        )
    | inr e ↦ fill_pairs-key ps (set_field t p.key p.val) val key named (rw e at found)
  ]

-- A value that no pair has.
pub get_flag_key-none :
    (ps : List FlagPair) (val : ℤ) → get_flag_key ps val ≡ none → All (λ p. p.val ≢ val) ps
unfolding get_flag_key
get_flag_key-none [] val none_found = tt
get_flag_key-none (p ∷ ps) val none_found = elim (Bool-cases (eq_ℤ p.val val)) [
  | inl e ↦ cc (rw e at none_found)
  | inr e ↦
      (λ same. cc (rw (same, eq_ℤ_refl val) at e), get_flag_key-none ps val (rw e at none_found))
]
