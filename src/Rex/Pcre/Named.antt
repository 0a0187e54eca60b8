-- ===== src/Rex/Pcre/Named.antt =====
-- The names of the errors of PCRE, in messages and in the table of flags.
use lua_cmake_source.Base.{
  ℕ, List, [], ◌∷◌, ◌++◌, Option, none, some, ◌≡◌, ◌≢◌, refl, ap, ◌∙◌, inl, inr, ◌⊎◌, All, Bytes,
  codes,
}
use lua_cmake_source.Base.Int.{ℤ, minus}
use lua_cmake_source.Base.Decimal.{decimal_ℤ}
use lua_cmake_source.Rex.Total.{Ends, yields, raises}
use lua_cmake_source.Rex.Flags.{
  Fields, TableArg, no_table, a_table, not_table, no_fields, fill, fill_pairs, get_flags,
  get_flag_key, AreNamed, fill_pairs-key, get_flag_key-none,
}
use lua_cmake_source.Rex.Pcre.Flags.{
  error_names, pcre_flags, pcre_error_flags, pairs, lpcre_get_flags, error_message,
}

module _ (macro : Bytes → ℤ) where
  pairs-AreNamed : (keys : List Bytes) → AreNamed macro (pairs macro keys)
  pairs-AreNamed [] = tt
  pairs-AreNamed (key ∷ keys) = (refl, pairs-AreNamed keys)

  -- What a message says of a code: its name, under which a table has the code, or the code alone.
  abbrev pub Names : Fields → ℤ → Bytes → Type 0
  Names fields code message =
      (key : Bytes) × (message ≡ codes "error PCRE_" ++ key) × (fields key ≡ some code)

  abbrev pub IsUnnamed : ℤ → Bytes → Type 0
  IsUnnamed code message =
      (message ≡ codes "PCRE error code " ++ decimal_ℤ code)
      × All (λ p. p.val ≢ code) (pcre_error_flags macro)

  abbrev pub Explains : ℕ → Fields → Type 0
  Explains errcode fields =
      Names fields (minus errcode) (error_message macro errcode)
      ⊎ IsUnnamed (minus errcode) (error_message macro errcode)

  found-Explains :
      (errcode : ℕ) (t : Fields) (found : Option Bytes)
      → get_flag_key (pcre_error_flags macro) (minus errcode) ≡ found
      → Explains errcode (fill t (pcre_flags macro ∷ pcre_error_flags macro ∷ []))
  unfolding error_message fill
  found-Explains errcode t none e =
      inr (rw e refl, get_flag_key-none (pcre_error_flags macro) (minus errcode) e)
  found-Explains errcode t (some key) e =
      let (there, value) =
        fill_pairs-key macro (pcre_error_flags macro) (fill_pairs t (pcre_flags macro))
          (minus errcode) key (pairs-AreNamed error_names) e in
      inl (key, rw e refl, there ∙ ap some value)

  -- The function flags of the PCRE library raises an error, for an argument that is no table, or
  -- gives a table in which the messages of errors can be looked up: the message of an error is the
  -- name of an error under which the table has its code, or it is the code itself, which then no
  -- error in the table has.
  pub error_message-Explains :
      (errcode : ℕ) (t : TableArg) → Ends (Explains errcode) ⊥ (lpcre_get_flags macro t)
  unfolding lpcre_get_flags get_flags
  error_message-Explains errcode no_table = yields (found-Explains errcode no_fields _ refl)
  error_message-Explains errcode (a_table t) = yields (found-Explains errcode t _ refl)
  error_message-Explains errcode not_table = raises
