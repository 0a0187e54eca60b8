-- ===== src/Luabins/Save/Success.antt =====
-- When a value can be saved, where the Lua stack can always grow.
use lua_cmake_source.Base.{
  ℕ, suc, ◌+◌, ◌≤◌, Bool, true, false, ◌&&◌, [], ◌∷◌, ◌++◌, ◌≡◌, ◌↔◌, refl, arith, ltb,
  if◌then◌else◌, Bool-cases, le→ltb_false, ltb_false→le, &&-eq-true, inl, inr, length,
}
use Prim.Native.Nat.{max}
use lua_cmake_source.LuaValue.{Value, nil, boolean, number, str, table, other, Entries, end, entry}
use lua_cmake_source.Luabins.Result.{Result, ok, err, no_stack, >>=-eq-ok}
use lua_cmake_source.Luabins.Format.{max_table_nesting, c_table}
use lua_cmake_source.Luabins.Save.Values.{
  Pieces, maybe_concat, Api, save_value, save_entries, table_pieces,
}

-- No function, thread or userdata is in the value, as a key or as a value.
unfoldable mutual
  pub supported : Value → Bool
  supported (other t) = false
  supported (table es) = supported_entries es
  supported _ = true

  pub supported_entries : Entries → Bool
  supported_entries end = true
  supported_entries (entry k v es) = supported k && (supported v && supported_entries es)

-- How deep tables stand in one another.
unfoldable mutual
  pub table_depth : Value → ℕ
  table_depth (table es) = suc (entries_depth es)
  table_depth _ = 0

  pub entries_depth : Entries → ℕ
  entries_depth end = 0
  entries_depth (entry k v es) = max (table_depth k) (max (table_depth v) (entries_depth es))

abbrev pub Saves : {A : Type 0} → Result A → Type 0
Saves {A} r = (a : A) × (r ≡ ok a)

passes :
    {A : Type 0} {b : Bool} {r : Result A}
    → b ≡ true
    → Saves r
    → Saves (if b then r else err no_stack)
passes {b = true} e s = s
passes {b = false} e s = cc

module _ (api : Api) (grows : (n : ℕ) → api.checkstack n ≡ true) where
  mutual
    unfolding save_value supported table_depth

    save_value_total :
        (top : ℕ) (v : Value) (nesting : ℕ)
        → supported v ≡ true
        → nesting + table_depth v ≤ max_table_nesting
        → Saves (save_value api top v nesting)
    save_value_total top nil nesting s d = passes (grows top) (_, refl)
    save_value_total top (boolean b) nesting s d = passes (grows top) (_, refl)
    save_value_total top (number n) nesting s d = passes (grows top) (_, refl)
    save_value_total top (str b) nesting s d = passes (grows top) (_, refl)
    save_value_total top (table es) nesting s d =
        let (ps, e) = save_entries_total (top + 3) es (nesting + 1) [] s (omega arith) in
        let fits : ltb max_table_nesting (nesting + 1) ≡ false =
          le→ltb_false max_table_nesting (nesting + 1) (omega arith) in
        passes (grows top) ((c_table ∷ []) ∷ table_pieces api es ps, rw (fits, e))
    save_value_total top (other t) nesting s d = cc

    save_entries_total :
        (base : ℕ) (es : Entries) (nesting : ℕ) (acc : Pieces)
        → supported_entries es ≡ true
        → nesting + entries_depth es ≤ max_table_nesting
        → Saves (save_entries api base es nesting acc)
    save_entries_total base end nesting acc s d = (acc, refl)
    save_entries_total base (entry k v es) nesting acc s d =
        let slot = base + length acc + 2 in
        let (sk, s') = &&-eq-true (supported k) _ s in
        let (sv, ss) = &&-eq-true (supported v) _ s' in
        let (key, ek) = save_value_total slot k nesting sk (omega arith) in
        let key' = maybe_concat key in
        let (val, ev) = save_value_total (slot + length key') v nesting sv (omega arith) in
        let (ps, e) =
          save_entries_total base es nesting (maybe_concat (acc ++ (key' ++ val))) ss
            (omega arith) in
        (ps, rw (ek, ev, e))

    save_value_needs :
        (top : ℕ) (v : Value) (nesting : ℕ)
        → nesting ≤ max_table_nesting
        → Saves (save_value api top v nesting)
        → (supported v ≡ true) × (nesting + table_depth v ≤ max_table_nesting)
    save_value_needs top (table es) nesting h (ps, s) =
        elim (Bool-cases (ltb max_table_nesting (nesting + 1))) [
          | inl deep ↦ cc (rw (grows top, deep) at s)
          | inr fits ↦
              let body = save_entries api (top + 3) es (nesting + 1) [] in
              let (inner, e, _) =
                >>=-eq-ok body (λ qs. ok ((c_table ∷ []) ∷ table_pieces api es qs))
                  (rw (grows top, fits) at s) in
              let needs =
                save_entries_needs (top + 3) es (nesting + 1) []
                  (ltb_false→le max_table_nesting (nesting + 1) fits) (inner, e) in
              (needs.0, omega (arith, needs))
        ]
    save_value_needs top (other t) nesting h (ps, s) = cc (rw (grows top) at s)
    save_value_needs top nil nesting h s = (refl, omega arith)
    save_value_needs top (boolean b) nesting h s = (refl, omega arith)
    save_value_needs top (number n) nesting h s = (refl, omega arith)
    save_value_needs top (str b) nesting h s = (refl, omega arith)

    save_entries_needs :
        (base : ℕ) (es : Entries) (nesting : ℕ) (acc : Pieces)
        → nesting ≤ max_table_nesting
        → Saves (save_entries api base es nesting acc)
        → (supported_entries es ≡ true) × (nesting + entries_depth es ≤ max_table_nesting)
    save_entries_needs base end nesting acc h s = (refl, omega arith)
    save_entries_needs base (entry k v es) nesting acc h (ps, s) =
        let slot = base + length acc + 2 in
        let (key, ek, h₁) = >>=-eq-ok (save_value api slot k nesting) _ s in
        let key' = maybe_concat key in
        let (val, ev, h₂) = >>=-eq-ok (save_value api (slot + length key') v nesting) _ h₁ in
        let of_key = save_value_needs slot k nesting h (key, ek) in
        let of_val = save_value_needs (slot + length key') v nesting h (val, ev) in
        let of_rest =
          save_entries_needs base es nesting (maybe_concat (acc ++ (key' ++ val))) h (ps, h₂) in
        (rw (of_key.0, of_val.0) of_rest.0, omega (arith, of_key, of_val, of_rest))

  -- Where the Lua stack grows on demand, a value is saved exactly when it holds no function,
  -- thread or userdata and its tables are nested at most LUABINS_MAXTABLENESTING deep, counted
  -- from the nesting at which it stands, which is within that limit.
  pub save_value_iff :
      (top : ℕ) (v : Value) (nesting : ℕ)
      → nesting ≤ max_table_nesting
      → Saves (save_value api top v nesting)
        ↔ (supported v ≡ true) × (nesting + table_depth v ≤ max_table_nesting)
  save_value_iff top v nesting h =
      (save_value_needs top v nesting h, λ (s, d). save_value_total top v nesting s d)
