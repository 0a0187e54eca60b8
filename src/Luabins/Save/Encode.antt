-- ===== src/Luabins/Save/Encode.antt =====
-- The byte string that a value stands for, and the proof that save.c produces it whatever the
-- concatenation threshold does to the stack on the way.
use lua_cmake_source.Base.{
  ℕ, ◌+◌, ◌%◌, Bool, true, false, List, [], ◌∷◌, ◌++◌, ◌≡◌, sym, ap, ◌∙◌, leb, ltb, if◌then◌else◌,
  Bool-cases, inl, inr, length, concat, concat-append, append-nil, append_assoc, Bytes, le_bytes,
}
use lua_cmake_source.LuaValue.{
  Value, nil, boolean, number, str, table, other, Entries, end, entry, size,
}
use lua_cmake_source.Luabins.Result.{Code, Result, ok, err, >>=-eq-ok, no_stack, too_deep}
use lua_cmake_source.Luabins.Format.{
  c_nil, c_false, max_table_nesting, c_true, c_number, c_string, c_table, l_int, l_size_t, l_number,
  int_mod, array_part, hash_part,
}
use lua_cmake_source.Luabins.Save.Values.{
  Pieces, maybe_concat, concat_threshold, Api, save_value, save_entries, table_pieces,
}

abbrev pub array_size : (Entries → ℕ) → Entries → ℕ
array_size objlen es = array_part (size es % int_mod) (objlen es % int_mod)

abbrev pub hash_size : (Entries → ℕ) → Entries → ℕ
hash_size objlen es = hash_part (size es % int_mod) (array_size objlen es)

unfoldable mutual
  pub encode : (Entries → ℕ) → Value → Bytes
  encode objlen nil = c_nil ∷ []
  encode objlen (boolean b) = (if b then c_true else c_false) ∷ []
  encode objlen (number n) = c_number ∷ le_bytes l_number n
  encode objlen (str s) = c_string ∷ (le_bytes l_size_t (length s) ++ s)
  encode objlen (table es) =
      c_table
      ∷ (le_bytes l_int (array_size objlen es)
          ++ (le_bytes l_int (hash_size objlen es) ++ encode_entries objlen es))
  encode objlen (other t) = []

  pub encode_entries : (Entries → ℕ) → Entries → Bytes
  encode_entries objlen end = []
  encode_entries objlen (entry k v es) =
      encode objlen k ++ (encode objlen v ++ encode_entries objlen es)

abbrev pub encode_all : (Entries → ℕ) → List Value → Bytes
encode_all objlen [] = []
encode_all objlen (v ∷ vs) = encode objlen v ++ encode_all objlen vs

-- The concatenation of pieces before their number reaches the limit changes no byte.
pub concat-maybe_concat : (ps : Pieces) → concat (maybe_concat ps) ≡ concat ps
unfolding maybe_concat
concat-maybe_concat ps = elim (Bool-cases (leb concat_threshold (length ps))) [
  | inl e ↦ rw e (append-nil (concat ps))
  | inr e ↦ rw e
]

-- A checked step that succeeds had its check pass.
if-eq-ok {ℓ} :
    {A : Type ℓ} (b : Bool) {x : Result A} (c : Code) {a : A}
    → (if b then x else err c) ≡ ok a
    → x ≡ ok a
if-eq-ok true c h = h
if-eq-ok false c h = cc

unless-eq-ok {ℓ} :
    {A : Type ℓ} (b : Bool) {x : Result A} (c : Code) {a : A}
    → (if b then err c else x) ≡ ok a
    → x ≡ ok a
unless-eq-ok true c h = cc
unless-eq-ok false c h = h

pub ok-injective {ℓ} : {A : Type ℓ} {x y : A} → ok x ≡ ok y → x ≡ y
ok-injective h = cc

-- The pieces of one more entry, whatever of them has been joined.
concat_entry :
    (acc key val : Pieces) (k v rest : Bytes)
    → concat key ≡ k
    → concat val ≡ v
    → concat (maybe_concat (acc ++ (maybe_concat key ++ val))) ++ rest
      ≡ concat acc ++ (k ++ (v ++ rest))
concat_entry acc key val k v rest hk hv =
    simp (concat-maybe_concat, concat-append, append_assoc, hk, hv)

mutual
  unfolding save_value encode

  pub save_value-encode :
      (api : Api) (top : ℕ) (v : Value) (nesting : ℕ) {ps : Pieces}
      → save_value api top v nesting ≡ ok ps
      → concat ps ≡ encode api.objlen v
  save_value-encode api top nil nesting h =
      ap concat (sym (ok-injective (if-eq-ok (api.checkstack top) no_stack h)))
  save_value-encode api top (boolean b) nesting h =
      ap concat (sym (ok-injective (if-eq-ok (api.checkstack top) no_stack h)))
  save_value-encode api top (number n) nesting h =
      ap concat (sym (ok-injective (if-eq-ok (api.checkstack top) no_stack h))) ∙ rw append-nil
  save_value-encode api top (str s) nesting h =
      ap concat (sym (ok-injective (if-eq-ok (api.checkstack top) no_stack h))) ∙ rw append-nil
  save_value-encode api top (table es) nesting h =
      let body = save_entries api (top + 3) es (nesting + 1) [] in
      let checked = if-eq-ok (api.checkstack top) no_stack h in
      let (ps, saved, done) =
        >>=-eq-ok body (λ ps. ok ((c_table ∷ []) ∷ table_pieces api es ps))
          (unless-eq-ok (ltb max_table_nesting (nesting + 1)) too_deep checked) in
      ap concat (sym (ok-injective done))
      ∙ rw (save_entries-encode api (top + 3) es (nesting + 1) [] saved)
  save_value-encode api top (other t) nesting h = elim (Bool-cases (api.checkstack top)) [
    | inl e ↦ cc (rw e at h)
    | inr e ↦ cc (rw e at h)
  ]

  save_entries-encode :
      (api : Api) (base : ℕ) (es : Entries) (nesting : ℕ) (acc : Pieces) {ps : Pieces}
      → save_entries api base es nesting acc ≡ ok ps
      → concat ps ≡ concat acc ++ encode_entries api.objlen es
  save_entries-encode api base end nesting acc h =
      ap concat (sym (ok-injective h)) ∙ sym (append-nil (concat acc))
  save_entries-encode api base (entry k v es) nesting acc h =
      let slot = base + length acc + 2 in
      let (key, saved_key, h₁) = >>=-eq-ok (save_value api slot k nesting) _ h in
      let key' = maybe_concat key in
      let (val, saved_val, h₂) = >>=-eq-ok (save_value api (slot + length key') v nesting) _ h₁ in
      save_entries-encode api base es nesting (maybe_concat (acc ++ (key' ++ val))) h₂
      ∙ concat_entry acc key val _ _ _ (save_value-encode api slot k nesting saved_key)
          (save_value-encode api (slot + length key') v nesting saved_val)
