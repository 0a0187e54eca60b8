-- ===== src/PhpSerialize/Text.antt =====
-- The text that a value stands for, and the values that have one, against the code of
-- `Pphpserializevalue`.
use Prim.Native.Nat.{max}
use lua_cmake_source.Base.{
  ℕ, suc, ◌+◌, ◌≤◌, Bool, true, false, not, ◌&&◌, ◌||◌, ltb, [], ◌∷◌, ◌++◌, ◌≡◌, refl, sym, ◌∙◌,
  arith, if◌then◌else◌, Bool-cases, le→ltb_false, &&-eq-true, inl, inr, length, concat,
  concat-append, append_assoc, append-nil, Bytes,
}
use lua_cmake_source.Base.Int.{ℤ, negsuc, ◌+ℤ◌, to_int32}
use lua_cmake_source.Base.Decimal.{decimal}
use lua_cmake_source.LuaNumber.{is_float_finite, is_integer, to_integer}
use lua_cmake_source.LuaValue.{
  Value, nil, boolean, number, str, table, other, Entries, end, entry, size,
}
use lua_cmake_source.PhpSerialize.Keys.{
  Pieces, Result, ok, Env, key_pieces, pphpserializekey, plookslikeinteger, sprintf_d, out_of_range,
  ssi_null, ssi_integer, ssi_double, ssi_bool_true, ssi_bool_false, ssi_string_begin,
  ssi_string_middle, ssi_string_end, ssi_array_begin, ssi_array_middle, ssi_array_end,
  ssi_semicolon,
}
use lua_cmake_source.PhpSerialize.Values.{
  max_nesting, big_integer_size, number_pieces, admitted, pphpserializevalue, serialize_entries,
}

abbrev pub string_text : Bytes → Bytes
string_text s =
    ssi_string_begin ++ (decimal (length s) ++ (ssi_string_middle ++ (s ++ ssi_string_end)))

unfoldable pub key_text : ℤ → Value → Bytes
key_text base (number n) =
    ssi_integer ++ (sprintf_d (to_integer n +ℤ to_int32 (base +ℤ negsuc 0)) ++ ssi_semicolon)
key_text base (str s) = string_text s
key_text base _ = []

unfoldable mutual
  pub text : Env → ℤ → Value → Bytes
  text env base nil = ssi_null
  text env base (boolean b) = if b then ssi_bool_true else ssi_bool_false
  text env base (number n) =
      if is_integer n
      then ssi_integer ++ (sprintf_d (to_integer n) ++ ssi_semicolon)
      else ssi_double ++ (env.sprintf_f n ++ ssi_semicolon)
  text env base (str s) = string_text s
  text env base (table es) =
      ssi_array_begin
      ++ (decimal (size es) ++ (ssi_array_middle ++ (entries_text env base es ++ ssi_array_end)))
  text env base (other t) = []

  pub entries_text : Env → ℤ → Entries → Bytes
  entries_text env base end = []
  entries_text env base (entry k v es) =
      key_text base k ++ (text env base v ++ entries_text env base es)

-- A key is an integer in the range that PHP takes, or a string that `Plookslikeinteger` admits.
unfoldable pub key_ok : Value → Bool
key_ok (number n) = is_integer n && (is_float_finite n && not (out_of_range (to_integer n)))
key_ok (str s) = plookslikeinteger s
key_ok _ = false

-- A number is finite, and is an integer or has a text that fits the buffer.
abbrev pub number_ok : Env → ℕ → Bool
number_ok env n =
    is_float_finite n && (is_integer n || ltb (length (env.sprintf_f n)) big_integer_size)

-- The value has a text.
unfoldable mutual
  pub value_ok : Env → Value → Bool
  value_ok env (number n) = number_ok env n
  value_ok env (table es) = entries_ok env es
  value_ok env (other t) = false
  value_ok env _ = true

  pub entries_ok : Env → Entries → Bool
  entries_ok env end = true
  entries_ok env (entry k v es) = key_ok k && (value_ok env v && entries_ok env es)

-- How deep values stand inside tables; an empty table is no deeper than a number.
unfoldable mutual
  pub value_depth : Value → ℕ
  value_depth (table es) = entries_depth es
  value_depth _ = 0

  pub entries_depth : Entries → ℕ
  entries_depth end = 0
  entries_depth (entry k v es) = max (suc (value_depth v)) (entries_depth es)

abbrev pub Yields : {A : Type 0} → (A → Type 0) → Result A → Type 0
Yields {A} P r = (a : A) × (r ≡ ok a) × P a

not-eq-true : (b : Bool) → not b ≡ true → b ≡ false
not-eq-true true h = cc
not-eq-true false h = refl

module _ (env : Env) (grows : (top n : ℕ) → env.checkstack top n ≡ true) (base : ℤ) where
  key_pieces_text :
      (k : Value) → key_ok k ≡ true → Yields (λ ps. concat ps ≡ key_text base k) (key_pieces base k)
  unfolding key_ok key_pieces key_text
  key_pieces_text (number n) h =
      let (whole, h₁) = &&-eq-true (is_integer n) _ h in
      let (finite, h₂) = &&-eq-true (is_float_finite n) _ h₁ in
      let inside = not-eq-true (out_of_range (to_integer n)) h₂ in
      rw (whole, finite, inside) (_, refl, refl)
  key_pieces_text (str s) h = rw h (_, refl, refl)
  key_pieces_text nil h = cc
  key_pieces_text (boolean b) h = cc
  key_pieces_text (table es) h = cc
  key_pieces_text (other t) h = cc

  key_text_of :
      (top : ℕ) (k : Value)
      → key_ok k ≡ true
      → Yields (λ ps. concat ps ≡ key_text base k) (pphpserializekey env top base k)
  key_text_of top k h = unfold pphpserializekey in rw (grows top 5) (key_pieces_text k h)

  admitted_text :
      (top nesting : ℕ) {P : Pieces → Type 0} {r : Result Pieces}
      → nesting ≤ max_nesting
      → Yields P r
      → Yields P (admitted env top nesting r)
  admitted_text top nesting h y = rw (le→ltb_false max_nesting nesting h, grows top 10) y

  mutual
    unfolding pphpserializevalue text value_ok value_depth number_pieces

    pub serializes :
        (top : ℕ) (v : Value) (nesting : ℕ)
        → value_ok env v ≡ true
        → nesting + value_depth v ≤ max_nesting
        → Yields (λ ps. concat ps ≡ text env base v) (pphpserializevalue env top base v nesting)
    serializes top nil nesting h d = admitted_text top nesting (omega arith) (_, refl, refl)
    serializes top (boolean b) nesting h d =
        admitted_text top nesting (omega arith) (_, refl, append-nil _)
    serializes top (number n) nesting h d =
        let (finite, rest) = &&-eq-true (is_float_finite n) _ h in
        admitted_text top nesting (omega arith) (elim (Bool-cases (is_integer n)) [
          | inl whole ↦ rw (finite, whole) (_, refl, refl)
          | inr fraction ↦ rw (finite, fraction, rw fraction at rest) (_, refl, refl)
        ])
    serializes top (str s) nesting h d = admitted_text top nesting (omega arith) (_, refl, refl)
    serializes top (table es) nesting h d =
        let (r, e, (t, c)) = serializes_entries (top + 3) es nesting [] 0 h d in
        let counted : r.1 ≡ size es = omega (arith, c) in
        admitted_text top nesting (omega arith)
          (rw e (_, refl, rw (concat-append r.0 (ssi_array_end ∷ []), t, counted)))
    serializes top (other t) nesting h d = cc

    serializes_entries :
        (top : ℕ) (es : Entries) (nesting : ℕ) (acc : Pieces) (n : ℕ)
        → entries_ok env es ≡ true
        → nesting + entries_depth es ≤ max_nesting
        → Yields
            (λ r. (concat r.0 ≡ concat acc ++ entries_text env base es) × (r.1 ≡ n + size es))
            (serialize_entries env top base es nesting acc n)
    serializes_entries top end nesting acc n h d =
        ((acc, n), refl, (sym (append-nil (concat acc)), omega arith))
    serializes_entries top (entry k v es) nesting acc n h d =
        let (hk, h₁) = &&-eq-true (key_ok k) _ h in
        let (hv, he) = &&-eq-true (value_ok env v) _ h₁ in
        let slots = top + length acc + 2 in
        let (key, ek, tk) = key_text_of slots k hk in
        let (val, ev, tv) = serializes (slots + length key) v (nesting + 1) hv (omega arith) in
        let (r, er, (tr, cr)) =
          serializes_entries top es nesting (acc ++ (key ++ val)) (n + 1) he (omega arith) in
        (r, rw (ek, ev) er, (tr ∙ simp (concat-append, append_assoc, tk, tv), omega (arith, cr)))
