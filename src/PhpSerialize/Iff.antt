-- ===== src/PhpSerialize/Iff.antt =====
-- Which values `Pphpserializevalue` serialises.
use lua_cmake_source.Base.{
  ℕ, ◌+◌, ◌≤◌, Bool, true, false, not, ◌&&◌, ◌||◌, [], ◌∷◌, ◌++◌, ltb, ◌≡◌, ◌↔◌, refl, sym, ◌∙◌,
  arith, if◌then◌else◌, Bool-cases, ltb_false→le, inl, inr, length, concat, Bytes,
}
use lua_cmake_source.Base.Int.{ℤ}
use lua_cmake_source.LuaNumber.{is_float_finite, is_integer, to_integer}
use lua_cmake_source.LuaValue.{Value, nil, boolean, number, str, table, other, Entries, end, entry}
use lua_cmake_source.PhpSerialize.Keys.{
  Pieces, Result, ok, failed, raised, undefined, ◌>>=◌, Env, pphpserializekey, plookslikeinteger,
  out_of_range,
}
use lua_cmake_source.PhpSerialize.Values.{
  max_nesting, number_pieces, admitted, pphpserializevalue, serialize_entries, returns,
  cphpserialize,
}
use lua_cmake_source.PhpSerialize.Text.{
  key_ok, value_ok, entries_ok, value_depth, entries_depth, text, serializes, Yields,
}

-- A chain that gives a result went through its first step.
>>=-eq-ok {ℓ κ} :
    {A : Type ℓ} {B : Type κ} {final : B} (start : Result A) (next : A → Result B)
    → (start >>= next) ≡ ok final
    → (x : A) × (start ≡ ok x) × (next x ≡ ok final)
>>=-eq-ok (ok x) next e = (x, refl, e)
>>=-eq-ok (failed message) next e = cc
>>=-eq-ok raised next e = cc
>>=-eq-ok undefined next e = cc

number_tests :
    (whole finite outside : Bool) (a b : Bytes) (qs : Pieces) {ps : Pieces}
    → (if not whole || not finite then failed a else if outside then failed b else ok qs) ≡ ok ps
    → (whole && (finite && not outside)) ≡ true
number_tests false finite outside a b qs h = cc
number_tests true false outside a b qs h = cc
number_tests true true true a b qs h = cc
number_tests true true false a b qs h = refl

string_test :
    (plain : Bool) (a : Bytes) (qs : Pieces) {ps : Pieces}
    → (if not plain then failed a else ok qs) ≡ ok ps
    → plain ≡ true
string_test true a qs h = refl
string_test false a qs h = cc

number_of_tests :
    (finite whole fits : Bool) (a : Bytes) (qs rs : Pieces) {ps : Pieces}
    → (if not finite
        then failed a
        else if not whole
        then (if fits then ok qs else undefined)
        else ok rs)
      ≡ ok ps
    → (finite && (whole || fits)) ≡ true
number_of_tests false whole fits a qs rs h = cc
number_of_tests true true fits a qs rs h = refl
number_of_tests true false true a qs rs h = refl
number_of_tests true false false a qs rs h = cc

module _ (env : Env) (grows : (top n : ℕ) → env.checkstack top n ≡ true) (base : ℤ) where
  key_needs :
      (top : ℕ) (k : Value) {ps : Pieces}
      → pphpserializekey env top base k ≡ ok ps
      → key_ok k ≡ true
  unfolding pphpserializekey key_ok
  key_needs top (number n) h =
      number_tests (is_integer n) (is_float_finite n) (out_of_range (to_integer n)) _ _ _
        (rw (grows top 5) at h)
  key_needs top (str s) h = string_test (plookslikeinteger s) _ _ (rw (grows top 5) at h)
  key_needs top nil h = cc (rw (grows top 5) at h)
  key_needs top (boolean b) h = cc (rw (grows top 5) at h)
  key_needs top (table es) h = cc (rw (grows top 5) at h)
  key_needs top (other t) h = cc (rw (grows top 5) at h)

  admitted_needs :
      (top nesting : ℕ) (r : Result Pieces) {ps : Pieces}
      → admitted env top nesting r ≡ ok ps
      → (nesting ≤ max_nesting) × (r ≡ ok ps)
  admitted_needs top nesting r h = elim (Bool-cases (ltb max_nesting nesting)) [
    | inl deep ↦ cc (rw deep at h)
    | inr fits ↦ (ltb_false→le max_nesting nesting fits, rw (fits, grows top 10) at h)
  ]

  mutual
    unfolding pphpserializevalue value_ok value_depth number_pieces

    needs :
        (top : ℕ) (v : Value) (nesting : ℕ) {ps : Pieces}
        → pphpserializevalue env top base v nesting ≡ ok ps
        → (value_ok env v ≡ true) × (nesting + value_depth v ≤ max_nesting)
    needs top nil nesting h = (refl, omega (arith, admitted_needs top nesting _ h))
    needs top (boolean b) nesting h = (refl, omega (arith, admitted_needs top nesting _ h))
    needs top (number n) nesting h =
        let (fits, e) = admitted_needs top nesting (number_pieces env n) h in
        (number_of_tests (is_float_finite n) (is_integer n) _ _ _ _ e, omega arith)
    needs top (str s) nesting h = (refl, omega (arith, admitted_needs top nesting _ h))
    needs top (table es) nesting h =
        let (fits, e) = admitted_needs top nesting _ h in
        let (r, e', _) = >>=-eq-ok (serialize_entries env (top + 3) base es nesting [] 0) _ e in
        needs_entries (top + 3) es nesting [] 0 fits e'
    needs top (other t) nesting h = let (fits, e) = admitted_needs top nesting _ h in cc e

    needs_entries :
        (top : ℕ) (es : Entries) (nesting : ℕ) (acc : Pieces) (n : ℕ) {r : Pieces × ℕ}
        → nesting ≤ max_nesting
        → serialize_entries env top base es nesting acc n ≡ ok r
        → (entries_ok env es ≡ true) × (nesting + entries_depth es ≤ max_nesting)
    needs_entries top end nesting acc n fits h = (refl, omega arith)
    needs_entries top (entry k v es) nesting acc n fits h =
        let slots = top + length acc + 2 in
        let (key, ek, h₁) = >>=-eq-ok (pphpserializekey env slots base k) _ h in
        let (val, ev, h₂) =
          >>=-eq-ok (pphpserializevalue env (slots + length key) base v (nesting + 1)) _ h₁ in
        let (good_v, deep_v) = needs (slots + length key) v (nesting + 1) ev in
        let (good_es, deep_es) =
          needs_entries top es nesting (acc ++ (key ++ val)) (n + 1) fits h₂ in
        (rw (key_needs slots k ek, good_v) good_es, omega arith)

  -- Where the Lua stack grows on demand, Pphpserializevalue succeeds exactly when the keys of the
  -- value are integers in PHP's range or strings that Plookslikeinteger admits, its numbers are
  -- finite and the text of each that is no integer fits the 256 bytes of the buffer for it, it holds
  -- no function, thread or userdata, and no value stands deeper than PHPSERIALIZE_MAXNESTING.
  -- Whatever pieces it succeeds with, together they are the text of the value.
  pub pphpserializevalue_iff :
      (top : ℕ) (v : Value) (nesting : ℕ)
      → (Yields (λ ps. Unit) (pphpserializevalue env top base v nesting)
          ↔ (value_ok env v ≡ true) × (nesting + value_depth v ≤ max_nesting))
        × ((ps : Pieces)
            → pphpserializevalue env top base v nesting ≡ ok ps
            → concat ps ≡ text env base v)
  pphpserializevalue_iff top v nesting = (
    (
      λ (ps, e, _). needs top v nesting e,
      λ (h, d). let (ps, e, _) = serializes env grows base top v nesting h d in (ps, e, tt),
    ),
    λ ps e.
        let (h, d) = needs top v nesting e in
        let (qs, e', t) = serializes env grows base top v nesting h d in
        same_text ps qs (sym e ∙ e') t,
  )
    where
      same_text : (ps qs : Pieces) {t : Bytes} → ok ps ≡ ok qs → concat qs ≡ t → concat ps ≡ t
      same_text ps qs e t = let same : ps ≡ qs = cc in rw same t

  -- Where the Lua stack grows on demand, Lua code gets the text of every value that has one and
  -- stands no deeper than PHPSERIALIZE_MAXNESTING.
  cphpserialize-text :
      (v : Value)
      → value_ok env v ≡ true
      → value_depth v ≤ max_nesting
      → cphpserialize env (v ∷ []) base ≡ returns (str (text env base v) ∷ [])
  unfolding cphpserialize
  cphpserialize-text v h d =
      let (ps, e, t) = serializes env grows base 1 v 0 h (omega arith) in rw (e, t)
