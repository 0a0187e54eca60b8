-- ===== src/Luabins/Save/Loop.antt =====
-- What `luabins_save` writes for a range of the stack.
use lua_cmake_source.Base.{
  ℕ, zero, suc, ◌+◌, ◌-◌, ◌%◌, ◌≤◌, List, [], ◌∷◌, ◌++◌, ◌≡◌, refl, sym, ap, ◌∙◌, arith,
  le→ltb_false, drop, drop-append, length, length-append, concat, concat-append, append_assoc,
  append-nil, Bytes, String, get_elem?, some,
}
use lua_cmake_source.LuaValue.{Value}
use lua_cmake_source.Luabins.Result.{Result, ok, err, fault, out_of_fuel, Code, >>=-eq-ok}
use lua_cmake_source.Luabins.Outcome.{done, report}
use lua_cmake_source.Luabins.Format.{max_tuple}
use lua_cmake_source.Luabins.Save.Values.{Pieces, maybe_concat, Api, save_value}
use lua_cmake_source.Luabins.Save.Encode.{
  encode_all, save_value-encode, concat-maybe_concat, ok-injective,
}
use lua_cmake_source.Luabins.Save.Tuple.{value_at, save_loop, save_message, save_run, luabins_save}

drop-cons :
    (j : ℕ) (xs : List Value) {v : Value} {ys : List Value}
    → drop j xs ≡ v ∷ ys
    → (get_elem? xs j ≡ some v) × (drop (suc j) xs ≡ ys)
drop-cons zero [] h = cc
drop-cons zero (x ∷ xs) h = (cc, cc)
drop-cons (suc j) [] h = cc
drop-cons (suc j) (x ∷ xs) h = drop-cons j xs h

value_at-get_elem? :
    (xs : List Value) (j : ℕ) {v : Value} → get_elem? xs j ≡ some v → value_at xs (suc j) ≡ ok v
unfolding value_at
value_at-get_elem? xs j h = rw (h, value_at)

save_loop-encode :
    (api : Api) (stack vs post : List Value) (j : ℕ) (acc : Pieces) {ps : Pieces}
    → drop j stack ≡ vs ++ post
    → save_loop api stack (length vs) (suc j) acc ≡ ok ps
    → concat ps ≡ concat acc ++ encode_all api.objlen vs
unfolding save_loop
save_loop-encode api stack [] post j acc d h =
    ap concat (sym (ok-injective h)) ∙ sym (append-nil (concat acc))
save_loop-encode api stack (v ∷ vs) post j acc d h =
    let (here, rest) = drop-cons j stack d in
    let acc' = maybe_concat acc in
    let next : suc j + 1 ≡ suc (suc j) = omega arith in
    let (ps, saved, h') =
      >>=-eq-ok (save_value api (length stack + length acc') v 0) _
        (rw (value_at-get_elem? stack j here, next) at h) in
    save_loop-encode api stack vs post (suc j) (acc' ++ ps) rest h'
    ∙ simp (
      concat-append,
      concat-maybe_concat,
      save_value-encode api (length stack + length acc') v 0 saved,
      append_assoc,
    )

report-eq-done :
    {A B : Type 0} (message : Code → String) (f : A → B) (r : Result A) {b : B}
    → report message f r ≡ done b
    → (a : A) × (r ≡ ok a) × (f a ≡ b)
report-eq-done message f (ok a) h = (a, refl, cc)
report-eq-done message f (err c) h = cc
report-eq-done message f fault h = cc
report-eq-done message f out_of_fuel h = cc

module _ (api : Api) (pre vs post : List Value) (some_values : 1 ≤ length vs)
    (few : length vs ≤ max_tuple + 1) where
  -- On a range inside the stack `luabins_save` runs its loop.
  luabins_save-range :
      luabins_save api (pre ++ (vs ++ post)) (length pre + 1) (length pre + length vs)
      ≡ save_run api (pre ++ (vs ++ post)) (length vs) (length vs) (suc (length pre))
  unfolding luabins_save
  luabins_save-range =
      let whole = length-append pre (vs ++ post) in
      let inner = length-append vs post in
      let total = length (pre ++ (vs ++ post)) in
      let from = length pre + 1 in
      let to = length pre + length vs in
      let count : to - from + 1 ≡ length vs = omega arith in
      let rounds : to + 1 - from ≡ length vs = omega arith in
      let first : from ≡ suc (length pre) = omega arith in
      rw (
        le→ltb_false max_tuple (to - from) (omega arith),
        le→ltb_false to from (omega arith),
        le→ltb_false total from (omega (arith, whole, inner)),
        le→ltb_false total to (omega (arith, whole, inner)),
        count,
        rounds,
        first,
      )

  -- When `luabins_save` succeeds on a range of the stack with 1 to LUABINS_MAXTUPLE + 1 values, its
  -- bytes are the number of the values in one byte and the encoding of each.
  pub luabins_save-encode :
      {bs : Bytes}
      → luabins_save api (pre ++ (vs ++ post)) (length pre + 1) (length pre + length vs) ≡ done bs
      → bs ≡ length vs % 256 ∷ encode_all api.objlen vs
  luabins_save-encode h =
      let (ps, run, e) =
        report-eq-done save_message concat
          (save_loop api (pre ++ (vs ++ post)) (length vs) (suc (length pre))
            ((length vs % 256 ∷ []) ∷ []))
          (rw luabins_save-range at h) in
      sym e
      ∙ save_loop-encode api (pre ++ (vs ++ post)) vs post (length pre)
          ((length vs % 256 ∷ []) ∷ []) (drop-append pre (vs ++ post)) run
