-- ===== src/MixLua/Loaded.antt =====
-- libs/mixlua/mixlua.c: what mix_loadstring hands to lua_load, and what it returns.
use lua_cmake_source.Base.{
  ℕ, zero, suc, ◌+◌, ◌*◌, ◌<◌, false, not, ◌&&◌, List, [], ◌∷◌, ◌≡◌, ◌≢◌, refl, sym, ap, arith,
  none, some, ltb, ◌==◌, length, length-append, codes, ◌∙◌, concat, Bytes, Bool-cases, inl, inr,
}
use lua_cmake_source.MixLua.State.{
  Source, Cursor, size, char_at, Step, ok, raised, out_of_fuel, ◌>>=◌,
}
use lua_cmake_source.MixLua.Reader.{
  Chunk, mix_reader, chunks, start, sh_loop, Ending, ended, ended_with_error, ended_by_raise,
  after_call,
}
use lua_cmake_source.MixLua.Total.{Ends, yields, raises}
use lua_cmake_source.MixLua.Ending.{IsText, HasLine}
use lua_cmake_source.MixLua.Page.{Program}
use lua_cmake_source.MixLua.Page.Whole.{start-chunks-Program}
use lua_cmake_source.MixLua.Module.{
  Reply, compiled, Loaded, stopped, function, refused, Lua, load_result, mix_loadbuffer, Options,
  given, state_of, mix_stateopt, mix_loadstring,
}

>>=_assoc :
    {A B C : Type 0} (r : Step A) (f : A → Step B) (g : B → Step C)
    → (r >>= λ a. f a >>= g) ≡ ((r >>= f) >>= g)
>>=_assoc (ok a) f g = refl
>>=_assoc raised f g = refl
>>=_assoc out_of_fuel f g = refl

>>=-ne-raised :
    {A B : Type 0} (r : Step A) (f : A → Step B)
    → r ≢ raised
    → ((a : A) → f a ≢ raised)
    → (r >>= f) ≢ raised
>>=-ne-raised (ok a) f n k = k a
>>=-ne-raised raised f n k = λ e. n refl
>>=-ne-raised out_of_fuel f n k = cc

module _ (s : Source) where
  sh_loop-ne-raised : (f pos : ℕ) → sh_loop s f pos ≢ raised
  unfolding sh_loop
  sh_loop-ne-raised zero pos = cc
  sh_loop-ne-raised (suc f) pos =
      elim (Bool-cases (ltb pos (size s) && not (char_at s pos == b'\n'))) [
        | inl e ↦ rw e (sh_loop-ne-raised f (pos + 1))
        | inr e ↦ rw e (cc)
      ]

  start-ne-raised : start s ≢ raised
  unfolding start
  start-ne-raised = elim (Bool-cases (ltb 0 (size s) && char_at s 0 == b'#')) [
    | inl e ↦ rw e (>>=-ne-raised (sh_loop s (size s + 1) 0) _ (sh_loop-ne-raised _ 0) λ pos. cc)
    | inr e ↦ rw e (cc)
  ]

  after_call-ne-raised :
      (next : Cursor → Step (List Bytes × Ending)) (r : Step Chunk)
      → ((c : Cursor) → next c ≢ raised)
      → after_call next r ≢ raised
  after_call-ne-raised next raised k = cc
  after_call-ne-raised next out_of_fuel k = cc
  after_call-ne-raised next (ok (none, c)) k = cc
  after_call-ne-raised next (ok (some [], c)) k = cc
  after_call-ne-raised next (ok (some (b ∷ bs), c)) k =
      >>=-ne-raised (next c) _ (k c) λ (rest, e). cc

  chunks-ne-raised : (f : ℕ) (c : Cursor) → chunks s f c ≢ raised
  unfolding chunks
  chunks-ne-raised zero c = cc
  chunks-ne-raised (suc f) c =
      after_call-ne-raised (chunks s f) (mix_reader s c) λ c'. chunks-ne-raised f c'

given_value :
    {A : Type 0} {P : A → Type 0} (r : Step A) → Ends P r → r ≢ raised → (a : A) × (r ≡ ok a) × P a
given_value (ok a) (yields h) n = (a, refl, h)
given_value raised raises n = absurd (n refl)
given_value out_of_fuel h n = elim h [ ]

-- Only what lua_load compiles of a program that the reader ends without an error is compiled.
load_result-eq-compiled :
    (where_1 : Bytes) (r : Loaded) (e : Ending) (code : Bytes)
    → load_result where_1 r e ≡ compiled code
    → (r ≡ function code) × (e ≡ ended)
unfolding load_result
load_result-eq-compiled w (stopped m) e code h = cc h
load_result-eq-compiled w (function f) ended code h = (cc, refl)
load_result-eq-compiled w (function f) ended_with_error code h = cc h
load_result-eq-compiled w (function f) ended_by_raise code h = cc h
load_result-eq-compiled w (refused m) ended code h = cc h
load_result-eq-compiled w (refused m) ended_with_error code h = cc h
load_result-eq-compiled w (refused m) ended_by_raise code h = cc h

abbrev result_of : Lua → List Bytes × Ending → Reply
result_of l (cs, e) = load_result l.where_1 (l.lua_load cs none) e

mix_loadbuffer-chunks :
    (l : Lua) (f : ℕ) (s : Source) {r : List Bytes × Ending}
    → (start s >>= λ c. chunks s f c) ≡ ok r
    → mix_loadbuffer l f s none ≡ ok (result_of l r)
unfolding mix_loadbuffer
mix_loadbuffer-chunks l f s run =
    >>=_assoc (start s) (chunks s f) (λ r. ok (result_of l r))
    ∙ ap (λ x. x >>= λ r. ok (result_of l r)) run

mix_loadstring-mix_loadbuffer :
    (l : Lua) (f : ℕ) (program : Bytes) (behind : ℕ → ℕ) (o : Options)
    → IsText (state_of o program behind)
    → 0 < length (given o.exp_option (codes "="))
    → mix_loadstring l f program behind o ≡ mix_loadbuffer l f (state_of o program behind) none
unfolding mix_loadstring mix_stateopt
mix_loadstring-mix_loadbuffer l f program behind o is some_exp =
    let d2l : (length o.d2l_option == 0) ≡ false = ground (arith, is.some_d2l) in
    let l2d : (length o.l2d_option == 0) ≡ false = ground (arith, is.some_l2d) in
    let exp : (length (given o.exp_option (codes "=")) == 0) ≡ false = ground (arith, some_exp) in
    rw (d2l, l2d, exp)

-- For a program with a zero byte behind it, separators that are not empty and have no zero byte, a
-- newline behind a first line that starts with #, and 8 calls of mix_reader for each byte of the
-- program and 7 more, mix_loadstring returns. If it returns a compiled chunk, lua_load made this
-- chunk of pieces that together are the Lua code which describes the program as sections. Wherever
-- there is such a description, mix_loadstring returns what lua_load makes of pieces that together
-- are that code.
pub mix_loadstring-Program :
    (l : Lua) (f : ℕ) (program : Bytes) (behind : ℕ → ℕ) (o : Options)
    → IsText (state_of o program behind)
    → 0 < length (given o.exp_option (codes "="))
    → HasLine (state_of o program behind)
    → 8 * length program + 6 < f
    → (r : Reply) × (mix_loadstring l f program behind o ≡ ok r)
      × ((code : Bytes)
          → r ≡ compiled code
          → (cs : List Bytes) × (l.lua_load cs none ≡ function code)
            × Program (state_of o program behind) (concat cs))
      × ((bs : Bytes)
          → Program (state_of o program behind) bs
          → (cs : List Bytes) × (concat cs ≡ bs)
            × (r ≡ load_result l.where_1 (l.lua_load cs none) ended))
mix_loadstring-Program l f program behind o is some_exp line enough =
    let s = state_of o program behind in
    let long : 1 < length s.out =
      omega (arith, length-append (given o.out_option (codes "io.write")) (codes "('")) in
    let (whole, every) = start-chunks-Program s f is long line enough in
    let never = >>=-ne-raised (start s) _ (start-ne-raised s) (chunks-ne-raised s f) in
    let (r, run, ends) = given_value _ whole never in
    (
      result_of l r,
      mix_loadstring-mix_loadbuffer l f program behind o is some_exp
          ∙ mix_loadbuffer-chunks l f s run,
      (λ code h.
          let (made, same) = load_result-eq-compiled l.where_1 _ r.1 code h in
          (r.0, made, ends same)),
      λ bs described.
          let (cs, run', made) = every bs described in
          (cs, made, same_result r (cs, ended) (sym run ∙ run')),
    )
  where
    same_result : (r r' : List Bytes × Ending) → ok r ≡ ok r' → result_of l r ≡ result_of l r'
    same_result r r' e = let same : r ≡ r' = cc in ap (result_of l) same
