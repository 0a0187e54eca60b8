-- ===== src/Random/Stores.antt =====
-- libs/lrandom/lrandom.c: what every sequence of calls keeps of the generators.
use lua_cmake_source.Base.{
  ℕ, zero, suc, ◌≡◌, refl, List, [], ◌∷◌, All, All-append, Option, none, some, length, get_elem?,
  set, Bool-cases, ◌==◌, inl, inr,
}
use lua_cmake_source.Base.Int.{ℤ, to_word}
use lua_cmake_source.Random.Twister.{n_words, Mt, genrand_real1, genrand_real2, genrand_res53}
use lua_cmake_source.Random.Bounds.{HasState, init_genrand-HasState, genrand_int32_lem}
use lua_cmake_source.Random.Module.{
  Argument, handle, integer, nil, other, Platform, Store, Effect, argument, with_mt, with_seed,
  with_int, lnew, lclone, lseed, lvalue, lvaluei, lvaluex, ltostring,
}

abbrev AllStates : Store → Type 0
AllStates = All HasState

AllStates-set : (st : Store) (h : ℕ) (o : Mt) → AllStates st → HasState o → AllStates (set st h o)
AllStates-set [] h o a s = tt
AllStates-set (x ∷ st) zero o a s = (s, a.1)
AllStates-set (x ∷ st) (suc h) o a s = (a.0, AllStates-set st h o a.1 s)

found : (st : Store) (h : ℕ) (o : Mt) → AllStates st → get_elem? st h ≡ some o → HasState o
found [] h o a e = cc
found (x ∷ st) zero o a e = let same : o ≡ x = cc in rw same (a.0)
found (x ∷ st) (suc h) o a e = found st h o a.1 e

with_mt-AllStates :
    (st : Store) (a : Option Argument) (rest : ℕ → Mt → Effect)
    → AllStates st
    → ((h : ℕ) (o : Mt) → HasState o → AllStates (rest h o).1)
    → AllStates (with_mt st a rest).1
with_mt-AllStates st none rest s r = s
with_mt-AllStates st (some (handle h)) rest s r = at_handle (get_elem? st h) refl
  where
    at_handle :
        (e : Option Mt) → get_elem? st h ≡ e → AllStates (with_mt st (some (handle h)) rest).1
    at_handle none e = rw (e, with_mt) s
    at_handle (some o) e = rw (e, with_mt) (r h o (found st h o s e))
with_mt-AllStates st (some (integer z)) rest s r = s
with_mt-AllStates st (some nil) rest s r = s
with_mt-AllStates st (some other) rest s r = s

with_seed-AllStates :
    (st : Store) (i : ℕ) (a : Option Argument) (rest : ℕ → Effect)
    → AllStates st
    → ((seed : ℕ) → AllStates (rest seed).1)
    → AllStates (with_seed st i a rest).1
with_seed-AllStates st i none rest s r = r 2007
with_seed-AllStates st i (some nil) rest s r = r 2007
with_seed-AllStates st i (some (integer z)) rest s r = r (to_word 64 z)
with_seed-AllStates st i (some (handle h)) rest s r = s
with_seed-AllStates st i (some other) rest s r = s

with_int-AllStates :
    (st : Store) (i : ℕ) (a : Option Argument) (rest : ℤ → Effect)
    → AllStates st
    → ((z : ℤ) → AllStates (rest z).1)
    → AllStates (with_int st i a rest).1
with_int-AllStates st i none rest s r = s
with_int-AllStates st i (some (integer z)) rest s r = r _
with_int-AllStates st i (some nil) rest s r = s
with_int-AllStates st i (some (handle h)) rest s r = s
with_int-AllStates st i (some other) rest s r = s

module _ (p : Platform) where
  -- The generators after some calls of the module. The memory of a new userdata holds anything.
  pub data Reached : Store → Type 0 where
    at_first : Reached []
    after_new :
        {st : Store} (memory : Mt) (args : List Argument)
        → length memory.v ≡ n_words
        → Reached st
        → Reached (lnew memory st args).1
    after_clone : {st : Store} (args : List Argument) → Reached st → Reached (lclone st args).1
    after_seed : {st : Store} (args : List Argument) → Reached st → Reached (lseed st args).1
    after_value : {st : Store} (args : List Argument) → Reached st → Reached (lvalue p st args).1
    after_valuei : {st : Store} (args : List Argument) → Reached st → Reached (lvaluei p st args).1
    after_valuex : {st : Store} (args : List Argument) → Reached st → Reached (lvaluex p st args).1
    after_tostring :
        {st : Store} (args : List Argument) → Reached st → Reached (ltostring p st args).1

  -- After any calls whatever, with any arguments and with any memory for new generators, every
  -- generator is 624 words of 32 bits with an index of at most 624.
  pub Reached-AllStates : {st : Store} → Reached st → All HasState st
  unfolding lnew lclone lseed lvalue lvaluei lvaluex ltostring genrand_real1 genrand_real2
      genrand_res53
  Reached-AllStates at_first = tt
  Reached-AllStates (after_new {st} memory args len r) =
      let s = Reached-AllStates r in
      with_seed-AllStates st 1 (argument args 1) _ s
        (λ seed. All-append HasState st _ s (init_genrand-HasState memory seed len, tt))
  Reached-AllStates (after_clone {st} args r) =
      let s = Reached-AllStates r in
      with_mt-AllStates st (argument args 1) _ s (λ h c sc. All-append HasState st _ s (sc, tt))
  Reached-AllStates (after_seed {st} args r) =
      let s = Reached-AllStates r in
      with_mt-AllStates st (argument args 1) _ s (λ h c sc.
        with_seed-AllStates st 2 (argument args 2) _ s
          (λ seed. AllStates-set st h _ s (init_genrand-HasState c seed sc.sized)))
  Reached-AllStates (after_value {st} args r) =
      let s = Reached-AllStates r in
      with_mt-AllStates st (argument args 1) _ s
        (λ h c sc. AllStates-set st h _ s (genrand_int32_lem c sc).1)
  Reached-AllStates (after_valuei {st} args r) =
      let s = Reached-AllStates r in
      with_mt-AllStates st (argument args 1) _ s (λ h c sc.
        let next = AllStates-set st h _ s (genrand_int32_lem c sc).1 in
        elim (Bool-cases (length args == 2)) [
          | inl e ↦ rw e (with_int-AllStates st 2 (argument args 2) _ s (λ b. next))
          | inr e ↦ rw e (
              with_int-AllStates st 2 (argument args 2) _ s
                (λ a. with_int-AllStates st 3 (argument args 3) _ s (λ b. next)))
        ])
  Reached-AllStates (after_valuex {st} args r) =
      let s = Reached-AllStates r in
      with_mt-AllStates st (argument args 1) _ s
        (λ h c sc. AllStates-set st h _ s (genrand_int32_lem _ (genrand_int32_lem c sc).1).1)
  Reached-AllStates (after_tostring {st} args r) =
      let s = Reached-AllStates r in with_mt-AllStates st (argument args 1) _ s (λ h c sc. s)
