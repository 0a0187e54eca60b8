-- ===== src/Random/Tests.antt =====
-- Runs of the generator, and its theorems at them.
use lua_cmake_source.Base.{◌*◌, ◌/◌, ◌+◌, [], ◌∷◌, All, ◌≡◌, refl, arith, replicate, codes}
use lua_cmake_source.Base.Int.{pos}
use lua_cmake_source.Random.Twister.{
  Doubles, n_words, Mt, init_loop, init_genrand, joined, mixed, first_loop, second_loop, regenerate,
  tempered, refilled, genrand_int32,
}
use lua_cmake_source.Random.Bounds.{HasState, init_genrand-HasState}
use lua_cmake_source.Random.Recurrence.{stream, twisted, regenerate_lem}
use lua_cmake_source.Random.Module.{handle, integer, Platform, lnew, lclone, lvaluei}
use lua_cmake_source.Random.Stores.{
  Reached, at_first, after_new, after_clone, after_valuei, Reached-AllStates,
}

abbrev memory : Mt
memory = record { v = replicate n_words 7; i = 0 }

abbrev seeded : Mt
seeded = init_genrand memory 5489

seeded_state : HasState seeded
seeded_state = init_genrand-HasState memory 5489 refl

-- The first number that the Mersenne Twister gives for its default seed.
first_number : (genrand_int32 seeded).0 ≡ 3499211612
unfolding genrand_int32 init_genrand init_loop refilled regenerate first_loop second_loop joined
    mixed tempered
first_number = refl

regenerate_lem_example :
    stream memory.v (regenerate memory.v) (300 + n_words)
    ≡ twisted memory.v (regenerate memory.v) 300
regenerate_lem_example = regenerate_lem memory.v 300 refl (omega arith)

abbrev doubles : Doubles
doubles = record {
  of_ulong = λ n. n;
  of_int = λ z. 0;
  plus = λ x y. x + y;
  times = λ x y. x * y;
  over = λ x y. x / y;
  floor = λ x. x;
}

abbrev platform : Platform
platform = record { doubles = doubles; sprintf_p = λ h. codes "0x1" }

-- A generator is made, cloned, and asked for a number up to 6.
abbrev calls :
    Reached platform
      (lvaluei platform
        (lclone (lnew memory [] []).1 (handle 0 ∷ [])).1
        (handle 1 ∷ integer (pos 6) ∷ [])).1
calls =
    after_valuei (handle 1 ∷ integer (pos 6) ∷ [])
      (after_clone (handle 0 ∷ []) (after_new memory [] refl at_first))

Reached-AllStates_example :
    All HasState
      (lvaluei platform
        (lclone (lnew memory [] []).1 (handle 0 ∷ [])).1
        (handle 1 ∷ integer (pos 6) ∷ [])).1
Reached-AllStates_example = Reached-AllStates platform calls
