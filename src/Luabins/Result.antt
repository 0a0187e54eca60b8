-- ===== src/Luabins/Result.antt =====
-- The internal result codes of saveload.h, as values.
use lua_cmake_source.Base.{◌≡◌, refl}

-- LUABINS_EFAILURE and the codes below it; LUABINS_ESUCCESS is `ok`.
pub data Code : Type 0 where
  failure bad_type too_deep no_stack bad_data tail_left bad_size : Code

-- `fault` is undefined behaviour of the C code, such as a read outside the memory that it was
-- given. `out_of_fuel` has no counterpart in the program.
pub data Result {ℓ} (A : Type ℓ) : Type ℓ where
  ok : A → Result A
  err : Code → Result A
  fault out_of_fuel : Result A

infixl 5 ◌>>◌
infixl 5 ◌>>=◌
-- The next step of a chain, on the result so far.
abbrev pub ◌>>=◌ {ℓ κ} : {B : Type κ} {A : Type ℓ} → Result A → (A → Result B) → Result B
out_of_fuel >>= next = out_of_fuel
fault >>= next = fault
err code >>= next = err code
ok x >>= next = next x

abbrev pub ◌>>◌ {ℓ κ} : {B : Type κ} {A : Type ℓ} → Result A → Result B → Result B
start >> next = start >>= λ x. next

-- A chain that gives a result went through its first step.
pub >>=-eq-ok {ℓ κ} :
    {A : Type ℓ} {B : Type κ} {final : B} (start : Result A) (next : A → Result B)
    → (start >>= next) ≡ ok final
    → (x : A) × (start ≡ ok x) × (next x ≡ ok final)
>>=-eq-ok (ok x) next e = (x, refl, e)
>>=-eq-ok (err code) next e = cc
>>=-eq-ok fault next e = cc
>>=-eq-ok out_of_fuel next e = cc
