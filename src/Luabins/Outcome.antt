-- ===== src/Luabins/Outcome.antt =====
-- What a call of the C API leaves: values and success, or a code and the message on the stack.
use lua_cmake_source.Base.{String}
use lua_cmake_source.Luabins.Result.{Code, Result, ok, err, fault, out_of_fuel}

-- `undefined` is a call that C gives no meaning, or a model that ran out of fuel.
pub data Outcome {ℓ} (A : Type ℓ) : Type ℓ where
  done : A → Outcome A
  failed : Code → String → Outcome A
  undefined : Outcome A

-- The switch on the result at the end of `luabins_save` and of `luabins_load`.
abbrev pub report {ℓ κ} :
    {A : Type ℓ} {B : Type κ} → (Code → String) → (A → B) → Result A → Outcome B
report message f (ok a) = done (f a)
report message f (err c) = failed c (message c)
report message f fault = undefined
report message f out_of_fuel = undefined
