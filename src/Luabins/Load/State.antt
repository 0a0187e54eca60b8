-- ===== src/Luabins/Load/State.antt =====
-- `lbs_LoadState` and its operations. The pointer `pos` is the memory from there on, which may
-- reach beyond the data; what lies outside that memory must not be read.
use lua_cmake_source.Base.{
  ℕ, zero, suc, ◌+◌, ◌-◌, ◌%◌, ◌^◌, Bool, true, false, [], ◌∷◌, Option, none, some, leb, ltb,
  if◌then◌else◌, drop, Bytes,
}
use lua_cmake_source.Luabins.Result.{Result, ok, err, fault, bad_data, ◌>>=◌}

pub record LoadState : Type 0 where
  pub pos : Option Bytes
  pub unread : ℕ

abbrev pub state : Option Bytes → ℕ → LoadState
state pos unread = record { pos = pos; unread = unread }

abbrev pub size_t_mod : ℕ
size_t_mod = 2 ^ 64

abbrev pub good : Option Bytes → Bool
good none = false
good (some m) = true

-- The room that there is: the slots of the Lua stack, and the calls of load_value that the C stack
-- takes inside one another. The code asks for neither: what goes beyond is undefined.
pub record Room : Type 0 where
  pub slots : ℕ
  pub frames : ℕ

-- A value is pushed on a Lua stack with `top` slots in use.
abbrev pub pushed {ℓ} : {A : Type ℓ} → Room → ℕ → A → Result A
pushed room top a = if ltb top room.slots then ok a else fault

-- The body of a call inside `depth` others.
abbrev pub called {ℓ} : {A : Type ℓ} → Room → ℕ → Result A → Result A
called room depth r = if ltb depth room.frames then r else fault

-- `lbsLS_init`
abbrev pub init : Bytes → ℕ → LoadState
init memory len = state (if ltb 0 len then some memory else none) len

-- `lbsLS_readbyte`. There is no test of `unread`, which wraps at 0.
unfoldable pub readbyte : Option Bytes → ℕ → Result (ℕ × LoadState)
readbyte none u = ok (0, state none u)
readbyte (some []) u = fault
readbyte (some (b ∷ m)) u = ok (b, state (some m) ((u + size_t_mod - 1) % size_t_mod))

-- `lbsLS_eat`: the memory at the old position, and the new state.
unfoldable pub eat : Option Bytes → ℕ → ℕ → Option Bytes × LoadState
eat none u len = (none, state none u)
eat (some m) u len =
    if leb len u then (some m, state (some (drop len m)) (u - len)) else (none, state none 0)

-- `memcpy` of `len` bytes.
unfoldable pub copy : ℕ → Bytes → Result Bytes
copy zero m = ok []
copy (suc n) [] = fault
copy (suc n) (b ∷ m) = copy n m >>= λ bs. ok (b ∷ bs)

abbrev pub copied :
    ℕ → Result (Bytes × LoadState) → Option Bytes × LoadState → Result (Bytes × LoadState)
copied len otherwise (none, ls) = otherwise
copied len otherwise (some m, ls) = copy len m >>= λ bs. ok (bs, ls)

-- `lbsLS_readbytes`
unfoldable pub readbytes : LoadState → ℕ → Result (Bytes × LoadState)
unfolding eat
readbytes ls len = copied len (err bad_data) (eat ls.pos ls.unread len)
