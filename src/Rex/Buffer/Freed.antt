-- ===== src/Rex/Buffer/Freed.antt =====
-- libs/lrexlib/src/common.c: TFreeList, the list of the buffers to free.
use lua_cmake_source.Base.{
  ℕ, zero, suc, ◌+◌, ◌≤◌, List, [], ◌∷◌, ltb, if◌then◌else◌, ◌≡◌, refl, arith, length, get_or, set,
  get_or-set, length-set, get_or-set_ne, ◌≢◌, true,
}
use lua_cmake_source.Rex.Engine.{Result, ok, undefined, ◌>>=◌}

-- An array of 16 buffers, by their numbers, of which the first `top` are to be freed.
pub record TFreeList : Type 0 where
  pub list : List ℕ
  pub top : ℕ

abbrev pub capacity : ℕ
capacity = 16

abbrev pub freelist_init : TFreeList → TFreeList
freelist_init fl = record fl { top = 0 }

unfoldable pub freelist_add : TFreeList → ℕ → Result TFreeList
freelist_add fl buf =
    if ltb fl.top capacity
    then ok (record { list = set fl.list fl.top buf; top = fl.top + 1 })
    else undefined

-- while (fl->top > 0): the buffers, as they are freed.
unfoldable pub free_loop : List ℕ → ℕ → List ℕ
free_loop list zero = []
free_loop list (suc top) = get_or list top 0 ∷ free_loop list top

unfoldable pub freelist_free : TFreeList → TFreeList × List ℕ
freelist_free fl = (record fl { top = 0 }, free_loop fl.list fl.top)

-- A buffer after the other is added.
unfoldable pub add_all : TFreeList → List ℕ → Result TFreeList
add_all fl [] = ok fl
add_all fl (b ∷ bs) = freelist_add fl b >>= λ fl. add_all fl bs

-- The buffers of a list, the last one first, in front of others.
abbrev pub reversed_onto : List ℕ → List ℕ → List ℕ
reversed_onto [] more = more
reversed_onto (b ∷ bs) more = reversed_onto bs (b ∷ more)

free_loop-set : (list : List ℕ) (k v j : ℕ) → j ≤ k → free_loop (set list k v) j ≡ free_loop list j
unfolding free_loop
free_loop-set list k v zero h = refl
free_loop-set list k v (suc j) h =
    let elsewhere : k ≢ j = λ e. absurd (omega arith) in
    rw (get_or-set_ne list k j v 0 elsewhere, free_loop-set list k v j (omega arith)) refl

add_all-Frees :
    (fl : TFreeList) (bufs : List ℕ)
    → length fl.list ≡ capacity
    → fl.top + length bufs ≤ capacity
    → (after : TFreeList) × (add_all fl bufs ≡ ok after)
      × (free_loop after.list after.top ≡ reversed_onto bufs (free_loop fl.list fl.top))
unfolding add_all freelist_add free_loop
add_all-Frees fl [] h k = (fl, refl, refl)
add_all-Frees fl (b ∷ bs) h k =
    let room : ltb fl.top capacity ≡ true = ground arith in
    let next : TFreeList = record { list = set fl.list fl.top b; top = fl.top + 1 } in
    let (after, all, freed) =
      add_all-Frees next bs (rw (length-set fl.list fl.top b) h) (omega arith) in
    let one_more : fl.top + 1 ≡ suc fl.top = omega arith in
    let last : free_loop (set fl.list fl.top b) (fl.top + 1) ≡ b ∷ free_loop fl.list fl.top =
      rw
        (
          one_more,
          get_or-set fl.list fl.top b 0 (omega arith),
          free_loop-set fl.list fl.top b fl.top (omega arith),
        )
        refl in
    (after, rw room all, rw (← last) freed)

-- At most 16 buffers find their place in a list that is begun, and are each freed once, the last one
-- first; a second call of freelist_free frees none.
pub freelist_free-add_all :
    (fl : TFreeList) (bufs : List ℕ)
    → length fl.list ≡ capacity
    → length bufs ≤ capacity
    → (after : TFreeList) × (add_all (freelist_init fl) bufs ≡ ok after)
      × ((freelist_free after).1 ≡ reversed_onto bufs [])
      × ((freelist_free (freelist_free after).0).1 ≡ [])
unfolding freelist_free free_loop
freelist_free-add_all fl bufs h k =
    let (after, all, freed) = add_all-Frees (freelist_init fl) bufs h (omega arith) in
    (after, all, freed, refl)
