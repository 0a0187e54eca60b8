-- ===== src/Luabins/Load/Safety.antt =====
-- Memory safety and termination of the load: the data of a Lua string has a zero byte behind it,
-- and the load code never reads further.
use lua_cmake_source.Base.{
  ℕ, zero, suc, ◌+◌, ◌-◌, ◌*◌, ◌%◌, ◌≤◌, ◌<◌, Bool, true, false, [], ◌∷◌, ◌++◌, ◌≡◌, refl, ap,
  arith, some, leb, leb→le, lt→ltb, ◌==◌, if◌then◌else◌, Bool-cases, inl, inr, drop, length,
  length-drop_le, length-append, Bytes, from_le,
}
use lua_cmake_source.LuaValue.{Entries, end, rawset}
use lua_cmake_source.Luabins.Result.{Code, Result, ok, err, bad_data, bad_size, ◌>>=◌}
use lua_cmake_source.Luabins.Format.{
  c_nil, c_false, c_true, c_number, c_string, c_table, l_int, l_size_t, l_number,
}
use lua_cmake_source.Luabins.Load.State.{
  LoadState, Room, pushed, state, size_t_mod, readbyte, eat, copy, copied, readbytes,
}
use lua_cmake_source.Luabins.Load.Values.{
  bad_header, bad_key, load_header, load_string, load_scalar, load_value, load_entries,
}

-- The run stayed inside its memory and its fuel, and `P` holds of its value if there is one.
pub data Ensures {A : Type 0} (P : A → Type 0) : Result A → Type 0 where
  returns : {a : A} → P a → Ensures P (ok a)
  refuses : {c : Code} → Ensures P (err c)

Ensures-bind :
    {A B : Type 0} {P : A → Type 0} {Q : B → Type 0} {r : Result A} {f : A → Result B}
    → Ensures P r
    → ((a : A) → P a → Ensures Q (f a))
    → Ensures Q (r >>= f)
Ensures-bind (returns {a} h) k = k a h
Ensures-bind refuses k = refuses

Ensures-if :
    {A : Type 0} {P : A → Type 0} (b : Bool) {x y : Result A}
    → Ensures P x
    → Ensures P y
    → Ensures P (if b then x else y)
Ensures-if true hx hy = hx
Ensures-if false hx hy = hy

Ensures-map :
    {A : Type 0} {P Q : A → Type 0} {r : Result A}
    → Ensures P r
    → ((a : A) → P a → Ensures Q (ok a))
    → Ensures Q r
Ensures-map (returns {a} h) k = k a h
Ensures-map refuses k = refuses

copy_total : (n : ℕ) (m : Bytes) → n ≤ length m → (bs : Bytes) × (copy n m ≡ ok bs)
unfolding copy
copy_total zero m h = ([], refl)
copy_total (suc n) [] h = absurd (omega arith)
copy_total (suc n) (b ∷ m) h = let (bs, e) = copy_total n m (omega arith) in (b ∷ bs, rw e)

drop-append_le : (n : ℕ) (d m : Bytes) → n ≤ length d → drop n (d ++ m) ≡ drop n d ++ m
drop-append_le zero d m h = refl
drop-append_le (suc n) [] m h = absurd (omega arith)
drop-append_le (suc n) (b ∷ d) m h = drop-append_le n d m (omega arith)

-- `d` is unread, a zero byte and `t` stand behind it.
module _ (t : Bytes) where
  abbrev at : Bytes → LoadState
  at d = state (some (d ++ 0 ∷ t)) (length d)

  abbrev Within : ℕ → LoadState → Type 0
  Within n ls = (d : Bytes) × (ls ≡ at d) × (length d ≤ n)

  copied-Ensures :
      (d : Bytes) (len : ℕ) (c : Code)
      → Ensures
          (λ r. Within (length d) r.1)
          (copied len (err c) (eat (some (d ++ 0 ∷ t)) (length d) len))
  unfolding eat
  copied-Ensures d len c = elim (Bool-cases (leb len (length d))) [
    | inl e ↦
        let fits : len ≤ length d = leb→le len (length d) e in
        let (bs, copies) = copy_total len (d ++ 0 ∷ t) (omega (arith, length-append d (0 ∷ t))) in
        rw (e, copies)
          (returns (
            drop len d,
            rw (drop-append_le len d (0 ∷ t) fits) (
                ap (state (some (drop len d ++ 0 ∷ t))) (omega (arith, length-drop_le len d fits))),
            omega (arith, length-drop_le len d fits),
          ))
    | inr e ↦ rw e refuses
  ]

  readbytes-Ensures :
      (d : Bytes) (len : ℕ) → Ensures (λ r. Within (length d) r.1) (readbytes (at d) len)
  unfolding readbytes
  readbytes-Ensures d len = copied-Ensures d len bad_data

  load_header-Ensures : (d : Bytes) → Ensures (λ r. Within (length d) r.1) (load_header (at d))
  unfolding load_header
  load_header-Ensures d = Ensures-bind (readbytes-Ensures d l_int) λ (array, ls₁) (d₁, e₁, n₁).
      rw e₁ (
        Ensures-bind (readbytes-Ensures d₁ l_int) λ (hash, ls₂) (d₂, e₂, n₂). rw e₂ (
          Ensures-if (bad_header (from_le array) (from_le hash) (length d₂)) refuses
            (returns (d₂, refl, omega arith))))

  load_string-Ensures : (d : Bytes) → Ensures (λ r. Within (length d) r.1) (load_string (at d))
  unfolding load_string
  load_string-Ensures d = Ensures-bind (readbytes-Ensures d l_size_t) λ (bs, ls₁) (d₁, e₁, n₁).
      rw e₁ (
        Ensures-bind (copied-Ensures d₁ (from_le bs) bad_size)
          λ (s, ls₂) (d₂, e₂, n₂). rw e₂ (returns (d₂, refl, omega arith)))

  load_scalar-Ensures :
      (type : ℕ) (d : Bytes) → Ensures (λ r. Within (length d) r.1) (load_scalar type (at d))
  unfolding load_scalar
  load_scalar-Ensures type d =
      let here : Within (length d) (at d) = (d, refl, omega arith) in
      Ensures-if (type == c_nil) (returns here) (
        Ensures-if (type == c_false) (returns here) (
          Ensures-if (type == c_true) (returns here) (
            Ensures-if (type == c_number)
              (Ensures-bind (readbytes-Ensures d l_number) λ (bs, ls₁) w. returns w)
              (Ensures-if (type == c_string) (load_string-Ensures d) refuses))))

  pushed-Ensures :
      {A : Type 0} {P : A → Type 0} (room : Room) (top : ℕ) (a : A)
      → top < room.slots
      → P a
      → Ensures P (pushed room top a)
  pushed-Ensures room top a h p = rw (lt→ltb top room.slots h) (returns p)

  abbrev Below : ℕ → LoadState → Type 0
  Below n ls = (d : Bytes) × (ls ≡ at d) × (length d < n)

  module _ (room : Room) where
    -- A value takes a byte, and so do the two values of an entry. A byte is enough for two slots of
    -- the Lua stack and for a call.
    mutual
      unfolding load_value readbyte load_scalar

      load_value-Ensures :
          (f top depth : ℕ) (d : Bytes)
          → 2 * length d < f
          → length d < size_t_mod
          → top + 2 * length d ≤ room.slots
          → depth + length d < room.frames
          → Ensures (λ r. Below (length d) r.1) (load_value room top depth f (at d))
      load_value-Ensures zero top depth d h k stack calls = absurd (omega arith)
      load_value-Ensures (suc f) top depth [] h k stack calls =
          rw (lt→ltb depth room.frames (omega arith)) refuses
      load_value-Ensures (suc f) top depth (b ∷ d) h k stack calls =
          let wraps : (suc (length d) + size_t_mod - 1) % size_t_mod ≡ length d = omega arith in
          rw (lt→ltb depth room.frames (omega arith), wraps)
            (Ensures-if (b == c_table)
              (Ensures-bind
                (Ensures-bind (load_header-Ensures d)
                  λ r w. pushed-Ensures room top r (omega arith) w)
                λ (total, ls₁) (d₁, e₁, n₁). rw e₁ (
                  Ensures-bind
                    (load_entries-Ensures f (top + 1) (depth + 1) total d₁ end (omega arith)
                      (omega arith) (omega arith) (omega arith))
                    λ (es, ls₂) (d₂, e₂, n₂). returns (d₂, e₂, omega arith)))
              (Ensures-bind (load_scalar-Ensures b d)
                λ r (d', e, n). pushed-Ensures room top r (omega arith) (d', e, omega arith)))

      load_entries-Ensures :
          (f top depth total : ℕ) (d : Bytes) (es : Entries)
          → 2 * length d + 1 < f
          → length d < size_t_mod
          → top + 2 * length d ≤ room.slots
          → depth + length d < room.frames
          → Ensures (λ r. Within (length d) r.1) (load_entries room top depth f total (at d) es)
      load_entries-Ensures zero top depth total d es h k stack calls = absurd (omega arith)
      load_entries-Ensures (suc f) top depth zero d es h k stack calls =
          returns (d, refl, omega arith)
      load_entries-Ensures (suc f) top depth (suc total) d es h k stack calls =
          Ensures-bind (load_value-Ensures f top depth d (omega arith) k stack calls)
            λ (key, ls₁) (d₁, e₁, n₁). rw e₁ (
              Ensures-if (bad_key key) refuses (
                Ensures-bind
                  (load_value-Ensures f (top + 1) depth d₁ (omega arith) (omega arith) (omega arith)
                    (omega arith))
                  λ (v, ls₂) (d₂, e₂, n₂). rw e₂ (
                    Ensures-map
                      (load_entries-Ensures f top depth total d₂ (rawset es key v) (omega arith)
                        (omega arith) (omega arith) (omega arith))
                      λ r (d', e, n). returns (d', e, omega arith))))
