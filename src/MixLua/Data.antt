-- ===== src/MixLua/Data.antt =====
-- Data sections: what is sent for them, and how Lua reads it.
pub mod Quoted
pub mod Section
use lua_cmake_source.Base.{
  ℕ, zero, suc, ◌+◌, ◌-◌, ◌≤◌, ◌<◌, Bool, true, false, not, ◌&&◌, ◌||◌, List, [], ◌∷◌, ◌++◌, ◌≡◌,
  ◌≢◌, ◌↔◌, refl, sym, ap, ◌∙◌, arith, Option, none, some, ltb, leb, leb→le, leb_false→lt, ◌==◌,
  if◌then◌else◌, Bool-cases, inl, inr, length, length-append, append-nil, append_assoc, Bytes, All,
}
use lua_cmake_source.MixLua.State.{Source, size, char_at, is_d2l, Step, ok, raised, out_of_fuel}
use lua_cmake_source.MixLua.Reader.{temp_size, must_escape, escaped, head_of, data_loop, slice}

abbrev pub escape_all : Bytes → Bytes
escape_all [] = []
escape_all (c ∷ cs) = escaped c ++ escape_all cs

length-escaped : (c : ℕ) → (1 ≤ length (escaped c)) × (length (escaped c) ≤ 2)
length-escaped c = elim (Bool-cases (must_escape c)) [
  | inl e ↦ rw e (omega arith)
  | inr e ↦ rw e (omega arith)
]

-- What `data_loop` has done when it ends: `temp` fits its array, and has the bytes passed over,
-- escaped, of which none lies behind the buffer.
pub record Escapes (s : Source) (pos : ℕ) (temp : Bytes) (r : Bool × ℕ × Bytes) : Type 0 where
  pub forward : pos ≤ r.1
  pub stays : size s < r.1 → r.1 ≡ pos
  pub fits : length r.2 ≤ temp_size
  pub content : r.2 ≡ temp ++ escape_all (slice s pos (r.1 - pos))

Escapes-here :
    (s : Source) (pos : ℕ) (full : Bool) (temp : Bytes)
    → length temp ≤ temp_size
    → Escapes s pos temp (full, pos, temp)
unfolding slice
Escapes-here s pos full temp h = record {
  forward = omega arith;
  stays = λ _. refl;
  fits = h;
  content = let none_read : pos - pos ≡ 0 = omega arith in rw none_read (sym (append-nil temp));
}

Escapes-step :
    (s : Source) (pos : ℕ) (temp : Bytes) (r : Bool × ℕ × Bytes)
    → pos < size s
    → Escapes s (pos + 1) (temp ++ escaped (char_at s pos)) r
    → Escapes s pos temp r
unfolding slice
Escapes-step s pos temp r k h = record {
  forward = omega (arith, h.forward);
  stays = λ beyond. let here = h.stays beyond in absurd (omega arith);
  fits = h.fits;
  content =
      let one_more : r.1 - pos ≡ suc (r.1 - (pos + 1)) = omega (arith, h.forward) in
      rw one_more (h.content ∙ append_assoc temp (escaped (char_at s pos)) _);
}

not_stopped : (n m : ℕ) (c : Bool) → (not (ltb n m) || c) ≡ false → n < m
not_stopped n m c h = ground arith

-- With fuel above the bytes that are left the loop ends.
pub data_loop-Escapes :
    (s : Source) (f pos : ℕ) (temp : Bytes)
    → size s < f + pos
    → 0 < f
    → length temp < temp_size - 1
    → (r : Bool × ℕ × Bytes) × (data_loop s f pos temp ≡ ok r) × Escapes s pos temp r
unfolding data_loop slice
data_loop-Escapes s zero pos temp h g k = elim g [ ]
data_loop-Escapes s (suc f) pos temp h g k =
    elim (Bool-cases (not (ltb pos (size s)) || (char_at s pos == head_of s.d2l && is_d2l s pos))) [
      | inl stop ↦ ((false, pos, temp), rw stop, Escapes-here s pos false temp (omega arith))
      | inr go ↦
          let inside : pos < size s = not_stopped pos (size s) _ go in
          elim (Bool-cases (leb (temp_size - 1) (length temp'))) [
            | inl full ↦ (
              (true, pos + 1, temp'),
              rw (go, full),
              Escapes-step s pos temp (true, pos + 1, temp') inside
                  (Escapes-here s (pos + 1) true temp' within),
            )
            | inr room ↦
                let (r, e, done) =
                  data_loop-Escapes s f (pos + 1) temp' (omega arith) (omega arith)
                    (leb_false→lt (temp_size - 1) (length temp') room) in
                (r, rw (go, room) e, Escapes-step s pos temp r inside done)
          ]
    ]
  where
    temp' : Bytes
    temp' = temp ++ escaped (char_at s pos)

    within : length temp' ≤ temp_size
    within =
        omega (arith, length-append temp (escaped (char_at s pos)), length-escaped (char_at s pos))
