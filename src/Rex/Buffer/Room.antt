-- ===== src/Rex/Buffer/Room.antt =====
-- The operations on buffers never write behind the end of the array.
use lua_cmake_source.Base.{
  ℕ, zero, suc, ◌+◌, ◌≤◌, [], ◌∷◌, Option, none, some, ltb, ltb_false→le, ◌≡◌, Bool-cases, inl, inr,
  arith, length, length-append, Bytes,
}
use mathlib.Core.Path.{subst}
use lua_cmake_source.Base.Decimal.{is_digit}
use lua_cmake_source.Rex.Buffer.{
  until_percent, TBuffer, top, buffer_init, buffer_clear, buffer_addlstring, buffer_addbuffer,
  buffer_z_addlstring, buffer_z_addnum, add_run, add_capture, put_escape, put_loop,
  buffer_z_putrepstring,
}

-- The buffers that the operations make, one after the other.
pub data Reached : TBuffer → Type 0 where
  init : (sz : ℕ) → Reached (buffer_init sz)
  clear : {b : TBuffer} → Reached b → Reached (buffer_clear b)
  addlstring : {b : TBuffer} (s : Bytes) → Reached b → Reached (buffer_addlstring b s)
  addbuffer : {b c : TBuffer} → Reached b → Reached c → Reached (buffer_addbuffer b c)
  putrepstring :
      {b z : TBuffer} (rep : Bytes) (nsub : ℕ)
      → Reached b
      → buffer_z_putrepstring b rep nsub ≡ some z
      → Reached z

abbrev HasRoom : TBuffer → Type 0
HasRoom b = top b ≤ b.size

HasRoom-addlstring : (b : TBuffer) (s : Bytes) → HasRoom b → HasRoom (buffer_addlstring b s)
unfolding buffer_addlstring
HasRoom-addlstring b s h = elim (Bool-cases (ltb b.size (top b + length s))) [
  | inl e ↦ rw e (omega (arith, length-append b.written s))
  | inr e ↦ rw e (omega (arith, length-append b.written s, ltb_false→le _ _ e))
]

HasRoom-Zaddlstring : (b : TBuffer) (s : Bytes) → HasRoom b → HasRoom (buffer_z_addlstring b s)
unfolding buffer_z_addlstring
HasRoom-Zaddlstring b s h = HasRoom-addlstring _ s (HasRoom-addlstring b _ h)

-- The buffer that is there, if there is one.
abbrev RoomIn : Option TBuffer → Type 0
RoomIn none = Unit
RoomIn (some b) = HasRoom b

HasRoom-run : (b : TBuffer) (run : Bytes) → HasRoom b → HasRoom (add_run b run)
HasRoom-run b [] h = h
HasRoom-run b (c ∷ run) h = HasRoom-Zaddlstring b (c ∷ run) h

module _ (next : TBuffer → Bytes → Option TBuffer)
    (ih : (b : TBuffer) (s : Bytes) → HasRoom b → RoomIn (next b s)) where
  RoomIn-capture :
      (b : TBuffer) (rest : Bytes) (num : Option ℕ)
      → HasRoom b
      → RoomIn (add_capture next b rest num)
  RoomIn-capture b rest none h = tt
  RoomIn-capture b rest (some n) h =
      ih (buffer_z_addnum b n) rest (unfold buffer_z_addnum in HasRoom-addlstring b _ h)

  RoomIn-escape :
      (nsub : ℕ) (b : TBuffer) (rest : Bytes) → HasRoom b → RoomIn (put_escape next nsub b rest)
  RoomIn-escape nsub b [] h = h
  RoomIn-escape nsub b (c ∷ []) h = h
  RoomIn-escape nsub b (c ∷ q ∷ rest) h = elim (Bool-cases (is_digit q)) [
    | inl e ↦ rw e (RoomIn-capture b rest _ h)
    | inr e ↦ rw e (ih _ rest (HasRoom-Zaddlstring b (q ∷ []) h))
  ]

RoomIn-loop : (f nsub : ℕ) (b : TBuffer) (p : Bytes) → HasRoom b → RoomIn (put_loop f nsub b p)
unfolding put_loop
RoomIn-loop zero nsub b p h = h
RoomIn-loop (suc f) nsub b p h =
    let (run, rest) = until_percent p in
    RoomIn-escape (put_loop f nsub) (λ b s. RoomIn-loop f nsub b s) nsub (add_run b run) rest
      (HasRoom-run b run h)

HasRoom-addbuffer : (b c : TBuffer) → HasRoom b → HasRoom (buffer_addbuffer b c)
unfolding buffer_addbuffer
HasRoom-addbuffer b c h = HasRoom-addlstring b c.written h

RoomIn-putrepstring :
    (b : TBuffer) (rep : Bytes) (nsub : ℕ) → RoomIn (buffer_z_putrepstring b rep nsub)
unfolding buffer_z_putrepstring buffer_clear
RoomIn-putrepstring b rep nsub =
    RoomIn-loop (length rep + 1) nsub (buffer_clear b) rep (omega arith)

-- Whatever sequence of operations made a buffer, its contents fit in its array.
pub Reached-HasRoom : (b : TBuffer) → Reached b → top b ≤ b.size
unfolding buffer_init buffer_clear
Reached-HasRoom b (init sz) = omega arith
Reached-HasRoom b (clear {b = c} r) = omega arith
Reached-HasRoom b (addlstring {b = c} s r) = HasRoom-addlstring c s (Reached-HasRoom c r)
Reached-HasRoom b (addbuffer {b = c} {c = d} r t) = HasRoom-addbuffer c d (Reached-HasRoom c r)
Reached-HasRoom b (putrepstring {b = c} rep nsub r e) =
    subst RoomIn e (RoomIn-putrepstring c rep nsub)
