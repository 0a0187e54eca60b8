-- ===== src/Rex/Buffer.antt =====
-- libs/lrexlib/src/common.c: TBuffer, the string that grows, and its array of mixed pieces that
-- holds the replacement of gsub.
pub mod Room
pub mod Freed
use lua_cmake_source.Base.{
  ℕ, zero, suc, ◌+◌, ◌-◌, ◌*◌, ◌&&◌, [], ◌∷◌, ◌++◌, Option, none, some, ltb, ◌==◌, if◌then◌else◌,
  length, take, drop, Bytes, le_bytes, from_le,
}
use lua_cmake_source.Base.Decimal.{is_digit}

-- `written` are the first `top` bytes of the array, which has room for `size`.
pub record TBuffer : Type 0 where
  pub size : ℕ
  pub written : Bytes

abbrev pub top : TBuffer → ℕ
top b = length b.written

unfoldable pub buffer_init : ℕ → TBuffer
buffer_init sz = record { size = sz; written = [] }

unfoldable pub buffer_clear : TBuffer → TBuffer
buffer_clear b = record { size = b.size; written = [] }

-- The array is made twice as large as it must be.
unfoldable pub buffer_addlstring : TBuffer → Bytes → TBuffer
buffer_addlstring b src =
    let newtop = top b + length src in
    record { size = if ltb b.size newtop then 2 * newtop else b.size; written = b.written ++ src }

unfoldable pub buffer_addbuffer : TBuffer → TBuffer → TBuffer
buffer_addbuffer trg src = buffer_addlstring trg src.written

-- A piece of a replacement, as `bufferZ_next` hands it out.
pub data Piece : Type 0 where
  text : Bytes → Piece
  group : ℕ → Piece

abbrev id_number : ℕ
id_number = 0

abbrev id_string : ℕ
id_string = 1

-- An array of two values of type size_t.
abbrev pub header : ℕ → ℕ → Bytes
header id n = le_bytes 8 id ++ le_bytes 8 n

unfoldable pub buffer_z_addlstring : TBuffer → Bytes → TBuffer
buffer_z_addlstring b src =
    buffer_addlstring (buffer_addlstring b (header id_string (length src))) src

unfoldable pub buffer_z_addnum : TBuffer → ℕ → TBuffer
buffer_z_addnum b num = buffer_addlstring b (header id_number num)

-- The search for the next `%`: what stands before it, and the rest with it.
unfoldable pub until_percent : Bytes → Bytes × Bytes
until_percent [] = ([], [])
until_percent (c ∷ cs) =
    let r = until_percent cs in if c == b'%' then ([], c ∷ cs) else (c ∷ r.0, r.1)

-- The number of the capture that a digit stands for; none for an invalid capture index.
unfoldable pub capture_index : ℕ → ℕ → Option ℕ
capture_index nsub num =
    if num == 1 && nsub == 0 then some 0 else if ltb nsub num then none else some num

abbrev pub add_run : TBuffer → Bytes → TBuffer
add_run b [] = b
add_run b (c ∷ cs) = buffer_z_addlstring b (c ∷ cs)

abbrev pub add_capture :
    (TBuffer → Bytes → Option TBuffer) → TBuffer → Bytes → Option ℕ → Option TBuffer
add_capture next b rest none = none
add_capture next b rest (some num) = next (buffer_z_addnum b num) rest

-- From the `%` on: a `%` at the very end is skipped.
abbrev pub put_escape : (TBuffer → Bytes → Option TBuffer) → ℕ → TBuffer → Bytes → Option TBuffer
put_escape next nsub b [] = some b
put_escape next nsub b (_ ∷ []) = some b
put_escape next nsub b (_ ∷ q ∷ rest) =
    if is_digit q
    then add_capture next b rest (capture_index nsub (q - b'0'))
    else next (buffer_z_addlstring b (q ∷ [])) rest

unfoldable pub put_loop : ℕ → ℕ → TBuffer → Bytes → Option TBuffer
put_loop zero nsub b p = some b
put_loop (suc f) nsub b p =
    let (run, rest) = until_percent p in put_escape (put_loop f nsub) nsub (add_run b run) rest

-- `bufferZ_putrepstring`: none for the error on an invalid capture index.
unfoldable pub buffer_z_putrepstring : TBuffer → Bytes → ℕ → Option TBuffer
buffer_z_putrepstring b rep nsub = put_loop (length rep + 1) nsub (buffer_clear b) rep

-- `bufferZ_next`: where the next piece starts, and the piece at `iter`.
unfoldable pub buffer_z_next : TBuffer → ℕ → Option (ℕ × Piece)
buffer_z_next b iter =
    let num = from_le (take 8 (drop (8 + iter) b.written)) in
    if ltb iter (top b)
    then (if from_le (take 8 (drop iter b.written)) == id_string
        then some (num + (16 + iter), text (take num (drop (16 + iter) b.written)))
        else some (16 + iter, group num))
    else none
