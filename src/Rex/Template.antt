-- ===== src/Rex/Template.antt =====
-- The replacement of gsub: what libs/lrexlib/src/common.c stores of it, read back by bufferZ_next,
-- against a description that goes through its characters.
pub mod Put
pub mod Read
use lua_cmake_source.Base.{
  ℕ, zero, suc, ◌+◌, ◌-◌, ◌^◌, ◌≤◌, ◌<◌, Bool, true, false, List, [], ◌∷◌, ◌++◌, append-nil,
  append_assoc, Option, none, some, leb, ◌==◌, if◌then◌else◌, Bool-cases, inl, inr, ◌≡◌, refl, sym,
  ap, ◌∙◌, arith, length, length-append, All, Bytes,
}
use lua_cmake_source.Base.Decimal.{is_digit}
use lua_cmake_source.Rex.Buffer.{
  TBuffer, buffer_clear, buffer_addlstring, Piece, text, group, header, buffer_z_addlstring,
  buffer_z_addnum, until_percent, capture_index, add_run, add_capture, put_escape, put_loop,
  buffer_z_putrepstring,
}

abbrev pub prepend : Bytes → Option Bytes → Option Bytes
prepend front none = none
prepend front (some s) = some (front ++ s)

-- The capture that a digit names: in an expression without subexpressions 1 is the whole match.
unfoldable pub named_capture : ℕ → ℕ → Option ℕ
named_capture zero zero = some 0
named_capture zero (suc zero) = some 0
named_capture zero (suc (suc d)) = none
named_capture (suc n) d = if leb d (suc n) then some d else none

pub capture_index-named : (nsub d : ℕ) → capture_index nsub d ≡ named_capture nsub d
unfolding capture_index named_capture
capture_index-named zero zero = refl
capture_index-named zero (suc zero) = refl
capture_index-named zero (suc (suc d)) = ground arith
capture_index-named (suc n) d = ground arith

-- `%` and a digit stand for a capture, `%` and another character for the character; none for an
-- invalid capture index.
unfoldable pub expansion : ℕ → (ℕ → Bytes) → Bytes → Option Bytes
expansion nsub captured [] = some []
expansion nsub captured (c ∷ []) = some (if c == b'%' then [] else c ∷ [])
expansion nsub captured (c ∷ q ∷ rest) =
    let behind = expansion nsub captured rest in
    let next = expansion nsub captured (q ∷ rest) in
    if c == b'%'
    then (if is_digit q
        then elim (named_capture nsub (q - b'0')) [
          | none ↦ none
          | some n ↦ prepend (captured n) behind
        ]
        else prepend (q ∷ []) behind)
    else prepend (c ∷ []) next

abbrev pub piece_text : (ℕ → Bytes) → Piece → Bytes
piece_text captured (text s) = s
piece_text captured (group n) = captured n

abbrev pub pieces_text : (ℕ → Bytes) → List Piece → Bytes
pieces_text captured [] = []
pieces_text captured (p ∷ ps) = piece_text captured p ++ pieces_text captured ps

abbrev pub encoded : List Piece → Bytes
encoded [] = []
encoded (text s ∷ ps) = header 1 (length s) ++ s ++ encoded ps
encoded (group n ∷ ps) = header 0 n ++ encoded ps

-- A size_t holds the length or the number.
abbrev pub IsSmall : Piece → Type 0
IsSmall (text s) = length s < 2 ^ 64
IsSmall (group n) = n < 2 ^ 64

-- What was added to a buffer are pieces that stand for the expansion, or both are refused.
pub data IsPut (captured : ℕ → Bytes) (b : TBuffer) : Option TBuffer → Option Bytes → Type 0 where
  invalid : IsPut captured b none none
  pieces :
      (z : TBuffer) (ps : List Piece)
      → z.written ≡ b.written ++ encoded ps
      → All IsSmall ps
      → IsPut captured b (some z) (some (pieces_text captured ps))

pub IsPut-some :
    {captured : ℕ → Bytes} {b z : TBuffer} {e : Option Bytes}
    → IsPut captured b (some z) e
    → (ps : List Piece) × (e ≡ some (pieces_text captured ps))
      × (z.written ≡ b.written ++ encoded ps)
      × All IsSmall ps
IsPut-some (pieces z ps written small) = (ps, refl, written, small)

pub prepend-append : (a b : Bytes) (e : Option Bytes) → prepend a (prepend b e) ≡ prepend (a ++ b) e
prepend-append a b none = refl
prepend-append a b (some s) = ap some (sym (append_assoc a b s))

pub prepend-nil : (e : Option Bytes) → prepend [] e ≡ e
prepend-nil none = refl
prepend-nil (some s) = refl
