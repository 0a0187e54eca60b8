-- ===== src/Rex/Template/Read.antt =====
-- The loop of gsub over bufferZ_next reads the pieces that bufferZ_putrepstring has stored.
use lua_cmake_source.Base.{
  ℕ, zero, suc, ◌+◌, ◌^◌, ◌<◌, true, false, List, [], ◌∷◌, ◌++◌, append-nil, append_assoc, none,
  some, ltb, lt→ltb, le→ltb_false, ◌==◌, if◌then◌else◌, ◌≡◌, refl, sym, ap, ◌∙◌, arith, length,
  length-append, take, drop, drop-drop, drop-append, take-append, take_exact, drop_exact, All,
  Bytes, le_bytes, from_le, length-le_bytes, from_le-le_bytes,
}
use lua_cmake_source.Rex.Buffer.{
  TBuffer, top, buffer_addlstring, Piece, text, group, header, buffer_z_next,
}
use lua_cmake_source.Rex.Template.{piece_text, pieces_text, encoded, IsSmall}
use lua_cmake_source.Rex.Gsub.Replace.{rep_loop}

abbrev encoded_one : Piece → Bytes
encoded_one (text s) = header 1 (length s) ++ s
encoded_one (group n) = header 0 n

-- A header, and what stands behind it.
record IsHeaded (s : Bytes) (id n : ℕ) (rest : Bytes) : Type 0 where
  id_at : from_le (take 8 s) ≡ id
  number_at : from_le (take 8 (drop 8 s)) ≡ n
  rest_at : drop 16 s ≡ rest
  sized : 0 < length s

header-IsHeaded :
    (id n : ℕ) (rest : Bytes) → id < 2 ^ 64 → n < 2 ^ 64 → IsHeaded (header id n ++ rest) id n rest
header-IsHeaded id n rest small small' =
    let split : header id n ++ rest ≡ le_bytes 8 id ++ (le_bytes 8 n ++ rest) =
      append_assoc (le_bytes 8 id) (le_bytes 8 n) rest in
    let second : drop 8 (header id n ++ rest) ≡ le_bytes 8 n ++ rest =
      ap (drop 8) split ∙ drop_exact 8 _ _ (length-le_bytes 8 id) in
    record {
      id_at =
          ap (λ s. from_le (take 8 s)) split
          ∙ ap from_le (take_exact 8 _ _ (length-le_bytes 8 id))
          ∙ from_le-le_bytes 8 id small;
      number_at =
          ap (λ s. from_le (take 8 s)) second
          ∙ ap from_le (take_exact 8 _ _ (length-le_bytes 8 n))
          ∙ from_le-le_bytes 8 n small';
      rest_at =
          sym (drop-drop 8 8 16 (header id n ++ rest) refl)
          ∙ ap (drop 8) second
          ∙ drop_exact 8 _ _ (length-le_bytes 8 n);
      sized = omega (
        arith,
        ap length split,
        length-append (le_bytes 8 id) (le_bytes 8 n ++ rest),
        length-le_bytes 8 id,
      );
    }

module _ (b : TBuffer) (front : Bytes) where
  buffer_z_next-headed :
      (id n : ℕ) (rest : Bytes)
      → b.written ≡ front ++ (header id n ++ rest)
      → id < 2 ^ 64
      → n < 2 ^ 64
      → buffer_z_next b (length front) ≡ (
          if id == 1
          then some (n + (16 + length front), text (take n rest))
          else some (16 + length front, group n))
  unfolding buffer_z_next
  buffer_z_next-headed id n rest e small small' =
      let headed = header-IsHeaded id n rest small small' in
      let here : drop (length front) b.written ≡ header id n ++ rest =
        ap (drop (length front)) e ∙ drop-append front _ in
      let second : drop (8 + length front) b.written ≡ drop 8 (header id n ++ rest) =
        sym (drop-drop (length front) 8 (8 + length front) b.written (omega arith))
        ∙ ap (drop 8) here in
      let third : drop (16 + length front) b.written ≡ rest =
        sym (drop-drop (length front) 16 (16 + length front) b.written (omega arith))
        ∙ ap (drop 16) here
        ∙ headed.rest_at in
      let inside : ltb (length front) (top b) ≡ true =
        lt→ltb _ _
          (omega (arith, ap length e, length-append front (header id n ++ rest), headed.sized)) in
      rw (inside, third, second, here, headed.id_at, headed.number_at)

length-header : (id n : ℕ) → length (header id n) ≡ 16
length-header id n =
    omega (
      arith,
      length-append (le_bytes 8 id) (le_bytes 8 n),
      length-le_bytes 8 id,
      length-le_bytes 8 n,
    )

encoded-one : (p : Piece) (ps : List Piece) → encoded (p ∷ ps) ≡ encoded_one p ++ encoded ps
encoded-one (text s) ps = refl
encoded-one (group n) ps = refl

buffer_z_next-piece :
    (b : TBuffer) (front : Bytes) (p : Piece) (ps : List Piece)
    → b.written ≡ front ++ encoded (p ∷ ps)
    → IsSmall p
    → buffer_z_next b (length front) ≡ some (length (front ++ encoded_one p), p)
buffer_z_next-piece b front (text s) ps e small =
    let far : length (front ++ encoded_one (text s)) ≡ length s + (16 + length front) = omega (
      arith,
      length-append front (encoded_one (text s)),
      length-append (header 1 (length s)) s,
      length-header 1 (length s),
    ) in
    rw far (
      buffer_z_next-headed b front 1 (length s) (s ++ encoded ps)
        (e ∙ ap (λ t. front ++ t) (append_assoc (header 1 (length s)) s (encoded ps))) (omega arith)
        small
      ∙ ap (λ t. some (length s + (16 + length front), text t)) (take-append s (encoded ps)))
buffer_z_next-piece b front (group n) ps e small =
    let far : length (front ++ encoded_one (group n)) ≡ 16 + length front =
      omega (arith, length-append front (encoded_one (group n)), length-header 0 n) in
    rw far (buffer_z_next-headed b front 0 n (encoded ps) e (omega arith) small)

length-encoded_one : (p : Piece) → 0 < length (encoded_one p)
length-encoded_one (text s) =
    omega (arith, length-append (header 1 (length s)) s, length-header 1 (length s))
length-encoded_one (group n) = omega (arith, length-header 0 n)

buffer_z_next-end :
    (b : TBuffer) (front : Bytes) → b.written ≡ front ++ [] → buffer_z_next b (length front) ≡ none
unfolding buffer_z_next
buffer_z_next-end b front e =
    let outside : ltb (length front) (top b) ≡ false =
      le→ltb_false _ _ (omega (arith, ap length e, length-append front [])) in
    rw outside

module _ (expanded : Piece → Bytes) (captured : ℕ → Bytes)
    (same : (p : Piece) → expanded p ≡ piece_text captured p) where
  pub rep_loop-pieces :
      (ps : List Piece) (f : ℕ) (b : TBuffer) (front : Bytes) (out : TBuffer)
      → b.written ≡ front ++ encoded ps
      → length (encoded ps) < f
      → All IsSmall ps
      → (rep_loop expanded b f (length front) out).written ≡ out.written ++ pieces_text captured ps
  unfolding rep_loop
  rep_loop-pieces ps zero b front out e h small = absurd (omega arith)
  rep_loop-pieces [] (suc f) b front out e h small =
      rw (rep_loop, buffer_z_next-end b front e) (sym (append-nil out.written))
  rep_loop-pieces (p ∷ ps) (suc f) b front out e h small =
      let next = buffer_z_next-piece b front p ps e small.0 in
      let whole : b.written ≡ (front ++ encoded_one p) ++ encoded ps =
        e
        ∙ ap (λ s. front ++ s) (encoded-one p ps)
        ∙ sym (append_assoc front (encoded_one p) (encoded ps)) in
      let fuel : length (encoded ps) < f = omega (
        arith,
        ap length (encoded-one p ps),
        length-append (encoded_one p) (encoded ps),
        length-encoded_one p,
      ) in
      let rest =
        rep_loop-pieces ps f b (front ++ encoded_one p) (buffer_addlstring out (expanded p)) whole
          fuel small.1 in
      rw (rep_loop, next)
        (rest
          ∙ (unfold buffer_addlstring in
              rw (same p)
                (append_assoc out.written (piece_text captured p) (pieces_text captured ps))))
