-- ===== src/MixLua/Page/DataParts.antt =====
-- The part of the reader that sends data, piece by piece.
use lua_cmake_source.Base.{
  ℕ, ◌≤◌, Bool, true, false, not, [], ◌++◌, ◌≡◌, arith, some, ltb, ltb→lt, ltb_false→le, ◌==◌,
  if◌then◌else◌, length, nil_of_length, Bytes, Bool-cases, inl, inr, codes,
}
use lua_cmake_source.MixLua.State.{d2l, text, Source, size}
use lua_cmake_source.MixLua.Reader.{at, data_part}
use lua_cmake_source.MixLua.Inside.{Always, gives, Always-bind, Always-if, Always-map}
use lua_cmake_source.MixLua.Ending.{IsText}
use lua_cmake_source.MixLua.Page.{IsData, after_data}
use lua_cmake_source.MixLua.Page.Pieces.{escape_all-slice, IsPiece, data_loop-IsPiece, piece-IsData}
use lua_cmake_source.MixLua.Page.Sent.{Sent, Sends, Sends-from, d2l_part-Sends}

module _ (s : Source) where
  -- A piece of data, and the data behind it.
  two_pieces :
      (old : ℕ) (r : Bool × ℕ × Bytes) (bs : Bytes)
      → IsPiece s old r
      → Sent s text r.1 bs
      → Sent s text old (r.2 ++ bs)
  two_pieces old r bs d (q, more, is_data, page, made) = (
    q,
    more,
    whole,
    page,
    rw (d.content, made)
        (escape_all-slice s old r.1 q (codes "')" ++ more) d.forward is_data.forward),
  )
    where
      whole : IsData s old q
      whole = record {
        forward = omega (arith, d.forward, is_data.forward);
        inside = is_data.inside;
        none_before = λ i low high. elim (Bool-cases (ltb i r.1)) [
          | inl e ↦ d.free i low (ltb→lt i r.1 e)
          | inr e ↦ is_data.none_before i (ltb_false→le i r.1 e) high
        ];
        tag_behind = is_data.tag_behind;
      }

  last_piece :
      (old : ℕ) (r : Bool × ℕ × Bytes) (bs : Bytes)
      → IsPiece s old r
      → IsData s old r.1
      → Sent s d2l (after_data s r.1) bs
      → Sent s text old (r.2 ++ bs)
  last_piece old r bs d is_data (more, page, made) =
      (r.1, more, is_data, page, rw (made, d.content))

  full_piece :
      (old : ℕ) (r : Bool × ℕ × Bytes)
      → IsPiece s old r
      → r.0 ≡ true
      → Sends s text old (some r.2, at r.1 (if r.1 == size s then d2l else text))
  full_piece old r d full = elim (Bool-cases (r.1 == size s)) [
    | inl end ↦
        let outside : ltb r.1 (size s) ≡ false = ground arith in
        let is_data : IsData s old r.1 = record {
          forward = d.forward;
          inside = d.inside;
          none_before = d.free;
          tag_behind = λ h. absurd (ground arith);
        } in
        rw end (d.some_bytes full, λ bs sent. last_piece old r bs d is_data (rw outside sent))
    | inr more ↦ rw more (d.some_bytes full, λ bs sent. two_pieces old r bs d sent)
  ]

  pub data_part-Sends :
      (old : ℕ) → IsText s → old ≤ size s → Always (Sends s text old) (data_part s old)
  unfolding data_part
  data_part-Sends old is h = Always-bind (data_loop-IsPiece s old is h) λ r d.
      Always-if r.0 (λ full. gives (full_piece old r d full))
        (λ stop.
          let is_data = piece-IsData s r d stop in
          Always-if (not (length r.2 == 0))
            (λ e. gives (ground arith, λ bs sent. last_piece old r bs d is_data sent))
            (λ e.
              let nothing : r.2 ≡ [] = nil_of_length r.2 (ground arith) in
              Always-map (d2l_part-Sends s (after_data s r.1)) λ c.
                Sends-from s text d2l old (after_data s r.1) c
                  (λ bs sent. rw nothing at (last_piece old r bs d is_data sent))))
