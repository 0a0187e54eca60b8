-- ===== src/MixLua/Page/Pieces.antt =====
-- The pieces in which data is sent.
use lua_cmake_source.Base.{
  ℕ, zero, suc, ◌+◌, ◌-◌, ◌≤◌, ◌<◌, Bool, true, false, not, ◌&&◌, ◌||◌, [], ◌∷◌, ◌++◌, ◌≡◌, refl,
  ap, sym, ◌∙◌, arith, append_assoc, ltb, leb, ◌==◌, length, Bytes, Bool-cases, inl, inr,
}
use lua_cmake_source.MixLua.State.{Source, size, char_at, starts_at, is_d2l}
use lua_cmake_source.MixLua.Reader.{data_loop, slice, escaped, head_of, temp_size}
use lua_cmake_source.MixLua.Data.{escape_all, Escapes, data_loop-Escapes}
use lua_cmake_source.MixLua.Inside.{
  Always, gives, runs_out, Always-if, Always-map, Always-and, Always-both, data_loop_inside,
}
use lua_cmake_source.MixLua.Total.{Ends, yields}
use lua_cmake_source.MixLua.Ending.{IsText}
use lua_cmake_source.MixLua.Page.{IsData}

data_loop-Ends : (s : Source) (old : ℕ) → Ends (Escapes s old []) (data_loop s (size s + 1) old [])
data_loop-Ends s old =
    let (r, e, escapes) =
      data_loop-Escapes s (size s + 1) old [] (omega arith) (omega arith) (omega arith) in
    rw e (yields escapes)

module _ (s : Source) where
  slice-add : (n k pos : ℕ) → slice s pos (n + k) ≡ slice s pos n ++ slice s (pos + n) k
  unfolding slice
  slice-add zero k pos =
      let none_first : 0 + k ≡ k = omega arith in
      let here : pos + 0 ≡ pos = omega arith in rw (none_first, here)
  slice-add (suc n) k pos =
      let one_first : suc n + k ≡ suc (n + k) = omega arith in
      let one_on : pos + suc n ≡ pos + 1 + n = omega arith in
      rw (one_first, one_on) (ap (λ bs. char_at s pos ∷ bs) (slice-add n k (pos + 1)))

  slice-between :
      (a b c : ℕ) → a ≤ b → b ≤ c → slice s a (c - a) ≡ slice s a (b - a) ++ slice s b (c - b)
  slice-between a b c h k =
      let split : c - a ≡ b - a + (c - b) = omega arith in
      let middle : a + (b - a) ≡ b = omega arith in
      rw split
        (slice-add (b - a) (c - b) a ∙ ap (λ m. slice s a (b - a) ++ slice s m (c - b)) middle)

  escape_all-append : (xs ys : Bytes) → escape_all (xs ++ ys) ≡ escape_all xs ++ escape_all ys
  escape_all-append [] ys = refl
  escape_all-append (x ∷ xs) ys =
      rw (escape_all-append xs ys) (sym (append_assoc (escaped x) (escape_all xs) (escape_all ys)))

  -- The first byte of a separator is compared before it.
  head_first :
      (tag : Bytes) (pos : ℕ)
      → 0 < length tag
      → (char_at s pos == head_of tag && starts_at s tag pos) ≡ false
      → starts_at s tag pos ≡ false
  unfolding starts_at
  head_first [] pos h e = absurd (omega arith)
  head_first (c ∷ cs) pos h e = elim (Bool-cases (char_at s pos == c)) [
    | inl here ↦ rw here (rw here at e)
    | inr other ↦ rw other
  ]

  abbrev pub NoTag : ℕ → ℕ → Type 0
  NoTag pos q = (i : ℕ) → pos ≤ i → i < q → is_d2l s i ≡ false

  -- One more position is free of a separator.
  NoTag-cons : (pos q : ℕ) → is_d2l s pos ≡ false → NoTag (pos + 1) q → NoTag pos q
  NoTag-cons pos q free rest i low high = elim (Bool-cases (pos == i)) [
    | inl same ↦ let e : pos ≡ i = ground arith in rw (← e) free
    | inr other ↦ rest i (ground arith) high
  ]

  pub data_loop-NoTag :
      (f pos : ℕ) (temp : Bytes)
      → 0 < length s.d2l
      → Always
          (λ (r : Bool × ℕ × Bytes). NoTag pos r.1 × (r.0 ≡ true → 0 < length r.2))
          (data_loop s f pos temp)
  unfolding data_loop
  data_loop-NoTag zero pos temp h = runs_out
  data_loop-NoTag (suc f) pos temp h =
      Always-if (not (ltb pos (size s)) || (char_at s pos == head_of s.d2l && is_d2l s pos))
        (λ _. gives ((λ i low high. absurd (omega arith)), λ e. cc))
        (λ go.
          let free : is_d2l s pos ≡ false = head_first s.d2l pos h (no_tag go) in
          Always-if (leb (temp_size - 1) (length (temp ++ escaped (char_at s pos))))
            (λ full. gives (
              NoTag-cons pos (pos + 1) free (λ i low high. absurd (omega arith)),
              λ _. ground arith,
            ))
            (λ _.
              Always-map (data_loop-NoTag f (pos + 1) (temp ++ escaped (char_at s pos)) h)
                λ r e. (NoTag-cons pos r.1 free e.0, e.1)))
    where
      no_tag :
          (not (ltb pos (size s)) || (char_at s pos == head_of s.d2l && is_d2l s pos)) ≡ false
          → (char_at s pos == head_of s.d2l && is_d2l s pos) ≡ false
      no_tag go = ground arith

  -- What the loop over data gives: bytes up to a position, escaped, with no separator among them.
  pub record IsPiece (old : ℕ) (r : Bool × ℕ × Bytes) : Type 0 where
    pub forward : old ≤ r.1
    pub inside : r.1 ≤ size s
    pub free : NoTag old r.1
    pub content : r.2 ≡ escape_all (slice s old (r.1 - old))
    pub some_bytes : r.0 ≡ true → 0 < length r.2
    pub tag_behind : r.0 ≡ false → r.1 < size s → is_d2l s r.1 ≡ true

  pub data_loop-IsPiece :
      (old : ℕ) → IsText s → old ≤ size s → Always (IsPiece old) (data_loop s (size s + 1) old [])
  data_loop-IsPiece old is h =
      Always-map
        (Always-and (data_loop-Ends s old) (
          Always-both (data_loop_inside s is.zero_behind (size s + 1) old [] h)
            (data_loop-NoTag (size s + 1) old [] is.some_d2l)))
        λ r (escapes, ((on, low, full, tag), (free, some_bytes))). record {
          forward = on;
          inside = low;
          free = free;
          content = escapes.content;
          some_bytes = some_bytes;
          tag_behind = tag;
        }

  pub piece-IsData :
      {old : ℕ} (r : Bool × ℕ × Bytes) → IsPiece old r → r.0 ≡ false → IsData s old r.1
  piece-IsData r d e = record {
    forward = d.forward;
    inside = d.inside;
    none_before = d.free;
    tag_behind = d.tag_behind e;
  }

  -- What is escaped up to a piece's end, and from there on.
  pub escape_all-slice :
      (a b c : ℕ) (rest : Bytes)
      → a ≤ b
      → b ≤ c
      → escape_all (slice s a (b - a)) ++ (escape_all (slice s b (c - b)) ++ rest)
        ≡ escape_all (slice s a (c - a)) ++ rest
  escape_all-slice a b c rest h k = rw (
    slice-between a b c h k,
    escape_all-append (slice s a (b - a)) (slice s b (c - b)),
    append_assoc (escape_all (slice s a (b - a))) (escape_all (slice s b (c - b))) rest,
  )
