-- ===== src/MixLua/Faults/Unclosed.antt =====
-- A separator behind Lua code that starts with a character which `mix_reader` tests for before it.
use lua_cmake_source.Base.{
  ℕ, zero, suc, ◌+◌, ◌≤◌, Bool, true, false, not, ◌&&◌, ◌||◌, ◌≡◌, refl, arith, none, some, ltb,
  ◌==◌, inl, inr, ◌⊎◌,
}
use lua_cmake_source.MixLua.State.{
  Token, lua, exp, Source, size, char_at, is_l2d, Step, ok, raised, out_of_fuel,
}
use lua_cmake_source.MixLua.Skip.{bracket}
use lua_cmake_source.MixLua.Reader.{at, code_loop, code_part, head_of, mix_reader, Chunk}
use lua_cmake_source.MixLua.Total.{Ends, yields, Ends-bind, code_loop-Ends}
use lua_cmake_source.MixLua.Inside.{
  Always-both, Always, gives, raises, runs_out, Always-bind, Always-if, code_loop_inside, CodeEnd,
}

-- The characters that start a string, a long string or a comment.
abbrev pub opens_lua : ℕ → Bool
opens_lua c = c == b'\'' || (c == b'"' || (c == b'[' || c == b'-'))

module _ (s : Source) (hidden : opens_lua (head_of s.l2d) ≡ true) where
  anything : {A : Type 0} (r : Step A) → Always (λ a. Unit {0}) r
  anything (ok a) = gives tt
  anything raised = raises
  anything out_of_fuel = runs_out

  apart :
      (c : ℕ) (tag : Bool)
      → (c == b'\'') ≡ false
      → (c == b'"') ≡ false
      → (c == b'[') ≡ false
      → (c == b'-') ≡ false
      → (c == head_of s.l2d && tag) ≡ true
      → ⊥
  apart c tag quote quotes square dash e =
      let same : c ≡ head_of s.l2d = ground arith in
      let opens : opens_lua c ≡ true = rw same hidden in ground arith

  code_loop_to_end : (f pos : ℕ) → Always (λ p. size s ≤ p) (code_loop s f pos)
  unfolding code_loop
  code_loop_to_end zero pos = runs_out
  code_loop_to_end (suc f) pos =
      let next = code_loop_to_end f (pos + 1) in
      let on : (p : ℕ) → Unit {0} → Always (λ q. size s ≤ q) (code_loop s f p) =
        λ p _. code_loop_to_end f p in
      Always-if (not (ltb pos (size s))) (λ stop. gives (ground arith))
        (λ _.
          Always-if (char_at s pos == b'\'') (λ _. Always-bind (anything _) on)
            (λ quote.
              Always-if (char_at s pos == b'"') (λ _. Always-bind (anything _) on)
                (λ quotes.
                  Always-if (char_at s pos == b'[')
                    (λ _. Always-bind (anything (bracket b'[' s pos)) (elim [
                      | none ↦ λ _. next
                      | some (level, q) ↦ λ _. Always-bind (anything _) on
                    ]))
                    (λ square.
                      Always-if (char_at s pos == b'-')
                        (λ _.
                          Always-if (char_at s (pos + 1) == b'-') (λ _. Always-bind (anything _) on)
                            (λ _. next))
                        (λ dash.
                          Always-if (char_at s pos == head_of s.l2d && is_l2d s pos)
                            (λ stop. absurd (apart (char_at s pos) _ quote quotes square dash stop))
                            (λ _. next))))))

  module _ (zero_behind : s.behind 0 ≡ 0) where
    abbrev pub Refused : Chunk → Type 0
    Refused (chunk, c) = (chunk ≡ none) × (c.failed ≡ true)

    code_part-Refused :
        (is_code : Bool) (pos : ℕ) → pos ≤ size s → Ends Refused (code_part s is_code pos)
    unfolding code_part
    code_part-Refused is_code pos h =
        Ends-bind
          (at_end (code_loop-Ends s (size s + 1) pos (omega arith) (omega arith)) (
            Always-both (code_loop_to_end (size s + 1) pos)
              (code_loop_inside s zero_behind (size s + 1) pos h)))
          λ p same. let end : (p == size s) ≡ true = ground arith in rw end (yields (refl, refl))
      where
        at_end :
            {r : Step ℕ}
            → Ends (λ p. pos ≤ p) r
            → Always (λ p. (size s ≤ p) × CodeEnd s zero_behind p) r
            → Ends (λ p. p ≡ size s) r
        at_end (yields _) (gives (low, (high, _))) = yields (omega arith)
        at_end (Ends.raises) a = Ends.raises

    -- Where the separator behind Lua code starts with a quotation mark, a square bracket or a minus
    -- sign and a zero byte follows the buffer, no call of mix_reader in a state of Lua code or of an
    -- expression gives a chunk: it raises its error, or gives NULL and sets the error of an unexpected
    -- end of file, even where the separator follows.
    pub mix_reader_unclosed :
        (t : Token) (pos : ℕ)
        → (t ≡ lua) ⊎ (t ≡ exp)
        → pos ≤ size s
        → Ends Refused (mix_reader s (at pos t))
    unfolding mix_reader
    mix_reader_unclosed t pos (inl e) h = rw e (code_part-Refused true pos h)
    mix_reader_unclosed t pos (inr e) h = rw e (code_part-Refused false pos h)
