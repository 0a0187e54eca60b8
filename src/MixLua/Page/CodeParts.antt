-- ===== src/MixLua/Page/CodeParts.antt =====
-- The parts of the reader that send Lua code.
use lua_cmake_source.Base.{
  ℕ, ◌+◌, ◌-◌, ◌<◌, true, false, not, [], ◌++◌, ◌≡◌, refl, arith, ◌==◌, length,
}
use lua_cmake_source.MixLua.State.{lua, exp, Source, size, Step, ok, raised, out_of_fuel}
use lua_cmake_source.MixLua.Reader.{code_loop, code_part, slice}
use lua_cmake_source.MixLua.Data.Section.{length-slice}
use lua_cmake_source.MixLua.Inside.{Always, gives, raises, runs_out, Always-bind, Always-if}
use lua_cmake_source.MixLua.Page.{IsCode}
use lua_cmake_source.MixLua.Page.Sent.{Sends, section-Sent}

pub slice-none : (s : Source) (pos r : ℕ) → r - pos ≡ 0 → slice s pos (r - pos) ≡ []
slice-none s pos r e = rw e (unfold slice in refl)

module _ (s : Source) (some_out : 0 < length s.out) where
  Always-self : {A : Type 0} (r : Step A) → Always (λ a. r ≡ ok a) r
  Always-self (ok a) = gives refl
  Always-self raised = raises
  Always-self out_of_fuel = runs_out

  slice_some : (pos r : ℕ) → not (r - pos == 0) ≡ true → 0 < length (slice s pos (r - pos))
  slice_some pos r e = rw (length-slice s pos (r - pos)) (ground arith)

  pub code_part-lua : (old : ℕ) → Always (Sends s lua old) (code_part s true old)
  unfolding code_part
  code_part-lua old = Always-bind (Always-self (code_loop s (size s + 1) old)) λ pos read.
      Always-if (pos == size s) (λ _. gives (λ e. cc))
        (λ closed.
          let is_code : IsCode s old pos = record { read = read; closed = ground arith } in
          Always-if (not (pos - old == 0))
            (λ e. gives (slice_some old pos e, λ bs page. (pos, bs, is_code, page, refl)))
            (λ e. gives (
              some_out,
              λ bs sent. (
                pos,
                s.out ++ bs,
                is_code,
                section-Sent s (pos + length s.l2d) bs sent,
                rw (slice-none s old pos (ground arith)),
              ),
            )))

  pub code_part-exp : (old : ℕ) → Always (Sends s exp old) (code_part s false old)
  unfolding code_part
  code_part-exp old = Always-bind (Always-self (code_loop s (size s + 1) old)) λ pos read.
      Always-if (pos == size s) (λ _. gives (λ e. cc))
        (λ closed.
          let is_code : IsCode s old pos = record { read = read; closed = ground arith } in
          Always-if (not (pos - old == 0))
            (λ e.
              gives (
                slice_some old pos e,
                λ bs (more, page, made). (pos, more, is_code, page, rw made),
              ))
            (λ e. gives (
              omega arith,
              λ bs page. (pos, bs, is_code, page, rw (slice-none s old pos (ground arith))),
            )))
