-- ===== src/Rex/Gsub/Limit.antt =====
-- The number of matches that gsub makes where its fourth argument is a number.
use lua_cmake_source.Base.{
  ℕ, zero, suc, ◌+◌, ◌≤◌, ◌<◌, Bool, true, false, &&-eq-true, ltb, ltb→lt, leb, ◌&&◌, Bool-cases,
  inl, inr, ◌≡◌, refl, arith, length, drop, Bytes,
}
use lua_cmake_source.Base.Int.{ℤ}
use lua_cmake_source.Rex.Buffer.{TBuffer}
use lua_cmake_source.Rex.Engine.{
  Match, Exec, matched, no_match, failed, Posix, TPosix, Result, ok, raised, undefined, out_of_fuel,
  ◌>>=◌, gsub_exec,
}
use lua_cmake_source.Rex.Total.{Ends, yields, raises, undefines, IsLive}
use lua_cmake_source.Rex.Gsub.State.{
  Lua, Pattern, RepType, at_number, at_most, not_negative, State, Replaced, check_pattern,
  check_replacement, pattern_regex, opt_limit,
}
use lua_cmake_source.Rex.Gsub.Replace.{replace}
use lua_cmake_source.Rex.Gsub.Loop.{
  Settled, settle, round, skipped, p_buf, gsub_loop, goes_on, repeat, found, rep_buffer, start,
  gsub,
}
use lua_cmake_source.Rex.Gsub.Stored.{HasLength}
use lua_cmake_source.Rex.Gsub.Whole.{gsub-IsGsubOf}

-- `P` holds of the value, if there is one.
data Keeps {A : Type 0} (P : A → Type 0) : Result A → Type 0 where
  has : {a : A} → P a → Keeps P (ok a)
  no_value : {e : _} → Keeps P (raised e)
  no_meaning : Keeps P undefined
  no_end : Keeps P out_of_fuel

Keeps-bind :
    {A B : Type 0} {P : A → Type 0} {Q : B → Type 0} {r : Result A} {f : A → Result B}
    → Keeps P r
    → ((a : A) → P a → Keeps Q (f a))
    → Keeps Q (r >>= f)
Keeps-bind (has {a} h) k = k a h
Keeps-bind no_value k = no_value
Keeps-bind no_meaning k = no_meaning
Keeps-bind no_end k = no_end

Keeps-any : {A : Type 0} (r : Result A) → Keeps (λ a. Unit) r
Keeps-any (ok a) = has tt
Keeps-any (raised e) = no_value
Keeps-any undefined = no_meaning
Keeps-any out_of_fuel = no_end

Ends-Keeps :
    {A : Type 0} {P Q : A → Type 0} {U : Type 0} {r : Result A}
    → Ends P U r
    → Keeps Q r
    → (U → ⊥)
    → Ends Q ⊥ r
Ends-Keeps (yields h) (has k) n = yields k
Ends-Keeps raises k n = raises
Ends-Keeps (undefines u) k n = undefines (n u)

module _ {W : Type 0} (l : Lua W) (subject : Bytes) (ud : TPosix) (limit : ℕ) where
  record Within (s : State W) : Type 0 where
    bounded : s.maxmatch ≡ at_most limit
    counted : s.n_match ≤ limit

  settle-bounded :
      (rep : RepType) (s : State W) (out : TBuffer) (from to : ℕ) (r : Replaced W)
      → s.maxmatch ≡ at_most limit
      → Keeps
          (λ (d : Settled l subject ud.nsub). d.maxmatch ≡ at_most limit)
          (settle l subject ud.nsub rep s out from to r)
  unfolding settle
  settle-bounded rep s out from to r e = rw e (has refl)

  round-Within :
      (rep : RepType) (buf_rep : TBuffer) (s : State W) (m : Match)
      → Within s
      → s.n_match < limit
      → Keeps (λ (r : State W × Bool). Within r.0) (round l subject ud.nsub rep buf_rep s m)
  unfolding round
  round-Within rep buf_rep s m w h =
      Keeps-bind
        (Keeps-any (
          replace l ud.nsub rep buf_rep s.world
            (p_buf l subject ud.nsub s (skipped l subject ud.nsub s.buf_out s.st (s.st + m.rm_so)))
            (drop s.st subject) m))
        λ r _.
          Keeps-bind
            (settle-bounded rep s (skipped l subject ud.nsub s.buf_out s.st (s.st + m.rm_so))
              (s.st + m.rm_so) (s.st + m.rm_eo) r w.bounded)
            λ d e. has (record { bounded = e; counted = omega arith })

  goes_on-below : (s : State W) → Within s → goes_on l subject ud.nsub s ≡ true → s.n_match < limit
  unfolding goes_on
  goes_on-below s w e =
      let test : (ltb s.n_match limit && leb s.st (length subject)) ≡ true = rw w.bounded at e in
      ltb→lt s.n_match limit (&&-eq-true (ltb s.n_match limit) _ test).0

  module _ (p : Posix) (eflags : ℕ) (rep : RepType) (buf_rep : TBuffer) where
    found-Within :
        (next : State W → Result (State W)) (s : State W) (e : Exec)
        → ((s' : State W) → Within s' → Keeps Within (next s'))
        → Within s
        → s.n_match < limit
        → Keeps Within (found l subject ud p eflags rep buf_rep next s e)
    found-Within next s no_match ih w h = has w
    found-Within next s (failed errcode) ih w h = no_value
    found-Within next s (matched m) ih w h =
        Keeps-bind (round-Within rep buf_rep s m w h) (λ r. repeated r)
      where
        repeated :
            (r : State W × Bool)
            → Within r.0
            → Keeps Within (repeat l subject ud p eflags rep buf_rep next r)
        repeated (s', true) w = ih s' w
        repeated (s', false) w = has w

    gsub_loop-Within :
        (f : ℕ) (s : State W)
        → Within s
        → Keeps Within (gsub_loop l subject ud p eflags rep buf_rep f s)
    unfolding gsub_loop
    gsub_loop-Within zero s w = no_end
    gsub_loop-Within (suc f) s w = elim (Bool-cases (goes_on l subject ud.nsub s)) [
      | inl e ↦
          rw (gsub_loop, e)
            (Keeps-bind (Keeps-any (gsub_exec p ud subject eflags s.st)) λ x _.
              found-Within (gsub_loop l subject ud p eflags rep buf_rep f) s x
                (λ s' w'. gsub_loop-Within f s' w') w (goes_on-below s w e))
      | inr e ↦ rw (gsub_loop, e) (has w)
    ]

module _ {W : Type 0} (p : Posix) (l : Lua W) (w : W) (subject : Bytes) where
  abbrev pub AtMost : ℕ → W × Bytes × ℕ × ℕ → Type 0
  AtMost limit (w', new, n_match, n_subst) = n_match ≤ limit

  gsub-Keeps :
      (pattern : Pattern TPosix) (rep : RepType) (a : ℤ) (cflags eflags : ℕ)
      → Keeps (AtMost (not_negative a)) (gsub p l w subject pattern rep (at_number a) cflags eflags)
  unfolding gsub opt_limit
  gsub-Keeps pattern rep a cflags eflags =
      Keeps-bind (Keeps-any (check_pattern pattern)) λ pattern _.
        Keeps-bind (Keeps-any (check_replacement rep)) λ rep _.
          Keeps-bind (Keeps-any (pattern_regex p pattern cflags)) λ ud _.
            Keeps-bind (Keeps-any (rep_buffer rep ud.nsub)) λ buf_rep _.
              Keeps-bind
                (gsub_loop-Within l subject ud (not_negative a) p eflags rep buf_rep
                  (length subject + 1) (start w (at_most (not_negative a)))
                  (record { bounded = refl; counted = omega arith }))
                λ s within. has within.counted

  -- With a number as the fourth argument gsub raises an error or ends after at most so many matches,
  -- none for a negative number, and is never undefined, where the pattern is an expression whose
  -- matches can be read and the length of the replacement is a size_t.
  pub gsub-AtMost :
      (pattern : Pattern TPosix) (rep : RepType) (a : ℤ) (cflags eflags : ℕ) (ud : TPosix)
      → pattern_regex p pattern cflags ≡ ok ud
      → IsLive ud
      → HasLength rep
      → Ends
          (AtMost (not_negative a))
          ⊥
          (gsub p l w subject pattern rep (at_number a) cflags eflags)
  gsub-AtMost pattern rep a cflags eflags ud found live h =
      Ends-Keeps
        (gsub-IsGsubOf p l subject ud eflags rep (at_number a) w pattern cflags found live h)
        (gsub-Keeps pattern rep a cflags eflags) (λ e. cc e)
