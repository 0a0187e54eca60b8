-- ===== src/Rex/Total.antt =====
-- What holds of a run of the code that comes to an end, and of the calls of regexec.
use lua_cmake_source.Base.{
  ℕ, ◌+◌, ◌≤◌, Bool, true, false, [], ◌∷◌, if◌then◌else◌, ◌≡◌, refl, arith, length, length-drop_le,
  le→leb, drop, Bytes, Bool-cases, inl, inr, ◌==◌,
}
use lua_cmake_source.Rex.Engine.{
  posix_gc, findmatch_exec, Posix, gsub_exec, later_flags, Match, Exec, matched, no_match, failed,
  TPosix, Result, ok, raised, undefined, ◌>>=◌, c_string, IsMatchOf, IsRegexec, regexec_at,
  readable,
}

-- The run ends; `P` holds of its value if it has one, and `U` if its behaviour is undefined.
pub data Ends {A : Type 0} (P : A → Type 0) (U : Type 0) : Result A → Type 0 where
  yields : {a : A} → P a → Ends P U (ok a)
  raises : {e : _} → Ends P U (raised e)
  undefines : U → Ends P U undefined

pub Ends-bind :
    {A B : Type 0} {P : A → Type 0} {Q : B → Type 0} {U : Type 0} {r : Result A} {f : A → Result B}
    → Ends P U r
    → ((a : A) → P a → Ends Q U (f a))
    → Ends Q U (r >>= f)
Ends-bind (yields {a} h) k = k a h
Ends-bind raises k = raises
Ends-bind (undefines u) k = undefines u

-- What ends has its value.
pub Ends-value :
    {A : Type 0} {P : A → Type 0} {U : Type 0} {r : Result A}
    → Ends P U r
    → Ends (λ a. P a × (r ≡ ok a)) U r
Ends-value (yields h) = yields (h, refl)
Ends-value raises = raises
Ends-value (undefines u) = undefines u

pub Ends-if :
    {A : Type 0} {P : A → Type 0} {U : Type 0} (b : Bool) {x y : Result A}
    → (b ≡ true → Ends P U x)
    → (b ≡ false → Ends P U y)
    → Ends P U (if b then x else y)
Ends-if true hx hy = hx refl
Ends-if false hx hy = hy refl

pub length-c_string : (s : Bytes) → length (c_string s) ≤ length s
unfolding c_string
length-c_string [] = omega arith
length-c_string (c ∷ cs) = elim (Bool-cases (c == 0)) [
  | inl e ↦ rw e (omega arith)
  | inr e ↦ rw e (omega (arith, length-c_string cs))
]

-- A userdata whose memory was not released, and whose matches regexec writes.
pub record IsLive (ud : TPosix) : Type 0 where
  pub not_freed : ud.freed ≡ false
  pub with_subs : ud.nosub ≡ false
  pub engine : IsRegexec ud.r

-- A match that lies in what is left of a text from a position on.
abbrev pub FitsAt : Bytes → ℕ → Exec → Type 0
FitsAt text offset (matched m) = (m.rm_so ≤ m.rm_eo) × (offset + m.rm_eo ≤ length text)
FitsAt text offset no_match = Unit
FitsAt text offset (failed _) = Unit

pub regexec_at-FitsAt :
    {U : Type 0} (ud : TPosix) (text : Bytes) (offset eflags : ℕ)
    → IsLive ud
    → offset ≤ length text
    → Ends (FitsAt text offset) U (regexec_at ud text offset eflags)
unfolding regexec_at
regexec_at-FitsAt {U} ud text offset eflags live h =
    rw (live.not_freed, live.with_subs, le→leb offset (length text) h)
      (split (ud.r.regexec (c_string (drop offset text)) eflags)
        (λ m e. live.engine (c_string (drop offset text)) eflags m e))
  where
    split :
        (e : Exec)
        → ((m : Match) → e ≡ matched m → IsMatchOf ud.r (c_string (drop offset text)) m)
        → Ends (FitsAt text offset) U (readable false e)
    split no_match k = yields tt
    split (failed _) k = yields tt
    split (matched m) k =
        let found = k m refl in
        yields (
          found.ordered,
          omega (
            arith,
            found.inside,
            length-c_string (drop offset text),
            length-drop_le offset text h,
          ),
        )

module _ {U : Type 0} (p : Posix) (ud : TPosix) (text : Bytes) (eflags offset : ℕ) where
  pub gsub_exec-FitsAt :
      IsLive ud
      → offset ≤ length text
      → Ends (FitsAt text offset) U (gsub_exec p ud text eflags offset)
  unfolding gsub_exec
  gsub_exec-FitsAt live h = regexec_at-FitsAt ud text offset (later_flags p eflags offset) live h

-- Posix_gc releases an expression once: a second call releases nothing, and every search with it
-- reads memory that was freed.
posix_gc-undefined :
    (ud : TPosix) (text : Bytes) (offset eflags : ℕ)
    → ((posix_gc (posix_gc ud).0).1 ≡ false)
      × (findmatch_exec (posix_gc ud).0 text eflags offset ≡ undefined)
unfolding posix_gc findmatch_exec regexec_at
posix_gc-undefined ud text offset eflags = elim (Bool-cases ud.freed) [
  | inl e ↦ rw e (refl, refl)
  | inr e ↦ rw e (refl, refl)
]
