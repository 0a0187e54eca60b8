-- ===== src/Rex/Gsub/Written.antt =====
-- What gsub writes in place of a match, as a text behind what was written before.
use lua_cmake_source.Base.{
  ◌^◌, ℕ, ◌+◌, Bool, true, false, [], ◌++◌, ltb, ◌≡◌, refl, ◌∙◌, between, Bytes,
}
use lua_cmake_source.LuaValue.{Value, table, other, nil, number, str, boolean}
use lua_cmake_source.Rex.Buffer.{top, TBuffer, buffer_addlstring, buffer_addbuffer}
use lua_cmake_source.Rex.Engine.{Match}
use lua_cmake_source.Rex.Total.{Ends, yields, raises, undefines, Ends-bind, Ends-if}
use lua_cmake_source.Rex.Gsub.State.{
  Called, returned, threw, Lua, RepType, template, a_table, a_function, no_replacement, MaxMatch,
  not_negative, unlimited, conditional, at_most,
}
use lua_cmake_source.Rex.Gsub.Replace.{
  expand, replace, rep_loop, put_value, put_called, push_substrings, new_limit, first_answer,
}

-- What was written is more than before, by a text that stands for a match.
pub record Writes (before after : TBuffer) (original : Bytes) (curr_subst : Bool)
    (Fits : Bytes → Type 0) : Type 0 where
  pub by : Bytes
  pub added : after.written ≡ before.written ++ by
  pub same : curr_subst ≡ false → by ≡ original
  pub fits : Fits by

module _ {Fits : Bytes → Type 0} (b : TBuffer) (original : Bytes) where
  Writes-replaced : (by : Bytes) → Fits by → Writes b (buffer_addlstring b by) original true Fits
  unfolding buffer_addlstring
  Writes-replaced by fits = record { by = by; added = refl; same = cc; fits = fits }

  Writes-original : Fits original → Writes b (buffer_addlstring b original) original false Fits
  unfolding buffer_addlstring
  Writes-original fits = record { by = original; added = refl; same = λ _. refl; fits = fits }

  Writes-buffer :
      (temp : TBuffer) (curr_subst : Bool)
      → (curr_subst ≡ false → temp.written ≡ original)
      → Fits temp.written
      → Writes b (buffer_addbuffer b temp) original curr_subst Fits
  unfolding buffer_addlstring buffer_addbuffer
  Writes-buffer temp curr_subst same fits = record {
    by = temp.written;
    added = refl;
    same = same;
    fits = fits;
  }

-- BufTemp is empty where the function of the fourth argument will be asked again.
abbrev pub Cleared : MaxMatch → TBuffer → Type 0
Cleared conditional temp = temp.written ≡ []
Cleared unlimited temp = Unit
Cleared (at_most n) temp = Unit

-- The function may be asked, so that the limit may overflow.
abbrev pub Asks : Type 0 → MaxMatch → Type 0
Asks U conditional = U
Asks U unlimited = Unit
Asks U (at_most n) = Unit

abbrev pub is_template : RepType → Bool
is_template (template t) = true
is_template _ = false

-- What is known of the texts that stand for matches: nothing where a function may be asked or the
-- replacement is no string, and otherwise what the pieces of the replacement make.
pub record Laws (U : Type 0) (rep : RepType) (buf_rep : TBuffer)
    (Fits : Bytes → Match → Bytes → Type 0) : Type 0 where
  pub asked : U → (base : Bytes) (m : Match) (by : Bytes) → Fits base m by
  pub computed : is_template rep ≡ false → (base : Bytes) (m : Match) (by : Bytes) → Fits base m by
  pub expanded :
      is_template rep ≡ true
      → (base : Bytes) (m : Match) (out : TBuffer)
      → (by : Bytes) × ((rep_loop (expand base m) buf_rep (top buf_rep + 1) 0 out).written
          ≡ out.written ++ by)
        × Fits base m by

module _ {W : Type 0} (l : Lua W) (nsub : ℕ) (U : Type 0) where
  put_value-Writes :
      {Fits : Bytes → Type 0} (b : TBuffer) (original : Bytes) (w : W) (v : Value)
      → ((by : Bytes) → Fits by)
      → Ends (λ r. Writes b r.buffer original r.curr_subst Fits) U (put_value l nsub b original w v)
  unfolding put_value
  put_value-Writes b original w nil all = yields (Writes-original b original (all original))
  put_value-Writes b original w (boolean false) all =
      yields (Writes-original b original (all original))
  put_value-Writes b original w (boolean true) all = raises
  put_value-Writes b original w (number n) all =
      yields (Writes-replaced b original (l.number_text n) (all _))
  put_value-Writes b original w (str s) all = yields (Writes-replaced b original s (all s))
  put_value-Writes b original w (table es) all = raises
  put_value-Writes b original w (other t) all = raises

  put_called-Writes :
      {Fits : Bytes → Type 0} (b : TBuffer) (original : Bytes) (w : W × Called)
      → ((by : Bytes) → Fits by)
      → Ends (λ r. Writes b r.buffer original r.curr_subst Fits) U (put_called l nsub b original w)
  unfolding put_called
  put_called-Writes b original (w, threw e) all = raises
  put_called-Writes b original (w, returned v _) all = put_value-Writes b original w v all

  module _ (buf_rep : TBuffer) (Fits : Bytes → Match → Bytes → Type 0) where
    pub replace-Writes :
        (rep : RepType) (b : TBuffer) (w : W) (base : Bytes) (m : Match)
        → Laws U rep buf_rep Fits
        → Ends
            (λ r. Writes b r.buffer (between base m.rm_so m.rm_eo) r.curr_subst (Fits base m))
            U
            (replace l nsub rep buf_rep w b base m)
    unfolding replace push_substrings
    replace-Writes (template t) b w base m laws =
        let (by, added, fits) = laws.expanded refl base m b in
        yields (record { by = by; added = added; same = cc; fits = fits })
    replace-Writes a_table b w base m laws = put_called-Writes b _ _ (laws.computed refl base m)
    replace-Writes a_function b w base m laws =
        Ends-bind {P = λ _. Unit}
          (Ends-if (ltb 0 nsub) (λ _. Ends-if (l.checkstack nsub) (λ _. yields tt) (λ _. raises))
            (λ _. yields tt))
          (λ args _. put_called-Writes b _ (l.call w args) (laws.computed refl base m))
    replace-Writes no_replacement b w base m laws = raises

  pub first_answer-Writes :
      {Fits : Bytes → Type 0} (out temp : TBuffer) (original by : Bytes) (curr_subst : Bool)
      (v : Value)
      → temp.written ≡ by
      → (curr_subst ≡ false → by ≡ original)
      → ((s : Bytes) → Fits s)
      → Writes out
          (first_answer l nsub out temp original curr_subst v).0
          original
          (first_answer l nsub out temp original curr_subst v).1
          Fits
  unfolding first_answer
  first_answer-Writes out temp original by curr_subst nil e same all =
      Writes-original out original (all _)
  first_answer-Writes out temp original by curr_subst (boolean false) e same all =
      Writes-original out original (all _)
  first_answer-Writes out temp original by curr_subst (number n) e same all =
      Writes-replaced out original _ (all _)
  first_answer-Writes out temp original by curr_subst (str s) e same all =
      Writes-replaced out original s (all s)
  first_answer-Writes out temp original by curr_subst v e same all =
      Writes-buffer out original temp curr_subst (λ h. e ∙ same h) (all _)

  pub new_limit-Ends :
      U → (n_match : ℕ) (v : Value) → Ends (λ maxmatch. Unit) U (new_limit l nsub n_match v)
  unfolding new_limit
  new_limit-Ends u n_match nil = yields tt
  new_limit-Ends u n_match (boolean b) = yields tt
  new_limit-Ends u n_match (number n) =
      Ends-if (ltb (n_match + not_negative (l.to_int n)) (2 ^ 31)) (λ _. yields tt)
        (λ _. undefines u)
  new_limit-Ends u n_match (str s) = yields tt
  new_limit-Ends u n_match (table es) = yields tt
  new_limit-Ends u n_match (other t) = yields tt
