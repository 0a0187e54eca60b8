-- ===== src/Rex/Find/Offsets.antt =====
-- The positions that exec returns are those of the texts that tfind returns.
use lua_cmake_source.Base.{
  false, ℕ, zero, suc, ◌+◌, ◌-◌, ◌≤◌, ◌<◌, List, [], ◌∷◌, ◌++◌, Option, ltb, ltb_false→le,
  Bool-cases, inl, inr, if◌then◌else◌, ◌≡◌, refl, arith, length, drop, between, between-drop, Bytes,
}
use lua_cmake_source.Base.Int.{ℤ}
use lua_cmake_source.LuaValue.{Value, nil, boolean, str}
use lua_cmake_source.Rex.Engine.{
  raised, undefined, out_of_fuel, LuaError, Posix, Sub, unset, span, Match, Exec, matched, no_match,
  failed, TPosix, Result, ok, ◌>>=◌, sub_at, sub_or_false, findmatch_exec,
}
use lua_cmake_source.Rex.Total.{Ends, yields, raises, undefines, IsLive, FitsAt, regexec_at-FitsAt}
use lua_cmake_source.Rex.Gsub.State.{
  Lua, Pattern, source, regex, bad_argument, check_pattern, pattern_regex,
}
use lua_cmake_source.Rex.Gsub.Replace.{substrings}
use lua_cmake_source.Rex.Find.{
  get_startoffset, Method, find, match, exec, tfind, Offset, Named, at, Item, index, value,
  table_of, offsets, sub_offsets, push_offset_table, method_results, generic_find_func,
  generic_find_func, generic_find_method, finish_generic_find,
}

-- The texts at pairs of positions, as `string.sub` takes them.
abbrev pub texts_at : Bytes → List Offset → List Value
texts_at text (at b ∷ at e ∷ os) = str (between text (b - 1) e) ∷ texts_at text os
texts_at text (_ ∷ _ ∷ os) = boolean false ∷ texts_at text os
texts_at text _ = []

abbrev pub read_offsets : Bytes → List Item → List Item
read_offsets text [] = []
read_offsets text (offsets os names ∷ items) =
    table_of (texts_at text os) names ∷ read_offsets text items
read_offsets text (item ∷ items) = item ∷ read_offsets text items

module _ (text : Bytes) (startoffset : ℕ) (m : Match) where
  texts_at-sub_offsets :
      (s : Sub) (os : List Offset)
      → texts_at text (sub_offsets startoffset s ++ os)
        ≡ sub_or_false (drop startoffset text) s ∷ texts_at text os
  texts_at-sub_offsets unset os = refl
  texts_at-sub_offsets (span b e) os =
      let first : startoffset + b + 1 - 1 ≡ startoffset + b = omega arith in
      rw (first, between-drop text startoffset b e)

  texts_at-push_offset_table :
      (n i : ℕ)
      → texts_at text (push_offset_table startoffset m n i)
        ≡ substrings (drop startoffset text) m n i
  unfolding push_offset_table substrings
  texts_at-push_offset_table zero i = refl
  texts_at-push_offset_table (suc n) i = rw (
    texts_at-sub_offsets (sub_at m i) (push_offset_table startoffset m n (suc i)),
    texts_at-push_offset_table n (suc i),
  )

module _ {W : Type 0} (l : Lua W) (nsub : ℕ) (names : Match → Named) (text : Bytes) where
  results-tfind :
      (startoffset : ℕ) (e : Exec)
      → method_results l nsub names (drop startoffset text) startoffset tfind e ≡ (
          method_results l nsub names (drop startoffset text) startoffset exec e >>= λ items.
          ok (read_offsets text items))
  unfolding method_results finish_generic_find
  results-tfind startoffset no_match = refl
  results-tfind startoffset (failed errcode) = refl
  results-tfind startoffset (matched m) = rw (texts_at-push_offset_table text startoffset m nsub 1)

  pub bind_results-tfind :
      (startoffset : ℕ) (r : Result Exec)
      → (r >>= method_results l nsub names (drop startoffset text) startoffset tfind) ≡ (
          r >>= method_results l nsub names (drop startoffset text) startoffset exec >>= λ items.
          ok (read_offsets text items))
  bind_results-tfind startoffset (ok e) = results-tfind startoffset e
  bind_results-tfind startoffset (raised e) = refl
  bind_results-tfind startoffset undefined = refl
  bind_results-tfind startoffset out_of_fuel = refl

module _ {W : Type 0} (l : Lua W) (ud : TPosix) (text : Bytes) where
  -- The method tfind gives what exec gives, with the texts of the subject at the positions in the
  -- table of exec: its substrings, and false where a subexpression took no part.
  pub generic_find_method-tfind :
      (init : Option ℤ) (eflags : ℕ)
      → generic_find_method l ud text init eflags tfind
        ≡ (generic_find_method l ud text init eflags exec >>= λ items. ok (read_offsets text items))
  unfolding generic_find_method
  generic_find_method-tfind init eflags =
      elim (Bool-cases (ltb (length text) (get_startoffset init (length text)))) [
        | inl e ↦ rw e
        | inr e ↦ rw e (
            bind_results-tfind l ud.nsub (λ m. []) text (get_startoffset init (length text))
              (findmatch_exec ud text eflags (get_startoffset init (length text))))
      ]

-- A pair of positions of find with the text between them, or the same lack of a match or error.
pub data IsFindOf (text : Bytes) : Result (List Item) → Result (List Item) → Type 0 where
  found :
      (b e : ℕ) {s : Bytes}
      → 0 < b
      → b ≤ e + 1
      → e ≤ length text
      → s ≡ between text (b - 1) e
      → IsFindOf text (ok (index b ∷ index e ∷ [])) (ok (value (str s) ∷ []))
  missing : IsFindOf text (ok (value nil ∷ [])) (ok (value nil ∷ []))
  refuses : (e : LuaError) → IsFindOf text (raised e) (raised e)

module _ {W : Type 0} (l : Lua W) (ud : TPosix) (text : Bytes) (plain : ud.nsub ≡ 0) where
  finish-IsFindOf :
      (startoffset : ℕ) (e : Exec)
      → FitsAt text startoffset e
      → IsFindOf text
          (finish_generic_find l ud.nsub (drop startoffset text) startoffset find e)
          (finish_generic_find l ud.nsub (drop startoffset text) startoffset match e)
  unfolding finish_generic_find
  finish-IsFindOf startoffset no_match h = missing
  finish-IsFindOf startoffset (failed errcode) h = refuses _
  finish-IsFindOf startoffset (matched m) h =
      let first : startoffset + m.rm_so + 1 - 1 ≡ startoffset + m.rm_so = omega arith in
      let whole : between (drop startoffset text) m.rm_so m.rm_eo
          ≡ between text (startoffset + m.rm_so + 1 - 1) (startoffset + m.rm_eo) =
        rw first (between-drop text startoffset m.rm_so m.rm_eo) in
      rw plain (
        found (startoffset + m.rm_so + 1) (startoffset + m.rm_eo) (omega arith) (omega arith) h.1
          whole)

  run-IsFindOf :
      (startoffset : ℕ) (r : Result Exec)
      → Ends (FitsAt text startoffset) ⊥ r
      → IsFindOf text
          (r >>= finish_generic_find l ud.nsub (drop startoffset text) startoffset find)
          (r >>= finish_generic_find l ud.nsub (drop startoffset text) startoffset match)
  run-IsFindOf startoffset r (yields {a} h) = finish-IsFindOf startoffset a h
  run-IsFindOf startoffset r raises = refuses _
  run-IsFindOf startoffset r (undefines u) = absurd u

  abbrev searched_at : Posix → Pattern TPosix → Option ℤ → ℕ → ℕ → Method → Result (List Item)
  searched_at p pattern init cflags eflags method =
      let startoffset = get_startoffset init (length text) in
      if ltb (length text) startoffset
      then ok (value nil ∷ [])
      else pattern_regex p pattern cflags >>= λ ud.
          findmatch_exec ud text eflags startoffset
          >>= finish_generic_find l ud.nsub (drop startoffset text) startoffset method

  searched :
      (p : Posix) (pattern : Pattern TPosix) (init : Option ℤ) (cflags eflags : ℕ)
      → pattern_regex p pattern cflags ≡ ok ud
      → IsLive ud
      → IsFindOf text
          (searched_at p pattern init cflags eflags find)
          (searched_at p pattern init cflags eflags match)
  unfolding findmatch_exec
  searched p pattern init cflags eflags compiled live =
      let start = get_startoffset init (length text) in
      elim (Bool-cases (ltb (length text) start)) [
        | inl e ↦ rw e missing
        | inr e ↦
            rw (e, compiled)
              (run-IsFindOf start (findmatch_exec ud text eflags start)
                (regexec_at-FitsAt ud text start eflags live (ltb_false→le (length text) start e)))
      ]

  -- For an expression without subexpressions whose matches can be read, the function find gives the
  -- positions in the subject of the text that match gives, or both find nothing or raise one error.
  pub generic_find_func-IsFindOf :
      (p : Posix) (pattern : Pattern TPosix) (init : Option ℤ) (cflags eflags : ℕ)
      → pattern_regex p pattern cflags ≡ ok ud
      → IsLive ud
      → IsFindOf text
          (generic_find_func l p text pattern init cflags eflags find)
          (generic_find_func l p text pattern init cflags eflags match)
  unfolding generic_find_func check_pattern
  generic_find_func-IsFindOf p (source t) init cflags eflags compiled live =
      searched p (source t) init cflags eflags compiled live
  generic_find_func-IsFindOf p (regex r) init cflags eflags compiled live =
      searched p (regex r) init cflags eflags compiled live
  generic_find_func-IsFindOf p bad_argument init cflags eflags compiled live = refuses _
