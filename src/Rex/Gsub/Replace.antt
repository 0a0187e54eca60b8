-- ===== src/Rex/Gsub/Replace.antt =====
-- libs/lrexlib/src/algo.h: what gsub writes in place of a match.
use lua_cmake_source.Base.{
  ℕ, zero, suc, ◌+◌, ◌^◌, Bool, true, false, List, [], ◌∷◌, Option, none, some, ltb, if◌then◌else◌,
  between, Bytes,
}
use lua_cmake_source.LuaValue.{Value, nil, boolean, number, str}
use lua_cmake_source.Rex.Buffer.{
  TBuffer, top, buffer_addlstring, buffer_addbuffer, Piece, text, group, buffer_z_next,
}
use lua_cmake_source.Rex.Engine.{
  Match, no_stack_slots, invalid_replacement, thrown, type_error, Result, ok, raised, undefined,
  ◌>>=◌, sub_at, sub_text, sub_or_false,
}
use lua_cmake_source.Rex.Gsub.State.{
  Called, returned, threw, Lua, RepType, template, a_table, a_function, no_replacement, MaxMatch,
  unlimited, conditional, at_most, not_negative, Replaced,
}

-- The values of the subexpressions, `n` of them from `i` on.
unfoldable pub substrings : Bytes → Match → ℕ → ℕ → List Value
substrings base m zero i = []
substrings base m (suc n) i = sub_or_false base (sub_at m i) ∷ substrings base m n (suc i)

-- What a piece of the replacement stands for. `num == 0` is the whole match.
unfoldable pub expand : Bytes → Match → Piece → Bytes
expand base m (text s) = s
expand base m (group zero) = between base m.rm_so m.rm_eo
expand base m (group (suc n)) = sub_text base (sub_at m (suc n))

-- while (bufferZ_next (...))
unfoldable pub rep_loop : (Piece → Bytes) → TBuffer → ℕ → ℕ → TBuffer → TBuffer
rep_loop expanded buf_rep zero iter out = out
rep_loop expanded buf_rep (suc f) iter out = elim (buffer_z_next buf_rep iter) [
  | none ↦ out
  | some (next, piece) ↦ rep_loop expanded buf_rep f next (buffer_addlstring out (expanded piece))
]

module _ {W : Type 0} (l : Lua W) (nsub : ℕ) where
  -- `lua_tostring`
  abbrev pub tostring : Value → Option Bytes
  tostring (str s) = some s
  tostring (number n) = some (l.number_text n)
  tostring _ = none

  abbrev pub toboolean : Value → Bool
  toboolean nil = false
  toboolean (boolean b) = b
  toboolean _ = true

  unfoldable pub push_substrings : Bytes → Match → Result (List Value)
  push_substrings base m =
      if l.checkstack nsub then ok (substrings base m nsub 1) else raised (no_stack_slots nsub)

  -- The value of a table or a function as a replacement of `original`.
  unfoldable pub put_value : TBuffer → Bytes → W → Value → Result (Replaced W)
  put_value p_buf original w v = elim (tostring v) [
    | some s ↦
        ok (record {
          world = w;
          value = str s;
          buffer = buffer_addlstring p_buf s;
          curr_subst = true;
        })
    | none ↦
        if toboolean v
        then raised (invalid_replacement v)
        else ok (record {
          world = w;
          value = v;
          buffer = buffer_addlstring p_buf original;
          curr_subst = false;
        })
  ]

  unfoldable pub put_called : TBuffer → Bytes → W × Called → Result (Replaced W)
  put_called p_buf original (w, returned v _) = put_value p_buf original w v
  put_called p_buf original (w, threw e) = raised (thrown e)

  unfoldable pub replace : RepType → TBuffer → W → TBuffer → Bytes → Match → Result (Replaced W)
  replace (template _) buf_rep w p_buf base m = ok (record {
    world = w;
    value = nil;
    buffer = rep_loop (expand base m) buf_rep (top buf_rep + 1) 0 p_buf;
    curr_subst = true;
  })
  replace a_table buf_rep w p_buf base m =
      let original = between base m.rm_so m.rm_eo in
      put_called p_buf original
        (l.gettable w (if ltb 0 nsub then sub_or_false base (sub_at m 1) else str original))
  replace a_function buf_rep w p_buf base m =
      let original = between base m.rm_so m.rm_eo in
      (if ltb 0 nsub then push_substrings base m else ok (str original ∷ [])) >>= λ args.
      put_called p_buf original (l.call w args)
  replace no_replacement buf_rep w p_buf base m = raised (type_error 3)

  -- The second value that the function of the fourth argument returns. An int holds the sum of the
  -- matches so far and the number, or overflows.
  unfoldable pub new_limit : ℕ → Value → Result MaxMatch
  new_limit n_match (number x) =
      let n = not_negative (l.to_int x) in
      if ltb (n_match + n) (2 ^ 31) then ok (at_most (n_match + n)) else undefined
  new_limit n_match v = ok (if toboolean v then unlimited else conditional)

  -- Its first value: what is written to the output, and `curr_subst`.
  unfoldable pub first_answer : TBuffer → TBuffer → Bytes → Bool → Value → TBuffer × Bool
  first_answer out temp original curr_subst v = elim (tostring v) [
    | some s ↦ (buffer_addlstring out s, true)
    | none ↦
        if toboolean v
        then (buffer_addbuffer out temp, curr_subst)
        else (buffer_addlstring out original, false)
  ]

  abbrev pub offered : RepType → Replaced W → Value
  offered (template _) r = str r.buffer.written
  offered _ r = r.value
