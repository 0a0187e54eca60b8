-- ===== src/Rex/Gsub/Loop.antt =====
-- libs/lrexlib/src/algo.h: the loop of gsub, for the POSIX library (`ALG_USERETRY` is not defined).
use lua_cmake_source.Base.{
  ℕ, zero, suc, ◌+◌, Bool, true, false, ◌&&◌, none, some, leb, ltb, if◌then◌else◌, length, drop,
  between, Bytes,
}
use lua_cmake_source.Rex.Buffer.{
  TBuffer, buffer_init, buffer_clear, buffer_addlstring, buffer_z_putrepstring,
}
use lua_cmake_source.Rex.Engine.{
  Match, Exec, matched, no_match, failed, Posix, TPosix, invalid_capture_index, thrown, Result, ok,
  raised, out_of_fuel, ◌>>=◌, generate_error, gsub_exec,
}
use lua_cmake_source.Rex.Gsub.State.{
  Called, returned, threw, Lua, Pattern, RepType, template, Limit, MaxMatch, at_most, opt_limit,
  check_pattern, check_replacement, pattern_regex, State, Replaced, is_conditional,
}
use lua_cmake_source.Rex.Gsub.Replace.{replace, new_limit, first_answer, offered}

module _ {W : Type 0} (l : Lua W) (subject : Bytes) (nsub : ℕ) where
  -- What a round has written and settled: the output, BufTemp, `curr_subst` and `maxmatch`.
  pub record Settled : Type 0 where
    pub world : W
    pub out : TBuffer
    pub temp : TBuffer
    pub curr_subst : Bool
    pub maxmatch : MaxMatch

  unfoldable pub answered : TBuffer → ℕ → Bytes → Replaced W → W × Called → Result Settled
  answered out n_match original r (w, threw e) = raised (thrown e)
  answered out n_match original r (w, returned first second) =
      let (after, curr_subst) = first_answer l nsub out r.buffer original r.curr_subst first in
      new_limit l nsub n_match second >>= λ maxmatch. ok (record {
        world = w;
        out = after;
        temp = if is_conditional maxmatch then buffer_clear r.buffer else r.buffer;
        curr_subst = curr_subst;
        maxmatch = maxmatch;
      })

  -- The call of the fourth argument, which is a function.
  unfoldable pub confirm : RepType → TBuffer → ℕ → ℕ → ℕ → Replaced W → Result Settled
  confirm rep out n_match from to r =
      answered out n_match (between subject from to) r
        (l.ask r.world (from + 1) to (offered l nsub rep r))

  -- BufTemp where the fourth argument is a function, and BufOut otherwise.
  abbrev pub p_buf : State W → TBuffer → TBuffer
  p_buf s out = if is_conditional s.maxmatch then s.buf_temp else out

  unfoldable pub settle : RepType → State W → TBuffer → ℕ → ℕ → Replaced W → Result Settled
  settle rep s out from to r =
      if is_conditional s.maxmatch
      then confirm rep out (s.n_match + 1) from to r
      else ok (record {
        world = r.world;
        out = r.buffer;
        temp = s.buf_temp;
        curr_subst = r.curr_subst;
        maxmatch = s.maxmatch;
      })

  -- The position after a match that ends at `to`, the output, and whether the loop goes on.
  unfoldable pub advance : ℕ → ℕ → TBuffer → ℕ × TBuffer × Bool
  advance st to out =
      if ltb st to
      then (to, out, true)
      else if ltb st (length subject)
      then (st + 1, buffer_addlstring out (between subject st (st + 1)), true)
      else (st, out, false)

  -- What stands before the match.
  abbrev pub skipped : TBuffer → ℕ → ℕ → TBuffer
  skipped out st from = if ltb st from then buffer_addlstring out (between subject st from) else out

  unfoldable pub round : RepType → TBuffer → State W → Match → Result (State W × Bool)
  round rep buf_rep s m =
      let from = s.st + m.rm_so in
      let to = s.st + m.rm_eo in
      let out = skipped s.buf_out s.st from in
      replace l nsub rep buf_rep s.world (p_buf s out) (drop s.st subject) m >>= λ r.
      settle rep s out from to r >>= λ d.
      let (st, after, more) = advance s.st to d.out in
      ok (
        record {
          world = d.world;
          n_match = s.n_match + 1;
          n_subst = s.n_subst + (if d.curr_subst then 1 else 0);
          st = st;
          buf_out = after;
          buf_temp = d.temp;
          maxmatch = d.maxmatch;
        },
        more,
      )

  -- (argE.maxmatch < 0 || n_match < argE.maxmatch) && st <= (int)argE.textlen
  abbrev pub below_limit : MaxMatch → ℕ → Bool
  below_limit (at_most n) n_match = ltb n_match n
  below_limit _ n_match = true

  unfoldable pub goes_on : State W → Bool
  goes_on s = below_limit s.maxmatch s.n_match && leb s.st (length subject)

module _ {W : Type 0} (l : Lua W) (subject : Bytes) (ud : TPosix) (p : Posix) (eflags : ℕ)
    (rep : RepType) (buf_rep : TBuffer) where
  abbrev pub repeat : (State W → Result (State W)) → State W × Bool → Result (State W)
  repeat next (s, true) = next s
  repeat next (s, false) = ok s

  abbrev pub found : (State W → Result (State W)) → State W → Exec → Result (State W)
  found next s no_match = ok s
  found next s (failed errcode) = generate_error errcode
  found next s (matched m) = round l subject ud.nsub rep buf_rep s m >>= repeat next

  -- `st` never falls, so that REG_NOTBOL, once set in the flags, would be set again.
  unfoldable pub gsub_loop : ℕ → State W → Result (State W)
  gsub_loop zero s = out_of_fuel
  gsub_loop (suc f) s = elim (goes_on l subject ud.nsub s) [
    | false ↦ ok s
    | true ↦ gsub_exec p ud subject eflags s.st >>= found (gsub_loop f) s
  ]

-- `buffer_init` and `bufferZ_putrepstring` for a replacement that is a string.
unfoldable pub rep_buffer : RepType → ℕ → Result TBuffer
rep_buffer (template t) nsub = elim (buffer_z_putrepstring (buffer_init 256) t nsub) [
  | none ↦ raised invalid_capture_index
  | some b ↦ ok b
]
rep_buffer _ nsub = ok (buffer_init 0)

abbrev pub start : {W : Type 0} → W → MaxMatch → State W
start w maxmatch = record {
  world = w;
  n_match = 0;
  n_subst = 0;
  st = 0;
  buf_out = buffer_init 1024;
  buf_temp = buffer_init 1024;
  maxmatch = maxmatch;
}

-- `gsub`: the state of Lua after it, the new string, and the numbers of matches and substitutions.
unfoldable pub gsub :
    {W : Type 0}
    → Posix
    → Lua W
    → W
    → Bytes
    → Pattern TPosix
    → RepType
    → Limit
    → ℕ
    → ℕ
    → Result (W × Bytes × ℕ × ℕ)
gsub p l w subject pattern rep limit cflags eflags = check_pattern pattern >>= λ pattern.
    check_replacement rep >>= λ rep. opt_limit limit >>= λ maxmatch.
    pattern_regex p pattern cflags >>= λ ud. rep_buffer rep ud.nsub >>= λ buf_rep.
    gsub_loop l subject ud p eflags rep buf_rep (length subject + 1) (start w maxmatch) >>= λ s.
    let rest = between subject s.st (length subject) in
    let out = buffer_addlstring s.buf_out rest in ok (s.world, out.written, s.n_match, s.n_subst)
