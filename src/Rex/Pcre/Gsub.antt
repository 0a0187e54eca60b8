-- ===== src/Rex/Pcre/Gsub.antt =====
-- libs/lrexlib/src/algo.h: gsub for the PCRE library, with `ALG_USERETRY`, `ALG_PULL` and an
-- `ALG_BASE` of 0.
use lua_cmake_source.Base.{
  ℕ, zero, suc, ◌+◌, ◌*◌, Bool, true, false, ◌&&◌, ltb, if◌then◌else◌, length, drop, between, Bytes,
}
use lua_cmake_source.Rex.Buffer.{TBuffer, buffer_addlstring}
use lua_cmake_source.Rex.Engine.{
  Match, Exec, matched, no_match, failed, type_error, Result, ok, raised, out_of_fuel, ◌>>=◌,
  generate_error,
}
use lua_cmake_source.Rex.Gsub.State.{
  Lua, Pattern, source, regex, bad_argument, RepType, Limit, check_pattern, check_replacement,
  opt_limit, State,
}
use lua_cmake_source.Rex.Gsub.Replace.{replace}
use lua_cmake_source.Rex.Gsub.Loop.{settle, p_buf, skipped, goes_on, rep_buffer, start}
use lua_cmake_source.Rex.Pcre.Engine.{
  Pcre, TPcre, CflagsArg, LocaleArg, Tables, getcflags, optlocale, compile_regex, gsub_exec,
}

abbrev pub alg_base : ℕ → ℕ
alg_base st = 0

-- The state of the loop, with `retry`, and whether it goes on.
abbrev pub Round : Type 0 → Type 0
Round W = State W × Bool × Bool

module _ {W : Type 0} (l : Lua W) (subject : Bytes) (ud : TPcre) where
  -- `retry` after a match that ends at `to`, the position, and whether the loop goes on.
  unfoldable pub advance : ℕ → ℕ → ℕ × Bool × Bool
  advance st to =
      if ltb st to
      then (to, false, true)
      else if ltb st (length subject)
      then (st, true, true)
      else (st, false, false)

  unfoldable pub round : RepType → TBuffer → State W → Match → Result (Round W)
  round rep buf_rep s m =
      let from = alg_base s.st + m.rm_so in
      let to = alg_base s.st + m.rm_eo in
      let out = skipped l subject ud.ncapt s.buf_out s.st from in
      let st = if ltb s.st from then from else s.st in
      replace l ud.ncapt rep buf_rep s.world (p_buf l subject ud.ncapt s out)
        (drop (alg_base st) subject) m
      >>= λ r. settle l subject ud.ncapt rep s out from to r >>= λ d.
          let (st, retry, more) = advance st to in
          ok (
            record {
              world = d.world;
              n_match = s.n_match + 1;
              n_subst = s.n_subst + (if d.curr_subst then 1 else 0);
              st = st;
              buf_out = d.out;
              buf_temp = d.temp;
              maxmatch = d.maxmatch;
            },
            retry,
            more,
          )

  -- Behind an empty match, where no other starts: one byte is not replaced.
  unfoldable pub advance_by_1 : State W → State W
  advance_by_1 s = record s {
    st = s.st + 1;
    buf_out = buffer_addlstring s.buf_out (between subject s.st (s.st + 1));
  }

  module _ (p : Pcre) (eflags : ℕ) (rep : RepType) (buf_rep : TBuffer) where
    abbrev pub repeat : (State W → Bool → Result (State W)) → Round W → Result (State W)
    repeat next (s, retry, true) = next s retry
    repeat next (s, retry, false) = ok s

    abbrev pub found :
        (State W → Bool → Result (State W)) → State W → Bool → Exec → Result (State W)
    found next s retry no_match =
        if retry && ltb s.st (length subject) then next (advance_by_1 s) false else ok s
    found next s retry (failed errcode) = generate_error errcode
    found next s retry (matched m) = round rep buf_rep s m >>= repeat next

    unfoldable pub gsub_loop : ℕ → State W → Bool → Result (State W)
    gsub_loop zero s retry = out_of_fuel
    gsub_loop (suc f) s retry = elim (goes_on l subject ud.ncapt s) [
      | false ↦ ok s
      | true ↦ gsub_exec p ud subject eflags s.st retry >>= found (gsub_loop f) s retry
    ]

-- The expression that is compiled, or the userdata.
unfoldable pub compiled_pattern : Pcre → Pattern TPcre → ℕ → Tables → Result TPcre
compiled_pattern p (source s) cflags tables = compile_regex p s cflags tables
compiled_pattern p (regex ud) cflags tables = ok ud
compiled_pattern p bad_argument cflags tables = raised (type_error 2)

unfoldable pub pattern_regex : Pcre → Pattern TPcre → ℕ → LocaleArg → ℕ → Result TPcre
pattern_regex p pattern cflags lo pos =
    optlocale pos lo >>= λ tables. compiled_pattern p pattern cflags tables

-- `gsub`: the state of Lua after it, the new string, and the numbers of matches and substitutions.
unfoldable pub gsub :
    {W : Type 0}
    → Pcre
    → Lua W
    → W
    → Bytes
    → Pattern TPcre
    → RepType
    → Limit
    → CflagsArg
    → ℕ
    → LocaleArg
    → Result (W × Bytes × ℕ × ℕ)
gsub p l w subject pattern rep limit cflags eflags lo = check_pattern pattern >>= λ pattern.
    check_replacement rep >>= λ rep. opt_limit limit >>= λ maxmatch.
    getcflags p 5 cflags >>= λ cflags. pattern_regex p pattern cflags lo 7 >>= λ ud.
    rep_buffer rep ud.ncapt >>= λ buf_rep.
    gsub_loop l subject ud p eflags rep buf_rep (2 * length subject + 3) (start w maxmatch) false
    >>= λ s.
        let rest = between subject s.st (length subject) in
        let out = buffer_addlstring s.buf_out rest in
        ok (s.world, out.written, s.n_match, s.n_subst)
