-- ===== src/Rex/Samples.antt =====
-- Small engines, expressions and a Lua state for the tests on regular expressions.
use lua_cmake_source.Base.{
  ℕ, ◌+◌, ◌≤◌, true, false, List, [], ◌∷◌, ◌==◌, if◌then◌else◌, ◌≡◌, refl, ap, arith, inl, inr,
  length, Bool-cases, Bytes, drop, ltb, leb, leb→le, length-drop_le, drop_beyond, ◌<◌,
}
use lua_cmake_source.Base.Int.{pos}
use lua_cmake_source.LuaValue.{nil}
use lua_cmake_source.Rex.Engine.{
  Sub, span, Match, Exec, matched, no_match, failed, refused, Posix, TPosix, IsMatchOf,
}
use lua_cmake_source.Rex.Total.{IsLive}
use lua_cmake_source.Rex.Pcre
use lua_cmake_source.Rex.Pcre.Engine.{
  PcreCode, TPcre, Pcre, compiled, studied, DfaExec, dfa_matched, dfa_no_match, dfa_failed,
}
use lua_cmake_source.Rex.Gsub.State.{returned, Lua}

-- The first place of a character, from position `i` on.
unfoldable pub search_for : ℕ → List Sub → Bytes → ℕ → Exec
search_for c subs [] i = no_match
search_for c subs (x ∷ xs) i =
    let next = search_for c subs xs (i + 1) in
    if x == c then matched (record { rm_so = i; rm_eo = i + 1; subs = subs }) else next

abbrev InSearch : ℕ → Bytes → Match → Type 0
InSearch i s m = (m.rm_so < m.rm_eo) × (m.rm_eo ≤ i + length s) × (m.subs ≡ []) × (i ≤ m.rm_so)

search_for-InSearch :
    (c : ℕ) (s : Bytes) (i : ℕ) (m : Match) → search_for c [] s i ≡ matched m → InSearch i s m
unfolding search_for
search_for-InSearch c [] i m e = cc
search_for-InSearch c (x ∷ xs) i m e = elim (Bool-cases (x == c)) [
  | inl here ↦
      let same : ◌≡◌ {A = Match} (record { rm_so = i; rm_eo = i + 1; subs = [] }) m =
        cc (rw here at e) in
      rw (← same) (omega arith, omega arith, refl, omega arith)
  | inr other ↦
      let (low, high, no_subs, first) = search_for-InSearch c xs (i + 1) m (rw other at e) in
      (low, omega arith, no_subs, omega arith)
]

-- The expressions `-`, `(-)` and the empty one.
abbrev pub dash : TPosix
dash = record {
  r = record { re_nsub = 0; regexec = λ s eflags. search_for b'-' [] s 0 };
  nsub = 0;
  nosub = false;
  freed = false;
}

abbrev pub captured_dash : TPosix
captured_dash = record {
  r = record { re_nsub = 1; regexec = λ s eflags. search_for b'-' (span 1 2 ∷ []) s 0 };
  nsub = 1;
  nosub = false;
  freed = false;
}

abbrev pub at_once : Match
at_once = record { rm_so = 0; rm_eo = 0; subs = [] }

abbrev pub empty : TPosix
empty = record {
  r = record { re_nsub = 0; regexec = λ s eflags. matched at_once };
  nsub = 0;
  nosub = false;
  freed = false;
}

InSearch-IsMatchOf : (s : Bytes) (m : Match) → InSearch 0 s m → IsMatchOf dash.r s m
InSearch-IsMatchOf s m (low, high, no_subs, _) = record {
  ordered = omega arith;
  inside = omega arith;
  all_subs = ap length no_subs;
  subs_inside = rw no_subs tt;
}

pub dash-IsLive : IsLive dash
dash-IsLive = record {
  not_freed = refl;
  with_subs = refl;
  engine = λ s eflags m e. InSearch-IsMatchOf s m (search_for-InSearch b'-' s 0 m e);
}

pub empty-IsLive : IsLive empty
empty-IsLive = record {
  not_freed = refl;
  with_subs = refl;
  engine = λ s eflags m e.
      let same : at_once ≡ m = cc e in
      rw (← same)
        (record { ordered = omega arith; inside = omega arith; all_subs = refl; subs_inside = tt });
}

abbrev pub posix : Posix
posix = record { regcomp = λ pattern cflags. refused 0; reg_nosub = 8; reg_notbol = 1 }

abbrev pub lua : Lua Unit
lua = record {
  number_text = λ n. [];
  to_int = λ n. pos 0;
  checkstack = λ n. true;
  gettable = λ w v. (w, returned v nil);
  call = λ w vs. (w, returned nil nil);
  ask = λ w from to v. (w, returned v nil);
}

-- The one match of the other algorithm, where there is room for it.
abbrev pub one_match : ℕ → Exec → DfaExec
one_match ovecsize no_match = dfa_no_match
one_match ovecsize (failed errcode) = dfa_failed errcode
one_match ovecsize (matched m) =
    if ltb ovecsize 2 then dfa_matched 0 [] else dfa_matched 1 (m.rm_so ∷ m.rm_eo ∷ [])

-- The expression `-` for PCRE, whose matches count from the start of the text.
abbrev dash_code : PcreCode
dash_code = record {
  capture_count = 0;
  name_count = 0;
  name_entry_size = 0;
  name_table = [];
  pcre_exec = λ text start eflags. search_for b'-' [] (drop start text) start;
  pcre_dfa_exec = λ text start eflags ovecsize wscount.
      one_match ovecsize (search_for b'-' [] (drop start text) start);
}

abbrev pub pcre_dash : TPcre
pcre_dash = record { pr = dash_code; ncapt = 0; freed = false; allocated = true }

abbrev pub pcre : Pcre
pcre = record {
  pcre_compile = λ pattern cflags tables. compiled dash_code;
  pcre_study = λ pr. studied pr;
  set_locale = λ s. false;
  not_empty = 1024;
  anchored = 16;
  caseless = 1;
  multiline = 2;
  dotall = 4;
  extended = 8;
  ungreedy = 512;
  extra = 64;
}

pub dash_code-found :
    (text : Bytes) (start : ℕ) (m : Match)
    → search_for b'-' [] (drop start text) start ≡ matched m
    → (start ≤ m.rm_so) × (m.rm_so < m.rm_eo) × (m.rm_eo ≤ length text)
dash_code-found text start m e =
    let (some_bytes, high, _, low) = search_for-InSearch b'-' (drop start text) start m e in
    elim (Bool-cases (leb start (length text))) [
      | inl inside ↦
          let all = length-drop_le start text (leb→le start (length text) inside) in
          (low, some_bytes, omega arith)
      | inr outside ↦
          let none_left = drop_beyond start text (ground arith) in absurd (no_bytes none_left)
    ]
  where
    no_bytes : drop start text ≡ [] → ⊥
    no_bytes none_left = unfold search_for in cc (rw none_left at e)

pub pcre_dash-IsLive : Pcre.Trace.IsLive pcre pcre_dash
pcre_dash-IsLive = record {
  allocated = refl;
  engine = record {
    found = λ text start eflags m e.
        let (low, some_bytes, high) = dash_code-found text start m e in (low, omega arith, high);
    some_bytes = λ text start eflags m e. (dash_code-found text start m e).1;
  };
}
