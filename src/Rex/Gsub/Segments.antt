-- ===== src/Rex/Gsub/Segments.antt =====
-- The subject of gsub as a sequence of segments: what is kept, and the matches.
use lua_cmake_source.Base.{
  drop, All, All-append, sym, ◌∙◌, ℕ, suc, ◌+◌, ◌≤◌, Bool, true, false, List, [], ◌∷◌, ◌++◌,
  append_assoc, append-nil, if◌then◌else◌, ◌≡◌, refl, arith, take, between, take-between, Bytes,
}
use lua_cmake_source.Rex.Engine.{Match, Posix, TPosix, ok, matched, gsub_exec}

-- A text that is kept; a match from where the search started, with what replaces it; and a match
-- that is left as it is.
pub data Segment : Type 0 where
  kept : Bytes → Segment
  replaced : ℕ → Match → Bytes → Segment
  left : ℕ → Match → Segment

-- The text of a match of the search from `st`.
abbrev pub matched_text : Bytes → ℕ → Match → Bytes
matched_text text st m = between text (st + m.rm_so) (st + m.rm_eo)

abbrev pub original : Bytes → List Segment → Bytes
original text [] = []
original text (kept s ∷ segs) = s ++ original text segs
original text (replaced st m by ∷ segs) = matched_text text st m ++ original text segs
original text (left st m ∷ segs) = matched_text text st m ++ original text segs

abbrev pub result : Bytes → List Segment → Bytes
result text [] = []
result text (kept s ∷ segs) = s ++ result text segs
result text (replaced st m by ∷ segs) = by ++ result text segs
result text (left st m ∷ segs) = matched_text text st m ++ result text segs

abbrev pub matches : List Segment → ℕ
matches [] = 0
matches (kept s ∷ segs) = matches segs
matches (_ ∷ segs) = suc (matches segs)

abbrev pub substitutions : List Segment → ℕ
substitutions [] = 0
substitutions (replaced st m by ∷ segs) = suc (substitutions segs)
substitutions (_ ∷ segs) = substitutions segs

-- The segment of a match, by `curr_subst`.
abbrev pub of_match : Bool → ℕ → Match → Bytes → Segment
of_match true st m by = replaced st m by
of_match false st m by = left st m

-- Each match is one that regexec has found, and `Fits` holds of what replaces it.
abbrev pub IsFound :
    Posix → TPosix → Bytes → ℕ → (Bytes → Match → Bytes → Type 0) → Segment → Type 0
IsFound p ud text eflags Fits (kept s) = Unit
IsFound p ud text eflags Fits (left st m) = gsub_exec p ud text eflags st ≡ ok (matched m)
IsFound p ud text eflags Fits (replaced st m by) =
    (gsub_exec p ud text eflags st ≡ ok (matched m)) × Fits (drop st text) m by

-- The text up to a position, and what was written and counted for it; `F` holds of each segment.
pub record IsTrace (F : Segment → Type 0) (text : Bytes) (st : ℕ) (out : Bytes)
    (n_match n_subst : ℕ) (segs : List Segment) : Type 0 where
  pub covers : original text segs ≡ take st text
  pub writes : result text segs ≡ out
  pub counts : matches segs ≡ n_match
  pub substitutes : substitutions segs ≡ n_subst
  pub found : All F segs

pub IsTrace-nil : {F : Segment → Type 0} (text : Bytes) → IsTrace F text 0 [] 0 0 []
IsTrace-nil text = record {
  covers = refl;
  writes = refl;
  counts = refl;
  substitutes = refl;
  found = tt;
}

module _ (text : Bytes) where
  original-append :
      (xs ys : List Segment) → original text (xs ++ ys) ≡ original text xs ++ original text ys
  original-append [] ys = refl
  original-append (kept s ∷ xs) ys = simp (original-append xs ys, append_assoc)
  original-append (replaced st m by ∷ xs) ys = simp (original-append xs ys, append_assoc)
  original-append (left st m ∷ xs) ys = simp (original-append xs ys, append_assoc)

  result-append : (xs ys : List Segment) → result text (xs ++ ys) ≡ result text xs ++ result text ys
  result-append [] ys = refl
  result-append (kept s ∷ xs) ys = simp (result-append xs ys, append_assoc)
  result-append (replaced st m by ∷ xs) ys = simp (result-append xs ys, append_assoc)
  result-append (left st m ∷ xs) ys = simp (result-append xs ys, append_assoc)

matches-append : (xs ys : List Segment) → matches (xs ++ ys) ≡ matches xs + matches ys
matches-append [] ys = omega arith
matches-append (kept s ∷ xs) ys = omega (arith, matches-append xs ys)
matches-append (replaced st m by ∷ xs) ys = omega (arith, matches-append xs ys)
matches-append (left st m ∷ xs) ys = omega (arith, matches-append xs ys)

substitutions-append :
    (xs ys : List Segment) → substitutions (xs ++ ys) ≡ substitutions xs + substitutions ys
substitutions-append [] ys = omega arith
substitutions-append (kept s ∷ xs) ys = omega (arith, substitutions-append xs ys)
substitutions-append (replaced st m by ∷ xs) ys = omega (arith, substitutions-append xs ys)
substitutions-append (left st m ∷ xs) ys = omega (arith, substitutions-append xs ys)

module _ {F : Segment → Type 0} {text : Bytes} {st : ℕ} {out : Bytes} {n_match n_subst : ℕ}
    {segs : List Segment} (t : IsTrace F text st out n_match n_subst segs) where
  -- One more segment, from the position to a later one.
  IsTrace-snoc :
      (seg : Segment) (to all_matches all_substitutions : ℕ) (by : Bytes)
      → take st text ++ original text (seg ∷ []) ≡ take to text
      → result text (seg ∷ []) ≡ by
      → n_match + matches (seg ∷ []) ≡ all_matches
      → n_subst + substitutions (seg ∷ []) ≡ all_substitutions
      → F seg
      → IsTrace F text to (out ++ by) all_matches all_substitutions (segs ++ seg ∷ [])
  IsTrace-snoc seg to all_matches all_substitutions by h w e d f = record {
    covers = original-append text segs (seg ∷ []) ∙ (rw t.covers h);
    writes = result-append text segs (seg ∷ []) ∙ (rw (t.writes, w));
    counts = omega (arith, t.counts, e, matches-append segs (seg ∷ []));
    substitutes = omega (arith, t.substitutes, d, substitutions-append segs (seg ∷ []));
    found = All-append F segs (seg ∷ []) t.found (f, tt);
  }

  -- A text that is copied up to a later position.
  pub IsTrace-kept :
      (to : ℕ)
      → st ≤ to
      → ((s : Bytes) → F (kept s))
      → IsTrace F text to
          (out ++ between text st to)
          n_match
          n_subst
          (segs ++ kept (between text st to) ∷ [])
  IsTrace-kept to h f =
      IsTrace-snoc (kept (between text st to)) to n_match n_subst (between text st to)
        (rw (append-nil (between text st to)) (take-between text st to h)) (append-nil _)
        (omega arith) (omega arith) (f _)

  match-covers :
      (start : ℕ) (m : Match)
      → start + m.rm_so ≡ st
      → m.rm_so ≤ m.rm_eo
      → take st text ++ (matched_text text start m ++ []) ≡ take (start + m.rm_eo) text
  match-covers start m at h =
      rw (← at, append-nil (matched_text text start m))
        (take-between text (start + m.rm_so) (start + m.rm_eo) (omega arith))

  -- A match from the position to a later one, or to the same.
  pub IsTrace-match :
      (start : ℕ) (m : Match) (by : Bytes) (curr_subst : Bool)
      → start + m.rm_so ≡ st
      → m.rm_so ≤ m.rm_eo
      → (curr_subst ≡ false → by ≡ matched_text text start m)
      → F (of_match curr_subst start m by)
      → IsTrace F text
          (start + m.rm_eo)
          (out ++ by)
          (n_match + 1)
          (n_subst + (if curr_subst then 1 else 0))
          (segs ++ of_match curr_subst start m by ∷ [])
  IsTrace-match start m by true at h same f =
      IsTrace-snoc (replaced start m by) (start + m.rm_eo) (n_match + 1) (n_subst + 1) by
        (match-covers start m at h) (append-nil by) (omega arith) (omega arith) f
  IsTrace-match start m by false at h same f =
      IsTrace-snoc (left start m) (start + m.rm_eo) (n_match + 1) (n_subst + 0) by
        (match-covers start m at h) (append-nil _ ∙ sym (same refl)) (omega arith) (omega arith) f
