-- ===== src/Rex/Gsub/Stored.antt =====
-- What bufferZ_putrepstring stores is read back as the replacement of a match.
use lua_cmake_source.Base.{
  All, ◌<◌, ◌^◌, false, ℕ, ◌+◌, List, [], ◌++◌, ◌≡◌, refl, arith, length, Bytes, Option, none, some,
  ap,
}
use lua_cmake_source.Rex.Buffer.{
  top, Piece, text, group, buffer_clear, TBuffer, buffer_init, buffer_z_putrepstring,
}
use lua_cmake_source.Rex.Engine.{Match, invalid_capture_index, ok, raised}
use lua_cmake_source.Rex.Total.{Ends, yields, raises}
use lua_cmake_source.Rex.Gsub.State.{
  RepType, template, a_table, a_function, no_replacement, Limit, absent, a_limit_function,
  at_number, no_limit,
}
use lua_cmake_source.Rex.Gsub.Loop.{rep_buffer}
use lua_cmake_source.Rex.Gsub.Written.{Laws, is_template}
use lua_cmake_source.Rex.Gsub.Replace.{expand, rep_loop}
use lua_cmake_source.Rex.Template.{
  expansion, piece_text, pieces_text, encoded, IsPut, invalid, pieces, prepend, IsSmall, IsPut-some,
}
use lua_cmake_source.Rex.Template.Put.{buffer_z_putrepstring-IsPut}
use lua_cmake_source.Rex.Template.Read.{rep_loop-pieces}

-- The text of a capture, where 0 is the whole match.
abbrev pub captured : Bytes → Match → ℕ → Bytes
captured base m n = expand base m (group n)

-- A replacement that is a string, where no function is asked, is expanded with the captures.
abbrev pub IsReplacement : ℕ → RepType → Limit → Bytes → Match → Bytes → Type 0
IsReplacement nsub (template t) a_limit_function base m by = Unit
IsReplacement nsub (template t) _ base m by = expansion nsub (captured base m) t ≡ some by
IsReplacement nsub _ _ base m by = Unit

-- A size_t holds the length of a replacement.
abbrev pub HasLength : RepType → Type 0
HasLength (template t) = length t < 2 ^ 64
HasLength _ = Unit

asked-IsReplacement :
    (nsub : ℕ) (rep : RepType) (base : Bytes) (m : Match) (by : Bytes)
    → IsReplacement nsub rep a_limit_function base m by
asked-IsReplacement nsub (template t) base m by = tt
asked-IsReplacement nsub a_table base m by = tt
asked-IsReplacement nsub a_function base m by = tt
asked-IsReplacement nsub no_replacement base m by = tt

computed-IsReplacement :
    (nsub : ℕ) (rep : RepType) (limit : Limit) (base : Bytes) (m : Match) (by : Bytes)
    → is_template rep ≡ false
    → IsReplacement nsub rep limit base m by
computed-IsReplacement nsub (template t) limit base m by e = cc
computed-IsReplacement nsub a_table limit base m by e = tt
computed-IsReplacement nsub a_function limit base m by e = tt
computed-IsReplacement nsub no_replacement limit base m by e = tt

expansion-IsReplacement :
    (nsub : ℕ) (t : Bytes) (limit : Limit) (base : Bytes) (m : Match) (by : Bytes)
    → expansion nsub (captured base m) t ≡ some by
    → IsReplacement nsub (template t) limit base m by
expansion-IsReplacement nsub t absent base m by e = e
expansion-IsReplacement nsub t a_limit_function base m by e = tt
expansion-IsReplacement nsub t (at_number a) base m by e = e
expansion-IsReplacement nsub t no_limit base m by e = e

expand-piece_text :
    (base : Bytes) (m : Match) (p : Piece) → expand base m p ≡ piece_text (captured base m) p
unfolding expand
expand-piece_text base m (text s) = refl
expand-piece_text base m (group n) = refl

-- What bufferZ_next reads of a replacement that was stored.
abbrev Expands : ℕ → Bytes → TBuffer → Type 0
Expands nsub t z =
    (base : Bytes) (m : Match) (out : TBuffer)
    → (by : Bytes) × ((rep_loop (expand base m) z (top z + 1) 0 out).written ≡ out.written ++ by)
      × (expansion nsub (captured base m) t ≡ some by)

stored-Expands :
    (nsub : ℕ) (t : Bytes) (z : TBuffer)
    → length t < 2 ^ 64
    → buffer_z_putrepstring (buffer_init 256) t nsub ≡ some z
    → Expands nsub t z
stored-Expands nsub t z h stored base m out =
    let put = buffer_z_putrepstring-IsPut (captured base m) nsub (buffer_init 256) t h in
    inverted (IsPut-some (rw stored at put))
  where
    inverted :
        (ps : List Piece) × (expansion nsub (captured base m) t
            ≡ some (pieces_text (captured base m) ps))
          × (z.written ≡ (buffer_clear (buffer_init 256)).written ++ encoded ps)
          × All IsSmall ps
        → (by : Bytes) × ((rep_loop (expand base m) z (top z + 1) 0 out).written
            ≡ out.written ++ by)
          × (expansion nsub (captured base m) t ≡ some by)
    inverted (ps, e, written, small) =
        let all : z.written ≡ encoded ps = unfold buffer_clear in written in
        (
          pieces_text (captured base m) ps,
          rep_loop-pieces (expand base m) (captured base m) (expand-piece_text base m) ps
              (top z + 1) z [] out all (omega (arith, ap length all)) small,
          e,
        )

-- The buffer of a replacement has the laws of what gsub writes.
abbrev pub LawsOf : ℕ → RepType → Limit → TBuffer → Type 0
LawsOf nsub rep limit b = Laws (limit ≡ a_limit_function) rep b (IsReplacement nsub rep limit)

computed_laws :
    (nsub : ℕ) (rep : RepType) (limit : Limit) (b : TBuffer)
    → is_template rep ≡ false
    → LawsOf nsub rep limit b
computed_laws nsub rep limit b e = record {
  asked = λ u base m by. rw u (asked-IsReplacement nsub rep base m by);
  computed = λ _ base m by. computed-IsReplacement nsub rep limit base m by e;
  expanded = λ t. cc;
}

pub rep_buffer-LawsOf :
    {U : Type 0} (nsub : ℕ) (rep : RepType) (limit : Limit)
    → HasLength rep
    → Ends (LawsOf nsub rep limit) U (rep_buffer rep nsub)
unfolding rep_buffer
rep_buffer-LawsOf {U} nsub (template t) limit h =
    split (buffer_z_putrepstring (buffer_init 256) t nsub) (λ z e. stored-Expands nsub t z h e)
  where
    split :
        (r : Option TBuffer)
        → ((z : TBuffer) → r ≡ some z → Expands nsub t z)
        → Ends
            (LawsOf nsub (template t) limit)
            U
            (elim r [ none ↦ raised invalid_capture_index | some b ↦ ok b ])
    split none k = raises
    split (some z) k = yields (record {
      asked = λ u base m by. rw u (asked-IsReplacement nsub (template t) base m by);
      computed = λ e base m by. computed-IsReplacement nsub (template t) limit base m by e;
      expanded = λ _ base m out.
          let (by, written, e) = k z refl base m out in
          (by, written, expansion-IsReplacement nsub t limit base m by e);
    })
rep_buffer-LawsOf nsub a_table limit h = yields (computed_laws nsub a_table limit _ refl)
rep_buffer-LawsOf nsub a_function limit h = yields (computed_laws nsub a_function limit _ refl)
rep_buffer-LawsOf nsub no_replacement limit h =
    yields (computed_laws nsub no_replacement limit _ refl)

-- What the loop of gsub writes behind a text for a replacement in a buffer.
abbrev pub written_for : Bytes → Match → TBuffer → Option TBuffer → Option Bytes
written_for base m out none = none
written_for base m out (some z) = some (rep_loop (expand base m) z (top z + 1) 0 out).written

-- For a string whose length is a size_t, bufferZ_putrepstring raises its error exactly where the
-- expansion of the string names a capture that there is not; otherwise the loop over bufferZ_next
-- writes that expansion behind what was there.
pub buffer_z_putrepstring-expansion :
    (nsub : ℕ) (base : Bytes) (m : Match) (t : Bytes) (b out : TBuffer)
    → length t < 2 ^ 64
    → written_for base m out (buffer_z_putrepstring b t nsub)
      ≡ prepend out.written (expansion nsub (captured base m) t)
buffer_z_putrepstring-expansion nsub base m t b out h =
    read (buffer_z_putrepstring-IsPut (captured base m) nsub b t h)
  where
    read :
        {r : Option TBuffer} {e : Option Bytes}
        → IsPut (captured base m) (buffer_clear b) r e
        → written_for base m out r ≡ prepend out.written e
    read invalid = refl
    read (pieces z ps written small) =
        let all : z.written ≡ encoded ps = unfold buffer_clear in written in
        ap some (
          rep_loop-pieces (expand base m) (captured base m) (expand-piece_text base m) ps
            (top z + 1) z [] out all (omega (arith, ap length all)) small)
