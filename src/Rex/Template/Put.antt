-- ===== src/Rex/Template/Put.antt =====
-- What bufferZ_putrepstring stores stands for the expansion of the replacement.
use lua_cmake_source.Base.{
  ℕ, zero, suc, ◌+◌, ◌-◌, ◌^◌, ◌≤◌, ◌<◌, true, false, [], ◌∷◌, ◌++◌, append-nil, append_assoc,
  Option, none, some, ◌==◌, Bool-cases, inl, inr, ◌≡◌, refl, sym, ap, ◌∙◌, arith, length,
  length-append, Bytes,
}
use lua_cmake_source.Base.Decimal.{is_digit}
use lua_cmake_source.Rex.Buffer.{
  TBuffer, buffer_clear, buffer_addlstring, text, group, buffer_z_addlstring, buffer_z_addnum,
  until_percent, capture_index, add_run, add_capture, put_escape, put_loop, buffer_z_putrepstring,
}
use lua_cmake_source.Rex.Template.{
  prepend, capture_index-named, expansion, IsPut, invalid, pieces, prepend-append, prepend-nil,
}

module _ (captured : ℕ → Bytes) where
  IsPut-text :
      (b : TBuffer) (s : Bytes) {r : Option TBuffer} {e : Option Bytes}
      → length s < 2 ^ 64
      → IsPut captured (buffer_z_addlstring b s) r e
      → IsPut captured b r (prepend s e)
  unfolding buffer_z_addlstring buffer_addlstring
  IsPut-text b s h invalid = invalid
  IsPut-text b s h (pieces z ps e all) = pieces z (text s ∷ ps) (e ∙ simp append_assoc) (h, all)

  IsPut-group :
      (b : TBuffer) (n : ℕ) {r : Option TBuffer} {e : Option Bytes}
      → n < 2 ^ 64
      → IsPut captured (buffer_z_addnum b n) r e
      → IsPut captured b r (prepend (captured n) e)
  unfolding buffer_z_addnum buffer_addlstring
  IsPut-group b n h invalid = invalid
  IsPut-group b n h (pieces z ps e all) = pieces z (group n ∷ ps) (e ∙ simp append_assoc) (h, all)

  IsPut-run :
      (b : TBuffer) (run : Bytes) {r : Option TBuffer} {e : Option Bytes}
      → length run < 2 ^ 64
      → IsPut captured (add_run b run) r e
      → IsPut captured b r (prepend run e)
  IsPut-run b [] h invalid = invalid
  IsPut-run b [] h (pieces z ps e all) = pieces z ps e all
  IsPut-run b (c ∷ run) h put = IsPut-text b (c ∷ run) h put

  -- The rest starts with a `%`, if there is one.
  abbrev AtPercent : Bytes → Type 0
  AtPercent [] = Unit
  AtPercent (c ∷ cs) = c ≡ b'%'

  record IsSplit (nsub : ℕ) (rep : Bytes) (r : Bytes × Bytes) : Type 0 where
    joins : r.0 ++ r.1 ≡ rep
    percent : AtPercent r.1
    expands : expansion nsub captured rep ≡ prepend r.0 (expansion nsub captured r.1)

  expansion-other :
      (nsub c : ℕ) (cs : Bytes)
      → (c == b'%') ≡ false
      → expansion nsub captured (c ∷ cs) ≡ prepend (c ∷ []) (expansion nsub captured cs)
  unfolding expansion
  expansion-other nsub c [] e = rw e
  expansion-other nsub c (q ∷ cs) e = rw e

  until_percent-IsSplit : (nsub : ℕ) (rep : Bytes) → IsSplit nsub rep (until_percent rep)
  unfolding until_percent
  until_percent-IsSplit nsub [] = record {
    joins = refl;
    percent = tt;
    expands = unfold expansion in refl;
  }
  until_percent-IsSplit nsub (c ∷ cs) = elim (Bool-cases (c == b'%')) [
    | inl e ↦ rw e (record {
      joins = refl;
      percent = ground arith;
      expands = sym (prepend-nil (expansion nsub captured (c ∷ cs)));
    })
    | inr e ↦
        let ih = until_percent-IsSplit nsub cs in
        let (run, rest) = until_percent cs in
        rw e (record {
          joins = ap (λ s. c ∷ s) ih.joins;
          percent = ih.percent;
          expands =
              expansion-other nsub c cs e
              ∙ ap (prepend (c ∷ [])) ih.expands
              ∙ prepend-append (c ∷ []) run (expansion nsub captured rest);
        })
  ]

  capture_index-small :
      (nsub q i : ℕ) → is_digit q ≡ true → capture_index nsub (q - b'0') ≡ some i → i < 2 ^ 64
  unfolding capture_index
  capture_index-small nsub q i digit found = ground arith

  add_capture-IsPut :
      (next : TBuffer → Bytes → Option TBuffer) (b : TBuffer) (rest : Bytes) (e : Option Bytes)
      (num : Option ℕ)
      → ((i : ℕ) → num ≡ some i → i < 2 ^ 64)
      → ((b' : TBuffer) → IsPut captured b' (next b' rest) e)
      → IsPut captured b
          (add_capture next b rest num)
          (elim num [ none ↦ none | some n ↦ prepend (captured n) e ])
  add_capture-IsPut next b rest e none small ih = invalid
  add_capture-IsPut next b rest e (some i) small ih = IsPut-group b i (small i refl) (ih _)

  -- From the `%` on.
  put_escape-IsPut :
      (next : TBuffer → Bytes → Option TBuffer) (nsub n : ℕ) (b : TBuffer) (rest : Bytes)
      → ((b' : TBuffer) (s : Bytes)
          → length s + 2 ≤ n
          → IsPut captured b' (next b' s) (expansion nsub captured s))
      → length rest ≤ n
      → AtPercent rest
      → IsPut captured b (put_escape next nsub b rest) (expansion nsub captured rest)
  unfolding expansion
  put_escape-IsPut next nsub n b [] ih h at = pieces b [] (sym (append-nil b.written)) tt
  put_escape-IsPut next nsub n b (c ∷ []) ih h at =
      rw at (pieces b [] (sym (append-nil b.written)) tt)
  put_escape-IsPut next nsub n b (c ∷ q ∷ rest) ih h at =
      let percent : (c == b'%') ≡ true = ground arith in
      rw percent (elim (Bool-cases (is_digit q)) [
        | inl e ↦
            rw (e, ← capture_index-named nsub (q - b'0'))
              (add_capture-IsPut next b rest (expansion nsub captured rest)
                (capture_index nsub (q - b'0')) (λ i found. capture_index-small nsub q i e found)
                (λ b'. ih b' rest (omega arith)))
        | inr e ↦ rw e (IsPut-text b (q ∷ []) (omega arith) (ih _ rest (omega arith)))
      ])

  put_loop-IsPut :
      (f nsub : ℕ) (b : TBuffer) (rep : Bytes)
      → length rep < f
      → length rep < 2 ^ 64
      → IsPut captured b (put_loop f nsub b rep) (expansion nsub captured rep)
  unfolding put_loop
  put_loop-IsPut zero nsub b rep h small = absurd (omega arith)
  put_loop-IsPut (suc f) nsub b rep h small =
      let parts = until_percent-IsSplit nsub rep in
      let (run, rest) = until_percent rep in
      let size : length run + length rest ≡ length rep =
        sym (length-append run rest) ∙ ap length parts.joins in
      rw parts.expands (
        IsPut-run b run (omega (arith, size)) (
          put_escape-IsPut (put_loop f nsub) nsub (length rest) (add_run b run) rest
            (λ b' s shorter. put_loop-IsPut f nsub b' s (omega (arith, size)) (omega (arith, size)))
            (omega arith) parts.percent))

  pub buffer_z_putrepstring-IsPut :
      (nsub : ℕ) (b : TBuffer) (rep : Bytes)
      → length rep < 2 ^ 64
      → IsPut captured
          (buffer_clear b)
          (buffer_z_putrepstring b rep nsub)
          (expansion nsub captured rep)
  unfolding buffer_z_putrepstring
  buffer_z_putrepstring-IsPut nsub b rep small =
      put_loop-IsPut (length rep + 1) nsub (buffer_clear b) rep (omega arith) small
