-- ===== src/Luabins/RoundTrip/Reads.antt =====
-- Loading reads an encoded value off the front of the data.
use lua_cmake_source.Base.{
  ℕ, zero, suc, ◌+◌, ◌*◌, ◌%◌, ◌^◌, ◌≤◌, ◌<◌, true, false, List, [], ◌∷◌, ◌++◌, All, ◌≡◌, refl,
  arith, some, lt→ltb, append_assoc, length, length-append, Bytes, le_bytes, length-le_bytes,
  from_le-le_bytes,
}
use lua_cmake_source.LuaValue.{Value, table, Entries, end, entry, size}
use lua_cmake_source.Luabins.Result.{ok}
use lua_cmake_source.Luabins.Format.{
  min_table_data_size, l_int, l_number, l_size_t, int_mod, parts_of_total, c_number, c_string,
  c_table,
}
use lua_cmake_source.Luabins.Load.State.{Room, state, size_t_mod}
use lua_cmake_source.Luabins.Load.Values.{load_scalar, load_value, load_entries}
use lua_cmake_source.Luabins.Load.Tuple.{load_items}
use lua_cmake_source.Luabins.Save.Encode.{encode, encode_all, encode_entries, array_size, hash_size}
use lua_cmake_source.Luabins.RoundTrip.Storable.{
  IsStorable, AreStorable, nil_storable, boolean_storable, number_storable, str_storable,
  table_storable, none_storable, entry_storable, length-encode_pos, min_table_data_size-le-length,
}
use lua_cmake_source.Luabins.RoundTrip.Front.{
  behind, readbytes-le_bytes, readbyte-front, load_header-encode, load_string-encode,
}
use lua_cmake_source.Luabins.RoundTrip.Building.{
  +++-end, +++-assoc, ◌+++◌, Apart, Apart-snoc, rawset_fresh,
}

module _ (room : Room) (objlen : Entries → ℕ) (is_int : (es : Entries) → objlen es < 2 ^ 31) where
  sizes_of :
      (es : Entries)
      → size es ≤ 2 ^ 26
      → (array_size objlen es + hash_size objlen es ≡ size es)
        × (array_size objlen es ≤ 2 ^ 26)
        × (hash_size objlen es ≤ 2 ^ 26)
  sizes_of es h =
      let parts =
        parts_of_total (size es % int_mod) (objlen es % int_mod) (omega arith)
          (omega (arith, is_int es)) in
      (omega (arith, parts), omega (arith, parts), omega (arith, parts))

  mutual
    unfolding load_value load_scalar encode

    load_value-encode :
        {v : Value}
        → IsStorable v
        → (f top depth : ℕ) (rest : Bytes) (n u : ℕ) → n ≡ length (encode objlen v) + u
        → n < size_t_mod
        → 2 * length (encode objlen v) < f
        → top + 2 * length (encode objlen v) ≤ room.slots
        → depth + length (encode objlen v) ≤ room.frames
        → load_value room top depth f (state (some (encode objlen v ++ rest)) n)
          ≡ ok (v, behind rest u)
    load_value-encode s zero top depth rest n u e h g stack calls = absurd (omega arith)
    load_value-encode nil_storable (suc f) top depth rest n u e h g stack calls =
        let e' : n ≡ suc u = omega arith in
        rw (
          lt→ltb depth room.frames (omega arith),
          e',
          readbyte-front _ rest u (omega arith),
          lt→ltb top room.slots (omega arith),
        )
    load_value-encode (boolean_storable true) (suc f) top depth rest n u e h g stack calls =
        let e' : n ≡ suc u = omega arith in
        rw (
          lt→ltb depth room.frames (omega arith),
          e',
          readbyte-front _ rest u (omega arith),
          lt→ltb top room.slots (omega arith),
        )
    load_value-encode (boolean_storable false) (suc f) top depth rest n u e h g stack calls =
        let e' : n ≡ suc u = omega arith in
        rw (
          lt→ltb depth room.frames (omega arith),
          e',
          readbyte-front _ rest u (omega arith),
          lt→ltb top room.slots (omega arith),
        )
    load_value-encode (number_storable x k) (suc f) top depth rest n u e h g stack calls =
        let e' : n ≡ suc (l_number + u) = omega (arith, length-le_bytes l_number x) in
        rw (
          lt→ltb depth room.frames (omega arith),
          e',
          readbyte-front c_number (le_bytes l_number x ++ rest) (l_number + u) (omega arith),
          readbytes-le_bytes l_number x rest u,
          from_le-le_bytes l_number x (omega arith),
          lt→ltb top room.slots (omega arith),
        )
    load_value-encode (str_storable s k) (suc f) top depth rest n u e h g stack calls =
        let e' : n ≡ suc (l_size_t + (length s + u)) = omega (
          arith,
          length-append (le_bytes l_size_t (length s)) s,
          length-le_bytes l_size_t (length s),
        ) in
        rw (
          lt→ltb depth room.frames (omega arith),
          e',
          append_assoc,
          readbyte-front c_string (le_bytes l_size_t (length s) ++ (s ++ rest))
              (l_size_t + (length s + u)) (omega arith),
          load_string-encode s rest u k,
          lt→ltb top room.slots (omega arith),
        )
    load_value-encode (table_storable {es} k s) (suc f) top depth rest n u e h g stack calls =
        let a = array_size objlen es in
        let b = hash_size objlen es in
        let body = encode_entries objlen es in
        let (total, fits_a, fits_b) = sizes_of es k in
        let whole : l_int + (l_int + length body) + 1 ≡ length (encode objlen (table es)) = omega (
          arith,
          length-append (le_bytes l_int a) (le_bytes l_int b ++ body),
          length-append (le_bytes l_int b) body,
          length-le_bytes l_int a,
          length-le_bytes l_int b,
        ) in
        let e' : n ≡ suc (l_int + (l_int + (length body + u))) = omega (arith, whole) in
        let fits : min_table_data_size (a + b) ≤ length body + u =
          rw total (omega (arith, min_table_data_size-le-length objlen s)) in
        rw (
          lt→ltb depth room.frames (omega arith),
          e',
          append_assoc (le_bytes l_int a) (le_bytes l_int b ++ body) rest,
          append_assoc (le_bytes l_int b) body rest,
          readbyte-front c_table (le_bytes l_int a ++ (le_bytes l_int b ++ (body ++ rest)))
              (l_int + (l_int + (length body + u))) (omega arith),
          load_header-encode a b (body ++ rest) (length body + u) fits_a fits_b fits,
          lt→ltb top room.slots (omega arith),
          total,
          load_entries-encode s f (top + 1) (depth + 1) end rest (length body + u) u tt refl
              (omega arith) (omega arith) (omega arith) (omega arith),
        )

    load_entries-encode :
        {es : Entries}
        → AreStorable es
        → (f top depth : ℕ) (acc : Entries) (rest : Bytes) (n u : ℕ) → Apart acc es
        → n ≡ length (encode_entries objlen es) + u
        → n < size_t_mod
        → 2 * length (encode_entries objlen es) + 1 < f
        → top + 2 * length (encode_entries objlen es) ≤ room.slots
        → depth + length (encode_entries objlen es) ≤ room.frames
        → load_entries room top depth f
            (size es)
            (state (some (encode_entries objlen es ++ rest)) n)
            acc
          ≡ ok (◌+++◌ acc es, behind rest u)
    load_entries-encode s zero top depth acc rest n u d e h g stack calls = absurd (omega arith)
    load_entries-encode none_storable (suc f) top depth acc rest n u d e h g stack calls =
        let e' : n ≡ u = omega arith in rw (e', +++-end acc)
    load_entries-encode (entry_storable {k} {v} {es} bk nv fr sk sv ss) (suc f) top depth acc rest n
          u d e h g stack calls =
        let key = encode objlen k in
        let val = encode objlen v in
        let body = encode_entries objlen es in
        let whole = length-append key (val ++ body) in
        let parts = length-append val body in
        rw (
          append_assoc key (val ++ body) rest,
          append_assoc val body rest,
          load_value-encode sk f top depth (val ++ (body ++ rest)) n
              (length val + (length body + u)) (omega (arith, whole, parts)) h
              (omega (arith, whole)) (omega (arith, whole)) (omega (arith, whole)),
          bk,
          load_value-encode sv f (top + 1) depth (body ++ rest) (length val + (length body + u))
              (length body + u) refl (omega (arith, whole, parts)) (omega (arith, whole, parts))
              (omega (arith, whole, parts, length-encode_pos objlen sk))
              (omega (arith, whole, parts)),
          rawset_fresh acc k v es d nv,
          load_entries-encode ss f top depth (◌+++◌ acc (entry k v end)) rest (length body + u) u
              (Apart-snoc acc k v es d fr) refl (omega (arith, whole, parts))
              (omega (arith, whole, parts, length-encode_pos objlen sk))
              (omega (arith, whole, parts)) (omega (arith, whole, parts)),
          +++-assoc acc (entry k v end) es,
        )

  pub load_items-encode_all :
      (f top : ℕ) (vs : List Value) (rest : Bytes) (n u : ℕ)
      → All IsStorable vs
      → n ≡ length (encode_all objlen vs) + u
      → n < size_t_mod
      → 2 * length (encode_all objlen vs) < f
      → top + 2 * length (encode_all objlen vs) ≤ room.slots
      → length (encode_all objlen vs) ≤ room.frames
      → load_items room top f (length vs) (state (some (encode_all objlen vs ++ rest)) n)
        ≡ ok (vs, behind rest u)
  unfolding load_items
  load_items-encode_all f top [] rest n u s e h g stack calls =
      let e' : n ≡ u = omega arith in rw e'
  load_items-encode_all f top (v ∷ vs) rest n u s e h g stack calls =
      let val = encode objlen v in
      let body = encode_all objlen vs in
      let whole = length-append val body in
      rw (
        append_assoc val body rest,
        load_value-encode s.0 f top 0 (body ++ rest) n (length body + u) (omega (arith, whole)) h
            (omega (arith, whole)) (omega (arith, whole)) (omega (arith, whole)),
        load_items-encode_all f (top + 1) vs rest (length body + u) u s.1 refl
            (omega (arith, whole)) (omega (arith, whole))
            (omega (arith, whole, length-encode_pos objlen s.0)) (omega (arith, whole)),
      )
