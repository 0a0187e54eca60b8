-- ===== src/Luabins/RoundTrip/Storable.antt =====
-- The values that the format can carry, and the size of their encoding.
use lua_cmake_source.Base.{
  ℕ, ◌+◌, ◌*◌, ◌^◌, ◌≤◌, ◌<◌, Bool, true, false, ◌++◌, ◌≡◌, refl, arith, ◌⊎◌, inl, inr, length,
  length-append, Bytes, le_bytes, length-le_bytes,
}
use lua_cmake_source.LuaValue.{
  Value, nil, boolean, number, str, table, Entries, end, entry, size, raw_eq,
}
use lua_cmake_source.Luabins.Format.{min_table_data_size, l_int, l_number, l_size_t}
use lua_cmake_source.Luabins.Load.Values.{bad_key}
use lua_cmake_source.Luabins.Save.Encode.{encode, encode_entries, array_size, hash_size}

abbrev pub is_nil : Value → Bool
is_nil nil = true
is_nil _ = false

-- No key of the entries is the key `k`.
abbrev pub Fresh : Value → Entries → Type 0
Fresh k end = Unit
Fresh k (entry j v es) = (raw_eq k j ≡ false) × Fresh k es

-- A Lua table holds a key once, and neither a nil key, a NaN key nor a nil value. The header
-- admits 2 ^ 26 entries.
mutual
  pub data IsStorable : Value → Type 0 where
    nil_storable : IsStorable nil
    boolean_storable : (b : Bool) → IsStorable (boolean b)
    number_storable : (n : ℕ) → n < 2 ^ 64 → IsStorable (number n)
    str_storable : (s : Bytes) → length s < 2 ^ 64 → IsStorable (str s)
    table_storable : {es : Entries} → size es ≤ 2 ^ 26 → AreStorable es → IsStorable (table es)

  pub data AreStorable : Entries → Type 0 where
    none_storable : AreStorable end
    entry_storable :
        {k v : Value} {es : Entries}
        → bad_key k ≡ false
        → is_nil v ≡ false
        → Fresh k es
        → IsStorable k
        → IsStorable v
        → AreStorable es
        → AreStorable (entry k v es)

-- The number of entries whose key is the boolean `b`.
key_is : Bool → Value → ℕ
key_is true (boolean true) = 1
key_is false (boolean false) = 1
key_is _ _ = 0

count_key : Bool → Entries → ℕ
count_key b end = 0
count_key b (entry k v es) = key_is b k + count_key b es

key_is-ne : (b : Bool) (k : Value) → raw_eq (boolean b) k ≡ false → key_is b k ≡ 0
unfolding key_is raw_eq
key_is-ne true (boolean true) h = cc
key_is-ne false (boolean false) h = cc
key_is-ne true (boolean false) h = refl
key_is-ne false (boolean true) h = refl
key_is-ne true _ h = refl
key_is-ne false _ h = refl

count_key-Fresh : (b : Bool) (es : Entries) → Fresh (boolean b) es → count_key b es ≡ 0
unfolding count_key
count_key-Fresh b end h = refl
count_key-Fresh b (entry k v es) h = omega (arith, key_is-ne b k h.0, count_key-Fresh b es h.1)

-- A key that is not `b` counts for nothing, and one that is stands alone.
key_is-Fresh :
    (b : Bool) (k : Value) (es : Entries)
    → Fresh k es
    → (key_is b k ≡ 0) ⊎ (key_is b k + count_key b es ≡ 1)
unfolding key_is
key_is-Fresh true (boolean true) es h = inr (omega (arith, count_key-Fresh true es h))
key_is-Fresh false (boolean false) es h = inr (omega (arith, count_key-Fresh false es h))
key_is-Fresh true _ es h = inl refl
key_is-Fresh false _ es h = inl refl

-- A boolean is a key at most once.
count_key-le-one : (b : Bool) {es : Entries} → AreStorable es → count_key b es ≤ 1
unfolding count_key
count_key-le-one b none_storable = omega arith
count_key-le-one b (entry_storable {k} {v} {es} g n fresh sk sv rest) =
    omega (arith, key_is-Fresh b k es fresh, count_key-le-one b rest)

module _ (objlen : Entries → ℕ) where
  pub length-encode_pos : {v : Value} → IsStorable v → 1 ≤ length (encode objlen v)
  unfolding encode
  length-encode_pos nil_storable = omega arith
  length-encode_pos _ = omega arith

  -- A key that is no boolean takes nine bytes.
  length-encode_key :
      {k : Value}
      → IsStorable k
      → bad_key k ≡ false
      → 9 ≤ length (encode objlen k) + 8 * (key_is true k + key_is false k)
  unfolding encode key_is
  length-encode_key nil_storable g = cc
  length-encode_key (boolean_storable true) g = omega arith
  length-encode_key (boolean_storable false) g = omega arith
  length-encode_key (number_storable n h) g = omega (arith, length-le_bytes l_number n)
  length-encode_key (str_storable s h) g =
      omega
        (arith, length-append (le_bytes l_size_t (length s)) s, length-le_bytes l_size_t (length s))
  length-encode_key (table_storable {es} h rest) g =
      let array = le_bytes l_int (array_size objlen es) in
      let hash = le_bytes l_int (hash_size objlen es) in
      omega (
        arith,
        length-append array (hash ++ encode_entries objlen es),
        length-append hash (encode_entries objlen es),
        length-le_bytes l_int (array_size objlen es),
        length-le_bytes l_int (hash_size objlen es),
      )

  length-encode_entries :
      {es : Entries}
      → AreStorable es
      → 10 * size es
        ≤ length (encode_entries objlen es) + 8 * (count_key true es + count_key false es)
  unfolding encode count_key
  length-encode_entries none_storable = omega arith
  length-encode_entries (entry_storable {k} {v} {es} g n fresh sk sv rest) = omega (
    arith,
    length-append (encode objlen k) (encode objlen v ++ encode_entries objlen es),
    length-append (encode objlen v) (encode_entries objlen es),
    length-encode_key sk g,
    length-encode_pos sv,
    length-encode_entries rest,
  )

  length-encode_pairs :
      {es : Entries} → AreStorable es → 2 * size es ≤ length (encode_entries objlen es)
  unfolding encode
  length-encode_pairs none_storable = omega arith
  length-encode_pairs (entry_storable {k} {v} {es} g n fresh sk sv rest) = omega (
    arith,
    length-append (encode objlen k) (encode objlen v ++ encode_entries objlen es),
    length-append (encode objlen v) (encode_entries objlen es),
    length-encode_pos sk,
    length-encode_pos sv,
    length-encode_pairs rest,
  )

  -- The lower limit on the size of a table's data that saveload.h computes is one: what is saved for
  -- a table is never smaller, so that the load's test of the sizes refuses no saved table.
  pub min_table_data_size-le-length :
      {es : Entries}
      → AreStorable es
      → min_table_data_size (size es) ≤ length (encode_entries objlen es)
  unfolding min_table_data_size
  min_table_data_size-le-length {es} h = ground (
    arith,
    length-encode_entries h,
    length-encode_pairs h,
    count_key-le-one true h,
    count_key-le-one false h,
  )
