-- ===== src/Luabins/Tests.antt =====
-- Runs of luabins on small inputs, and its theorems at them.
use lua_cmake_source.Base.{
  ℕ, ◌+◌, ◌≤◌, true, false, List, [], ◌∷◌, ◌++◌, All, ◌≡◌, ◌↔◌, refl, arith, length, replicate,
  codes, le_bytes, Bytes, from_le,
}
use lua_cmake_source.LuaValue.{
  function, Value, nil, boolean, number, str, table, other, Entries, end, entry, rawset, bytes_eq,
  raw_eq,
}
use lua_cmake_source.Luabins.Result.{bad_size}
use lua_cmake_source.Luabins.Outcome.{done, failed, undefined}
use lua_cmake_source.Luabins.Format.{array_part, hash_part, min_table_data_size, max_table_nesting}
use lua_cmake_source.Luabins.Save.Values.{Api, save_value, maybe_concat}
use lua_cmake_source.Luabins.Save.Encode.{encode_all}
use lua_cmake_source.Luabins.Save.Tuple.{luabins_save, save_loop, value_at}
use lua_cmake_source.Luabins.Save.Success.{supported, table_depth, Saves, save_value_iff}
use lua_cmake_source.Luabins.Save.Loop.{luabins_save-encode}
use lua_cmake_source.Luabins.Load.Values.{
  load_value, bad_header, load_header, load_scalar, load_string,
}
use lua_cmake_source.Luabins.Load.Log2.{ceillog2, log2_loop, log_2_at}
use lua_cmake_source.Luabins.Load.State.{Room, readbyte, readbytes, eat, copy}
use lua_cmake_source.Luabins.Load.Tuple.{luabins_load, load_items}
use lua_cmake_source.Luabins.Module.{l_save, l_load}
use lua_cmake_source.Luabins.RoundTrip.Storable.{
  IsStorable, nil_storable, boolean_storable, number_storable, str_storable, table_storable,
  AreStorable, none_storable, entry_storable,
}
use lua_cmake_source.Luabins.RoundTrip.Tuple.{
  HasIntLengths, luabins_load-luabins_save, l_load-l_save, luabins_load_over_max,
}

abbrev room : Room
room = record { slots = 1000; frames = 200 }

abbrev api : Api
api = record { objlen = λ es. 0; checkstack = λ n. true }

abbrev sample : List Value
sample =
    nil
    ∷ boolean true
    ∷ table (entry (number 0) (str (codes "ab")) (entry (boolean false) (table end) end))
    ∷ []

abbrev sample_bytes : Bytes
sample_bytes =
    3 ∷ codes "-1T"
    ++ (le_bytes 4 0
        ++ (le_bytes 4 2
            ++ (codes "N"
                ++ (le_bytes 8 0
                    ++ (codes "S"
                        ++ (le_bytes 8 2 ++ (codes "ab0T" ++ (le_bytes 4 0 ++ le_bytes 4 0))))))))

save_sample : luabins_save api sample 1 3 ≡ done sample_bytes
unfolding luabins_save save_loop save_value maybe_concat array_part hash_part le_bytes value_at
save_sample = refl

load_sample : luabins_load room 0 sample_bytes (length sample_bytes) ≡ done sample
unfolding luabins_load load_items load_value load_header load_scalar load_string readbyte readbytes
    eat copy ceillog2 log2_loop log_2_at min_table_data_size from_le le_bytes rawset raw_eq bytes_eq
    bad_header
load_sample = refl

-- One item is announced and none is there: the byte behind the data is read.
load_past_end : luabins_load room 0 (1 ∷ []) 1 ≡ undefined
unfolding luabins_load load_items load_value load_header load_scalar load_string readbyte readbytes
    eat copy
load_past_end = refl

api_ints : HasIntLengths api
api_ints es = omega arith

api_grows : (n : ℕ) → api.checkstack n ≡ true
api_grows n = refl

abbrev sample_entries : Entries
sample_entries = entry (number 0) (str (codes "ab")) (entry (boolean false) (table end) end)

sample_entries-AreStorable : AreStorable sample_entries
unfolding raw_eq
sample_entries-AreStorable =
    entry_storable refl refl (refl, tt) (number_storable 0 (omega arith))
      (str_storable (codes "ab") (omega arith))
      (entry_storable refl refl tt (boolean_storable false)
        (table_storable (omega arith) none_storable) none_storable)

sample-IsStorable : All IsStorable sample
sample-IsStorable = (
  nil_storable,
  (boolean_storable true, (table_storable (omega arith) sample_entries-AreStorable, tt)),
)

luabins_load-luabins_save_example :
    luabins_load room 0 (sample_bytes ++ codes "xyz") (length sample_bytes) ≡ done sample
unfolding le_bytes
luabins_load-luabins_save_example =
    luabins_load-luabins_save room api api_ints [] sample [] sample_bytes sample-IsStorable
      (omega arith) (omega arith) (omega arith) 0 (omega arith) (omega arith) save_sample
      (codes "xyz")

-- Three values for which the Lua stack has two slots.
load_overflow :
    luabins_load (record { slots = 2; frames = 1 }) 0 (3 ∷ codes "---" ++ 0 ∷ []) 4 ≡ undefined
unfolding luabins_load load_items load_value load_scalar readbyte
load_overflow = refl

-- A table with a function in it.
abbrev with_function : Value
with_function = table (entry (boolean true) (other function) end)

save_value_iff_example :
    Saves (save_value api 0 with_function 0)
    ↔ (supported with_function ≡ true) × (0 + table_depth with_function ≤ max_table_nesting)
save_value_iff_example = save_value_iff api api_grows 0 with_function 0 (omega arith)

luabins_save-encode_example : sample_bytes ≡ 3 ∷ encode_all api.objlen sample
luabins_save-encode_example =
    luabins_save-encode api [] sample [] (omega arith) (omega arith) save_sample

l_save-sample : l_save api sample ≡ done (str sample_bytes ∷ [])
unfolding l_save luabins_save save_loop save_value maybe_concat array_part hash_part le_bytes
    value_at
l_save-sample = refl

l_load-l_save_example : l_load room sample_bytes [] ≡ done (boolean true ∷ sample)
unfolding le_bytes
l_load-l_save_example =
    l_load-l_save room api api_ints sample sample_bytes [] sample-IsStorable (omega arith)
      (omega arith) (omega arith) (omega arith) (omega arith) l_save-sample

-- 251 times nil.
abbrev too_many : List Value
too_many = replicate 251 nil

abbrev too_many_bytes : Bytes
too_many_bytes = 251 ∷ replicate 251 b'-'

save_too_many : luabins_save api too_many 1 251 ≡ done too_many_bytes
unfolding luabins_save save_loop save_value maybe_concat value_at
save_too_many = refl

luabins_load_over_max_example :
    luabins_load room 0 (too_many_bytes ++ []) (length too_many_bytes)
    ≡ failed bad_size "corrupt data: bad size"
luabins_load_over_max_example =
    luabins_load_over_max room 0 api too_many too_many_bytes [] refl (omega arith) save_too_many
