-- ===== src/Luabins/RoundTrip/Building.antt =====
-- A table is built up entry by entry from keys that are fresh.
use lua_cmake_source.Base.{false, ◌≡◌, refl, ap}
use lua_cmake_source.LuaValue.{Value, nil, boolean, Entries, end, entry, rawset}
use lua_cmake_source.Luabins.RoundTrip.Storable.{is_nil, Fresh}

-- The entries so far, then the others.
abbrev pub ◌+++◌ : Entries → Entries → Entries
◌+++◌ end es = es
◌+++◌ (entry k v acc) es = entry k v (◌+++◌ acc es)

pub +++-end : (acc : Entries) → ◌+++◌ acc end ≡ acc
+++-end end = refl
+++-end (entry k v acc) = ap (entry k v) (+++-end acc)

pub +++-assoc : (a b c : Entries) → ◌+++◌ (◌+++◌ a b) c ≡ ◌+++◌ a (◌+++◌ b c)
+++-assoc end b c = refl
+++-assoc (entry k v a) b c = ap (entry k v) (+++-assoc a b c)

-- No key of the entries so far is a key of the others.
abbrev pub Apart : Entries → Entries → Type 0
Apart end es = Unit
Apart (entry k v acc) es = Fresh k es × Apart acc es

pub Apart-end : (acc : Entries) → Apart acc end
Apart-end end = tt
Apart-end (entry k v acc) = (tt, Apart-end acc)

pub Apart-snoc :
    (acc : Entries) (k v : Value) (es : Entries)
    → Apart acc (entry k v es)
    → Fresh k es
    → Apart (◌+++◌ acc (entry k v end)) es
Apart-snoc end k v es h f = (f, tt)
Apart-snoc (entry j w acc) k v es h f = (h.0.1, Apart-snoc acc k v es h.1 f)

pub rawset_end : (k v : Value) → is_nil v ≡ false → rawset end k v ≡ entry k v end
unfolding rawset
rawset_end k nil h = cc
rawset_end k (boolean b) h = refl
rawset_end k _ h = refl

-- A new key goes behind the entries so far.
pub rawset_fresh :
    (acc : Entries) (k v : Value) (es : Entries)
    → Apart acc (entry k v es)
    → is_nil v ≡ false
    → rawset acc k v ≡ ◌+++◌ acc (entry k v end)
unfolding rawset
rawset_fresh end k v es h n = rawset_end k v n
rawset_fresh (entry j w acc) k v es h n = rw (h.0.0, rawset_fresh acc k v es h.1 n)
