-- ===== src/Luabins/Load.antt =====
-- libs/luabins/src/load.c.
pub mod Log2
pub mod Log2Bounds
pub mod State
pub mod Values
pub mod Tuple
pub mod Safety
