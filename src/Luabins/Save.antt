-- ===== src/Luabins/Save.antt =====
-- libs/luabins/src/save.c.
pub mod Values
pub mod Encode
pub mod Tuple
pub mod Success
pub mod Loop
