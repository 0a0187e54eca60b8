-- ===== src/Luabins.antt =====
-- libs/luabins: binary serialisation of Lua values.
pub mod Result
pub mod Outcome
pub mod Format
pub mod Save
pub mod Load
pub mod RoundTrip
pub mod Module
mod Tests
