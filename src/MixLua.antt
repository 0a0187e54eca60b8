-- ===== src/MixLua.antt =====
-- libs/mixlua/mixlua.c: a preprocessor for Lua code mixed with data.
pub mod State
pub mod Skip
pub mod Reader
pub mod Data
pub mod Total
pub mod Inside
pub mod Ending
pub mod Page
pub mod Faults
pub mod Module
pub mod Loaded
mod Tests
