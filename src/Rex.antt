-- ===== src/Rex.antt =====
-- libs/lrexlib: regular expressions of the POSIX and the PCRE library for Lua.
pub mod Buffer
pub mod Engine
pub mod Gsub
pub mod Total
pub mod Template
pub mod Find
pub mod Iterate
pub mod Plain
pub mod Flags
pub mod New
pub mod Pcre
mod Samples
mod Tests
