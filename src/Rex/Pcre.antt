-- ===== src/Rex/Pcre.antt =====
-- libs/lrexlib/src/pcre/lpcre.c: regular expressions of the PCRE library for Lua, with the parts of
-- algo.h that it compiles in another way.
pub mod Engine
pub mod Gsub
pub mod Trace
pub mod Whole
pub mod Find
pub mod Gmatch
pub mod Matches
pub mod Split
pub mod Pieces
pub mod Flags
pub mod Named
pub mod New
pub mod Dfa
pub mod Longest
mod Tests
mod MoreTests
