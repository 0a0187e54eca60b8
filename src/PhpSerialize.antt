-- ===== src/PhpSerialize.antt =====
-- libs/lua-phpserialize: Lua values in the format of PHP's serialize().
pub mod Keys
pub mod Values
pub mod Text
pub mod Iff
pub mod Integers
mod Tests
