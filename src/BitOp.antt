-- ===== src/BitOp.antt =====
-- libs/luabitop/bit.c: operations on the bits of numbers.
pub mod Args
pub mod Words
pub mod Module
pub mod Fold
pub mod Errors
pub mod Rotate
pub mod Swap
pub mod Hex
mod Tests
