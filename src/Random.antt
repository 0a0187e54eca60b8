-- ===== src/Random.antt =====
-- libs/lrandom: random.c and lrandom.c, the Mersenne Twister as a Lua module.
pub mod Twister
pub mod Bounds
pub mod Recurrence
pub mod Module
pub mod Stores
mod Tests
