-- ===== src/Rex/Gsub.antt =====
-- libs/lrexlib/src/algo.h: gsub.
pub mod State
pub mod Replace
pub mod Loop
pub mod Segments
pub mod Written
pub mod Settle
pub mod Covers
pub mod Trace
pub mod Stored
pub mod Whole
pub mod Limit
