-- ===== src/Luabins/RoundTrip.antt =====
-- What luabins saves it loads again.
pub mod Storable
pub mod Front
pub mod Building
pub mod Reads
pub mod Tuple
