-- ===== src/RoundTrip.antt =====
-- What was packed is unpacked: calls of the packing routines, and then as many of cw_unpack_next.
pub mod Ranges
pub mod Items
pub mod Calls
pub mod Files
