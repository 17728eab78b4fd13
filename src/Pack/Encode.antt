-- ===== src/Pack/Encode.antt =====
-- Each packing routine of src/cwpack.c appends the bytes of a form of its value.
pub mod Numbers
pub mod Strings
pub mod Extensions
pub mod Time
