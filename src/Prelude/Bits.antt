-- ===== src/Prelude/Bits.antt =====
-- The bit operations as arithmetic: `|` of disjoint fields, `&` with a mask, and both by bytes.
mod Step
mod Fields
mod Bytes
pub use Fields.*
pub use Bytes.*
