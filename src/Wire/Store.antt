-- ===== src/Wire/Store.antt =====
-- The stores of src/cwpack_internals.h write network byte order in each of their versions.
use cwpack.Prelude.{
  ℕ, ◌+◌, ◌*◌, ◌/◌, ◌%◌, ◌^◌, ◌≡◌, refl, ◌∙◌, Bool, true, false, List, [], ◌∷◌, length, arith,
}
use cwpack.Prelude.Bits.{le_value, IsBytes, bit_or_parts, bit_and_mask, bit_or-zero, zero-bit_or}
use cwpack.Wire.{
  Build, build, ByteOrder, Cpu, big_endian, little_endian, undetermined, big, little, le_bytes,
  be_bytes, swap16, swap32, swap64, cw_store16, cw_store32, cw_store64, byte_order_matches,
}
use cwpack.Wire.Swap.{swap32-le_value, swap64-le_value}

pub le_bytes-le_value : (ds : List ℕ) → IsBytes ds → le_bytes (length ds) (le_value ds) ≡ ds
unfolding le_bytes
le_bytes-le_value [] h = refl
le_bytes-le_value (d ∷ ds) h = ground (arith, le_bytes-le_value ds h.1)

swap16_lem : (x : ℕ) → swap16 x ≡ x % 256 * 256 + x / 256 % 256
unfolding swap16
swap16_lem x = ground (
  arith,
  bit_and_mask 8 (x / 256),
  bit_or_parts 0 x 8 (x / 256 % 256) 0,
  zero-bit_or x,
  bit_or-zero (x / 256 % 256),
)

store16_little : (x : ℕ) → le_bytes 2 (swap16 x) ≡ be_bytes 2 x
unfolding le_bytes be_bytes
store16_little x = ground (arith, swap16_lem x)

store32_little : (x : ℕ) → le_bytes 4 (swap32 (x % 2 ^ 32)) ≡ be_bytes 4 x
unfolding be_bytes
store32_little x =
    let digits : x % 2 ^ 32
        ≡ le_value (x % 256 ∷ x / 2 ^ 8 % 256 ∷ x / 2 ^ 16 % 256 ∷ x / 2 ^ 24 % 256 ∷ []) =
      omega arith in
    rw
      (
        digits,
        swap32-le_value {a = x % 256} {b = x / 2 ^ 8 % 256} {c = x / 2 ^ 16 % 256}
            {d = x / 2 ^ 24 % 256} (omega arith) (omega arith) (omega arith) (omega arith),
      )
      (le_bytes-le_value (x / 2 ^ 24 % 256 ∷ x / 2 ^ 16 % 256 ∷ x / 2 ^ 8 % 256 ∷ x % 256 ∷ [])
          (omega arith)
        ∙ ground arith)

store64_little : (x : ℕ) → le_bytes 8 (swap64 (x % 2 ^ 64)) ≡ be_bytes 8 x
unfolding be_bytes
store64_little x =
    let digits : x % 2 ^ 64
        ≡ le_value (
            x % 256
            ∷ x / 2 ^ 8 % 256
            ∷ x / 2 ^ 16 % 256
            ∷ x / 2 ^ 24 % 256
            ∷ x / 2 ^ 32 % 256
            ∷ x / 2 ^ 40 % 256
            ∷ x / 2 ^ 48 % 256
            ∷ x / 2 ^ 56 % 256
            ∷ []) =
      omega arith in
    rw
      (
        digits,
        swap64-le_value {a = x % 256} {b = x / 2 ^ 8 % 256} {c = x / 2 ^ 16 % 256}
            {d = x / 2 ^ 24 % 256} {e = x / 2 ^ 32 % 256} {f = x / 2 ^ 40 % 256}
            {g = x / 2 ^ 48 % 256} {h = x / 2 ^ 56 % 256} (omega arith) (omega arith) (omega arith)
            (omega arith) (omega arith) (omega arith) (omega arith) (omega arith),
      )
      (le_bytes-le_value
          (x / 2 ^ 56 % 256
            ∷ x / 2 ^ 48 % 256
            ∷ x / 2 ^ 40 % 256
            ∷ x / 2 ^ 32 % 256
            ∷ x / 2 ^ 24 % 256
            ∷ x / 2 ^ 16 % 256
            ∷ x / 2 ^ 8 % 256
            ∷ x % 256
            ∷ [])
          (omega arith)
        ∙ ground arith)

store16_matches :
    (o : ByteOrder) (c : Cpu) (f : Bool) (x : ℕ)
    → byte_order_matches (build o c f) ≡ true
    → cw_store16 (build o c f) x ≡ be_bytes 2 x
unfolding byte_order_matches cw_store16 be_bytes
store16_matches big_endian big f x h = ground arith
store16_matches big_endian little f x h = cc
store16_matches little_endian big f x h = cc
store16_matches little_endian little f x h = store16_little x
store16_matches undetermined c f x h = ground arith

store32_matches :
    (o : ByteOrder) (c : Cpu) (f : Bool) (x : ℕ)
    → byte_order_matches (build o c f) ≡ true
    → cw_store32 (build o c f) x ≡ be_bytes 4 x
unfolding byte_order_matches cw_store32 be_bytes
store32_matches big_endian big f x h = ground arith
store32_matches big_endian little f x h = cc
store32_matches little_endian big f x h = cc
store32_matches little_endian little f x h = store32_little x
store32_matches undetermined c f x h = ground arith

store64_matches :
    (o : ByteOrder) (c : Cpu) (f : Bool) (x : ℕ)
    → byte_order_matches (build o c f) ≡ true
    → cw_store64 (build o c f) x ≡ be_bytes 8 x
unfolding byte_order_matches cw_store64 be_bytes
store64_matches big_endian big f x h = ground arith
store64_matches big_endian little f x h = cc
store64_matches little_endian big f x h = cc
store64_matches little_endian little false x h = store64_little x
store64_matches little_endian little true x h = ground arith
store64_matches undetermined c f x h = ground arith

-- Where the processor's byte order is the one that the code was compiled for, cw_store16,
-- cw_store32 and cw_store64 write the word in network byte order, in each of the versions.
pub cw_store-be_bytes :
    (b : Build) (x : ℕ)
    → byte_order_matches b ≡ true
    → (cw_store16 b x ≡ be_bytes 2 x)
      × (cw_store32 b x ≡ be_bytes 4 x)
      × (cw_store64 b x ≡ be_bytes 8 x)
cw_store-be_bytes b x h =
    (store16_matches _ _ _ x h, store32_matches _ _ _ x h, store64_matches _ _ _ x h)
