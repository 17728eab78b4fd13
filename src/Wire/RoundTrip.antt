-- ===== src/Wire/RoundTrip.antt =====
-- A load gives back what a store of the same configuration wrote.
use cwpack.Prelude.{ℕ, ◌%◌, ◌^◌, ◌≡◌, ◌∙◌, true, arith}
use cwpack.Wire.{
  Build, be_bytes, be_value, be_value_from, cw_store16, cw_store32, cw_store64, cw_load16,
  cw_load32, cw_load64, byte_order_matches,
}
use cwpack.Wire.Store.{cw_store-be_bytes}
use cwpack.Wire.Load.{cw_load-be_value, cw_load64-be_value}

module _ (b : Build) (x : ℕ) (matches : byte_order_matches b ≡ true) where
  pub cw_load16-be_bytes : cw_load16 b (be_bytes 2 x) ≡ x % 2 ^ 16
  unfolding be_bytes be_value be_value_from
  cw_load16-be_bytes =
      (cw_load-be_value {c = 0} {d = 0} (omega arith) (omega arith) (omega arith) (omega arith) b
        matches).0
      ∙ omega arith

  pub cw_load32-be_bytes : cw_load32 b (be_bytes 4 x) ≡ x % 2 ^ 32
  unfolding be_bytes be_value be_value_from
  cw_load32-be_bytes =
      (cw_load-be_value (omega arith) (omega arith) (omega arith) (omega arith) b matches).1
      ∙ omega arith

  pub cw_load64-be_bytes : cw_load64 b (be_bytes 8 x) ≡ x % 2 ^ 64
  unfolding be_bytes be_value be_value_from
  cw_load64-be_bytes =
      cw_load64-be_value (omega arith) (omega arith) (omega arith) (omega arith) (omega arith)
        (omega arith) (omega arith) (omega arith) b matches
      ∙ omega arith

  -- On a processor of the byte order that the code is compiled for, each load gives back the number
  -- whose store wrote the bytes, modulo 2 to the width.
  pub cw_load-cw_store :
      (cw_load16 b (cw_store16 b x) ≡ x % 2 ^ 16)
      × (cw_load32 b (cw_store32 b x) ≡ x % 2 ^ 32)
      × (cw_load64 b (cw_store64 b x) ≡ x % 2 ^ 64)
  cw_load-cw_store =
      let (s16, s32, s64) = cw_store-be_bytes b x matches in
      (rw s16 cw_load16-be_bytes, rw s32 cw_load32-be_bytes, rw s64 cw_load64-be_bytes)
