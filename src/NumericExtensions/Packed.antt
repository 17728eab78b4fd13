-- ===== src/NumericExtensions/Packed.antt =====
-- What the packing routines for numeric extensions pack.
use cwpack.Prelude.{ℕ, ◌%◌, ◌≡◌, refl, true, List, [], ◌∷◌, ltb, if◌then◌else◌, arith}
use cwpack.Prelude.Int.{ℤ, pos, negsuc, word}
use cwpack.Wire.{byte_order_matches, be_bytes}
use cwpack.Wire.Store.{cw_store-be_bytes}
use cwpack.Format.{Form, bytes, fixext, Fits}
use cwpack.Pack.{PackContext, Platform}
use cwpack.Pack.Emit.{emit, append, guarded, emit_all}
use cwpack.NumericExtensions.{
  cw_store_n, store_1, store_2, store_4, store_8, cw_pack_ext_integer, cw_pack_ext_float,
  cw_pack_ext_double,
}

-- The integer is `n` or -(n + 1): as many bytes as it takes.
abbrev pub sized : ℤ → ℤ → ℕ → Form
sized t i n =
    if ltb n 128
    then fixext t (be_bytes 1 (word 8 i))
    else if ltb n 32768
    then fixext t (be_bytes 2 (word 16 i))
    else if ltb n 0x80000000
    then fixext t (be_bytes 4 (word 32 i))
    else fixext t (be_bytes 8 (word 64 i))

abbrev pub integer_form : ℤ → ℤ → Form
integer_form t (pos n) = sized t (pos n) n
integer_form t (negsuc n) = sized t (negsuc n) n

module _ {W : Type 0} (env : Platform W) (matches : byte_order_matches env.build ≡ true)
    (pc : PackContext W) (t : ℤ) where
  store_n-emit :
      (d : ℕ)
      → (store_1 env t d pc ≡ emit env (0xd4 ∷ word 8 t ∷ be_bytes 1 d) pc)
        × (store_2 env t d pc ≡ emit env (0xd5 ∷ word 8 t ∷ be_bytes 2 d) pc)
        × (store_4 env t d pc ≡ emit env (0xd6 ∷ word 8 t ∷ be_bytes 4 d) pc)
        × (store_8 env t d pc ≡ emit env (0xd7 ∷ word 8 t ∷ be_bytes 8 d) pc)
  unfolding cw_store_n store_1 store_2 store_4 store_8 be_bytes
  store_n-emit d =
      let (s16, s32, s64) = cw_store-be_bytes env.build d matches in
      let tag : List ℕ = word 8 t ∷ [] in
      (
        ground (arith, emit_all env 3 3 (0xd4 ∷ []) (tag ∷ (d % 256 ∷ []) ∷ []) pc),
        rw s16 (emit_all env 4 4 (0xd5 ∷ []) (tag ∷ be_bytes 2 d ∷ []) pc refl refl),
        rw s32 (emit_all env 6 6 (0xd6 ∷ []) (tag ∷ be_bytes 4 d ∷ []) pc refl refl),
        rw s64 (emit_all env 10 10 (0xd7 ∷ []) (tag ∷ be_bytes 8 d ∷ []) pc refl refl),
      )

  -- Sign extension does not change the low bytes.
  low_bytes :
      (i : ℤ)
      → Fits 64 i
      → (be_bytes 1 (word 64 i) ≡ be_bytes 1 (word 8 i))
        × (be_bytes 2 (word 64 i) ≡ be_bytes 2 (word 16 i))
        × (be_bytes 4 (word 64 i) ≡ be_bytes 4 (word 32 i))
  unfolding be_bytes
  low_bytes (pos n) h = (ground arith, ground arith, ground arith)
  low_bytes (negsuc n) h = (ground arith, ground arith, ground arith)

  -- cw_pack_ext_integer packs an extension of the smallest of the sizes 1, 2, 4 and 8 that holds the
  -- integer in two's complement.
  pub cw_pack_ext_integer-append :
      (i : ℤ)
      → Fits 64 i
      → cw_pack_ext_integer env t i pc ≡ append env (bytes (integer_form t i)) pc
  unfolding cw_pack_ext_integer append bytes
  cw_pack_ext_integer-append (pos n) h =
      guarded env _ _ pc (ground (arith, low_bytes (pos n) h, store_n-emit (word 64 (pos n))))
  cw_pack_ext_integer-append (negsuc n) h =
      guarded env _ _ pc (ground (arith, low_bytes (negsuc n) h, store_n-emit (word 64 (negsuc n))))

  pub cw_pack_ext_float-append :
      (f d : ℕ)
      → (cw_pack_ext_float env t f pc ≡ append env (bytes (fixext t (be_bytes 4 f))) pc)
        × (cw_pack_ext_double env t d pc ≡ append env (bytes (fixext t (be_bytes 8 d))) pc)
  unfolding cw_pack_ext_float cw_pack_ext_double append bytes
  cw_pack_ext_float-append f d = (
    guarded env _ _ pc (ground (arith, store_n-emit f)),
    guarded env _ _ pc (ground (arith, store_n-emit d)),
  )
