-- ===== src/Wire/Swap.antt =====
-- The byte swaps of src/cwpack_internals.h on numbers written to the base 256.
use cwpack.Prelude.{ℕ, ◌*◌, ◌/◌, ◌%◌, ◌^◌, ◌<◌, ◌≡◌, refl, bit_and, bit_or, List, [], ◌∷◌, arith}
use cwpack.Prelude.Bits.{
  le_value, IsBytes, SameLength, zip_digits, bit_or-le_value, bit_and-le_value, bit_or-zero,
  bit_and-zero, zero-bit_or, zero-bit_and, bit_and_byte,
}
use cwpack.Wire.{swap32, swap64}

ruleset digit_laws = (bit_or-zero, bit_and-zero, zero-bit_or, zero-bit_and)

-- `x | y` and `x & y`, where both operands are written out in digits, and the result as well.
module _ {x y : ℕ} (ds es : List ℕ) (same : SameLength ds es) where
  or_digits :
      (rs : List ℕ)
      → IsBytes ds
      → IsBytes es
      → x ≡ le_value ds
      → y ≡ le_value es
      → zip_digits bit_or ds es ≡ rs
      → bit_or x y ≡ le_value rs
  or_digits rs p q e f r = rw (e, f, bit_or-le_value ds es same p q, r)

  and_digits :
      (rs : List ℕ)
      → IsBytes ds
      → IsBytes es
      → x ≡ le_value ds
      → y ≡ le_value es
      → zip_digits bit_and ds es ≡ rs
      → bit_and x y ≡ le_value rs
  and_digits rs p q e f r = rw (e, f, bit_and-le_value ds es same p q, r)

module _ {a b c d : ℕ} (ha : a < 256) (hb : b < 256) (hc : c < 256) (hd : d < 256) where
  mask32_2 : bit_and (le_value (a ∷ b ∷ c ∷ d ∷ [])) 0x00ff_0000 ≡ le_value (0 ∷ 0 ∷ c ∷ 0 ∷ [])
  mask32_2 =
      and_digits (a ∷ b ∷ c ∷ d ∷ []) (0 ∷ 0 ∷ 255 ∷ 0 ∷ []) tt (0 ∷ 0 ∷ c ∷ 0 ∷ []) (omega arith)
        (omega arith) refl refl (simp (digit_laws, bit_and_byte c hc))

  mask32_1 : bit_and (le_value (a ∷ b ∷ c ∷ d ∷ [])) 0x0000_ff00 ≡ le_value (0 ∷ b ∷ 0 ∷ 0 ∷ [])
  mask32_1 =
      and_digits (a ∷ b ∷ c ∷ d ∷ []) (0 ∷ 255 ∷ 0 ∷ 0 ∷ []) tt (0 ∷ b ∷ 0 ∷ 0 ∷ []) (omega arith)
        (omega arith) refl refl (simp (digit_laws, bit_and_byte b hb))

  -- The bytes of a 32 bit word in reverse.
  pub swap32-le_value : swap32 (le_value (a ∷ b ∷ c ∷ d ∷ [])) ≡ le_value (d ∷ c ∷ b ∷ a ∷ [])
  unfolding swap32
  swap32-le_value =
      let low =
        or_digits {x = (le_value (a ∷ b ∷ c ∷ d ∷ [])) / 2 ^ 24}
          {y = bit_and (le_value (a ∷ b ∷ c ∷ d ∷ [])) 0x00ff_0000 / 2 ^ 8} (d ∷ 0 ∷ 0 ∷ 0 ∷ [])
          (0 ∷ c ∷ 0 ∷ 0 ∷ []) tt (d ∷ c ∷ 0 ∷ 0 ∷ []) (omega arith) (omega arith) (omega arith)
          (omega (arith, mask32_2)) (simp digit_laws) in
      let middle =
        or_digits {y = bit_and (le_value (a ∷ b ∷ c ∷ d ∷ [])) 0x0000_ff00 * 2 ^ 8 % 2 ^ 32}
          (d ∷ c ∷ 0 ∷ 0 ∷ []) (0 ∷ 0 ∷ b ∷ 0 ∷ []) tt (d ∷ c ∷ b ∷ 0 ∷ []) (omega arith)
          (omega arith) low (omega (arith, mask32_1)) (simp digit_laws) in
      or_digits (d ∷ c ∷ b ∷ 0 ∷ []) (0 ∷ 0 ∷ 0 ∷ a ∷ []) tt (d ∷ c ∷ b ∷ a ∷ []) (omega arith)
        (omega arith) middle (omega arith) (simp digit_laws)

  -- The same, in the order of the terms in `cw_load32`.
  pub load32-le_value :
      bit_or
        (bit_or
          (bit_or
            (le_value (a ∷ b ∷ c ∷ d ∷ []) * 2 ^ 24 % 2 ^ 32)
            (bit_and (le_value (a ∷ b ∷ c ∷ d ∷ [])) 0xff00 * 2 ^ 8 % 2 ^ 32))
          (bit_and (le_value (a ∷ b ∷ c ∷ d ∷ [])) 0xff_0000 / 2 ^ 8))
        (le_value (a ∷ b ∷ c ∷ d ∷ []) / 2 ^ 24)
      ≡ le_value (d ∷ c ∷ b ∷ a ∷ [])
  load32-le_value =
      let high =
        or_digits {x = le_value (a ∷ b ∷ c ∷ d ∷ []) * 2 ^ 24 % 2 ^ 32}
          {y = bit_and (le_value (a ∷ b ∷ c ∷ d ∷ [])) 0xff00 * 2 ^ 8 % 2 ^ 32} (0 ∷ 0 ∷ 0 ∷ a ∷ [])
          (0 ∷ 0 ∷ b ∷ 0 ∷ []) tt (0 ∷ 0 ∷ b ∷ a ∷ []) (omega arith) (omega arith) (omega arith)
          (omega (arith, mask32_1)) (simp digit_laws) in
      let middle =
        or_digits {y = bit_and (le_value (a ∷ b ∷ c ∷ d ∷ [])) 0xff_0000 / 2 ^ 8}
          (0 ∷ 0 ∷ b ∷ a ∷ []) (0 ∷ c ∷ 0 ∷ 0 ∷ []) tt (0 ∷ c ∷ b ∷ a ∷ []) (omega arith)
          (omega arith) high (omega (arith, mask32_2)) (simp digit_laws) in
      or_digits (0 ∷ c ∷ b ∷ a ∷ []) (d ∷ 0 ∷ 0 ∷ 0 ∷ []) tt (d ∷ c ∷ b ∷ a ∷ []) (omega arith)
        (omega arith) middle (omega arith) (simp digit_laws)

module _ {a b c d e f g h : ℕ} (ha : a < 256) (hb : b < 256) (hc : c < 256) (hd : d < 256)
    (he : e < 256) (hf : f < 256) (hg : g < 256) (hh : h < 256) where
  abbrev word : ℕ
  word = le_value (a ∷ b ∷ c ∷ d ∷ e ∷ f ∷ g ∷ h ∷ [])

  near64 :
      bit_or (word / 2 ^ 40) (word * 2 ^ 24 % 2 ^ 64)
      ≡ le_value (f ∷ g ∷ h ∷ a ∷ b ∷ c ∷ d ∷ e ∷ [])
  near64 =
      or_digits (f ∷ g ∷ h ∷ 0 ∷ 0 ∷ 0 ∷ 0 ∷ 0 ∷ []) (0 ∷ 0 ∷ 0 ∷ a ∷ b ∷ c ∷ d ∷ e ∷ []) tt
        (f ∷ g ∷ h ∷ a ∷ b ∷ c ∷ d ∷ e ∷ []) (omega arith) (omega arith) (omega arith) (omega arith)
        (simp digit_laws)

  far64 :
      bit_or (word / 2 ^ 24) (word * 2 ^ 40 % 2 ^ 64)
      ≡ le_value (d ∷ e ∷ f ∷ g ∷ h ∷ a ∷ b ∷ c ∷ [])
  far64 =
      or_digits (d ∷ e ∷ f ∷ g ∷ h ∷ 0 ∷ 0 ∷ 0 ∷ []) (0 ∷ 0 ∷ 0 ∷ 0 ∷ 0 ∷ a ∷ b ∷ c ∷ []) tt
        (d ∷ e ∷ f ∷ g ∷ h ∷ a ∷ b ∷ c ∷ []) (omega arith) (omega arith) (omega arith) (omega arith)
        (simp digit_laws)

  pick_near :
      bit_and (bit_or (word / 2 ^ 40) (word * 2 ^ 24 % 2 ^ 64)) 0x0000_ff00_0000_ff00
      ≡ le_value (0 ∷ g ∷ 0 ∷ 0 ∷ 0 ∷ c ∷ 0 ∷ 0 ∷ [])
  pick_near =
      and_digits (f ∷ g ∷ h ∷ a ∷ b ∷ c ∷ d ∷ e ∷ []) (0 ∷ 255 ∷ 0 ∷ 0 ∷ 0 ∷ 255 ∷ 0 ∷ 0 ∷ []) tt
        (0 ∷ g ∷ 0 ∷ 0 ∷ 0 ∷ c ∷ 0 ∷ 0 ∷ []) (omega arith) (omega arith) near64 refl
        (simp (digit_laws, bit_and_byte g hg, bit_and_byte c hc))

  pick_far :
      bit_and (bit_or (word / 2 ^ 24) (word * 2 ^ 40 % 2 ^ 64)) 0x00ff_0000_00ff_0000
      ≡ le_value (0 ∷ 0 ∷ f ∷ 0 ∷ 0 ∷ 0 ∷ b ∷ 0 ∷ [])
  pick_far =
      and_digits (d ∷ e ∷ f ∷ g ∷ h ∷ a ∷ b ∷ c ∷ []) (0 ∷ 0 ∷ 255 ∷ 0 ∷ 0 ∷ 0 ∷ 255 ∷ 0 ∷ []) tt
        (0 ∷ 0 ∷ f ∷ 0 ∷ 0 ∷ 0 ∷ b ∷ 0 ∷ []) (omega arith) (omega arith) far64 refl
        (simp (digit_laws, bit_and_byte f hf, bit_and_byte b hb))

  mask64_4 : bit_and word 0x0000_00ff_0000_0000 ≡ le_value (0 ∷ 0 ∷ 0 ∷ 0 ∷ e ∷ 0 ∷ 0 ∷ 0 ∷ [])
  mask64_4 =
      and_digits (a ∷ b ∷ c ∷ d ∷ e ∷ f ∷ g ∷ h ∷ []) (0 ∷ 0 ∷ 0 ∷ 0 ∷ 255 ∷ 0 ∷ 0 ∷ 0 ∷ []) tt
        (0 ∷ 0 ∷ 0 ∷ 0 ∷ e ∷ 0 ∷ 0 ∷ 0 ∷ []) (omega arith) (omega arith) refl refl
        (simp (digit_laws, bit_and_byte e he))

  mask64_3 : bit_and word 0x0000_0000_ff00_0000 ≡ le_value (0 ∷ 0 ∷ 0 ∷ d ∷ 0 ∷ 0 ∷ 0 ∷ 0 ∷ [])
  mask64_3 =
      and_digits (a ∷ b ∷ c ∷ d ∷ e ∷ f ∷ g ∷ h ∷ []) (0 ∷ 0 ∷ 0 ∷ 255 ∷ 0 ∷ 0 ∷ 0 ∷ 0 ∷ []) tt
        (0 ∷ 0 ∷ 0 ∷ d ∷ 0 ∷ 0 ∷ 0 ∷ 0 ∷ []) (omega arith) (omega arith) refl refl
        (simp (digit_laws, bit_and_byte d hd))

  -- The bytes of a 64 bit word in reverse.
  pub swap64-le_value : swap64 word ≡ le_value (h ∷ g ∷ f ∷ e ∷ d ∷ c ∷ b ∷ a ∷ [])
  unfolding swap64
  swap64-le_value =
      let four =
        or_digits
          {y = bit_and (bit_or (word / 2 ^ 24) (word * 2 ^ 40 % 2 ^ 64)) 0x00ff_0000_00ff_0000}
          (0 ∷ g ∷ 0 ∷ 0 ∷ 0 ∷ c ∷ 0 ∷ 0 ∷ []) (0 ∷ 0 ∷ f ∷ 0 ∷ 0 ∷ 0 ∷ b ∷ 0 ∷ []) tt
          (0 ∷ g ∷ f ∷ 0 ∷ 0 ∷ c ∷ b ∷ 0 ∷ []) (omega arith) (omega arith) pick_near pick_far
          (simp digit_laws) in
      let five =
        or_digits {y = bit_and word 0x0000_00ff_0000_0000 / 2 ^ 8}
          (0 ∷ g ∷ f ∷ 0 ∷ 0 ∷ c ∷ b ∷ 0 ∷ []) (0 ∷ 0 ∷ 0 ∷ e ∷ 0 ∷ 0 ∷ 0 ∷ 0 ∷ []) tt
          (0 ∷ g ∷ f ∷ e ∷ 0 ∷ c ∷ b ∷ 0 ∷ []) (omega arith) (omega arith) four
          (omega (arith, mask64_4)) (simp digit_laws) in
      let six =
        or_digits {y = bit_and word 0x0000_0000_ff00_0000 * 2 ^ 8}
          (0 ∷ g ∷ f ∷ e ∷ 0 ∷ c ∷ b ∷ 0 ∷ []) (0 ∷ 0 ∷ 0 ∷ 0 ∷ d ∷ 0 ∷ 0 ∷ 0 ∷ []) tt
          (0 ∷ g ∷ f ∷ e ∷ d ∷ c ∷ b ∷ 0 ∷ []) (omega arith) (omega arith) five
          (omega (arith, mask64_3)) (simp digit_laws) in
      let seven =
        or_digits {y = word / 2 ^ 56} (0 ∷ g ∷ f ∷ e ∷ d ∷ c ∷ b ∷ 0 ∷ [])
          (h ∷ 0 ∷ 0 ∷ 0 ∷ 0 ∷ 0 ∷ 0 ∷ 0 ∷ []) tt (h ∷ g ∷ f ∷ e ∷ d ∷ c ∷ b ∷ 0 ∷ []) (omega arith)
          (omega arith) six (omega arith) (simp digit_laws) in
      or_digits (h ∷ g ∷ f ∷ e ∷ d ∷ c ∷ b ∷ 0 ∷ []) (0 ∷ 0 ∷ 0 ∷ 0 ∷ 0 ∷ 0 ∷ 0 ∷ a ∷ []) tt
        (h ∷ g ∷ f ∷ e ∷ d ∷ c ∷ b ∷ a ∷ []) (omega arith) (omega arith) seven (omega arith)
        (simp digit_laws)
