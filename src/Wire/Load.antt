-- ===== src/Wire/Load.antt =====
-- The loads of src/cwpack_internals.h read network byte order in each of their versions.
use cwpack.Prelude.{
  ℕ, ◌+◌, ◌*◌, ◌/◌, ◌%◌, ◌^◌, ◌<◌, ◌≡◌, refl, ap, ◌∙◌, bit_or, Bool, true, false, [], ◌∷◌, arith,
}
use cwpack.Prelude.Bits.{le_value, bit_or_fields}
use cwpack.Wire.{
  Build, build, ByteOrder, Cpu, big_endian, little_endian, undetermined, big, little, be_value,
  be_value_from, cw_load16, cw_load32, cw_load64, byte_order_matches, load64_bytes,
}
use cwpack.Wire.Swap.{load32-le_value, swap64-le_value}

-- `x | r`, where `x` has only zeros below the `k` bits of `r`.
or_sum : (k q r : ℕ) {x : ℕ} → x ≡ q * 2 ^ k → r < 2 ^ k → bit_or x r ≡ x + r
or_sum k q r e h = rw e (bit_or_fields k q r h)

load16_little :
    (a b : ℕ)
    → a < 256
    → b < 256
    → bit_or (le_value (a ∷ b ∷ []) * 2 ^ 8) (le_value (a ∷ b ∷ []) / 2 ^ 8) % 2 ^ 16
      ≡ be_value (a ∷ b ∷ [])
unfolding be_value be_value_from
load16_little a b ha hb = omega (
  arith,
  or_sum 8 (a + 256 * b) b {x = le_value (a ∷ b ∷ []) * 2 ^ 8} (omega arith) hb,
  ap (λ t. bit_or (le_value (a ∷ b ∷ []) * 2 ^ 8) t) {x = le_value (a ∷ b ∷ []) / 2 ^ 8} {y = b}
      (omega arith),
)

load16_bytes : (a b : ℕ) → a < 256 → b < 256 → bit_or (a * 2 ^ 8 % 2 ^ 16) b ≡ be_value (a ∷ b ∷ [])
unfolding be_value be_value_from
load16_bytes a b ha hb = omega (arith, or_sum 8 a b {x = a * 2 ^ 8 % 2 ^ 16})

load32_bytes_lem :
    (a b c d : ℕ)
    → a < 256
    → b < 256
    → c < 256
    → d < 256
    → bit_or (bit_or (bit_or (a * 2 ^ 24 % 2 ^ 32) (b * 2 ^ 16 % 2 ^ 32)) (c * 2 ^ 8 % 2 ^ 32)) d
      ≡ be_value (a ∷ b ∷ c ∷ d ∷ [])
unfolding be_value be_value_from
load32_bytes_lem a b c d ha hb hc hd =
    let two =
      or_sum 24 a (b * 2 ^ 16 % 2 ^ 32) {x = a * 2 ^ 24 % 2 ^ 32} (omega arith) (omega arith) in
    let three = or_sum 16 (a * 2 ^ 8 + b) (c * 2 ^ 8 % 2 ^ 32) (two ∙ omega arith) (omega arith) in
    or_sum 8 (a * 2 ^ 16 + b * 2 ^ 8 + c) d (three ∙ omega (arith, two)) hd
    ∙ omega (arith, two, three)

module _ {a b c d e f g h : ℕ} (ha : a < 256) (hb : b < 256) (hc : c < 256) (hd : d < 256)
    (he : e < 256) (hf : f < 256) (hg : g < 256) (hh : h < 256) where
  load64_bytes_lem :
      load64_bytes (a ∷ b ∷ c ∷ d ∷ e ∷ f ∷ g ∷ h ∷ [])
      ≡ be_value (a ∷ b ∷ c ∷ d ∷ e ∷ f ∷ g ∷ h ∷ [])
  unfolding load64_bytes be_value be_value_from
  load64_bytes_lem =
      let two : bit_or (a * 2 ^ 56) (b * 2 ^ 48) ≡ a * 2 ^ 56 + b * 2 ^ 48 =
        or_sum 56 (a) (b * 2 ^ 48) (omega arith) (omega arith) in
      let three : bit_or (bit_or (a * 2 ^ 56) (b * 2 ^ 48)) (c * 2 ^ 40)
          ≡ a * 2 ^ 56 + b * 2 ^ 48 + c * 2 ^ 40 =
        or_sum 48 (a * 2 ^ 8 + b) (c * 2 ^ 40) (two ∙ omega arith) (omega arith)
        ∙ omega (arith, two) in
      let four : bit_or (bit_or (bit_or (a * 2 ^ 56) (b * 2 ^ 48)) (c * 2 ^ 40)) (d * 2 ^ 32)
          ≡ a * 2 ^ 56 + b * 2 ^ 48 + c * 2 ^ 40 + d * 2 ^ 32 =
        or_sum 40 (a * 2 ^ 16 + b * 2 ^ 8 + c) (d * 2 ^ 32) (three ∙ omega arith) (omega arith)
        ∙ omega (arith, three) in
      let five : bit_or
            (bit_or (bit_or (bit_or (a * 2 ^ 56) (b * 2 ^ 48)) (c * 2 ^ 40)) (d * 2 ^ 32))
            (e * 2 ^ 24)
          ≡ a * 2 ^ 56 + b * 2 ^ 48 + c * 2 ^ 40 + d * 2 ^ 32 + e * 2 ^ 24 =
        or_sum 32 (a * 2 ^ 24 + b * 2 ^ 16 + c * 2 ^ 8 + d) (e * 2 ^ 24) (four ∙ omega arith)
          (omega arith)
        ∙ omega (arith, four) in
      let six : bit_or
            (bit_or (bit_or (bit_or (bit_or (a * 2 ^ 56) (b * 2 ^ 48)) (c * 2 ^ 40)) (d * 2 ^ 32))
              (e * 2 ^ 24))
            (f * 2 ^ 16)
          ≡ a * 2 ^ 56 + b * 2 ^ 48 + c * 2 ^ 40 + d * 2 ^ 32 + e * 2 ^ 24 + f * 2 ^ 16 =
        or_sum 24 (a * 2 ^ 32 + b * 2 ^ 24 + c * 2 ^ 16 + d * 2 ^ 8 + e) (f * 2 ^ 16)
          (five ∙ omega arith) (omega arith)
        ∙ omega (arith, five) in
      let seven : bit_or
            (bit_or
              (bit_or (bit_or (bit_or (bit_or (a * 2 ^ 56) (b * 2 ^ 48)) (c * 2 ^ 40)) (d * 2 ^ 32))
                (e * 2 ^ 24))
              (f * 2 ^ 16))
            (g * 2 ^ 8)
          ≡ a * 2 ^ 56
            + b * 2 ^ 48
            + c * 2 ^ 40
            + d * 2 ^ 32
            + e * 2 ^ 24
            + f * 2 ^ 16
            + g * 2 ^ 8 =
        or_sum 16 (a * 2 ^ 40 + b * 2 ^ 32 + c * 2 ^ 24 + d * 2 ^ 16 + e * 2 ^ 8 + f) (g * 2 ^ 8)
          (six ∙ omega arith) (omega arith)
        ∙ omega (arith, six) in
      or_sum 8 (a * 2 ^ 48 + b * 2 ^ 40 + c * 2 ^ 32 + d * 2 ^ 24 + e * 2 ^ 16 + f * 2 ^ 8 + g) h
        (seven ∙ omega arith) hh
      ∙ omega (arith, seven)

module _ {a b c d : ℕ} (ha : a < 256) (hb : b < 256) (hc : c < 256) (hd : d < 256) where
  load16_matches :
      (o : ByteOrder) (p : Cpu) (f : Bool)
      → byte_order_matches (build o p f) ≡ true
      → cw_load16 (build o p f) (a ∷ b ∷ []) ≡ be_value (a ∷ b ∷ [])
  unfolding byte_order_matches cw_load16
  load16_matches big_endian big f h = refl
  load16_matches big_endian little f h = cc
  load16_matches little_endian big f h = cc
  load16_matches little_endian little f h = load16_little a b ha hb
  load16_matches undetermined p f h = load16_bytes a b ha hb

  load32_matches :
      (o : ByteOrder) (p : Cpu) (f : Bool)
      → byte_order_matches (build o p f) ≡ true
      → cw_load32 (build o p f) (a ∷ b ∷ c ∷ d ∷ []) ≡ be_value (a ∷ b ∷ c ∷ d ∷ [])
  unfolding byte_order_matches cw_load32 be_value be_value_from
  load32_matches big_endian big f h = refl
  load32_matches big_endian little f h = cc
  load32_matches little_endian big f h = cc
  load32_matches little_endian little f h = load32-le_value ha hb hc hd ∙ omega arith
  load32_matches undetermined p f h = load32_bytes_lem a b c d ha hb hc hd

  -- Where the processor's byte order is the one that the code was compiled for, cw_load16 and
  -- cw_load32 read bytes in network byte order, in each of the versions.
  pub cw_load-be_value :
      (k : Build)
      → byte_order_matches k ≡ true
      → (cw_load16 k (a ∷ b ∷ []) ≡ be_value (a ∷ b ∷ []))
        × (cw_load32 k (a ∷ b ∷ c ∷ d ∷ []) ≡ be_value (a ∷ b ∷ c ∷ d ∷ []))
  cw_load-be_value k h = (load16_matches _ _ _ h, load32_matches _ _ _ h)

  module _ {e f g i : ℕ} (he : e < 256) (hf : f < 256) (hg : g < 256) (hi : i < 256) where
    load64_matches :
        (o : ByteOrder) (p : Cpu) (t : Bool)
        → byte_order_matches (build o p t) ≡ true
        → cw_load64 (build o p t) (a ∷ b ∷ c ∷ d ∷ e ∷ f ∷ g ∷ i ∷ [])
          ≡ be_value (a ∷ b ∷ c ∷ d ∷ e ∷ f ∷ g ∷ i ∷ [])
    unfolding byte_order_matches cw_load64 be_value be_value_from
    load64_matches big_endian big t h = refl
    load64_matches big_endian little t h = cc
    load64_matches little_endian big t h = cc
    load64_matches little_endian little false h =
        swap64-le_value ha hb hc hd he hf hg hi ∙ omega arith
    load64_matches little_endian little true h = load64_bytes_lem ha hb hc hd he hf hg hi
    load64_matches undetermined p t h = load64_bytes_lem ha hb hc hd he hf hg hi

    -- The same of cw_load64.
    pub cw_load64-be_value :
        (k : Build)
        → byte_order_matches k ≡ true
        → cw_load64 k (a ∷ b ∷ c ∷ d ∷ e ∷ f ∷ g ∷ i ∷ [])
          ≡ be_value (a ∷ b ∷ c ∷ d ∷ e ∷ f ∷ g ∷ i ∷ [])
    cw_load64-be_value k h = load64_matches _ _ _ h
