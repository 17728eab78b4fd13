-- ===== src/Wire.antt =====
-- src/cwpack_config.h and the stores and loads of src/cwpack_internals.h: 16, 32 and 64 bit words
-- in network byte order, in the three versions that the configuration chooses from.
pub mod Swap
pub mod Store
pub mod Load
pub mod RoundTrip
use cwpack.Prelude.{
  ℕ, zero, suc, ◌+◌, ◌*◌, ◌/◌, ◌%◌, ◌^◌, bit_and, bit_or, Bool, true, false, List, [], ◌∷◌, get_or,
}
use cwpack.Prelude.Bits.{le_value}

-- COMPILE_FOR_BIG_ENDIAN, COMPILE_FOR_LITTLE_ENDIAN, or neither of them.
pub data ByteOrder : Type 0 where
  big_endian little_endian undetermined : ByteOrder

-- How the processor keeps a word in memory.
pub data Cpu : Type 0 where
  big little : Cpu

-- The configuration that the code is compiled with, and the processor it runs on.
pub record Build : Type 0 where
  pub compiled_for : ByteOrder
  pub cpu : Cpu
  pub force_alignment_64bit : Bool

abbrev pub build : ByteOrder → Cpu → Bool → Build
build o c f = record { compiled_for = o; cpu = c; force_alignment_64bit = f }

-- The bytes of `x`, lowest first and highest first.
unfoldable pub le_bytes : ℕ → ℕ → List ℕ
le_bytes zero x = []
le_bytes (suc n) x = x % 256 ∷ le_bytes n (x / 256)

unfoldable pub be_bytes : ℕ → ℕ → List ℕ
be_bytes zero x = []
be_bytes (suc n) x = x / 256 ^ n % 256 ∷ be_bytes n x

be_value_from : ℕ → List ℕ → ℕ
be_value_from acc [] = acc
be_value_from acc (b ∷ bs) = be_value_from (acc * 256 + b) bs

unfoldable pub be_value : List ℕ → ℕ
unfolding be_value_from
be_value bs = be_value_from 0 bs

-- `*(uintN_t*)p = x` and `*(uintN_t*)p`, for a word of `n` bytes.
unfoldable pub put_word : Cpu → ℕ → ℕ → List ℕ
unfolding le_bytes be_bytes
put_word big n x = be_bytes n x
put_word little n x = le_bytes n x

unfoldable pub get_word : Cpu → List ℕ → ℕ
unfolding be_value
get_word big bs = be_value bs
get_word little bs = le_value bs

-- The byte swaps that the little endian version is written with.
unfoldable pub swap16 : ℕ → ℕ
swap16 d = bit_or (bit_and (d / 2 ^ 8) 0xff) (d * 2 ^ 8) % 2 ^ 16

unfoldable pub swap32 : ℕ → ℕ
swap32 x =
    bit_or
      (bit_or (bit_or (x / 2 ^ 24) (bit_and x 0x00ff_0000 / 2 ^ 8))
        (bit_and x 0x0000_ff00 * 2 ^ 8 % 2 ^ 32))
      (x * 2 ^ 24 % 2 ^ 32)

unfoldable pub swap64 : ℕ → ℕ
swap64 x =
    bit_or
      (bit_or
        (bit_or
          (bit_or
            (bit_or (bit_and (bit_or (x / 2 ^ 40) (x * 2 ^ 24 % 2 ^ 64)) 0x0000_ff00_0000_ff00)
              (bit_and (bit_or (x / 2 ^ 24) (x * 2 ^ 40 % 2 ^ 64)) 0x00ff_0000_00ff_0000))
            (bit_and x 0x0000_00ff_0000_0000 / 2 ^ 8))
          (bit_and x 0x0000_0000_ff00_0000 * 2 ^ 8))
        (x / 2 ^ 56))
      (x * 2 ^ 56 % 2 ^ 64)

-- cw_store16, cw_store32 and cw_store64: what they write at `p`.
unfoldable pub cw_store16 : Build → ℕ → List ℕ
unfolding put_word swap16
cw_store16 b d = elim b.compiled_for [
  | big_endian ↦ put_word b.cpu 2 (d % 2 ^ 16)
  | little_endian ↦ put_word b.cpu 2 (swap16 d)
  | undetermined ↦ d / 2 ^ 8 % 256 ∷ d % 256 ∷ []
]

unfoldable pub cw_store32 : Build → ℕ → List ℕ
unfolding put_word swap32
cw_store32 b d = elim b.compiled_for [
  | big_endian ↦ put_word b.cpu 4 (d % 2 ^ 32)
  | little_endian ↦ put_word b.cpu 4 (swap32 (d % 2 ^ 32))
  | undetermined ↦ d / 2 ^ 24 % 256 ∷ d / 2 ^ 16 % 256 ∷ d / 2 ^ 8 % 256 ∷ d % 256 ∷ []
]

store64_bytes : ℕ → List ℕ
store64_bytes z =
    z / 2 ^ 56 % 256
    ∷ z / 2 ^ 48 % 256
    ∷ z / 2 ^ 40 % 256
    ∷ z / 2 ^ 32 % 256
    ∷ z / 2 ^ 24 % 256
    ∷ z / 2 ^ 16 % 256
    ∷ z / 2 ^ 8 % 256
    ∷ z % 256
    ∷ []

unfoldable pub cw_store64 : Build → ℕ → List ℕ
unfolding put_word swap64 store64_bytes
cw_store64 b z = elim b.compiled_for [
  | big_endian ↦ put_word b.cpu 8 (z % 2 ^ 64)
  | little_endian ↦ elim b.force_alignment_64bit [
    | false ↦ put_word b.cpu 8 (swap64 (z % 2 ^ 64))
    | true ↦ store64_bytes z
  ]
  | undetermined ↦ store64_bytes z
]

-- cw_load16, cw_load32 and cw_load64, of the bytes at `ptr`.
unfoldable pub cw_load16 : Build → List ℕ → ℕ
unfolding get_word swap16
cw_load16 b bs = elim b.compiled_for [
  | big_endian ↦ get_word b.cpu bs
  | little_endian ↦
      let tmpu16 = get_word b.cpu bs in bit_or (tmpu16 * 2 ^ 8) (tmpu16 / 2 ^ 8) % 2 ^ 16
  | undetermined ↦ bit_or (get_or bs 0 0 * 2 ^ 8 % 2 ^ 16) (get_or bs 1 0)
]

unfoldable pub cw_load32 : Build → List ℕ → ℕ
unfolding get_word
cw_load32 b bs = elim b.compiled_for [
  | big_endian ↦ get_word b.cpu bs
  | little_endian ↦
      let tmpu32 = get_word b.cpu bs in
      bit_or
        (bit_or (bit_or (tmpu32 * 2 ^ 24 % 2 ^ 32) (bit_and tmpu32 0xff00 * 2 ^ 8 % 2 ^ 32))
          (bit_and tmpu32 0xff_0000 / 2 ^ 8))
        (tmpu32 / 2 ^ 24)
  | undetermined ↦
      bit_or
        (bit_or (bit_or (get_or bs 0 0 * 2 ^ 24 % 2 ^ 32) (get_or bs 1 0 * 2 ^ 16 % 2 ^ 32))
          (get_or bs 2 0 * 2 ^ 8 % 2 ^ 32))
        (get_or bs 3 0)
]

load64_bytes : List ℕ → ℕ
load64_bytes bs =
    bit_or
      (bit_or
        (bit_or
          (bit_or
            (bit_or
              (bit_or (bit_or (get_or bs 0 0 * 2 ^ 56) (get_or bs 1 0 * 2 ^ 48))
                (get_or bs 2 0 * 2 ^ 40))
              (get_or bs 3 0 * 2 ^ 32))
            (get_or bs 4 0 * 2 ^ 24))
          (get_or bs 5 0 * 2 ^ 16))
        (get_or bs 6 0 * 2 ^ 8))
      (get_or bs 7 0)

unfoldable pub cw_load64 : Build → List ℕ → ℕ
unfolding get_word swap64 load64_bytes
cw_load64 b bs = elim b.compiled_for [
  | big_endian ↦ get_word b.cpu bs
  | little_endian ↦ elim b.force_alignment_64bit [
    | false ↦ swap64 (get_word b.cpu bs)
    | true ↦ load64_bytes bs
  ]
  | undetermined ↦ load64_bytes bs
]

-- test_byte_order: does the processor keep words as the code was compiled for?
unfoldable pub byte_order_matches : Build → Bool
byte_order_matches b = elim b.compiled_for [
  | big_endian ↦ elim b.cpu [ big ↦ true | little ↦ false ]
  | little_endian ↦ elim b.cpu [ big ↦ false | little ↦ true ]
  | undetermined ↦ true
]
