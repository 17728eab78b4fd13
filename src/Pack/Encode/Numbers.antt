-- ===== src/Pack/Encode/Numbers.antt =====
-- The routines for numbers, nil, booleans and the heads of containers.
use cwpack.Prelude.{
  ℕ, ◌+◌, ◌%◌, ◌^◌, ◌≤◌, ◌<◌, ◌≡◌, bit_or, Bool, true, false, length, if◌then◌else◌, arith,
}
use cwpack.Prelude.Int.{ℤ, pos, negsuc, word}
use cwpack.Prelude.Bits.{bit_or_fields}
use cwpack.Wire.{byte_order_matches, be_bytes}
use cwpack.Format.{bytes, nil, bool, float32, float64, Fits}
use cwpack.Format.Choice.{unsigned_form, negative_form, signed_form, array_form, map_form}
use cwpack.Pack.{PackContext, Platform}
use cwpack.Pack.Numbers.{
  cw_pack_unsigned, cw_pack_signed, cw_pack_float, cw_pack_double, cw_pack_nil, cw_pack_true,
  cw_pack_false, cw_pack_boolean, cw_pack_array_size, cw_pack_map_size,
}
use cwpack.Pack.Emit.{
  append, guarded, try_move0-emit, try_move1-emit, try_move2-emit, try_move4-emit, try_move8-emit,
}

module _ {W : Type 0} (env : Platform W) (matches : byte_order_matches env.build ≡ true)
    (pc : PackContext W) (valid : pc.current ≤ length pc.buffer) where
  -- cw_pack_unsigned appends the unsigned form of its number.
  pub cw_pack_unsigned-append :
      (i : ℕ) → cw_pack_unsigned env i pc ≡ append env (bytes (unsigned_form i)) pc
  unfolding cw_pack_unsigned append bytes
  cw_pack_unsigned-append i = guarded env _ _ pc (
      ground (
        arith,
        try_move0-emit env matches i pc,
        try_move1-emit env matches 0xcc i pc,
        try_move2-emit env matches 0xcd i pc,
        try_move4-emit env matches 0xce i pc,
        try_move8-emit env matches 0xcf i pc,
      ))

  cw_pack_signed-pos :
      (n : ℕ) → n < 2 ^ 63 → cw_pack_signed env (pos n) pc ≡ append env (bytes (unsigned_form n)) pc
  unfolding cw_pack_signed append bytes
  cw_pack_signed-pos n h =
      let word64 : n % 2 ^ 64 ≡ n = omega arith in
      guarded env _ _ pc (
        rw word64 (
          ground (
            arith,
            try_move0-emit env matches n pc,
            try_move1-emit env matches 0xcc n pc,
            try_move2-emit env matches 0xcd n pc,
            try_move4-emit env matches 0xce n pc,
            try_move8-emit env matches 0xcf n pc,
          )))

  -- Sign extension does not change the low bytes.
  low_word :
      (n : ℕ)
      → n < 2 ^ 63
      → (be_bytes 2 (word 64 (negsuc n)) ≡ be_bytes 2 (word 16 (negsuc n)))
        × (be_bytes 4 (word 64 (negsuc n)) ≡ be_bytes 4 (word 32 (negsuc n)))
  unfolding be_bytes
  low_word n h = (ground arith, ground arith)

  cw_pack_signed-negsuc :
      (n : ℕ)
      → n < 2 ^ 63
      → cw_pack_signed env (negsuc n) pc ≡ append env (bytes (negative_form n)) pc
  unfolding cw_pack_signed append bytes
  cw_pack_signed-negsuc n h =
      let w = word 64 (negsuc n) in
      guarded env _ _ pc (
        ground (
          arith,
          low_word n,
          try_move0-emit env matches w pc,
          try_move1-emit env matches 0xd0 w pc,
          try_move2-emit env matches 0xd1 w pc,
          try_move4-emit env matches 0xd2 w pc,
          try_move8-emit env matches 0xd3 w pc,
        ))

  -- cw_pack_signed appends the signed form of its number.
  pub cw_pack_signed-append :
      (i : ℤ) → Fits 64 i → cw_pack_signed env i pc ≡ append env (bytes (signed_form i)) pc
  cw_pack_signed-append (pos n) h = cw_pack_signed-pos n (omega arith)
  cw_pack_signed-append (negsuc n) h = cw_pack_signed-negsuc n (omega arith)

  -- The routines with one format.
  pub fixed-append :
      (f d : ℕ) (b : Bool)
      → (cw_pack_float env f pc ≡ append env (bytes (float32 f)) pc)
        × (cw_pack_double env d pc ≡ append env (bytes (float64 d)) pc)
        × (cw_pack_nil env pc ≡ append env (bytes nil) pc)
        × (cw_pack_true env pc ≡ append env (bytes (bool true)) pc)
        × (cw_pack_false env pc ≡ append env (bytes (bool false)) pc)
        × (cw_pack_boolean env b pc ≡ append env (bytes (bool b)) pc)
  unfolding cw_pack_float cw_pack_double cw_pack_nil cw_pack_true cw_pack_false cw_pack_boolean
      append bytes
  fixed-append f d b = (
    guarded env _ _ pc (try_move4-emit env matches 0xca f pc),
    guarded env _ _ pc (try_move8-emit env matches 0xcb d pc),
    guarded env _ _ pc (try_move0-emit env matches 0xc0 pc valid),
    guarded env _ _ pc (try_move0-emit env matches 0xc3 pc valid),
    guarded env _ _ pc (try_move0-emit env matches 0xc2 pc valid),
    guarded env _ _ pc (ground (arith, try_move0-emit env matches (if b then 0xc3 else 0xc2) pc)),
  )

  -- The low half of a byte and a tag above it.
  tagged : (n : ℕ) → n < 16 → (bit_or 0x90 n ≡ 0x90 + n) × (bit_or 0x80 n ≡ 0x80 + n)
  tagged n h = (bit_or_fields 4 9 n h, bit_or_fields 4 8 n h)

  -- cw_pack_array_size and cw_pack_map_size append the head that array_form and map_form give.
  pub cw_pack_array_size-append :
      (n : ℕ) → cw_pack_array_size env n pc ≡ append env (bytes (array_form n)) pc
  unfolding cw_pack_array_size append bytes
  cw_pack_array_size-append n = guarded env _ _ pc (
      ground (
        arith,
        tagged n,
        try_move0-emit env matches (bit_or 0x90 n) pc,
        try_move2-emit env matches 0xdc n pc,
        try_move4-emit env matches 0xdd n pc,
      ))

  pub cw_pack_map_size-append :
      (n : ℕ) → cw_pack_map_size env n pc ≡ append env (bytes (map_form n)) pc
  unfolding cw_pack_map_size append bytes
  cw_pack_map_size-append n = guarded env _ _ pc (
      ground (
        arith,
        tagged n,
        try_move0-emit env matches (bit_or 0x80 n) pc,
        try_move2-emit env matches 0xde n pc,
        try_move4-emit env matches 0xdf n pc,
      ))
