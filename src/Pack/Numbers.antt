-- ===== src/Pack/Numbers.antt =====
-- The packing routines of src/cwpack.c for numbers, nil, booleans and the heads of containers.
use cwpack.Prelude.{ℕ, bit_or, Bool, Option, ltb, if◌then◌else◌}
use cwpack.Prelude.Int.{ℤ, pos, negsuc, word, ltb_ℤ, leb_ℤ}
use cwpack.Exec.{Void, ◌>>◌, function}
use cwpack.Pack.{
  PackContext, Platform, unless_stopped, try_move0, try_move1, try_move2, try_move4, try_move8,
}

module _ {W : Type 0} (env : Platform W) where
  unfoldable pub cw_pack_unsigned : ℕ → PackContext W → Option (Void × PackContext W)
  unfolding unless_stopped
  cw_pack_unsigned i = function (
      unless_stopped
      >> (if ltb i 128
          then try_move0 env i
          else if ltb i 256
          then try_move1 env 0xcc i
          else if ltb i 0x1_0000
          then try_move2 env 0xcd i
          else if ltb i 0x1_0000_0000
          then try_move4 env 0xce i
          else try_move8 env 0xcf i))

  -- `negsuc n` is -(n + 1).
  unfoldable pub cw_pack_signed : ℤ → PackContext W → Option (Void × PackContext W)
  unfolding unless_stopped
  cw_pack_signed i = function (
      unless_stopped
      >> (if ltb_ℤ (pos 127) i
          then (if ltb_ℤ i (pos 256)
              then try_move1 env 0xcc (word 64 i)
              else if ltb_ℤ i (pos 0x1_0000)
              then try_move2 env 0xcd (word 64 i)
              else if ltb_ℤ i (pos 0x1_0000_0000)
              then try_move4 env 0xce (word 64 i)
              else try_move8 env 0xcf (word 64 i))
          else if leb_ℤ (negsuc 31) i
          then try_move0 env (word 64 i)
          else if leb_ℤ (negsuc 127) i
          then try_move1 env 0xd0 (word 64 i)
          else if leb_ℤ (negsuc 32767) i
          then try_move2 env 0xd1 (word 64 i)
          else if leb_ℤ (negsuc 0x7fff_ffff) i
          then try_move4 env 0xd2 (word 64 i)
          else try_move8 env 0xd3 (word 64 i)))

  -- A `float` and a `double` are their bits.
  unfoldable pub cw_pack_float : ℕ → PackContext W → Option (Void × PackContext W)
  unfolding unless_stopped
  cw_pack_float f = function (unless_stopped >> try_move4 env 0xca f)

  unfoldable pub cw_pack_double : ℕ → PackContext W → Option (Void × PackContext W)
  unfolding unless_stopped
  cw_pack_double d = function (unless_stopped >> try_move8 env 0xcb d)

  unfoldable pub cw_pack_nil : PackContext W → Option (Void × PackContext W)
  unfolding unless_stopped
  cw_pack_nil = function (unless_stopped >> try_move0 env 0xc0)

  unfoldable pub cw_pack_true : PackContext W → Option (Void × PackContext W)
  unfolding unless_stopped
  cw_pack_true = function (unless_stopped >> try_move0 env 0xc3)

  unfoldable pub cw_pack_false : PackContext W → Option (Void × PackContext W)
  unfolding unless_stopped
  cw_pack_false = function (unless_stopped >> try_move0 env 0xc2)

  unfoldable pub cw_pack_boolean : Bool → PackContext W → Option (Void × PackContext W)
  unfolding unless_stopped
  cw_pack_boolean b = function (unless_stopped >> try_move0 env (if b then 0xc3 else 0xc2))

  unfoldable pub cw_pack_array_size : ℕ → PackContext W → Option (Void × PackContext W)
  unfolding unless_stopped
  cw_pack_array_size n = function (
      unless_stopped
      >> (if ltb n 16
          then try_move0 env (bit_or 0x90 n)
          else if ltb n 65536
          then try_move2 env 0xdc n
          else try_move4 env 0xdd n))

  unfoldable pub cw_pack_map_size : ℕ → PackContext W → Option (Void × PackContext W)
  unfolding unless_stopped
  cw_pack_map_size n = function (
      unless_stopped
      >> (if ltb n 16
          then try_move0 env (bit_or 0x80 n)
          else if ltb n 65536
          then try_move2 env 0xde n
          else try_move4 env 0xdf n))
