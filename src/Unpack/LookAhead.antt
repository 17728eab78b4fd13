-- ===== src/Unpack/LookAhead.antt =====
-- cw_look_ahead of src/cwpack.c.
pub mod Peek
pub mod Types
use cwpack.Prelude.{ℕ, ◌+◌, ◌-◌, Bool, false, ◌||◌, Option, ltb, leb, ◌==◌, get_or, if◌then◌else◌}
use cwpack.Prelude.Int.{ℤ, pos, negsuc, signed}
use cwpack.ReturnCode.{rc_end_of_input, rc_buffer_underflow}
use cwpack.Exec.{Void, continue, ◌>>=◌, ◌>>◌, pure, function}
use cwpack.Unpack.{
  UnpackContext, Platform, Routine, item_timestamp, item_nil, item_boolean, item_positive_integer,
  item_negative_integer, item_float, item_double, item_str, item_bin, item_array, item_map,
  not_an_item, unless_stopped, read, cw_unpack_assert_space,
}

abbrev pub equals : ℤ → ℤ → Bool
equals (pos n) (pos m) = n == m
equals (negsuc n) (negsuc m) = n == m
equals (pos n) (negsuc m) = false
equals (negsuc n) (pos m) = false

-- `current -= n`
unfoldable pub step_back : {W : Type 0} → ℕ → Routine W ℤ Void
step_back n uc = continue tt (record uc { current = uc.current - n })

module _ {W : Type 0} (env : Platform W) where
  -- The type byte of an extension, which is the last of `n` bytes.
  unfoldable pub ext_ahead : ℕ → Routine W ℤ ℤ
  unfolding cw_unpack_assert_space step_back read
  ext_ahead n = do
    p ← cw_unpack_assert_space env not_an_item rc_buffer_underflow n
    step_back n
    t ← read (p + (n - 1)) 1
    pure (signed 8 (get_or t 0 0))

  -- case 0xc7. The first test compares an unsigned byte with -1.
  unfoldable pub ext8_ahead : Routine W ℤ ℤ
  unfolding cw_unpack_assert_space step_back read
  ext8_ahead = do
    p ← cw_unpack_assert_space env not_an_item rc_buffer_underflow 3
    step_back 3
    t ← read (p + 2) 1
    if equals (pos (get_or t 0 0)) item_timestamp
        then pure item_timestamp
        else pure (signed 8 (get_or t 0 0))

  unfoldable pub type_ahead : ℕ → Routine W ℤ ℤ
  unfolding ext_ahead ext8_ahead
  type_ahead c =
      if ltb c 0x80
      then pure item_positive_integer
      else if ltb c 0x90
      then pure item_map
      else if ltb c 0xa0
      then pure item_array
      else if ltb c 0xc0
      then pure item_str
      else if leb 0xe0 c
      then pure item_negative_integer
      else if c == 0xc0
      then pure item_nil
      else if c == 0xc2 || c == 0xc3
      then pure item_boolean
      else if c == 0xc4 || (c == 0xc5 || c == 0xc6)
      then pure item_bin
      else if c == 0xc7
      then ext8_ahead
      else if c == 0xc8
      then ext_ahead 4
      else if c == 0xc9
      then ext_ahead 6
      else if c == 0xca
      then pure item_float
      else if c == 0xcb
      then pure item_double
      else if c == 0xcc || (c == 0xcd || (c == 0xce || c == 0xcf))
      then pure item_positive_integer
      else if c == 0xd0 || (c == 0xd1 || (c == 0xd2 || c == 0xd3))
      then pure item_negative_integer
      else if c == 0xd4 || (c == 0xd5 || (c == 0xd6 || (c == 0xd7 || c == 0xd8)))
      then ext_ahead 2
      else if c == 0xd9 || (c == 0xda || c == 0xdb)
      then pure item_str
      else if c == 0xdc || c == 0xdd
      then pure item_array
      else if c == 0xde || c == 0xdf
      then pure item_map
      else pure not_an_item

  unfoldable pub cw_look_ahead : UnpackContext W → Option (ℤ × UnpackContext W)
  unfolding unless_stopped cw_unpack_assert_space step_back read type_ahead
  cw_look_ahead = function (do
    unless_stopped not_an_item
    p ← cw_unpack_assert_space env not_an_item rc_end_of_input 1
    step_back 1
    c ← read p 1
    type_ahead (get_or c 0 0))
