-- ===== src/Unpack/Skip.antt =====
-- cw_skip_items of src/cwpack.c.

pub mod Round
pub mod Forms
pub mod Whole
use cwpack.Prelude.{
  ℕ, zero, suc, ◌+◌, ◌*◌, ◌%◌, ◌^◌, bit_and, Bool, true, false, ◌||◌, Option, ltb, leb, ◌==◌,
  get_or, if◌then◌else◌,
}
use cwpack.Prelude.Int.{ℤ, pos_part}
use cwpack.ReturnCode.{rc_end_of_input, rc_buffer_underflow, rc_malformed_input}
use cwpack.Wire.{cw_load16, cw_load32}
use cwpack.Exec.{◌>>=◌, ◌>>◌, pure, function}
use cwpack.Unpack.{
  UnpackContext, Platform, Routine, unpack_error, unless_stopped, read, cw_unpack_assert_space,
  take_bytes,
}

-- The result of the function is `true`, or `false` where the fuel of its loop ran out, which no run
-- of the code does. `item_count` is a `long`; only 2 ^ 31 heads of 32 bits could overflow it.
module _ {W : Type 0} (env : Platform W) where
  -- cw_skip_bytes, with the `item_count` that the loop goes on with.
  unfoldable pub cw_skip_bytes : ℕ → ℕ → Routine W Bool ℕ
  unfolding cw_unpack_assert_space
  cw_skip_bytes item_count n = do
    p ← cw_unpack_assert_space env true rc_buffer_underflow n
    pure item_count

  -- A length of one, two or four bytes, and `cw_skip_bytes` of a function of it.
  unfoldable pub skip_length1 : ℕ → (ℕ → ℕ) → Routine W Bool ℕ
  unfolding take_bytes cw_skip_bytes
  skip_length1 item_count f = do
    bs ← take_bytes env true 1
    cw_skip_bytes item_count (f (get_or bs 0 0))

  unfoldable pub skip_length2 : ℕ → (ℕ → ℕ) → Routine W Bool ℕ
  unfolding take_bytes cw_skip_bytes
  skip_length2 item_count f = do
    bs ← take_bytes env true 2
    cw_skip_bytes item_count (f (cw_load16 env.build bs))

  unfoldable pub skip_length4 : ℕ → (ℕ → ℕ) → Routine W Bool ℕ
  unfolding take_bytes cw_skip_bytes
  skip_length4 item_count f = do
    bs ← take_bytes env true 4
    cw_skip_bytes item_count (f (cw_load32 env.build bs))

  -- `item_count += f(size)`, for a size of two or four bytes.
  unfoldable pub more_items2 : ℕ → (ℕ → ℕ) → Routine W Bool ℕ
  unfolding take_bytes
  more_items2 item_count f = do
    bs ← take_bytes env true 2
    pure (item_count + f (cw_load16 env.build bs))

  unfoldable pub more_items4 : ℕ → (ℕ → ℕ) → Routine W Bool ℕ
  unfolding take_bytes
  more_items4 item_count f = do
    bs ← take_bytes env true 4
    pure (item_count + f (cw_load32 env.build bs))

  -- The cases 0xc0 .. 0xdf of the `switch`. The sums and products of a `uint32_t` wrap.
  unfoldable pub skip_headed : ℕ → ℕ → Routine W Bool ℕ
  unfolding cw_skip_bytes skip_length1 skip_length2 skip_length4 more_items2 more_items4
      unpack_error
  skip_headed item_count c =
      if c == 0xc0 || (c == 0xc2 || c == 0xc3)
      then pure item_count
      else if c == 0xcc || c == 0xd0
      then cw_skip_bytes item_count 1
      else if c == 0xcd || (c == 0xd1 || c == 0xd4)
      then cw_skip_bytes item_count 2
      else if c == 0xd5
      then cw_skip_bytes item_count 3
      else if c == 0xca || (c == 0xce || c == 0xd2)
      then cw_skip_bytes item_count 4
      else if c == 0xd6
      then cw_skip_bytes item_count 5
      else if c == 0xcb || (c == 0xcf || c == 0xd3)
      then cw_skip_bytes item_count 8
      else if c == 0xd7
      then cw_skip_bytes item_count 9
      else if c == 0xd8
      then cw_skip_bytes item_count 17
      else if c == 0xd9 || c == 0xc4
      then skip_length1 item_count (λ l. l)
      else if c == 0xda || c == 0xc5
      then skip_length2 item_count (λ l. l)
      else if c == 0xdb || c == 0xc6
      then skip_length4 item_count (λ l. l)
      else if c == 0xdc
      then more_items2 item_count (λ n. n)
      else if c == 0xde
      then more_items2 item_count (λ n. 2 * n)
      else if c == 0xdd
      then more_items4 item_count (λ n. n)
      else if c == 0xdf
      then more_items4 item_count (λ n. 2 * n % 2 ^ 32)
      else if c == 0xc7
      then skip_length1 item_count (λ l. l + 1)
      else if c == 0xc8
      then skip_length2 item_count (λ l. l + 1)
      else if c == 0xc9
      then skip_length4 item_count (λ l. (l + 1) % 2 ^ 32)
      else unpack_error true rc_malformed_input

  -- The whole `switch`, with the `item_count` behind it.
  unfoldable pub skip_body : ℕ → ℕ → Routine W Bool ℕ
  unfolding cw_skip_bytes skip_headed
  skip_body item_count c =
      if ltb c 0x80
      then pure item_count
      else if ltb c 0x90
      then pure (item_count + 2 * bit_and c 15)
      else if ltb c 0xa0
      then pure (item_count + bit_and c 15)
      else if ltb c 0xc0
      then cw_skip_bytes item_count (bit_and c 0x1f)
      else if leb 0xe0 c
      then pure item_count
      else skip_headed item_count c

  -- One round of the loop, behind `item_count-- > 0`.
  unfoldable pub skip_round : ℕ → Routine W Bool ℕ
  unfolding cw_unpack_assert_space read skip_body
  skip_round item_count = do
    p ← cw_unpack_assert_space env true rc_end_of_input 1
    c ← read p 1
    skip_body item_count (get_or c 0 0)

  unfoldable pub skip_loop : ℕ → ℕ → Routine W Bool Bool
  unfolding skip_round
  skip_loop fuel zero uc = pure true uc
  skip_loop zero (suc item_count) uc = pure false uc
  skip_loop (suc fuel) (suc item_count) uc = (skip_round item_count >>= skip_loop fuel) uc

  unfoldable pub cw_skip_items : ℕ → ℤ → UnpackContext W → Option (Bool × UnpackContext W)
  unfolding unless_stopped skip_loop
  cw_skip_items fuel item_count =
      function (unless_stopped true >> skip_loop fuel (pos_part item_count))
