-- ===== src/Utils/Floats.antt =====
-- The routines of goodies/utils/cwpack_utils.c that convert and round: the optimised packing of
-- floats and doubles, time intervals, and the unpacking into a float, a double or a time interval.
pub mod Results
pub mod Packed
pub mod Back
pub mod Intervals
use cwpack.Prelude.{ℕ, ◌%◌, ◌^◌, Bool, true, false, ◌&&◌, Option, none, some, leb, if◌then◌else◌}
use cwpack.Prelude.Int.{ℤ, pos, negsuc, word, signed, leb_ℤ}
use cwpack.ReturnCode.{rc_type_error}
use cwpack.Exec.{Void, fault, pure}
use cwpack.Pack
use cwpack.Pack.{PackContext}
use cwpack.Pack.Numbers.{cw_pack_signed, cw_pack_float, cw_pack_double}
use cwpack.Pack.Blobs.{cw_pack_time}
use cwpack.Unpack
use cwpack.Unpack.{
  As, real, time, UnpackContext, item_positive_integer, item_negative_integer, item_float,
  item_double, item_timestamp, stop,
}
use cwpack.Unpack.LookAhead.{equals}
use cwpack.Utils.{with_word, typed_body, next_and}

-- What the compiler's floating point gives. A float and a double are their bits, and an integer
-- converts by its value, whichever of its types it has.
pub record FloatUnit : Type 0 where
  pub int_of_double : ℕ → ℤ
  pub int_of_float : ℕ → ℤ
  pub int64_of_double : ℕ → ℤ
  pub uint32_of_double : ℕ → ℕ
  pub double_of_integer : ℤ → ℕ
  pub float_of_integer : ℤ → ℕ
  pub float_of_double : ℕ → ℕ
  pub double_of_float : ℕ → ℕ
  pub equal_double : ℕ → ℕ → Bool
  pub equal_float : ℕ → ℕ → Bool
  pub floor : ℕ → ℕ
  pub add : ℕ → ℕ → ℕ
  pub subtract : ℕ → ℕ → ℕ
  pub multiply : ℕ → ℕ → ℕ
  pub divide : ℕ → ℕ → ℕ

-- `(uint32_t)((ti - (double)sec) * 1000000000.0)`
abbrev pub nanoseconds : FloatUnit → ℕ → ℤ → ℕ
nanoseconds unit ti sec = unit.uint32_of_double (
    unit.multiply (unit.subtract ti (unit.double_of_integer sec))
      (unit.double_of_integer (pos 1_000_000_000)))

module _ {W : Type 0} (unit : FloatUnit) (env : Pack.Platform W) where
  -- `i <= UINT32_MAX` compares an int with an unsigned: it looks at the bits of i.
  unfoldable pub cw_pack_double_opt : ℕ → PackContext W → Option (Void × PackContext W)
  cw_pack_double_opt d =
      let i = unit.int_of_double d in
      let f = unit.float_of_double d in
      if unit.equal_double (unit.double_of_integer i) d
        && leb_ℤ (negsuc 0x7fff_ffff) i
        && leb (word 32 i) 0xffff_ffff
      then cw_pack_signed env i
      else if unit.equal_double (unit.double_of_float f) d
      then cw_pack_float env f
      else cw_pack_double env d

  unfoldable pub cw_pack_float_opt : ℕ → PackContext W → Option (Void × PackContext W)
  cw_pack_float_opt f =
      let i = unit.int_of_float f in
      if unit.equal_float (unit.float_of_integer i) f
        && leb_ℤ (negsuc 0x7fff) i
        && leb_ℤ i (pos 0xffff)
      then cw_pack_signed env i
      else cw_pack_float env f

  unfoldable pub cw_pack_time_interval : ℕ → PackContext W → Option (Void × PackContext W)
  cw_pack_time_interval ti =
      let sec = unit.int64_of_double (unit.floor ti) in
      cw_pack_time env sec (nanoseconds unit ti sec)

-- `item.as.real` and `item.as.time`.
unfoldable pub with_real : {W R A : Type 0} → (ℕ → Unpack.Routine W R A) → Unpack.Routine W R A
with_real k uc = elim uc.item.value [ real f ↦ k f uc | other ↦ fault ]

unfoldable pub with_time : {W R A : Type 0} → (ℤ → ℕ → Unpack.Routine W R A) → Unpack.Routine W R A
with_time k uc = elim uc.item.value [ time sec nsec ↦ k sec nsec uc | other ↦ fault ]

unfoldable pub interval : FloatUnit → ℤ → ℕ → ℕ
interval unit sec nsec =
    unit.add (unit.double_of_integer sec)
      (unit.divide (unit.double_of_integer (pos nsec)) (unit.double_of_integer (pos 1_000_000_000)))

module _ {W : Type 0} (unit : FloatUnit) where
  unfoldable pub float_body : Unpack.Routine W ℕ ℕ
  unfolding with_word with_real stop
  float_body uc =
      (if equals uc.item.type item_positive_integer
          then with_word (λ n. pure (unit.float_of_integer (pos n)))
          else if equals uc.item.type item_negative_integer
          then with_word (λ n. pure (unit.float_of_integer (signed 64 n)))
          else if equals uc.item.type item_float
          then with_real pure
          else if equals uc.item.type item_double
          then with_word (λ n. pure (unit.float_of_double n))
          else stop 0 rc_type_error)
        uc

  unfoldable pub double_body : Unpack.Routine W ℕ ℕ
  unfolding with_word with_real stop
  double_body uc =
      (if equals uc.item.type item_positive_integer
          then with_word (λ n. pure (unit.double_of_integer (pos n)))
          else if equals uc.item.type item_negative_integer
          then with_word (λ n. pure (unit.double_of_integer (signed 64 n)))
          else if equals uc.item.type item_float
          then with_real (λ f. pure (unit.double_of_float f))
          else if equals uc.item.type item_double
          then with_word pure
          else stop 0 rc_type_error)
        uc

  module _ (env : Unpack.Platform W) where
    unfoldable pub cw_unpack_next_float : UnpackContext W → Option (ℕ × UnpackContext W)
    unfolding next_and float_body
    cw_unpack_next_float = next_and env 0 float_body

    unfoldable pub cw_unpack_next_double : UnpackContext W → Option (ℕ × UnpackContext W)
    unfolding next_and double_body
    cw_unpack_next_double = next_and env 0 double_body

    unfoldable pub cw_unpack_next_time_interval : UnpackContext W → Option (ℕ × UnpackContext W)
    unfolding next_and typed_body with_time interval
    cw_unpack_next_time_interval =
        next_and env 0
          (typed_body item_timestamp (with_time (λ sec nsec. pure (interval unit sec nsec))) 0)
