-- ===== src/Utils.antt =====
-- The unpacking routines of goodies/utils/cwpack_utils.c that expect an item of a certain type. The
-- routines for floats and time intervals are in Floats.
pub mod Results
pub mod Expected
pub mod Members
pub mod Safety
pub mod Floats
use cwpack.Prelude.{
  ℕ, ◌+◌, ◌-◌, ◌%◌, ◌^◌, Bool, true, false, not, Option, none, some, List, ltb, leb, ◌==◌,
  if◌then◌else◌,
}
use cwpack.Prelude.Int.{ℤ, pos, negsuc, signed, leb_ℤ}
use cwpack.ReturnCode.{rc_type_error, rc_value_error, is_error}
use cwpack.Exec.{Void, continue, fault, and_then, ◌>>=◌, ◌>>◌, pure, finish}
use cwpack.Unpack.{
  As, boolean, word64, array, map, blob, UnpackContext, Platform, Routine, item_nil, item_boolean,
  item_positive_integer, item_negative_integer, item_str, item_bin, item_array, item_map, stop,
}
use cwpack.Unpack.Next.{cw_unpack_next}
use cwpack.Unpack.LookAhead.{equals}

-- `item.as.u64` and the other members. To read a member that was not written last gives what the
-- code does not mean to see: it counts as a fault.
unfoldable pub with_word : {W R A : Type 0} → (ℕ → Routine W R A) → Routine W R A
with_word k uc = elim uc.item.value [ word64 n ↦ k n uc | other ↦ fault ]

unfoldable pub with_boolean : {W R A : Type 0} → (Bool → Routine W R A) → Routine W R A
with_boolean k uc = elim uc.item.value [ boolean b ↦ k b uc | other ↦ fault ]

unfoldable pub with_length : {W R A : Type 0} → (ℕ → Routine W R A) → Routine W R A
with_length k uc = elim uc.item.value [ blob p l ↦ k l uc | other ↦ fault ]

unfoldable pub with_array : {W R A : Type 0} → (ℕ → Routine W R A) → Routine W R A
with_array k uc = elim uc.item.value [ array n ↦ k n uc | other ↦ fault ]

unfoldable pub with_map : {W R A : Type 0} → (ℕ → Routine W R A) → Routine W R A
with_map k uc = elim uc.item.value [ map n ↦ k n uc | other ↦ fault ]

module _ {W : Type 0} where
  -- The tests of an integer, where `w` is the width of the result below 64.
  unfoldable pub signed_body : ℕ → Routine W ℤ ℤ
  unfolding with_word stop
  signed_body w uc =
      (if equals uc.item.type item_positive_integer
          then with_word (λ n.
            if leb n (2 ^ (w - 1) - 1)
            then pure (signed w (n % 2 ^ w))
            else stop (pos 0) rc_value_error)
          else if equals uc.item.type item_negative_integer
          then with_word (λ n.
            if leb_ℤ (negsuc (2 ^ (w - 1) - 1)) (signed 64 n)
            then pure (signed w (n % 2 ^ w))
            else stop (pos 0) rc_value_error)
          else stop (pos 0) rc_type_error)
        uc

  unfoldable pub signed64_body : Routine W ℤ ℤ
  unfolding with_word stop
  signed64_body uc =
      (if equals uc.item.type item_positive_integer
          then with_word
              (λ n. if leb n (2 ^ 63 - 1) then pure (signed 64 n) else stop (pos 0) rc_value_error)
          else if equals uc.item.type item_negative_integer
          then with_word (λ n. pure (signed 64 n))
          else stop (pos 0) rc_type_error)
        uc

  unfoldable pub unsigned_body : ℕ → Routine W ℕ ℕ
  unfolding with_word stop
  unsigned_body w uc =
      (if equals uc.item.type item_positive_integer
          then with_word
              (λ n. if leb n (2 ^ w - 1) then pure (n % 2 ^ w) else stop 0 rc_value_error)
          else stop 0 rc_type_error)
        uc

  unfoldable pub unsigned64_body : Routine W ℕ ℕ
  unfolding with_word stop
  unsigned64_body uc =
      (if equals uc.item.type item_positive_integer
          then with_word (λ n. pure n)
          else stop 0 rc_type_error)
        uc

  -- Any other type, with the member that holds the result.
  unfoldable pub typed_body : {R : Type 0} → ℤ → Routine W R R → R → Routine W R R
  unfolding stop
  typed_body type member zero_result uc =
      (if equals uc.item.type type then member else stop zero_result rc_type_error) uc

-- Behind the call of cw_unpack_next. A fault in it is one of the caller.
unfoldable pub after_next :
    {W R : Type 0}
    → R
    → Routine W R R
    → Option (Void × UnpackContext W)
    → Option (R × UnpackContext W)
after_next zero_result body none = none
after_next zero_result body (some (_, uc)) =
    if is_error uc.return_code then some (zero_result, uc) else finish (body uc)

module _ {W : Type 0} (env : Platform W) where
  -- `cw_unpack_next (unpack_context); if (unpack_context->return_code) return zero_result;`, and the
  -- rest of the function.
  unfoldable pub next_and :
      {R : Type 0} → R → Routine W R R → UnpackContext W → Option (R × UnpackContext W)
  unfolding after_next
  next_and zero_result body uc = after_next zero_result body (cw_unpack_next env uc)

  unfoldable pub cw_unpack_next_nil : UnpackContext W → Option (Void × UnpackContext W)
  unfolding next_and typed_body
  cw_unpack_next_nil = next_and tt (typed_body item_nil (pure tt) tt)

  unfoldable pub cw_unpack_next_boolean : UnpackContext W → Option (Bool × UnpackContext W)
  unfolding next_and typed_body with_boolean
  cw_unpack_next_boolean = next_and false (typed_body item_boolean (with_boolean pure) false)

  unfoldable pub cw_unpack_next_signed64 : UnpackContext W → Option (ℤ × UnpackContext W)
  unfolding next_and signed64_body
  cw_unpack_next_signed64 = next_and (pos 0) signed64_body

  unfoldable pub cw_unpack_next_signed32 : UnpackContext W → Option (ℤ × UnpackContext W)
  unfolding next_and signed_body
  cw_unpack_next_signed32 = next_and (pos 0) (signed_body 32)

  unfoldable pub cw_unpack_next_signed16 : UnpackContext W → Option (ℤ × UnpackContext W)
  unfolding next_and signed_body
  cw_unpack_next_signed16 = next_and (pos 0) (signed_body 16)

  unfoldable pub cw_unpack_next_signed8 : UnpackContext W → Option (ℤ × UnpackContext W)
  unfolding next_and signed_body
  cw_unpack_next_signed8 = next_and (pos 0) (signed_body 8)

  unfoldable pub cw_unpack_next_unsigned64 : UnpackContext W → Option (ℕ × UnpackContext W)
  unfolding next_and unsigned64_body
  cw_unpack_next_unsigned64 = next_and 0 unsigned64_body

  unfoldable pub cw_unpack_next_unsigned32 : UnpackContext W → Option (ℕ × UnpackContext W)
  unfolding next_and unsigned_body
  cw_unpack_next_unsigned32 = next_and 0 (unsigned_body 32)

  unfoldable pub cw_unpack_next_unsigned16 : UnpackContext W → Option (ℕ × UnpackContext W)
  unfolding next_and unsigned_body
  cw_unpack_next_unsigned16 = next_and 0 (unsigned_body 16)

  unfoldable pub cw_unpack_next_unsigned8 : UnpackContext W → Option (ℕ × UnpackContext W)
  unfolding next_and unsigned_body
  cw_unpack_next_unsigned8 = next_and 0 (unsigned_body 8)

  unfoldable pub cw_unpack_next_str_lengh : UnpackContext W → Option (ℕ × UnpackContext W)
  unfolding next_and typed_body with_length
  cw_unpack_next_str_lengh = next_and 0 (typed_body item_str (with_length pure) 0)

  unfoldable pub cw_unpack_next_bin_lengh : UnpackContext W → Option (ℕ × UnpackContext W)
  unfolding next_and typed_body with_length
  cw_unpack_next_bin_lengh = next_and 0 (typed_body item_bin (with_length pure) 0)

  unfoldable pub cw_unpack_next_array_size : UnpackContext W → Option (ℕ × UnpackContext W)
  unfolding next_and typed_body with_array
  cw_unpack_next_array_size = next_and 0 (typed_body item_array (with_array pure) 0)

  unfoldable pub cw_unpack_next_map_size : UnpackContext W → Option (ℕ × UnpackContext W)
  unfolding next_and typed_body with_map
  cw_unpack_next_map_size = next_and 0 (typed_body item_map (with_map pure) 0)
