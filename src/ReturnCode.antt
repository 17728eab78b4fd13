-- ===== src/ReturnCode.antt =====
-- The return codes of src/cwpack.h, as the `int`s that they are.
use cwpack.Prelude.{ℕ, Bool, true, false}
use cwpack.Prelude.Int.{ℤ, pos, negsuc}

abbrev pub rc_ok : ℤ
rc_ok = pos 0

abbrev pub rc_end_of_input : ℤ
rc_end_of_input = negsuc 0

abbrev pub rc_buffer_overflow : ℤ
rc_buffer_overflow = negsuc 1

abbrev pub rc_buffer_underflow : ℤ
rc_buffer_underflow = negsuc 2

abbrev pub rc_malformed_input : ℤ
rc_malformed_input = negsuc 3

abbrev pub rc_wrong_byte_order : ℤ
rc_wrong_byte_order = negsuc 4

abbrev pub rc_error_in_handler : ℤ
rc_error_in_handler = negsuc 5

abbrev pub rc_illegal_call : ℤ
rc_illegal_call = negsuc 6

abbrev pub rc_malloc_error : ℤ
rc_malloc_error = negsuc 7

abbrev pub rc_stopped : ℤ
rc_stopped = negsuc 8

abbrev pub rc_type_error : ℤ
rc_type_error = negsuc 9

abbrev pub rc_value_error : ℤ
rc_value_error = negsuc 10

abbrev pub rc_wrong_timestamp_length : ℤ
rc_wrong_timestamp_length = negsuc 11

-- `if (return_code)`.
abbrev pub is_error : ℤ → Bool
is_error (pos ℕ.zero) = false
is_error (pos (ℕ.suc n)) = true
is_error (negsuc n) = true
