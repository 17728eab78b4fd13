-- ===== src/Runs/Guards.antt =====
-- Runs on input that ends too early.
use cwpack.Prelude.{ℕ, refl, none, some, List, [], ◌∷◌, arith}
use cwpack.Prelude.Int.{pos}
use cwpack.ReturnCode.{rc_ok}
use cwpack.Exec.{Void}
use cwpack.Unpack.{UnpackContext, item_nil, word64}
use cwpack.Unpack.Next.{cw_unpack_next}
use cwpack.Unpack.Safety.Every.{Unpacked, cw_unpack_next-Unpacked}
use cwpack.Unpack.Safety.Skip.{StaysIn}
use cwpack.Utils.{
  cw_unpack_next_nil, cw_unpack_next_boolean, cw_unpack_next_signed8, cw_unpack_next_signed16,
  cw_unpack_next_signed32, cw_unpack_next_signed64, cw_unpack_next_unsigned8,
  cw_unpack_next_unsigned16, cw_unpack_next_unsigned32, cw_unpack_next_unsigned64,
  cw_unpack_next_str_lengh, cw_unpack_next_bin_lengh, cw_unpack_next_array_size,
  cw_unpack_next_map_size,
}
use cwpack.Utils.Safety.{typed_routines-StaysIn}
use cwpack.Contexts.FileUnpack.{FileUnpackContext}
use cwpack.Runs.{static_unpack, static_guard, packed}

-- The first byte of an int 16, and a byte of two.
abbrev cut_off : UnpackContext Void
cut_off = record packed { buffer = 0xd1 ∷ 0xff ∷ [] }

cw_unpack_next-Unpacked_example : Unpacked static_guard (cw_unpack_next static_unpack cut_off)
cw_unpack_next-Unpacked_example =
    cw_unpack_next-Unpacked static_guard cut_off (record { within = omega arith; holds = refl })

typed_routines-StaysIn_example :
    StaysIn static_guard (cw_unpack_next_nil static_unpack cut_off)
    × StaysIn static_guard (cw_unpack_next_boolean static_unpack cut_off)
    × StaysIn static_guard (cw_unpack_next_signed64 static_unpack cut_off)
    × StaysIn static_guard (cw_unpack_next_signed32 static_unpack cut_off)
    × StaysIn static_guard (cw_unpack_next_signed16 static_unpack cut_off)
    × StaysIn static_guard (cw_unpack_next_signed8 static_unpack cut_off)
    × StaysIn static_guard (cw_unpack_next_unsigned64 static_unpack cut_off)
    × StaysIn static_guard (cw_unpack_next_unsigned32 static_unpack cut_off)
    × StaysIn static_guard (cw_unpack_next_unsigned16 static_unpack cut_off)
    × StaysIn static_guard (cw_unpack_next_unsigned8 static_unpack cut_off)
    × StaysIn static_guard (cw_unpack_next_str_lengh static_unpack cut_off)
    × StaysIn static_guard (cw_unpack_next_bin_lengh static_unpack cut_off)
    × StaysIn static_guard (cw_unpack_next_array_size static_unpack cut_off)
    × StaysIn static_guard (cw_unpack_next_map_size static_unpack cut_off)
typed_routines-StaysIn_example =
    typed_routines-StaysIn static_guard cut_off (record { within = omega arith; holds = refl })

-- A nil in the buffer and the head of a str of three bytes, of which the file has one.
abbrev short_file : FileUnpackContext (List ℕ)
short_file = record {
  item = record { type = item_nil; value = word64 0 };
  buffer = 0xc0 ∷ 0xa3 ∷ [];
  current = 0;
  return_code = rc_ok;
  err_no = rc_ok;
  handle_unpack_underflow = some 1;
  outer = record { buffer_length = 4; file_descriptor = pos 5; barrier = none; world = 65 ∷ [] };
}

abbrev marked : FileUnpackContext (List ℕ)
marked = record short_file { outer = record short_file.outer { barrier = some 0 } }
