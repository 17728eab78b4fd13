-- ===== src/Runs/Goodies.antt =====
-- Runs of the numeric extensions and of the typed unpacking routines.
use cwpack.Prelude.{take, ◌≡◌, refl, some, [], ◌∷◌, drop, arith, ◌≤◌, length}
use cwpack.Prelude.Int.{pos, negsuc}
use cwpack.Wire.{be_bytes}
use cwpack.Format
use cwpack.Format.{bytes, meaning}
use cwpack.Pack.Emit.{append}
use cwpack.NumericExtensions.{cw_pack_ext_integer, get_ext_integer}
use cwpack.NumericExtensions.Packed.{integer_form, cw_pack_ext_integer-append}
use cwpack.NumericExtensions.Unpacked.{get_ext_integer-gives}
use cwpack.Utils.{
  cw_unpack_next_signed8, cw_unpack_next_signed16, cw_unpack_next_signed32, cw_unpack_next_signed64,
  cw_unpack_next_unsigned8, cw_unpack_next_unsigned16, cw_unpack_next_unsigned32,
  cw_unpack_next_unsigned64,
}
use cwpack.Utils.Results.{signed_result, unsigned_result}
use cwpack.Utils.Expected.{Consumes, cw_unpack_next_signed-reads, cw_unpack_next_unsigned-reads}
use cwpack.Contexts.Memory.{handle_memory_pack_overflow}
use cwpack.Contexts.MemorySink.{handle_memory_pack_overflow-MakesRoom}
use cwpack.Pack.Sink.{MakesRoom}
use cwpack.Runs.World.{zeros, zeros-Reallocates}
use cwpack.Runs.{x86_matches, static_pack, fresh, static_unpack, static_source, packed, got}

cw_pack_ext_integer-append_example :
    cw_pack_ext_integer static_pack (pos 7) (negsuc 199) fresh
    ≡ append static_pack (bytes (integer_form (pos 7) (negsuc 199))) fresh
cw_pack_ext_integer-append_example =
    cw_pack_ext_integer-append static_pack x86_matches fresh (pos 7) (negsuc 199) (omega arith)

get_ext_integer-gives_example : get_ext_integer static_unpack got ≡ some (negsuc 199, got)
unfolding meaning be_bytes take drop
get_ext_integer-gives_example =
    get_ext_integer-gives got refl static_unpack x86_matches (pos 7) (omega arith) (negsuc 199)
      (omega arith) (refl, (2, refl, omega arith, refl))

cw_unpack_next_signed-reads_example :
    Consumes static_source packed
      (0xc0 ∷ [])
      (cw_unpack_next_signed8 static_unpack)
      (signed_result 8 (meaning (Format.int16 (negsuc 199))))
    × Consumes static_source packed
        (0xc0 ∷ [])
        (cw_unpack_next_signed16 static_unpack)
        (signed_result 16 (meaning (Format.int16 (negsuc 199))))
    × Consumes static_source packed
        (0xc0 ∷ [])
        (cw_unpack_next_signed32 static_unpack)
        (signed_result 32 (meaning (Format.int16 (negsuc 199))))
    × Consumes static_source packed
        (0xc0 ∷ [])
        (cw_unpack_next_signed64 static_unpack)
        (signed_result 64 (meaning (Format.int16 (negsuc 199))))
unfolding bytes drop
cw_unpack_next_signed-reads_example =
    cw_unpack_next_signed-reads static_source packed (record { within = omega arith; holds = refl })
      refl (0xc0 ∷ []) x86_matches (Format.int16 (negsuc 199)) (omega arith) tt refl

cw_unpack_next_unsigned-reads_example :
    Consumes static_source packed
      (0xc0 ∷ [])
      (cw_unpack_next_unsigned8 static_unpack)
      (unsigned_result 8 (meaning (Format.int16 (negsuc 199))))
    × Consumes static_source packed
        (0xc0 ∷ [])
        (cw_unpack_next_unsigned16 static_unpack)
        (unsigned_result 16 (meaning (Format.int16 (negsuc 199))))
    × Consumes static_source packed
        (0xc0 ∷ [])
        (cw_unpack_next_unsigned32 static_unpack)
        (unsigned_result 32 (meaning (Format.int16 (negsuc 199))))
    × Consumes static_source packed
        (0xc0 ∷ [])
        (cw_unpack_next_unsigned64 static_unpack)
        (unsigned_result 64 (meaning (Format.int16 (negsuc 199))))
unfolding bytes drop
cw_unpack_next_unsigned-reads_example =
    cw_unpack_next_unsigned-reads static_source packed
      (record { within = omega arith; holds = refl }) refl (0xc0 ∷ []) x86_matches
      (Format.int16 (negsuc 199)) (omega arith) tt refl

handle_memory_pack_overflow-MakesRoom_example :
    MakesRoom
      (λ w. [])
      40
      fresh
      (handle_memory_pack_overflow zeros fresh 40).0
      (handle_memory_pack_overflow zeros fresh 40).1
    × (1 ≤ length (handle_memory_pack_overflow zeros fresh 40).1.buffer)
handle_memory_pack_overflow-MakesRoom_example =
    handle_memory_pack_overflow-MakesRoom zeros zeros-Reallocates 40 fresh (omega arith)
      (omega arith)
