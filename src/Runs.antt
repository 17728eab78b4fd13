-- ===== src/Runs.antt =====
-- Runs of the library on memory of a fixed size.
mod Packing
mod Unpacking
mod World
mod Streams
mod Files
mod Guards
mod Goodies
mod Floats
mod Back
use cwpack.Prelude.{
  length, ◌≤◌, Option, take, ℕ, ◌%◌, ◌^◌, ◌≡◌, refl, true, false, none, some, List, [], ◌∷◌, drop,
  arith,
}
use cwpack.Prelude.Int.{pos, negsuc}
use cwpack.ReturnCode.{rc_ok, rc_end_of_input, rc_buffer_overflow, rc_illegal_call}
use cwpack.Exec.{Void, continue}
use cwpack.Wire.{
  Build, build, little_endian, little, be_bytes, cw_store16, cw_store32, cw_store64, cw_load16,
  cw_load32, cw_load64, byte_order_matches,
}
use cwpack.Wire.Store.{cw_store-be_bytes}
use cwpack.Wire.RoundTrip.{cw_load-cw_store}
use cwpack.Format
use cwpack.Format.{bytes, meaning}
use cwpack.Format.Choice.{signed_form, string_form, binary_form, extension_form, timestamp_form}
use cwpack.Pack
use cwpack.Pack.{PackContext}
use cwpack.Pack.Numbers.{cw_pack_signed}
use cwpack.Pack.Blobs.{cw_pack_str, cw_pack_bin, cw_pack_ext, cw_pack_time}
use cwpack.Pack.Emit.{append}
use cwpack.Pack.Sink.{Sink, Appended, append-Appended}
use cwpack.Pack.Encode.Numbers.{cw_pack_signed-append}
use cwpack.Pack.Encode.Strings.{cw_pack_str-append, cw_pack_bin-append}
use cwpack.Pack.Encode.Extensions.{cw_pack_ext-append}
use cwpack.Pack.Encode.Time.{cw_pack_time-append}
use cwpack.Pack.Calls
use cwpack.Pack.Calls.{Call, run_call, run_calls, call_form}
use cwpack.Pack.Calls.Shortest.{call_of, run_call-shortest}
use cwpack.Format.Shortest.{form_of}
use cwpack.Pack.Calls.Stopped.{run_calls-stopped}
use cwpack.Pack.Calls.Outcome.{Outcome, outcome}
use cwpack.Pack.Calls.Output.{Packed, run_calls-output}
use cwpack.Unpack.Next.Time.{cw_unpack_next-reads_time}
use cwpack.Unpack.LookAhead.{cw_look_ahead}
use cwpack.Unpack.LookAhead.Types.{type_of, cw_look_ahead-type_of}
use cwpack.Unpack.Skip.{cw_skip_items}
use cwpack.Unpack.Skip.Whole.{cw_skip_items-skips}
use cwpack.NumericExtensions.{cw_pack_ext_integer, get_ext_integer}
use cwpack.NumericExtensions.Packed.{integer_form, cw_pack_ext_integer-append}
use cwpack.NumericExtensions.Unpacked.{get_ext_integer-gives}
use cwpack.Utils.{
  cw_unpack_next_signed8, cw_unpack_next_signed16, cw_unpack_next_signed32, cw_unpack_next_signed64,
  cw_unpack_next_unsigned8, cw_unpack_next_unsigned16, cw_unpack_next_unsigned32,
  cw_unpack_next_unsigned64,
}
use cwpack.Utils.Results.{signed_result, unsigned_result}
use cwpack.Utils.Expected.{Consumes, cw_unpack_next_signed-reads, cw_unpack_next_unsigned-reads}
use cwpack.Unpack
use cwpack.Unpack.{
  Item, UnpackContext, item_timestamp, time, word64, blob, cw_unpack_assert_space, item_nil,
  item_negative_integer,
}
use cwpack.Unpack.Source.{Source, Moved, input, assert_space_lem}
use cwpack.Unpack.Safety.{Guard}
use cwpack.Unpack.Next.{cw_unpack_next}
use cwpack.Unpack.Next.Items.{At, IsItem}
use cwpack.Unpack.Next.Every.{cw_unpack_next-reads}

abbrev x86 : Build
x86 = build little_endian little false

x86_matches : byte_order_matches x86 ≡ true
unfolding byte_order_matches
x86_matches = refl

no_handler : {f : ℕ} {h : Option ℕ} → h ≡ some f → h ≡ none → ⊥
no_handler e none_there = cc

-- No handler is ever called.
abbrev static_pack : Pack.Platform Void
static_pack = record {
  build = x86;
  pack_overflow = λ f pc more. (rc_buffer_overflow, pc);
  flush = λ f pc. (rc_illegal_call, pc);
}

abbrev static_sink : Sink static_pack
static_sink = record {
  flushed = λ w. [];
  Holds = λ h n p w. h ≡ none;
  later = λ h n p q w le holds. holds;
  makes_room = λ f more pc e within holds. absurd (no_handler e holds);
  holds_on = λ f more pc e within holds. holds;
}

abbrev sixteen : List ℕ
sixteen = 0 ∷ 0 ∷ 0 ∷ 0 ∷ 0 ∷ 0 ∷ 0 ∷ 0 ∷ 0 ∷ 0 ∷ 0 ∷ 0 ∷ 0 ∷ 0 ∷ 0 ∷ 0 ∷ []

abbrev fresh : PackContext Void
fresh = record {
  buffer = sixteen;
  current = 0;
  be_compatible = false;
  return_code = rc_ok;
  err_no = rc_ok;
  handle_pack_overflow = none;
  handle_flush = none;
  outer = tt;
}

abbrev failed : PackContext Void
failed = record fresh { return_code = rc_buffer_overflow }

abbrev calls : List Call
calls =
    Calls.array_size 3 ∷ Calls.str (65 ∷ 66 ∷ []) ∷ Calls.signed (negsuc 199) ∷ Calls.nil_call ∷ []

abbrev static_unpack : Unpack.Platform Void
static_unpack = record { build = x86; unpack_underflow = λ f uc more. (rc_end_of_input, uc) }

abbrev static_source : Source static_unpack
static_source = record {
  pending = λ w. [];
  Holds = λ h n p w. h ≡ none;
  later = λ h n p q w le holds. holds;
  dry = λ n p w h. refl;
  brings = λ f more uc e within holds lacks there. absurd (no_handler e holds);
  holds_on = λ f more uc e within holds lacks. holds;
}

abbrev static_guard : Guard static_unpack
static_guard = record {
  Holds = λ h n p w. h ≡ none;
  later = λ h n p q w le holds. holds;
  answers = λ f more uc e within holds lacks. absurd (no_handler e holds);
}

-- int 16 of -200, and then nil.
abbrev packed : UnpackContext Void
packed = record {
  item = record { type = item_nil; value = word64 0 };
  buffer = 0xd1 ∷ 0xff ∷ 0x38 ∷ 0xc0 ∷ [];
  current = 0;
  return_code = rc_ok;
  err_no = rc_ok;
  handle_unpack_underflow = none;
  outer = tt;
}

-- The item behind a fixext 2 of type 7.
abbrev got : UnpackContext Void
got = record {
  item = record { type = pos 7; value = blob 2 2 };
  buffer = 0xd5 ∷ 0x07 ∷ 0xff ∷ 0x38 ∷ [];
  current = 4;
  return_code = rc_ok;
  err_no = rc_ok;
  handle_unpack_underflow = none;
  outer = tt;
}

-- An array of an integer and a map of one pair, and then nil.
abbrev nested : UnpackContext Void
nested = record packed { buffer = 0x92 ∷ 0xcc ∷ 0xc8 ∷ 0x81 ∷ 0x01 ∷ 0xa1 ∷ 0x41 ∷ 0xc0 ∷ [] }

-- Timestamp 64: a second and a nanosecond after 1970, and then nil.
abbrev moment : UnpackContext Void
moment = record packed {
  buffer = 0xd7 ∷ 0xff ∷ 0x00 ∷ 0x00 ∷ 0x00 ∷ 0x04 ∷ 0x00 ∷ 0x00 ∷ 0x00 ∷ 0x01 ∷ 0xc0 ∷ [];
}
