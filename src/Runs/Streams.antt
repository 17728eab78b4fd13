-- ===== src/Runs/Streams.antt =====
-- Runs of the stream contexts.
use cwpack.Prelude.{ℕ, ◌≡◌, refl, false, some, List, [], ◌∷◌, ◌++◌, take, drop, arith}
use cwpack.ReturnCode.{rc_ok}
use cwpack.Exec.{fault}
use cwpack.Pack.Blobs.{cw_pack_flush}
use cwpack.Pack.Calls.{run_calls}
use cwpack.Pack.Sink.{output}
use cwpack.Unpack.{item_nil, word64, take_bytes}
use cwpack.Contexts.StreamPack.{
  StreamPackContext, flush_stream_pack_context, stream_pack_platform, init_stream_pack_context,
  terminate_stream_pack_context,
}
use cwpack.Contexts.StreamSink.{to_stream, stream_sink}
use cwpack.Contexts.StreamLife.{cw_pack_flush-repeats, terminate_stream-run_calls}
use cwpack.Contexts.Life.{Delivered}
use cwpack.Contexts.StreamUnpack.{
  StreamUnpackContext, handle_stream_unpack_underflow, stream_unpack_platform,
}
use cwpack.Contexts.StreamSource.{Refilled, handle_stream_unpack_underflow-Refilled}
use cwpack.Contexts.StreamEnd.{take_bytes-overruns}
use cwpack.Runs.World.{
  zeros, zeros-Allocates, zeros-Reallocates, zeros-LeavesAlone, zeros-never, whole, one_stream,
  one_stream-Writes, one_stream-Reads,
}
use cwpack.Runs.{x86, x86_matches, calls}

-- A buffer of four bytes that holds three, and a file that holds one.
abbrev three_packed : StreamPackContext (List ℕ)
three_packed = record {
  buffer = 7 ∷ 8 ∷ 9 ∷ 0 ∷ [];
  current = 3;
  be_compatible = false;
  return_code = rc_ok;
  err_no = rc_ok;
  handle_pack_overflow = some 1;
  handle_flush = some 2;
  outer = record { file = 5; world = 1 ∷ [] };
}

cw_pack_flush-repeats_example :
    output
      (to_stream zeros one_stream whole)
      (cw_pack_flush (stream_pack_platform zeros one_stream x86) three_packed)
    ≡ output (to_stream zeros one_stream whole) three_packed ++ (7 ∷ 8 ∷ 9 ∷ [])
unfolding take cw_pack_flush flush_stream_pack_context
cw_pack_flush-repeats_example =
    cw_pack_flush-repeats zeros one_stream whole zeros-Allocates
      (λ file. zeros-LeavesAlone (whole file)) x86 one_stream-Writes three_packed (omega arith) refl

-- A buffer of four bytes, which is too small for the calls.
terminate_stream-run_calls_example :
    Delivered
      (stream_sink zeros one_stream whole zeros-Allocates
        (λ file. zeros-LeavesAlone (whole file))
        x86
        one_stream-Writes)
      (terminate_stream_pack_context zeros one_stream x86)
      (1 ∷ [])
      calls
      (run_calls
        (stream_pack_platform zeros one_stream x86)
        calls
        (init_stream_pack_context zeros one_stream x86 1 2 4 5 three_packed))
terminate_stream-run_calls_example =
    terminate_stream-run_calls zeros one_stream whole zeros-Allocates
      (λ file. zeros-LeavesAlone (whole file)) x86 one_stream-Writes 1 2 4 5 three_packed
      x86_matches calls (tt, (omega arith, (omega arith, (tt, tt))))

-- Two bytes left in the buffer, and three in the file.
abbrev five_left : StreamUnpackContext (List ℕ)
five_left = record {
  item = record { type = item_nil; value = word64 0 };
  buffer = 1 ∷ 2 ∷ 3 ∷ 4 ∷ [];
  current = 2;
  return_code = rc_ok;
  err_no = rc_ok;
  handle_unpack_underflow = some 1;
  outer = record { buffer_length = 4; file = 5; world = 5 ∷ 6 ∷ 7 ∷ [] };
}

handle_stream_unpack_underflow-Refilled_example :
    Refilled zeros one_stream whole 5 five_left
      (handle_stream_unpack_underflow zeros one_stream five_left 5)
handle_stream_unpack_underflow-Refilled_example =
    handle_stream_unpack_underflow-Refilled zeros one_stream whole zeros-Reallocates
      (λ file. zeros-LeavesAlone (whole file)) one_stream-Reads 5 five_left
      (omega arith, omega arith) (omega arith) (omega arith)

-- Eight bytes of five.
take_bytes-overruns_example :
    take_bytes (stream_unpack_platform zeros one_stream x86) tt 8 five_left ≡ fault
unfolding drop
take_bytes-overruns_example =
    take_bytes-overruns zeros one_stream whole zeros-Reallocates zeros-never
      (λ file. zeros-LeavesAlone (whole file)) one_stream-Reads 8 five_left
      (omega arith, omega arith) (omega arith) (omega arith) tt x86 1 refl (omega arith)
      (omega arith)
