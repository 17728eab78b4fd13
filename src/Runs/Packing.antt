-- ===== src/Runs/Packing.antt =====
-- Runs of the packing routines, of the stores and loads.
use cwpack.Prelude.{length, ◌≤◌, ◌%◌, ◌^◌, ◌≡◌, refl, false, some, [], ◌∷◌, arith}
use cwpack.Prelude.Int.{pos}
use cwpack.Wire.{be_bytes, cw_store16, cw_store32, cw_store64, cw_load16, cw_load32, cw_load64}
use cwpack.Wire.Store.{cw_store-be_bytes}
use cwpack.Wire.RoundTrip.{cw_load-cw_store}
use cwpack.Format
use cwpack.Format.{bytes, meaning}
use cwpack.Format.Choice.{string_form, binary_form}
use cwpack.Pack.Blobs.{cw_pack_str, cw_pack_bin}
use cwpack.Pack.Emit.{append}
use cwpack.Pack.Sink.{Appended, append-Appended}
use cwpack.Pack.Encode.Strings.{cw_pack_str-append, cw_pack_bin-append}
use cwpack.Pack.Calls
use cwpack.Pack.Calls.{Call, run_call, run_calls, call_form}
use cwpack.Pack.Calls.Shortest.{call_of, run_call-shortest}
use cwpack.Format.Shortest.{form_of}
use cwpack.Pack.Calls.Stopped.{run_calls-stopped}
use cwpack.Pack.Calls.Outcome.{Outcome, outcome}
use cwpack.Pack.Calls.Output.{Packed, run_calls-output}
use cwpack.Runs.{x86, x86_matches, static_pack, static_sink, fresh, failed, calls}

run_calls-output_example : Packed static_sink fresh calls (run_calls static_pack calls fresh)
run_calls-output_example =
    run_calls-output static_sink x86_matches calls fresh
      (tt, (omega arith, (omega arith, (tt, tt)))) (record { within = omega arith; holds = refl })

run_calls-stopped_example : run_calls static_pack calls failed ≡ some (tt, failed)
run_calls-stopped_example = run_calls-stopped static_pack failed refl calls

outcome_example :
    Outcome static_pack
      (Calls.time (pos 5) 1_000_000_000)
      fresh
      (call_form false (Calls.time (pos 5) 1_000_000_000))
outcome_example =
    outcome static_pack x86_matches fresh (omega arith) (Calls.time (pos 5) 1_000_000_000)
      (omega arith)

append-Appended_example :
    Appended static_sink fresh (1 ∷ 2 ∷ 3 ∷ []) (append static_pack (1 ∷ 2 ∷ 3 ∷ []) fresh)
append-Appended_example =
    append-Appended static_sink (1 ∷ 2 ∷ 3 ∷ []) fresh
      (record { within = omega arith; holds = refl })

cw_pack_str-append_example :
    cw_pack_str static_pack (65 ∷ 66 ∷ []) fresh
    ≡ append static_pack (bytes (string_form false (65 ∷ 66 ∷ []))) fresh
cw_pack_str-append_example =
    cw_pack_str-append static_pack x86_matches (65 ∷ 66 ∷ []) (omega arith) fresh

cw_pack_bin-append_example :
    cw_pack_bin static_pack (1 ∷ 2 ∷ []) fresh
    ≡ append static_pack (bytes (binary_form false (1 ∷ 2 ∷ []))) fresh
cw_pack_bin-append_example =
    cw_pack_bin-append static_pack x86_matches (1 ∷ 2 ∷ []) (omega arith) fresh

cw_store-be_bytes_example :
    (cw_store16 x86 258 ≡ be_bytes 2 258)
    × (cw_store32 x86 258 ≡ be_bytes 4 258)
    × (cw_store64 x86 258 ≡ be_bytes 8 258)
cw_store-be_bytes_example = cw_store-be_bytes x86 258 x86_matches

cw_load-cw_store_example :
    (cw_load16 x86 (cw_store16 x86 65537) ≡ 65537 % 2 ^ 16)
    × (cw_load32 x86 (cw_store32 x86 65537) ≡ 65537 % 2 ^ 32)
    × (cw_load64 x86 (cw_store64 x86 65537) ≡ 65537 % 2 ^ 64)
cw_load-cw_store_example = cw_load-cw_store x86 65537 x86_matches

-- 200 in 32 bits, which cw_pack_unsigned packs in 8.
run_call-shortest_example :
    (run_call static_pack (call_of (meaning (Format.uint32 200))) fresh
      ≡ append static_pack (bytes (form_of (meaning (Format.uint32 200)))) fresh)
    × (meaning (form_of (meaning (Format.uint32 200))) ≡ meaning (Format.uint32 200))
    × (length (bytes (form_of (meaning (Format.uint32 200)))) ≤ length (bytes (Format.uint32 200)))
unfolding meaning
run_call-shortest_example =
    run_call-shortest static_pack x86_matches fresh (omega arith) refl (Format.uint32 200)
      (omega arith) tt
