-- ===== src/Runs/Back.antt =====
-- A run that packs and unpacks.
use cwpack.Prelude.{take, ◌≡◌, refl, false, some, List, [], ◌∷◌, drop, arith}
use cwpack.Exec.{Void}
use cwpack.Wire.{cw_store16}
use cwpack.Pack.{PackContext}
use cwpack.Pack.Numbers.{cw_pack_signed}
use cwpack.Pack.Blobs.{cw_pack_str}
use cwpack.Pack.Calls.{run_call, run_calls}
use cwpack.Unpack.{UnpackContext}
use cwpack.Pack.{
  try_move0, try_move2, cw_pack_reserve_space, write, advance, overwrite, unless_stopped,
}
use cwpack.Pack.Numbers.{cw_pack_array_size, cw_pack_nil}
use cwpack.Format.{Form}
use cwpack.RoundTrip.Items.{Gets}
use cwpack.RoundTrip.Calls.{Forms, unpack-run_calls}
use cwpack.Runs.{x86_matches, static_pack, static_sink, fresh, calls, static_source, packed}

-- What the calls leave on sixteen bytes of memory.
abbrev written : PackContext Void
written = record fresh {
  buffer = 0x93 ∷ 0xa2 ∷ 65 ∷ 66 ∷ 0xd1 ∷ 0xff ∷ 0x38 ∷ 0xc0 ∷ 0 ∷ 0 ∷ 0 ∷ 0 ∷ 0 ∷ 0 ∷ 0 ∷ 0 ∷ [];
  current = 8;
}

run_calls-written : run_calls static_pack calls fresh ≡ some (tt, written)
unfolding run_calls run_call cw_pack_array_size cw_pack_str cw_pack_signed cw_pack_nil try_move0
    try_move2 cw_pack_reserve_space write advance overwrite unless_stopped cw_store16
run_calls-written = refl

-- The same bytes to be unpacked.
abbrev read_back : UnpackContext Void
read_back = record packed { buffer = 0x93 ∷ 0xa2 ∷ 65 ∷ 66 ∷ 0xd1 ∷ 0xff ∷ 0x38 ∷ 0xc0 ∷ [] }

unpack-run_calls_example :
    (fs : List Form) × Forms false calls fs × Gets static_source [] fs read_back
unfolding drop take
unpack-run_calls_example =
    unpack-run_calls static_sink static_source x86_matches x86_matches calls fresh written read_back
      (omega arith, ((omega arith, (omega arith, (omega arith, tt))), (omega arith, (tt, tt))))
      (record { within = omega arith; holds = refl }) refl run_calls-written refl
      (record { within = omega arith; holds = refl }) refl refl
