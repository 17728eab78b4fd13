-- ===== src/Runs/Files.antt =====
-- Runs of the file contexts.
use cwpack.Prelude.{ℕ, ◌≡◌, refl, false, inl, Option, none, some, List, [], ◌∷◌, ◌++◌, take, arith}
use cwpack.Prelude.Int.{pos, negsuc}
use cwpack.ReturnCode.{rc_ok}
use cwpack.Exec.{Void}
use cwpack.Pack.Blobs.{cw_pack_flush}
use cwpack.Pack.Calls
use cwpack.Pack.Calls.{Call, run_calls}
use cwpack.Pack.Sink.{MakesRoom, output}
use cwpack.Unpack.{item_nil, word64}
use cwpack.Contexts.FilePack.{
  FilePackContext, flush_file_pack_context, keep_from_barrier, handle_file_pack_overflow,
  file_pack_platform, init_file_pack_context, terminate_file_pack_context,
}
use cwpack.Contexts.FileSink.{to_file, since_barrier}
use cwpack.Contexts.FileHandler.{KeepsBarrier, handle_file_pack_overflow-MakesRoom, file_sink}
use cwpack.Contexts.FileLife.{cw_pack_flush-keeps, terminate_file-run_calls}
use cwpack.Contexts.Life.{Delivered}
use cwpack.Contexts.FileUnpack.{FileUnpackContext, handle_file_unpack_underflow}
use cwpack.Contexts.FileOutcome.{IsSound}
use cwpack.Contexts.FileInput.{rescanned, rescan-handle_file_unpack_underflow}
use cwpack.Runs.World.{
  zeros, zeros-Allocates, zeros-Reallocates, zeros-LeavesAlone, zeros-never, whole, one_file,
  one_file-WritesAll, one_file-ReadsFront,
}
use cwpack.Runs.{x86, x86_matches, calls}

-- A buffer of six bytes that holds five, two of them from the barrier on.
abbrev two_kept : FilePackContext (List ℕ)
two_kept = record {
  buffer = 5 ∷ 6 ∷ 7 ∷ 8 ∷ 9 ∷ 0 ∷ [];
  current = 5;
  be_compatible = false;
  return_code = rc_ok;
  err_no = rc_ok;
  handle_pack_overflow = some 1;
  handle_flush = some 2;
  outer = record { file_descriptor = pos 5; barrier = some 3; world = 1 ∷ [] };
}

handle_file_pack_overflow-MakesRoom_example :
    let (rc, pc) = handle_file_pack_overflow zeros one_file two_kept 9 in
    MakesRoom (to_file zeros one_file whole) 9 two_kept rc pc
    × KeepsBarrier zeros one_file whole zeros-Allocates
        (λ fd. zeros-LeavesAlone (whole fd))
        two_kept
        rc
        pc
handle_file_pack_overflow-MakesRoom_example =
    handle_file_pack_overflow-MakesRoom zeros one_file whole zeros-Allocates
      (λ fd. zeros-LeavesAlone (whole fd)) 9 two_kept one_file-WritesAll (omega arith) (omega arith)
      (omega arith) (omega arith) (inl (omega arith))

cw_pack_flush-keeps_example :
    let pc = cw_pack_flush (file_pack_platform zeros one_file x86) two_kept in
    (output (to_file zeros one_file whole) pc ≡ output (to_file zeros one_file whole) two_kept)
    × (take pc.current pc.buffer ≡ since_barrier two_kept)
unfolding cw_pack_flush flush_file_pack_context keep_from_barrier
cw_pack_flush-keeps_example =
    cw_pack_flush-keeps zeros one_file whole zeros-Allocates (λ fd. zeros-LeavesAlone (whole fd))
      x86 one_file-WritesAll two_kept (omega arith) (omega arith) (omega arith) refl

terminate_file-run_calls_example :
    Delivered
      (file_sink zeros one_file whole zeros-Allocates
        (λ fd. zeros-LeavesAlone (whole fd))
        x86
        one_file-WritesAll)
      (terminate_file_pack_context zeros one_file x86)
      (1 ∷ [])
      calls
      (run_calls
        (file_pack_platform zeros one_file x86)
        calls
        (init_file_pack_context zeros one_file x86 1 2 40 (pos 5) two_kept))
terminate_file-run_calls_example =
    terminate_file-run_calls zeros one_file whole zeros-Allocates
      (λ fd. zeros-LeavesAlone (whole fd)) x86 one_file-WritesAll 1 2 40 (pos 5) two_kept
      x86_matches calls (tt, (omega arith, (omega arith, (tt, tt))))

-- Two bytes left in the buffer, a third one behind the barrier, and three in the file. The barrier is
-- at the fourth byte.
abbrev six_left : FileUnpackContext (List ℕ)
six_left = record {
  item = record { type = item_nil; value = word64 0 };
  buffer = 8 ∷ 9 ∷ 1 ∷ 2 ∷ 3 ∷ 4 ∷ [];
  current = 4;
  return_code = rc_ok;
  err_no = rc_ok;
  handle_unpack_underflow = some 1;
  outer = record {
    buffer_length = 6;
    file_descriptor = pos 5;
    barrier = some 3;
    world = 5 ∷ 6 ∷ 7 ∷ [];
  };
}

six_left-IsSound : IsSound zeros one_file whole six_left
six_left-IsSound = record {
  some_room = omega arith;
  fits = omega arith;
  within = omega arith;
  barrier_within = omega arith;
}

rescan-handle_file_unpack_underflow_example :
    rescanned zeros one_file whole zeros-Reallocates zeros-never
      (λ fd. zeros-LeavesAlone (whole fd))
      one_file-ReadsFront
      (handle_file_unpack_underflow zeros one_file six_left 5).1
    ≡ rescanned zeros one_file whole zeros-Reallocates zeros-never
        (λ fd. zeros-LeavesAlone (whole fd))
        one_file-ReadsFront
        six_left
rescan-handle_file_unpack_underflow_example =
    rescan-handle_file_unpack_underflow zeros one_file whole zeros-Reallocates zeros-never
      (λ fd. zeros-LeavesAlone (whole fd)) one_file-ReadsFront 5 six_left six_left-IsSound
      (omega arith)

-- More calls than a buffer of 33 bytes has place for.
abbrev letters : List ℕ
letters = 65 ∷ 66 ∷ 67 ∷ 68 ∷ 69 ∷ 70 ∷ 71 ∷ 72 ∷ 73 ∷ 74 ∷ 75 ∷ 76 ∷ 77 ∷ 78 ∷ 79 ∷ 80 ∷ []

abbrev many_calls : List Call
many_calls =
    Calls.array_size 3 ∷ Calls.str letters ∷ Calls.str letters ∷ Calls.signed (negsuc 199) ∷ []

abbrev empty_file : FilePackContext (List ℕ)
empty_file = record two_kept {
  outer = record { file_descriptor = pos 5; barrier = none; world = [] };
}

abbrev context_of : Option (Void × FilePackContext (List ℕ)) → FilePackContext (List ℕ)
context_of none = empty_file
context_of (some (_, pc)) = pc

abbrev last : FilePackContext (List ℕ)
last = context_of (
    run_calls (file_pack_platform zeros one_file x86) many_calls
      (init_file_pack_context zeros one_file x86 1 2 33 (pos 5) empty_file))

-- The file that is read.
abbrev written : FileUnpackContext (List ℕ)
written = record six_left {
  outer = record {
    buffer_length = 0;
    file_descriptor = pos 5;
    barrier = none;
    world = 0x93 ∷ 0xb0 ∷ (letters ++ (0xb0 ∷ (letters ++ (0xd1 ∷ 0xff ∷ 0x38 ∷ []))));
  };
}
