-- ===== src/Contexts/FilePack.antt =====
-- The file pack context of goodies/basic-contexts/basic_contexts.c.
use cwpack.Prelude.{ℕ, ◌+◌, ◌-◌, Option, none, some, length, take, drop, ltb, if◌then◌else◌}
use cwpack.Prelude.Int.{ℤ, pos, ◌==ℤ◌}
use cwpack.ReturnCode.{rc_ok, rc_buffer_overflow, rc_error_in_handler, rc_malloc_error, is_error}
use cwpack.Wire.{Build}
use cwpack.Pack.{PackContext, Platform, overwrite, cw_pack_context_init, cw_pack_set_flush_handler}
use cwpack.Pack.Blobs.{cw_pack_flush}
use cwpack.Contexts.Memory.{Heap, grow}
use cwpack.Contexts.Barrier.{barrier_or, to_start}
use cwpack.Contexts.Unix.{Unix, copy_down}

-- The members of file_pack_context besides `pc`, and the world of the C library.
pub record PackFile (V : Type 0) : Type 0 where
  pub file_descriptor : ℤ
  pub barrier : Option ℕ
  pub world : V

abbrev pub FilePackContext : Type 0 → Type 0
FilePackContext V = PackContext (PackFile V)

abbrev pub pack_start : {V : Type 0} → FilePackContext V → ℕ
pack_start pc = barrier_or pc.outer.barrier pc.current

module _ {V : Type 0} where
  abbrev pub set_world : V → FilePackContext V → FilePackContext V
  set_world world pc = record pc { outer = record pc.outer { world = world } }

  -- Behind the write.
  unfoldable pub keep_from_barrier : Unix V → FilePackContext V → FilePackContext V
  unfolding copy_down
  keep_from_barrier unix pc = elim pc.outer.barrier [
    | none ↦ record pc { current = 0 }
    | some bstart ↦
        let kept = pc.current - bstart in
        record pc {
          buffer = copy_down unix pc.buffer bstart kept;
          current = kept;
          outer = record pc.outer { barrier = some 0 };
        }
  ]

  unfoldable pub file_pack_context_set_barrier : FilePackContext V → FilePackContext V
  file_pack_context_set_barrier fpc = record fpc {
    outer = record fpc.outer { barrier = some fpc.current };
  }

  unfoldable pub file_pack_context_release_barrier : FilePackContext V → FilePackContext V
  file_pack_context_release_barrier fpc = record fpc { outer = record fpc.outer { barrier = none } }

module _ {V : Type 0} (heap : Heap V) (unix : Unix V) where
  unfoldable pub flush_file_pack_context : FilePackContext V → ℤ × FilePackContext V
  unfolding keep_from_barrier
  flush_file_pack_context pc =
      let contains = pack_start pc in
      let (rc, world) = unix.write pc.outer.file_descriptor pc.buffer contains pc.outer.world in
      if ltb 0 contains
      then (if rc ==ℤ pos contains
          then (rc_ok, keep_from_barrier unix (set_world world pc))
          else (rc_error_in_handler, record (set_world world pc) { err_no = unix.errno world }))
      else (rc_ok, keep_from_barrier unix pc)

  -- Behind the loop, as in Memory. The old block is not released.
  unfoldable pub larger_block : Option ℕ → ℕ → FilePackContext V → ℤ × FilePackContext V
  unfolding overwrite take drop
  larger_block none kept pc = (rc_buffer_overflow, pc)
  larger_block (some buffer_length) kept pc =
      let (block, world) = heap.malloc buffer_length pc.outer.world in
      elim block [
        | none ↦ (rc_buffer_overflow, set_world world pc)
        | some new_buffer ↦
            let bytes = take kept (drop (pack_start pc) pc.buffer) in
            (rc_ok, record (set_world world pc) { buffer = overwrite new_buffer 0 bytes })
      ]

  -- Behind the flush.
  unfoldable pub empty_file_buffer : ℕ → FilePackContext V → ℤ × FilePackContext V
  unfolding grow larger_block copy_down
  empty_file_buffer more pc =
      let bstart = pack_start pc in
      let kept = pc.current - bstart in
      let buffer_length = length pc.buffer in
      let (rc, pc') =
        if ltb buffer_length (more + kept)
        then larger_block (grow (more + kept) buffer_length (more + kept)) kept pc
        else (rc_ok, record pc { buffer = copy_down unix pc.buffer bstart kept }) in
      if is_error rc then (rc, pc') else (
        rc_ok,
        record pc' {
          current = kept;
          outer = record pc'.outer { barrier = to_start pc.outer.barrier };
        },
      )

  unfoldable pub handle_file_pack_overflow : FilePackContext V → ℕ → ℤ × FilePackContext V
  unfolding flush_file_pack_context empty_file_buffer
  handle_file_pack_overflow pc more =
      let (rc, pc') = flush_file_pack_context pc in
      if is_error rc then (rc, pc') else empty_file_buffer more pc'

  -- Every handler of a file pack context is one of these two.
  abbrev pub file_pack_platform : Build → Platform (PackFile V)
  file_pack_platform b = record {
    build = b;
    pack_overflow = λ f pc more. handle_file_pack_overflow pc more;
    flush = λ f pc. flush_file_pack_context pc;
  }

  -- `overflow` and `flush` are the addresses of the handlers.
  unfoldable pub init_file_pack_context :
      Build → (overflow flush initial_buffer_length : ℕ) → ℤ → FilePackContext V → FilePackContext V
  init_file_pack_context b overflow flush initial_buffer_length file_descriptor fpc =
      let buffer_length = if ltb 32 initial_buffer_length then initial_buffer_length else 4096 in
      let (block, world) = heap.malloc buffer_length fpc.outer.world in
      elim block [
        | none ↦ record (set_world world fpc) { return_code = rc_malloc_error }
        | some buffer ↦
            let outer : PackFile V = record {
              file_descriptor = file_descriptor;
              barrier = none;
              world = world;
            } in
            cw_pack_set_flush_handler (cw_pack_context_init b buffer (some overflow) outer).1 flush
      ]

  unfoldable pub terminate_file_pack_context : Build → FilePackContext V → FilePackContext V
  unfolding cw_pack_flush flush_file_pack_context
  terminate_file_pack_context b fpc =
      let pc = cw_pack_flush (file_pack_platform b) (file_pack_context_release_barrier fpc) in
      if pc.return_code ==ℤ rc_malloc_error
      then pc
      else set_world (heap.free pc.buffer pc.outer.world) pc
