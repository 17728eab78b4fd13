-- ===== src/Contexts/StreamPack.antt =====
-- The stream pack context of goodies/basic-contexts/basic_contexts.c.
use cwpack.Prelude.{ℕ, Option, none, some, length, ltb, ◌==◌, if◌then◌else◌}
use cwpack.Prelude.Int.{ℤ, ◌==ℤ◌}
use cwpack.ReturnCode.{rc_ok, rc_buffer_overflow, rc_error_in_handler, rc_malloc_error, is_error}
use cwpack.Wire.{Build}
use cwpack.Pack.{PackContext, Platform, cw_pack_context_init, cw_pack_set_flush_handler}
use cwpack.Pack.Blobs.{cw_pack_flush}
use cwpack.Contexts.Memory.{Heap, grow}
use cwpack.Contexts.Stdio.{Stdio}

-- The member `file` of stream_pack_context, and the world of the C library.
pub record Stream (V : Type 0) : Type 0 where
  pub file : ℕ
  pub world : V

abbrev pub StreamPackContext : Type 0 → Type 0
StreamPackContext V = PackContext (Stream V)

module _ {V : Type 0} (heap : Heap V) (stdio : Stdio V) where
  -- `contains` is `current`, as an offset. The context is left as it is, `current` too.
  unfoldable pub flush_stream_pack_context : StreamPackContext V → ℤ × StreamPackContext V
  flush_stream_pack_context pc =
      let contains = pc.current in
      let (rc, world) = stdio.fwrite pc.buffer contains 1 pc.outer.file pc.outer.world in
      let outer = record pc.outer { world = world } in
      if ltb 0 contains
      then (if rc == 1 then (rc_ok, record pc { outer = outer }) else (
        rc_error_in_handler,
        record pc { err_no = stdio.ferror pc.outer.file world; outer = outer },
      ))
      else (rc_ok, pc)

  -- Behind the loop, as in Memory.
  unfoldable pub replace_block : Option ℕ → StreamPackContext V → ℤ × StreamPackContext V
  replace_block none pc = (rc_buffer_overflow, pc)
  replace_block (some buffer_length) pc =
      let (block, world) = heap.malloc buffer_length pc.outer.world in
      elim block [
        | none ↦ (rc_buffer_overflow, record pc { outer = record pc.outer { world = world } })
        | some new_buffer ↦ (
          rc_ok,
          record pc {
            buffer = new_buffer;
            outer = record pc.outer { world = heap.free pc.buffer world };
          },
        )
      ]

  -- Behind the flush.
  unfoldable pub empty_stream_buffer : ℕ → StreamPackContext V → ℤ × StreamPackContext V
  unfolding grow replace_block
  empty_stream_buffer more pc =
      let buffer_length = length pc.buffer in
      let (rc, pc') =
        if ltb buffer_length more
        then replace_block (grow more buffer_length more) pc
        else (rc_ok, pc) in
      if is_error rc then (rc, pc') else (rc_ok, record pc' { current = 0 })

  unfoldable pub handle_stream_pack_overflow : StreamPackContext V → ℕ → ℤ × StreamPackContext V
  unfolding flush_stream_pack_context empty_stream_buffer
  handle_stream_pack_overflow pc more =
      let (rc, pc') = flush_stream_pack_context pc in
      if is_error rc then (rc, pc') else empty_stream_buffer more pc'

  -- Every handler of a stream pack context is one of these two.
  abbrev pub stream_pack_platform : Build → Platform (Stream V)
  stream_pack_platform b = record {
    build = b;
    pack_overflow = λ f pc more. handle_stream_pack_overflow pc more;
    flush = λ f pc. flush_stream_pack_context pc;
  }

  -- `overflow` and `flush` are the addresses of the handlers.
  unfoldable pub init_stream_pack_context :
      Build
      → (overflow flush : ℕ) → (initial_buffer_length file : ℕ) → StreamPackContext V
      → StreamPackContext V
  init_stream_pack_context b overflow flush initial_buffer_length file spc =
      let buffer_length = if ltb 0 initial_buffer_length then initial_buffer_length else 4096 in
      let (block, world) = heap.malloc buffer_length spc.outer.world in
      elim block [
        | none ↦ record spc {
          return_code = rc_malloc_error;
          outer = record spc.outer { world = world };
        }
        | some buffer ↦
            let outer : Stream V = record { file = file; world = world } in
            cw_pack_set_flush_handler (cw_pack_context_init b buffer (some overflow) outer).1 flush
      ]

  unfoldable pub terminate_stream_pack_context : Build → StreamPackContext V → StreamPackContext V
  unfolding cw_pack_flush flush_stream_pack_context
  terminate_stream_pack_context b spc =
      let pc = cw_pack_flush (stream_pack_platform b) spc in
      if pc.return_code ==ℤ rc_malloc_error
      then pc
      else record pc { outer = record pc.outer { world = heap.free pc.buffer pc.outer.world } }
