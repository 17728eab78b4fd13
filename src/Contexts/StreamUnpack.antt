-- ===== src/Contexts/StreamUnpack.antt =====
-- The stream unpack context of goodies/basic-contexts/basic_contexts.c.
use cwpack.Prelude.{ℕ, ◌-◌, ◌==◌, none, some, [], ◌++◌, length, take, ltb, if◌then◌else◌}
use cwpack.Prelude.Int.{ℤ, ◌==ℤ◌}
use cwpack.ReturnCode.{rc_ok, rc_end_of_input, rc_error_in_handler, rc_malloc_error, is_error}
use cwpack.Wire.{Build}
use cwpack.Unpack.{UnpackContext, Platform, cw_unpack_context_init}
use cwpack.Contexts.Memory.{Heap}
use cwpack.Contexts.Stdio.{Stdio}
use cwpack.Contexts.Unix.{move_down}
use cwpack.Contexts.Refill.{ensure_length}

-- The members of stream_unpack_context besides `uc`, and the world of the C library.
pub record StreamInput (V : Type 0) : Type 0 where
  pub buffer_length : ℕ
  pub file : ℕ
  pub world : V

abbrev pub StreamUnpackContext : Type 0 → Type 0
StreamUnpackContext V = UnpackContext (StreamInput V)

module _ {V : Type 0} (heap : Heap V) (stdio : Stdio V) where
  -- The call of fread behind the `remains` bytes at the start, and what follows.
  unfoldable pub fill_stream_buffer : ℕ → StreamUnpackContext V → ℤ × StreamUnpackContext V
  unfolding take
  fill_stream_buffer remains uc =
      let suc = uc.outer in
      let (bytes, world) = stdio.fread 1 (suc.buffer_length - remains) suc.file suc.world in
      let uc' = record uc {
        buffer = take remains uc.buffer ++ bytes;
        current = 0;
        outer = record suc { world = world };
      } in
      if length bytes == 0
      then (if stdio.feof suc.file world
          then (rc_end_of_input, uc')
          else (rc_error_in_handler, record uc' { err_no = stdio.ferror suc.file world }))
      else (rc_ok, uc')

  -- memmove copies the same bytes as a copy from the front.
  unfoldable pub handle_stream_unpack_underflow :
      StreamUnpackContext V → ℕ → ℤ × StreamUnpackContext V
  unfolding move_down ensure_length fill_stream_buffer
  handle_stream_unpack_underflow uc more =
      let suc = uc.outer in
      let remains = length uc.buffer - uc.current in
      let r =
        ensure_length heap more (move_down uc.buffer uc.current remains) suc.buffer_length
          suc.world in
      let uc' = record uc {
        buffer = r.block;
        outer = record suc { buffer_length = r.buffer_length; world = r.world };
      } in
      if is_error r.rc then (r.rc, uc') else fill_stream_buffer remains uc'

  -- The handler of a stream unpack context is this one.
  abbrev pub stream_unpack_platform : Build → Platform (StreamInput V)
  stream_unpack_platform b = record {
    build = b;
    unpack_underflow = λ f uc more. handle_stream_unpack_underflow uc more;
  }

  -- `underflow` is the address of the handler. The buffer holds no bytes yet.
  unfoldable pub init_stream_unpack_context :
      Build
      → (underflow initial_buffer_length file : ℕ) → StreamUnpackContext V
      → StreamUnpackContext V
  unfolding cw_unpack_context_init
  init_stream_unpack_context b underflow initial_buffer_length file suc =
      let buffer_length = if ltb 0 initial_buffer_length then initial_buffer_length else 1024 in
      let (block, world) = heap.malloc buffer_length suc.outer.world in
      elim block [
        | none ↦ record suc {
          return_code = rc_malloc_error;
          outer = record suc.outer { world = world };
        }
        | some buffer ↦
            let outer : StreamInput V = record {
              buffer_length = buffer_length;
              file = file;
              world = world;
            } in
            (cw_unpack_context_init b suc.item [] (some underflow) outer).1
      ]

  pub terminate_stream_unpack_context : StreamUnpackContext V → StreamUnpackContext V
  terminate_stream_unpack_context suc =
      if suc.return_code ==ℤ rc_malloc_error
      then suc
      else record suc { outer = record suc.outer { world = heap.free suc.buffer suc.outer.world } }
