-- ===== src/Contexts/FileUnpack.antt =====
-- The file unpack context of goodies/basic-contexts/basic_contexts.c.
use cwpack.Prelude.{
  ℕ, zero, suc, ◌+◌, ◌-◌, true, false, Option, none, some, [], ◌∷◌, ◌++◌, length, take, ltb,
  if◌then◌else◌,
}
use cwpack.Prelude.Int.{ℤ, ◌==ℤ◌}
use cwpack.ReturnCode.{rc_ok, rc_end_of_input, rc_error_in_handler, rc_malloc_error, is_error}
use cwpack.Wire.{Build}
use cwpack.Unpack.{UnpackContext, Platform, cw_unpack_context_init}
use cwpack.Contexts.Memory.{Heap}
use cwpack.Contexts.Barrier.{barrier_or, to_start}
use cwpack.Contexts.Unix.{Unix, copy_down}
use cwpack.Contexts.Refill.{ensure_length}

-- The members of file_unpack_context besides `uc`, and the world of the C library.
pub record UnpackFile (V : Type 0) : Type 0 where
  pub buffer_length : ℕ
  pub file_descriptor : ℤ
  pub barrier : Option ℕ
  pub world : V

abbrev pub FileUnpackContext : Type 0 → Type 0
FileUnpackContext V = UnpackContext (UnpackFile V)

abbrev pub unpack_start : {V : Type 0} → FileUnpackContext V → ℕ
unpack_start uc = barrier_or uc.outer.barrier uc.current

module _ {V : Type 0} where
  unfoldable pub file_unpack_context_set_barrier : FileUnpackContext V → FileUnpackContext V
  file_unpack_context_set_barrier fuc = record fuc {
    outer = record fuc.outer { barrier = some fuc.current };
  }

  -- Without a barrier `current` becomes NULL: `none`.
  unfoldable pub file_unpack_context_rescan_from_barrier :
      FileUnpackContext V → Option (FileUnpackContext V)
  file_unpack_context_rescan_from_barrier fuc = elim fuc.outer.barrier [
    | none ↦ none
    | some p ↦ some (record fuc { current = p })
  ]

  unfoldable pub file_unpack_context_release_barrier : FileUnpackContext V → FileUnpackContext V
  file_unpack_context_release_barrier fuc = record fuc {
    outer = record fuc.outer { barrier = none };
  }

module _ {V : Type 0} (heap : Heap V) (unix : Unix V) where
  -- The loop, and `none` where the fuel runs out.
  unfoldable pub read_more : ℕ → ℕ → FileUnpackContext V → Option (ℤ × FileUnpackContext V)
  read_more zero more uc =
      if ltb (length uc.buffer - uc.current) more then none else some (rc_ok, uc)
  read_more (suc fuel) more uc = elim (ltb (length uc.buffer - uc.current) more) [
    | false ↦ some (rc_ok, uc)
    | true ↦
        let auc = uc.outer in
        let (l, world) =
          unix.read auc.file_descriptor (auc.buffer_length - length uc.buffer) auc.world in
        let uc' = record uc { outer = record auc { world = world } } in
        elim l [
          | none ↦ some (rc_error_in_handler, record uc' { err_no = unix.errno world })
          | some [] ↦ some (rc_end_of_input, uc')
          | some (x ∷ bytes) ↦
              read_more fuel more (record uc' { buffer = uc.buffer ++ (x ∷ bytes) })
        ]
  ]

  -- A round reads a byte at least, so that `more` rounds are enough.
  unfoldable pub read_loop : ℕ → FileUnpackContext V → ℤ × FileUnpackContext V
  unfolding read_more
  read_loop more uc = elim (read_more more more uc) [
    | none ↦ (rc_error_in_handler, uc)
    | some r ↦ r
  ]

  unfoldable pub handle_file_unpack_underflow : FileUnpackContext V → ℕ → ℤ × FileUnpackContext V
  unfolding copy_down ensure_length read_loop take
  handle_file_unpack_underflow uc more =
      let auc = uc.outer in
      let bstart = unpack_start uc in
      let kept = uc.current - bstart in
      let remains = length uc.buffer - bstart in
      let r =
        ensure_length heap (more + kept) (copy_down unix uc.buffer bstart remains) auc.buffer_length
          auc.world in
      let outer = record auc { buffer_length = r.buffer_length; world = r.world } in
      if is_error r.rc
      then (r.rc, record uc { buffer = r.block; outer = outer })
      else (read_loop more (record uc {
        buffer = take remains r.block;
        current = kept;
        outer = record outer { barrier = to_start auc.barrier };
      }))

  -- The handler of a file unpack context is this one.
  abbrev pub file_unpack_platform : Build → Platform (UnpackFile V)
  file_unpack_platform b = record {
    build = b;
    unpack_underflow = λ f uc more. handle_file_unpack_underflow uc more;
  }

  -- `underflow` is the address of the handler. The buffer holds no bytes yet.
  unfoldable pub init_file_unpack_context :
      Build → (underflow initial_buffer_length : ℕ) → ℤ → FileUnpackContext V → FileUnpackContext V
  unfolding cw_unpack_context_init
  init_file_unpack_context b underflow initial_buffer_length file_descriptor fuc =
      let buffer_length = if ltb 0 initial_buffer_length then initial_buffer_length else 1024 in
      let (block, world) = heap.malloc buffer_length fuc.outer.world in
      elim block [
        | none ↦ record fuc {
          return_code = rc_malloc_error;
          outer = record fuc.outer { world = world };
        }
        | some buffer ↦
            let outer : UnpackFile V = record {
              buffer_length = buffer_length;
              file_descriptor = file_descriptor;
              barrier = none;
              world = world;
            } in
            (cw_unpack_context_init b fuc.item [] (some underflow) outer).1
      ]

  -- `uc.start` becomes NULL, so that there is no context any more, only the members besides `uc`.
  pub terminate_file_unpack_context : FileUnpackContext V → UnpackFile V
  terminate_file_unpack_context fuc =
      if fuc.return_code ==ℤ rc_malloc_error
      then fuc.outer
      else record fuc.outer { world = heap.free fuc.buffer fuc.outer.world }
