-- ===== src/Contexts/FileLife.antt =====
-- What a file pack context leaves in its file, from its init function to its terminate function.
use cwpack.Prelude.{
  ℕ, ◌≤◌, ◌≡◌, refl, sym, ap, ◌∙◌, inl, inr, true, false, Option, none, some, List, [], ◌++◌,
  append-nil, length, take, ltb, if◌then◌else◌, Bool-cases, arith, ◌-◌,
}
use cwpack.Prelude.Int.{ℤ, ◌==ℤ◌}
use cwpack.ReturnCode.{rc_malloc_error, is_error}
use cwpack.Wire.{Build, byte_order_matches}
use cwpack.Pack.{cw_pack_context_init, cw_pack_set_flush_handler, test_byte_order}
use cwpack.Pack.Blobs.{cw_pack_flush}
use cwpack.Pack.Calls.{Call, run_calls}
use cwpack.Pack.Calls.Output.{AllCalls}
use cwpack.Pack.Sink.{output}
use cwpack.Contexts.Memory.{Heap, Allocates, LeavesAlone}
use cwpack.Contexts.Unix.{Unix, WritesAll, copy_down-IsCopied, nothing-IsCopied}
use cwpack.Contexts.Barrier.{BarrierWithin, barrier_or-le}
use cwpack.Contexts.FilePack.{
  PackFile, FilePackContext, pack_start, set_world, flush_file_pack_context, file_pack_platform,
  init_file_pack_context, file_pack_context_release_barrier, terminate_file_pack_context,
}
use cwpack.Contexts.FileSink.{
  to_file, since_barrier, IsCut, Sent, Flushes, flush_file_pack_context-Flushes,
}
use cwpack.Contexts.FileHandler.{file_sink}
use cwpack.Contexts.Life.{Terminates, Starts, Delivered, run_calls-Delivered, flush_good}

module _ {V : Type 0} (heap : Heap V) (unix : Unix V) (written : ℤ → V → List ℕ)
    (a : Allocates heap) (apart : (fd : ℤ) → LeavesAlone heap (written fd)) (b : Build)
    (writes : WritesAll unix written) where
  abbrev bytes_of : PackFile V → List ℕ
  bytes_of = to_file heap unix written

  only-Sent :
      (pc : FilePackContext V) (r : ℤ × FilePackContext V)
      → Flushes heap unix written pc r
      → is_error r.0 ≡ false
      → Sent heap unix written pc r.1
  only-Sent pc r (inl (good, f)) ok = f
  only-Sent pc r (inr (bad, f)) ok = absurd cc

  sent :
      (pc : FilePackContext V)
      → BarrierWithin pc.outer.barrier pc.current
      → pc.current ≤ length pc.buffer
      → IsCut unix pc
      → let pc' = cw_pack_flush (file_pack_platform heap unix b) pc in
        is_error pc'.return_code ≡ false
        → (take pc'.current pc'.buffer ≡ since_barrier pc)
          × (bytes_of pc'.outer ++ since_barrier pc ≡ output bytes_of pc)
  sent pc h within copied good =
      let (ok, f, fine, e) =
        flush_good (file_pack_platform heap unix b) pc pc.handle_flush refl good in
      let s =
        only-Sent pc (flush_file_pack_context heap unix pc)
          (flush_file_pack_context-Flushes heap unix written pc writes h within copied) fine in
      rw e (s.since, s.wrote)

  -- Where write does what it documents, and the bytes from the barrier are no more than those in front
  -- of it, so that the areas of memcpy are apart: cw_pack_flush without an error keeps the output of a
  -- file pack context as it is. What it writes leaves the buffer, and the bytes from the barrier stand
  -- at the start of it.
  pub cw_pack_flush-keeps :
      (pc : FilePackContext V)
      → BarrierWithin pc.outer.barrier pc.current
      → pc.current ≤ length pc.buffer
      → pc.current - pack_start pc ≤ pack_start pc
      → let pc' = cw_pack_flush (file_pack_platform heap unix b) pc in
        is_error pc'.return_code ≡ false
        → (output bytes_of pc' ≡ output bytes_of pc)
          × (take pc'.current pc'.buffer ≡ since_barrier pc)
  cw_pack_flush-keeps pc h within far good =
      let copied =
        copy_down-IsCopied unix pc.buffer (pack_start pc) (pc.current - pack_start pc) far
          (omega (arith, within, barrier_or-le pc.outer.barrier pc.current h)) in
      let pc' = cw_pack_flush (file_pack_platform heap unix b) pc in
      let (kept, out) = sent pc h within copied good in
      (ap (λ l. bytes_of pc'.outer ++ l) kept ∙ out, kept)

  nothing_since :
      (pc : FilePackContext V) → since_barrier (file_pack_context_release_barrier pc) ≡ []
  unfolding file_pack_context_release_barrier take
  nothing_since pc = let e : pc.current - pc.current ≡ 0 = omega arith in rw e refl

  all_IsCut : (pc : FilePackContext V) → IsCut unix (file_pack_context_release_barrier pc)
  unfolding file_pack_context_release_barrier
  all_IsCut pc = nothing-IsCopied unix pc.buffer pc.current (pc.current - pc.current) (omega arith)

  released :
      (pc : FilePackContext V)
      → let out =
          if pc.return_code ==ℤ rc_malloc_error
          then pc
          else set_world (heap.free pc.buffer pc.outer.world) pc in
        bytes_of out.outer ≡ bytes_of pc.outer
  released pc = elim (Bool-cases (pc.return_code ==ℤ rc_malloc_error)) [
    | inl failed ↦ rw failed refl
    | inr live ↦ rw live ((apart pc.outer.file_descriptor).free_apart pc.buffer pc.outer.world)
  ]

  terminated_code :
      (pc : FilePackContext V)
      → (terminate_file_pack_context heap unix b pc).return_code
        ≡ (cw_pack_flush
            (file_pack_platform heap unix b)
            (file_pack_context_release_barrier pc)).return_code
  unfolding terminate_file_pack_context
  terminated_code pc = ground arith

  pub file_Terminates :
      Terminates
        (file_sink heap unix written a apart b writes)
        (terminate_file_pack_context heap unix b)
  unfolding terminate_file_pack_context file_pack_context_release_barrier
  file_Terminates = record {
    refuses = λ pc good.
        (flush_good (file_pack_platform heap unix b) (file_pack_context_release_barrier pc)
          pc.handle_flush refl (sym (ap is_error (terminated_code pc)) ∙ good)).0;
    delivers = λ pc ready good.
        let good' = sym (ap is_error (terminated_code pc)) ∙ good in
        let pc₀ = file_pack_context_release_barrier pc in
        let pc' = cw_pack_flush (file_pack_platform heap unix b) pc₀ in
        released pc'
        ∙ sym (append-nil (bytes_of pc'.outer))
        ∙ ap (λ l. bytes_of pc'.outer ++ l) (sym (nothing_since pc))
        ∙ (sent pc₀ tt ready.within (all_IsCut pc) good').1;
  }

  module _ (overflow flush initial : ℕ) (fd : ℤ) (fpc : FilePackContext V)
      (matches : byte_order_matches b ≡ true) where
    abbrev pub length_0 : ℕ
    length_0 = if ltb 32 initial then initial else 4096

    pub started :
        (block : Option (List ℕ))
        → (heap.malloc length_0 fpc.outer.world).0 ≡ block
        → 1 ≤ length_0
        → Starts
            (file_sink heap unix written a apart b writes)
            (terminate_file_pack_context heap unix b)
            (written fd fpc.outer.world)
            (init_file_pack_context heap unix b overflow flush initial fd fpc)
    unfolding init_file_pack_context cw_pack_context_init cw_pack_set_flush_handler test_byte_order
        take
    started none e one = rw (e, init_file_pack_context) (inl refl)
    started (some new) e one =
        rw (e, init_file_pack_context)
          (rw (matches, test_byte_order)
            (inr (
              record {
                within = omega arith;
                holds = (rw (a.malloc_length new length_0 fpc.outer.world e) one, refl);
              },
              refl,
              append-nil (written fd (heap.malloc length_0 fpc.outer.world).1)
                  ∙ (apart fd).malloc_apart length_0 fpc.outer.world,
            )))

    -- Where the C library does what it documents: a file pack context that init_file_pack_context has
    -- set up, calls of the packing routines other than cw_pack_insert with arguments of their C types,
    -- where the length of each string, binary and extension, and 6 more, is below 2^32, and then
    -- terminate_file_pack_context make no access out of bounds. Where there is no error at the end, the
    -- calls' bytes stand in the file, in their order, behind what was there before, and nothing else.
    -- malloc and write may fail, and the buffer may have any length.
    pub terminate_file-run_calls :
        (cs : List Call)
        → AllCalls cs
        → Delivered
            (file_sink heap unix written a apart b writes)
            (terminate_file_pack_context heap unix b)
            (written fd fpc.outer.world)
            cs
            (run_calls
              (file_pack_platform heap unix b)
              cs
              (init_file_pack_context heap unix b overflow flush initial fd fpc))
    terminate_file-run_calls cs h =
        run_calls-Delivered (file_sink heap unix written a apart b writes)
          (terminate_file_pack_context heap unix b) file_Terminates (written fd fpc.outer.world) cs
          (init_file_pack_context heap unix b overflow flush initial fd fpc) matches h
          (started (heap.malloc length_0 fpc.outer.world).0 refl (ground arith))
