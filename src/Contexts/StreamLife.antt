-- ===== src/Contexts/StreamLife.antt =====
-- What a stream pack context leaves in its file, from its init function to its terminate function.
use cwpack.Prelude.{
  ℕ, ◌≤◌, ◌≡◌, refl, sym, ap, ◌∙◌, inl, inr, true, false, Option, none, some, List, ◌++◌,
  append-nil, length, take, ltb, if◌then◌else◌, Bool-cases, arith,
}
use cwpack.Prelude.Int.{◌==ℤ◌}
use cwpack.ReturnCode.{rc_malloc_error, is_error}
use cwpack.Wire.{Build, byte_order_matches}
use cwpack.Pack.{cw_pack_context_init, cw_pack_set_flush_handler, test_byte_order}
use cwpack.Pack.Blobs.{cw_pack_flush}
use cwpack.Pack.Calls.{Call, run_calls}
use cwpack.Pack.Calls.Output.{AllCalls}
use cwpack.Pack.Sink.{output}
use cwpack.Contexts.Memory.{Heap, Allocates, LeavesAlone}
use cwpack.Contexts.Stdio.{Stdio, Writes}
use cwpack.Contexts.StreamPack.{
  StreamPackContext, stream_pack_platform, init_stream_pack_context, terminate_stream_pack_context,
}
use cwpack.Contexts.StreamSink.{to_stream, flush_stream_pack_context-Flushes, stream_sink}
use cwpack.Contexts.Life.{Terminates, Starts, Delivered, run_calls-Delivered, flush_good}

module _ {V : Type 0} (heap : Heap V) (stdio : Stdio V) (written : ℕ → V → List ℕ)
    (a : Allocates heap) (apart : (file : ℕ) → LeavesAlone heap (written file)) (b : Build)
    (writes : Writes stdio written) where
  -- cw_pack_flush without an error: the bytes of the buffer are in the file, and in the buffer still.
  pub record Flushed (pc pc' : StreamPackContext V) : Type 0 where
    pub was_ok : is_error pc.return_code ≡ false
    pub buffer : pc'.buffer ≡ pc.buffer
    pub current : pc'.current ≡ pc.current
    pub wrote : to_stream heap stdio written pc'.outer ≡ output (to_stream heap stdio written) pc

  flushed :
      (pc : StreamPackContext V)
      → pc.current ≤ length pc.buffer
      → let pc' = cw_pack_flush (stream_pack_platform heap stdio b) pc in
        is_error pc'.return_code ≡ false → Flushed pc pc'
  flushed pc within good =
      let (ok, f, fine, e) =
        flush_good (stream_pack_platform heap stdio b) pc pc.handle_flush refl good in
      let sent = flush_stream_pack_context-Flushes heap stdio written pc writes within in
      rw e (record {
        was_ok = ok;
        buffer = sent.buffer;
        current = sent.current;
        wrote = sent.wrote fine;
      })

  -- On a stream pack context, where cw_pack_flush reports no error, the bytes of the buffer stay in it,
  -- so that they count as output a second time.
  pub cw_pack_flush-repeats :
      (pc : StreamPackContext V)
      → pc.current ≤ length pc.buffer
      → let pc' = cw_pack_flush (stream_pack_platform heap stdio b) pc in
        is_error pc'.return_code ≡ false
        → output (to_stream heap stdio written) pc'
          ≡ output (to_stream heap stdio written) pc ++ take pc.current pc.buffer
  cw_pack_flush-repeats pc within good =
      let f = flushed pc within good in
      let pc' = cw_pack_flush (stream_pack_platform heap stdio b) pc in
      ap (λ l. l ++ take pc'.current pc'.buffer) f.wrote
      ∙ ap (λ n. output (to_stream heap stdio written) pc ++ take n pc'.buffer) f.current
      ∙ ap (λ l. output (to_stream heap stdio written) pc ++ take pc.current l) f.buffer

  released :
      (pc : StreamPackContext V)
      → let out = if pc.return_code ==ℤ rc_malloc_error then pc else record pc {
        outer = record pc.outer { world = heap.free pc.buffer pc.outer.world };
      } in
        to_stream heap stdio written out.outer ≡ to_stream heap stdio written pc.outer
  released pc = elim (Bool-cases (pc.return_code ==ℤ rc_malloc_error)) [
    | inl failed ↦ rw failed refl
    | inr live ↦ rw live ((apart pc.outer.file).free_apart pc.buffer pc.outer.world)
  ]

  terminated_code :
      (pc : StreamPackContext V)
      → (terminate_stream_pack_context heap stdio b pc).return_code
        ≡ (cw_pack_flush (stream_pack_platform heap stdio b) pc).return_code
  unfolding terminate_stream_pack_context
  terminated_code pc = ground arith

  stream_Terminates :
      Terminates
        (stream_sink heap stdio written a apart b writes)
        (terminate_stream_pack_context heap stdio b)
  unfolding terminate_stream_pack_context
  stream_Terminates = record {
    refuses = λ pc good.
        (flush_good (stream_pack_platform heap stdio b) pc pc.handle_flush refl
          (sym (ap is_error (terminated_code pc)) ∙ good)).0;
    delivers = λ pc ready good.
        let good' = sym (ap is_error (terminated_code pc)) ∙ good in
        released (cw_pack_flush (stream_pack_platform heap stdio b) pc)
        ∙ (flushed pc ready.within good').wrote;
  }

  module _ (overflow flush initial file : ℕ) (spc : StreamPackContext V)
      (matches : byte_order_matches b ≡ true) where
    abbrev length_0 : ℕ
    length_0 = if ltb 0 initial then initial else 4096

    started :
        (block : Option (List ℕ))
        → (heap.malloc length_0 spc.outer.world).0 ≡ block
        → 1 ≤ length_0
        → Starts
            (stream_sink heap stdio written a apart b writes)
            (terminate_stream_pack_context heap stdio b)
            (written file spc.outer.world)
            (init_stream_pack_context heap stdio b overflow flush initial file spc)
    unfolding init_stream_pack_context cw_pack_context_init cw_pack_set_flush_handler
        test_byte_order take
    started none e one = rw (e, init_stream_pack_context) (inl refl)
    started (some new) e one =
        rw (e, init_stream_pack_context)
          (rw (matches, test_byte_order)
            (inr (
              record {
                within = omega arith;
                holds = rw (a.malloc_length new length_0 spc.outer.world e) one;
              },
              refl,
              append-nil (written file (heap.malloc length_0 spc.outer.world).1)
                  ∙ (apart file).malloc_apart length_0 spc.outer.world,
            )))

    -- Where the C library does what it documents: a stream pack context that init_stream_pack_context has
    -- set up, calls of the packing routines other than cw_pack_insert with arguments of their C types,
    -- where the length of each string, binary and extension, and 6 more, is below 2^32, and then
    -- terminate_stream_pack_context make no access out of bounds. Where there is no error at the end, the
    -- calls' bytes stand in the file, in their order, behind what was there before, and nothing else.
    -- malloc may fail, and the buffer may have any length.
    pub terminate_stream-run_calls :
        (cs : List Call)
        → AllCalls cs
        → Delivered
            (stream_sink heap stdio written a apart b writes)
            (terminate_stream_pack_context heap stdio b)
            (written file spc.outer.world)
            cs
            (run_calls
              (stream_pack_platform heap stdio b)
              cs
              (init_stream_pack_context heap stdio b overflow flush initial file spc))
    terminate_stream-run_calls cs h =
        run_calls-Delivered (stream_sink heap stdio written a apart b writes)
          (terminate_stream_pack_context heap stdio b) stream_Terminates
          (written file spc.outer.world) cs
          (init_stream_pack_context heap stdio b overflow flush initial file spc) matches h
          (started (heap.malloc length_0 spc.outer.world).0 refl (ground arith))
