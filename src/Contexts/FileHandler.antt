-- ===== src/Contexts/FileHandler.antt =====
-- handle_file_pack_overflow keeps the contract of overflow handlers, and what stands behind its
-- barrier.
use cwpack.Prelude.{
  ℕ, ◌+◌, ◌-◌, ◌≤◌, ◌<◌, ◌≡◌, refl, ap, ◌∙◌, ◌⊎◌, inl, inr, false, Option, none, some, List, ◌++◌,
  length, take, drop, if◌then◌else◌, arith,
}
use cwpack.Prelude.Int.{ℤ}
use cwpack.ReturnCode.{is_error}
use cwpack.Wire.{Build}
use cwpack.Pack.Sink.{Sink, MakesRoom, SameSettings-trans}
use cwpack.Contexts.Memory.{Heap, Allocates, LeavesAlone}
use cwpack.Contexts.Barrier.{to_start, BarrierWithin, barrier_or-le, to_start-BarrierWithin}
use cwpack.Contexts.Unix.{Unix, WritesAll, copy_down-IsCopied, nothing-IsCopied}
use cwpack.Contexts.FilePack.{
  FilePackContext, pack_start, flush_file_pack_context, empty_file_buffer,
  handle_file_pack_overflow, file_pack_platform,
}
use cwpack.Contexts.FileSink.{since_barrier, IsCut, Sent, Flushes, flush_file_pack_context-Flushes}
use cwpack.Contexts.FileRoom.{file_bytes, emptied}

module _ {V : Type 0} (heap : Heap V) (unix : Unix V) (written : ℤ → V → List ℕ)
    (a : Allocates heap) (apart : (fd : ℤ) → LeavesAlone heap (written fd)) where
  -- Behind a flush, `bStart` is the start of the buffer.
  front-Sent :
      (pc pc' : FilePackContext V) (o : Option ℕ)
      → pc.outer.barrier ≡ o
      → Sent heap unix written pc pc'
      → pack_start pc' ≡ 0
  front-Sent pc pc' none e f =
      let none_left : pc.current - pc.current ≡ 0 = omega arith in
      rw f.barrier (rw e (rw f.current (rw e none_left)))
  front-Sent pc pc' (some p) e f = rw f.barrier (rw e refl)

  since-Sent :
      (pc pc' : FilePackContext V)
      → Sent heap unix written pc pc'
      → since_barrier pc' ≡ since_barrier pc
  unfolding drop
  since-Sent pc pc' f =
      let front = front-Sent pc pc' pc.outer.barrier refl f in
      let all : pc'.current - 0 ≡ pc'.current = omega arith in
      ap (λ p. take (pc'.current - p) (drop p pc'.buffer)) front
      ∙ ap (λ n. take n pc'.buffer) all
      ∙ f.since

  -- The second memcpy of the handler, which copies what stands at the start onto itself, is not
  -- called: a longer buffer is needed, or there is nothing to keep.
  abbrev pub NothingAgain : ℕ → FilePackContext V → Type 0
  NothingAgain more pc =
      (length pc.buffer < more + (pc.current - pack_start pc)) ⊎ (pc.current - pack_start pc ≡ 0)

  second :
      (more : ℕ) (pc pc' : FilePackContext V)
      → Sent heap unix written pc pc'
      → NothingAgain more pc
      → (length pc'.buffer < more + (pc'.current - pack_start pc')) ⊎ IsCut unix pc'
  second more pc pc' f (inl short) =
      let front = front-Sent pc pc' pc.outer.barrier refl f in
      inl (omega (arith, front, f.current, f.length_kept, short))
  second more pc pc' f (inr nothing) = inr (
      nothing-IsCopied unix pc'.buffer (pack_start pc') (pc'.current - pack_start pc')
        (omega (arith, f.current, nothing)))

  -- What the overflow handler promises besides room: the buffer does not become empty, the barrier
  -- does not get behind `current`, and without an error the barrier is the start of the buffer, with
  -- the bytes from it up to `current` as before.
  pub record KeepsBarrier (pc : FilePackContext V) (rc : ℤ) (pc' : FilePackContext V) : Type 0 where
    pub some_room : 1 ≤ length pc'.buffer
    pub barrier_within : BarrierWithin pc'.outer.barrier pc'.current
    pub barrier : is_error rc ≡ false → pc'.outer.barrier ≡ to_start pc.outer.barrier
    pub since : is_error rc ≡ false → take pc'.current pc'.buffer ≡ since_barrier pc
    pub unmarked : pc.outer.barrier ≡ none → pc'.outer.barrier ≡ none

  twice : (o : Option ℕ) → to_start (to_start o) ≡ to_start o
  twice none = refl
  twice (some p) = refl

  after_flush :
      (more : ℕ) (pc : FilePackContext V) (r : ℤ × FilePackContext V)
      → 1 ≤ length pc.buffer
      → BarrierWithin pc.outer.barrier pc.current
      → pc.current ≤ length pc.buffer
      → NothingAgain more pc
      → Flushes heap unix written pc r
      → let out : ℤ × FilePackContext V =
          if is_error r.0 then r else empty_file_buffer heap unix more r.1 in
        MakesRoom (file_bytes heap unix written a apart) more pc out.0 out.1
        × KeepsBarrier pc out.0 out.1
  after_flush more pc (rc, pc') some_room h within again (inr (bad, f)) = rw bad (
    record {
      within = rw f.current (rw f.buffer within);
      settings = f.settings;
      room = λ good. absurd cc;
      kept = λ good. absurd cc;
    },
    record {
      some_room = rw f.buffer some_room;
      barrier_within = rw f.barrier (rw f.current h);
      barrier = λ good. absurd cc;
      since = λ good. absurd cc;
      unmarked = λ e. f.barrier ∙ e;
    },
  )
  after_flush more pc (rc, pc') some_room h within again (inl (good, f)) =
      let small : pc'.current ≤ length pc'.buffer = rw f.length_kept (rw f.current (omega arith)) in
      let at_front : BarrierWithin pc'.outer.barrier pc'.current =
        rw f.barrier (to_start-BarrierWithin pc.outer.barrier pc'.current) in
      let done =
        emptied heap unix written a apart more pc' (rw f.length_kept some_room) at_front small
          (second more pc pc' f again) in
      let pc'' = (empty_file_buffer heap unix more pc').1 in
      rw good (
        record {
          within = done.within;
          settings = SameSettings-trans f.settings done.settings;
          room = done.room;
          kept = λ ok.
              ap (λ l. l ++ take pc''.current pc''.buffer) done.outside
              ∙ ap (λ l. (file_bytes heap unix written a apart) pc'.outer ++ l)
                  (done.since ok ∙ since-Sent pc pc' f)
              ∙ f.wrote;
        },
        record {
          some_room = done.some_room;
          barrier_within = done.barrier_within;
          barrier = λ ok. done.barrier ok ∙ ap to_start f.barrier ∙ twice pc.outer.barrier;
          since = λ ok. done.since ok ∙ since-Sent pc pc' f;
          unmarked = λ e. done.unmarked (f.barrier ∙ ap to_start e);
        },
      )

  -- Where malloc, free and write do what they document, and memcpy is not called on areas that
  -- overlap (the bytes from the barrier are no more than those in front of it, and they are none, or a
  -- longer buffer is needed), handle_file_pack_overflow makes the room that it is asked for behind the
  -- bytes from the barrier, or reports an error. Without an error nothing is lost: the bytes in front
  -- of the barrier are in the file then, and those from the barrier on stand at the start of the
  -- buffer.
  pub handle_file_pack_overflow-MakesRoom :
      (more : ℕ) (pc : FilePackContext V)
      → WritesAll unix written
      → 1 ≤ length pc.buffer
      → BarrierWithin pc.outer.barrier pc.current
      → pc.current ≤ length pc.buffer
      → pc.current - pack_start pc ≤ pack_start pc
      → NothingAgain more pc
      → let (rc, pc') = handle_file_pack_overflow heap unix pc more in
        MakesRoom (file_bytes heap unix written a apart) more pc rc pc' × KeepsBarrier pc rc pc'
  unfolding handle_file_pack_overflow
  handle_file_pack_overflow-MakesRoom more pc writes some_room h within far again =
      after_flush more pc (flush_file_pack_context heap unix pc) some_room h within again (
        flush_file_pack_context-Flushes heap unix written pc writes h within (
          copy_down-IsCopied unix pc.buffer (pack_start pc) (pc.current - pack_start pc) far
            (omega (arith, within, barrier_or-le pc.outer.barrier pc.current h))))

  -- Without a barrier nothing is kept.
  pub unmarked :
      (more : ℕ) (pc : FilePackContext V)
      → WritesAll unix written
      → 1 ≤ length pc.buffer
      → pc.outer.barrier ≡ none
      → pc.current ≤ length pc.buffer
      → let (rc, pc') = handle_file_pack_overflow heap unix pc more in
        MakesRoom (file_bytes heap unix written a apart) more pc rc pc' × KeepsBarrier pc rc pc'
  unmarked more pc writes some_room e within =
      let all : pack_start pc ≡ pc.current = rw e refl in
      handle_file_pack_overflow-MakesRoom more pc writes some_room (rw e tt) within
        (omega (arith, all)) (inr (omega (arith, all)))

  -- A file pack context without a barrier.
  abbrev pub file_sink :
      (b : Build) → WritesAll unix written → Sink (file_pack_platform heap unix b)
  file_sink b writes = record {
    flushed = (file_bytes heap unix written a apart);
    Holds = λ h n p w. (1 ≤ n) × (w.barrier ≡ none);
    later = λ h n p q w le holds. holds;
    makes_room = λ f more pc e within holds. (unmarked more pc writes holds.0 holds.1 within).0;
    holds_on = λ f more pc e within holds.
        let k = (unmarked more pc writes holds.0 holds.1 within).1 in
        (k.some_room, k.unmarked holds.1);
  }
