-- ===== src/Contexts/FileRoom.antt =====
-- The part of handle_file_pack_overflow behind its flush: room, and the bytes from the barrier kept.
use cwpack.Prelude.{
  ℕ, ◌+◌, ◌-◌, ◌≤◌, ◌<◌, ◌≡◌, refl, ap, ◌∙◌, ◌⊎◌, inl, inr, true, false, Option, none, some, List,
  length, length-take, length-drop, take, drop, ltb, if◌then◌else◌, Bool-cases, arith,
}
use cwpack.Prelude.Int.{ℤ}
use cwpack.ReturnCode.{rc_ok, is_error}
use cwpack.Pack.Memory.{length-overwrite, take-overwrite}
use cwpack.Pack.Sink.{SameSettings}
use cwpack.Contexts.Memory.{Heap, Allocates, LeavesAlone}
use cwpack.Contexts.MemorySink.{grow-enough}
use cwpack.Contexts.Barrier.{to_start, BarrierWithin, barrier_or-le, to_start-BarrierWithin}
use cwpack.Contexts.Unix.{Unix, copy_down, length-copy_down}
use cwpack.Contexts.FilePack.{
  PackFile, FilePackContext, pack_start, larger_block, empty_file_buffer,
}
use cwpack.Contexts.FileSink.{since_barrier, to_file, IsCut}

module _ {V : Type 0} (heap : Heap V) (unix : Unix V) (written : ℤ → V → List ℕ)
    (a : Allocates heap) (apart : (fd : ℤ) → LeavesAlone heap (written fd)) where
  abbrev pub file_bytes : PackFile V → List ℕ
  file_bytes = to_file heap unix written

  -- The block that takes the place of the buffer, if there is one, and the kept bytes in it.
  record Larger (n : ℕ) (pc : FilePackContext V) (rc : ℤ) (pc' : FilePackContext V) : Type 0 where
    current : pc'.current ≡ pc.current
    barrier : pc'.outer.barrier ≡ pc.outer.barrier
    settings : SameSettings pc pc'
    outside : file_bytes pc'.outer ≡ file_bytes pc.outer
    as_long : is_error rc ≡ true → length pc'.buffer ≡ length pc.buffer
    long : is_error rc ≡ false → length pc'.buffer ≡ n
    since : is_error rc ≡ false → take (pc.current - pack_start pc) pc'.buffer ≡ since_barrier pc

  length-since_barrier :
      (pc : FilePackContext V)
      → BarrierWithin pc.outer.barrier pc.current
      → pc.current ≤ length pc.buffer
      → length (since_barrier pc) ≡ pc.current - pack_start pc
  length-since_barrier pc h within = omega (
    arith,
    barrier_or-le pc.outer.barrier pc.current h,
    length-take (pc.current - pack_start pc) (drop (pack_start pc) pc.buffer),
    length-drop (pack_start pc) pc.buffer,
  )

  larger :
      (n : ℕ) (pc : FilePackContext V) (block : Option (List ℕ))
      → (heap.malloc n pc.outer.world).0 ≡ block
      → BarrierWithin pc.outer.barrier pc.current
      → pc.current ≤ length pc.buffer
      → pc.current - pack_start pc ≤ n
      → let (rc, pc') = larger_block heap unix (some n) (pc.current - pack_start pc) pc in
        Larger n pc rc pc'
  unfolding larger_block take
  larger n pc none e h within fits =
      rw (e, larger_block)
        (record {
          current = refl;
          barrier = refl;
          settings = record {
            be_compatible = refl;
            return_code = refl;
            handle_pack_overflow = refl;
          };
          outside = (apart pc.outer.file_descriptor).malloc_apart n pc.outer.world;
          as_long = λ bad. refl;
          long = λ good. absurd cc;
          since = λ good. absurd cc;
        })
  larger n pc (some new) e h within fits =
      let l : length new ≡ n = a.malloc_length new n pc.outer.world e in
      rw (e, larger_block)
        (record {
          current = refl;
          barrier = refl;
          settings = record {
            be_compatible = refl;
            return_code = refl;
            handle_pack_overflow = refl;
          };
          outside = (apart pc.outer.file_descriptor).malloc_apart n pc.outer.world;
          as_long = λ bad. absurd cc;
          long = λ good. length-overwrite new 0 (since_barrier pc) ∙ l;
          since = λ good.
              take-overwrite new 0 (pc.current - pack_start pc) (since_barrier pc)
                (omega (arith, length-since_barrier pc h within)) (omega (arith, l));
        })

  moved :
      (pc : FilePackContext V)
      → IsCut unix pc
      → Larger (length pc.buffer) pc rc_ok (record pc {
        buffer = copy_down unix pc.buffer (pack_start pc) (pc.current - pack_start pc);
      })
  moved pc copied =
      let p = pack_start pc in
      record {
        current = refl;
        barrier = refl;
        settings = record { be_compatible = refl; return_code = refl; handle_pack_overflow = refl };
        outside = refl;
        as_long = λ bad. absurd cc;
        long = λ good. length-copy_down unix pc.buffer p (pc.current - p);
        since = λ good. copied;
      }

  -- Room behind the bytes from the barrier, which stand at the start of the buffer.
  pub record Emptied (more : ℕ) (pc : FilePackContext V) (rc : ℤ) (pc' : FilePackContext V)
      : Type 0 where
    pub settings : SameSettings pc pc'
    pub outside : file_bytes pc'.outer ≡ file_bytes pc.outer
    pub some_room : 1 ≤ length pc'.buffer
    pub within : pc'.current ≤ length pc'.buffer
    pub barrier_within : BarrierWithin pc'.outer.barrier pc'.current
    pub barrier : is_error rc ≡ false → pc'.outer.barrier ≡ to_start pc.outer.barrier
    pub current : is_error rc ≡ false → pc'.current ≡ pc.current - pack_start pc
    pub room : is_error rc ≡ false → pc'.current + more ≤ length pc'.buffer
    pub since : is_error rc ≡ false → take pc'.current pc'.buffer ≡ since_barrier pc
    pub unmarked : pc.outer.barrier ≡ none → pc'.outer.barrier ≡ none

  to_front :
      (more n : ℕ) (pc pc' : FilePackContext V) (rc : ℤ)
      → 1 ≤ length pc.buffer
      → BarrierWithin pc.outer.barrier pc.current
      → pc.current ≤ length pc.buffer
      → length pc.buffer ≤ n
      → more + (pc.current - pack_start pc) ≤ n
      → Larger n pc rc pc'
      → let out : ℤ × FilePackContext V = if is_error rc then (rc, pc') else (
        rc_ok,
        record pc' {
          current = pc.current - pack_start pc;
          outer = record pc'.outer { barrier = to_start pc.outer.barrier };
        },
      ) in
        Emptied more pc out.0 out.1
  to_front more n pc pc' rc some_room h within longer enough r = elim (Bool-cases (is_error rc)) [
    | inl bad ↦ rw bad (record {
      settings = r.settings;
      outside = r.outside;
      some_room = rw (r.as_long bad) some_room;
      within = rw (r.as_long bad) (rw r.current within);
      barrier_within = rw r.barrier (rw r.current h);
      barrier = λ good. absurd cc;
      current = λ good. absurd cc;
      room = λ good. absurd cc;
      since = λ good. absurd cc;
      unmarked = λ e. r.barrier ∙ e;
    })
    | inr good ↦ rw good (record {
      settings = record {
        be_compatible = r.settings.be_compatible;
        return_code = r.settings.return_code;
        handle_pack_overflow = r.settings.handle_pack_overflow;
      };
      outside = r.outside;
      some_room = rw (r.long good) (omega arith);
      within = rw (r.long good) (omega arith);
      barrier_within = to_start-BarrierWithin pc.outer.barrier (pc.current - pack_start pc);
      barrier = λ _. refl;
      current = λ _. refl;
      room = λ _. rw (r.long good) (omega arith);
      since = λ _. r.since good;
      unmarked = λ e. ap to_start e;
    })
  ]

  pub emptied :
      (more : ℕ) (pc : FilePackContext V)
      → 1 ≤ length pc.buffer
      → BarrierWithin pc.outer.barrier pc.current
      → pc.current ≤ length pc.buffer
      → ((length pc.buffer < more + (pc.current - pack_start pc)) ⊎ IsCut unix pc)
      → let (rc, pc') = empty_file_buffer heap unix more pc in Emptied more pc rc pc'
  unfolding empty_file_buffer
  emptied more pc some_room h within copied =
      let len = length pc.buffer in
      let kept = pc.current - pack_start pc in
      elim (Bool-cases (ltb len (more + kept))) [
        | inl short ↦
            let (n, e, reached, longer) =
              grow-enough (more + kept) len (more + kept) some_room (omega arith) in
            let (rc, pc') = larger_block heap unix (some n) kept pc in
            rw (short, e)
              (to_front more n pc pc' rc some_room h within longer reached (
                larger n pc (heap.malloc n pc.outer.world).0 refl h within
                  (omega (arith, reached))))
        | inr enough ↦ rw enough (
            to_front more len pc _ rc_ok some_room h within (omega arith) (ground arith)
              (moved pc (only_cut copied enough)))
      ]
    where
      only_cut :
          ((length pc.buffer < more + (pc.current - pack_start pc)) ⊎ IsCut unix pc)
          → ltb (length pc.buffer) (more + (pc.current - pack_start pc)) ≡ false
          → IsCut unix pc
      only_cut (inl short) enough = absurd (ground arith)
      only_cut (inr c) enough = c
