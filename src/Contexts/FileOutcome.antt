-- ===== src/Contexts/FileOutcome.antt =====
-- The steps of handle_file_unpack_underflow, and all of its outcomes, whatever memcpy leaves.
use cwpack.Prelude.{
  ℕ, ◌+◌, ◌-◌, ◌≤◌, ◌≡◌, refl, sym, ap, ◌∙◌, ◌⊎◌, inl, inr, Option, none, some, List, ◌++◌, length,
  length-drop, length-take, take, drop, take-all, drop-front, drop-drop, if◌then◌else◌, arith,
}
use cwpack.Prelude.Int.{ℤ}
use cwpack.ReturnCode.{rc_buffer_underflow, rc_error_in_handler, is_error}
use cwpack.Unpack.Source.{input}
use cwpack.Contexts.Memory.{Heap, Reallocates, LeavesAlone}
use cwpack.Contexts.MemorySink.{take-take}
use cwpack.Contexts.Barrier.{
  barrier_or, to_start, HasHandler, BarrierWithin, barrier_or-le, barrier_or-to_start,
  to_start-BarrierWithin,
}
use cwpack.Contexts.Unix.{Unix, ReadsFront, copy_down, length-copy_down, IsCopied}
use cwpack.Contexts.Refill.{Room, RunsOut, ensure_length, Ensured, ensure_length_lem}
use cwpack.Contexts.FileUnpack.{
  UnpackFile, FileUnpackContext, unpack_start, read_more, read_loop, handle_file_unpack_underflow,
}
use cwpack.Contexts.FileReading.{from_file, Progress, Result, Loops, read_more-Loops}

module _ {V : Type 0} (heap : Heap V) (unix : Unix V) (unread : ℤ → V → List ℕ) where
  abbrev pub still_in : UnpackFile V → List ℕ
  still_in = from_file heap unix unread

  -- The input from the barrier on, and the place of `current` in it.
  abbrev pub from_barrier : FileUnpackContext V → List ℕ
  from_barrier uc = drop (unpack_start uc) uc.buffer ++ still_in uc.outer

  abbrev pub behind_barrier : FileUnpackContext V → ℕ
  behind_barrier uc = uc.current - unpack_start uc

  -- The invariant: the buffer fits its block, which is not empty; neither `current` is behind the end,
  -- nor the barrier behind `current`.
  pub record IsSound (uc : FileUnpackContext V) : Type 0 where
    pub some_room : 1 ≤ uc.outer.buffer_length
    pub fits : length uc.buffer ≤ uc.outer.buffer_length
    pub within : uc.current ≤ length uc.buffer
    pub barrier_within : BarrierWithin uc.outer.barrier uc.current

  -- No input is lost, and none from the barrier on.
  pub record Refilled (uc uc' : FileUnpackContext V) : Type 0 where
    pub item : uc'.item ≡ uc.item
    pub return_code : uc'.return_code ≡ uc.return_code
    pub kept : input still_in uc' ≡ input still_in uc
    pub from : from_barrier uc' ≡ from_barrier uc
    pub barrier : uc'.outer.barrier ≡ to_start uc.outer.barrier
    pub behind : behind_barrier uc' ≡ behind_barrier uc

  -- What holds whatever memcpy leaves.
  pub record Answered (uc uc' : FileUnpackContext V) : Type 0 where
    pub item : uc'.item ≡ uc.item
    pub return_code : uc'.return_code ≡ uc.return_code

  -- The invariant, by what a source can say of it.
  abbrev pub Held : Option ℕ → ℕ → ℕ → UnpackFile V → Type 0
  Held h n p w =
      HasHandler h × (1 ≤ w.buffer_length) × (n ≤ w.buffer_length) × BarrierWithin w.barrier p

  pub IsSound-of :
      (uc : FileUnpackContext V)
      → Held uc.handle_unpack_underflow (length uc.buffer) uc.current uc.outer
      → uc.current ≤ length uc.buffer
      → IsSound uc
  IsSound-of uc holds within = record {
    some_room = holds.1;
    fits = holds.2;
    within = within;
    barrier_within = holds.3;
  }

  abbrev pub Outcome : ℕ → FileUnpackContext V → ℤ × FileUnpackContext V → Type 0
  Outcome more uc (rc, uc') =
      IsSound uc'
      × (uc'.handle_unpack_underflow ≡ uc.handle_unpack_underflow)
      × ((Refilled uc uc' × Result heap unix unread more rc uc')
          ⊎ ((rc ≡ rc_buffer_underflow) × RunsOut heap))

  -- What memcpy was to copy is at the start.
  abbrev pub IsMoved : FileUnpackContext V → Type 0
  IsMoved uc = IsCopied unix uc.buffer (unpack_start uc) (length uc.buffer - unpack_start uc)

  -- The outcome, in which the input is only what it was where memcpy has copied it.
  abbrev pub Ends : ℕ → FileUnpackContext V → ℤ × FileUnpackContext V → Type 0
  Ends more uc (rc, uc') =
      IsSound uc'
      × (uc'.handle_unpack_underflow ≡ uc.handle_unpack_underflow)
      × ((Answered uc uc' × (IsMoved uc → Refilled uc uc') × Result heap unix unread more rc uc')
          ⊎ ((rc ≡ rc_buffer_underflow) × RunsOut heap))

  module _ (more : ℕ) (uc : FileUnpackContext V) (sound : IsSound uc)
      (reads : ReadsFront unix unread) where
    abbrev bstart : ℕ
    bstart = unpack_start uc

    abbrev remains : ℕ
    remains = length uc.buffer - bstart

    abbrev moved : List ℕ
    moved = copy_down unix uc.buffer bstart remains

    -- Behind the move and the call of realloc.
    abbrev settled : Room V → FileUnpackContext V
    settled room = record uc {
      buffer = take remains room.block;
      current = uc.current - bstart;
      outer = record uc.outer {
        buffer_length = room.buffer_length;
        barrier = to_start uc.outer.barrier;
        world = room.world;
      };
    }

    below : bstart ≤ uc.current
    below = barrier_or-le uc.outer.barrier uc.current sound.barrier_within

    module _ (room : Room V)
        (e : Ensured heap
          (unread uc.outer.file_descriptor)
          (more + (uc.current - bstart))
          moved
          uc.outer.buffer_length
          uc.outer.world
          room) where
      front :
          take (length moved) room.block ≡ moved
          → IsMoved uc
          → take remains room.block ≡ drop bstart uc.buffer
      front kept copied =
          let n = length moved in
          let small : remains ≤ n = omega (arith, length-copy_down unix uc.buffer bstart remains) in
          sym (take-take remains n room.block small)
          ∙ ap (take remains) kept
          ∙ copied
          ∙ take-all remains (drop bstart uc.buffer) (omega (arith, length-drop bstart uc.buffer))

      -- What the loop starts with.
      refilled :
          (uc' : FileUnpackContext V)
          → length (take remains room.block) ≡ remains
          → (IsMoved uc → take remains room.block ≡ drop bstart uc.buffer)
          → Progress heap unix unread (settled room) uc'
          → IsSound uc'
            × (uc'.handle_unpack_underflow ≡ uc.handle_unpack_underflow)
            × Answered uc uc'
            × (IsMoved uc → Refilled uc uc')
      unfolding drop
      refilled uc' len at_front p =
          let kept = uc.current - bstart in
          let buffer_length = ap (λ (o : UnpackFile V). o.buffer_length) p.outer in
          let barrier = ap (λ (o : UnpackFile V). o.barrier) p.outer in
          let long : kept ≤ length uc'.buffer = omega (arith, p.longer, below, sound.within, len) in
          let short : kept ≤ length (drop bstart uc.buffer) =
            omega (arith, below, sound.within, length-drop bstart uc.buffer) in
          let from_start : unpack_start uc' ≡ 0 =
            ap (λ o. barrier_or o uc'.current) barrier
            ∙ ap (barrier_or (to_start uc.outer.barrier)) p.current
            ∙ barrier_or-to_start uc.outer.barrier uc.current in
          let whole : IsMoved uc → uc'.buffer ++ still_in uc'.outer ≡ from_barrier uc = λ copied.
            p.whole
            ∙ ap (λ l. l ++ unread uc.outer.file_descriptor room.world) (at_front copied)
            ∙ ap (λ l. drop bstart uc.buffer ++ l) e.apart in
          (
            record {
              some_room = omega (arith, buffer_length, e.longer, sound.some_room);
              fits = omega (arith, p.bound, buffer_length);
              within = omega (arith, p.current, long);
              barrier_within = rw barrier (to_start-BarrierWithin uc.outer.barrier uc'.current);
            },
            p.handler,
            record { item = p.item; return_code = p.return_code },
            λ copied. record {
              item = p.item;
              return_code = p.return_code;
              kept =
                  ap (λ n. drop n uc'.buffer ++ still_in uc'.outer) p.current
                  ∙ sym (drop-front kept uc'.buffer (still_in uc'.outer) long)
                  ∙ ap (drop kept) (whole copied)
                  ∙ drop-front kept (drop bstart uc.buffer) (still_in uc.outer) short
                  ∙ ap (λ l. l ++ still_in uc.outer)
                      (drop-drop bstart kept uc.current uc.buffer (omega (arith, below)));
              from = ap (λ n. drop n uc'.buffer ++ still_in uc'.outer) from_start ∙ whole copied;
              barrier = barrier;
              behind = omega (arith, from_start, p.current);
            },
          )

    looped :
        (room : Room V) (r : Option (ℤ × FileUnpackContext V))
        → Ensured heap
            (unread uc.outer.file_descriptor)
            (more + (uc.current - bstart))
            moved
            uc.outer.buffer_length
            uc.outer.world
            room
        → length (take remains room.block) ≡ remains
        → (IsMoved uc → take remains room.block ≡ drop bstart uc.buffer)
        → Loops heap unix unread more (settled room) r
        → Ends more uc (elim r [ none ↦ (rc_error_in_handler, settled room) | some out ↦ out ])
    looped room none e len front l = absurd l
    looped room (some (rc, uc')) e len at_front (p, result) =
        let (sound', handler, answered, f) = refilled room e uc' len at_front p in
        (sound', handler, inl (answered, f, result))

    after_room :
        (room : Room V)
        → Ensured heap
            (unread uc.outer.file_descriptor)
            (more + (uc.current - bstart))
            moved
            uc.outer.buffer_length
            uc.outer.world
            room
        → Ends more uc (
            if is_error room.rc
            then (
              room.rc,
              record uc {
                buffer = room.block;
                outer = record uc.outer { buffer_length = room.buffer_length; world = room.world };
              },
            )
            else read_loop heap unix more (settled room))
    unfolding read_loop
    after_room room e = elim e.outcome [
      | inr failed ↦
          let len = length-copy_down unix uc.buffer bstart remains in
          rw failed.0 (
            record {
              some_room = omega (arith, e.longer, sound.some_room);
              fits = rw failed.1 (omega (arith, len, sound.fits, e.longer));
              within = rw failed.1 (omega (arith, len, sound.within));
              barrier_within = sound.barrier_within;
            },
            refl,
            inr (refl, failed.2),
          )
      | inl enough ↦
          let at_front = front room e enough.kept in
          let len : length (take remains room.block) ≡ remains = omega (
            arith,
            ap (λ l. length l) enough.kept,
            length-take (length moved) room.block,
            length-take remains room.block,
            length-copy_down unix uc.buffer bstart remains,
          ) in
          rw enough.ok (
            looped room (read_more heap unix more more (settled room)) e len at_front (
              read_more-Loops heap unix unread reads more more (settled room)
                (omega (arith, len, below, sound.within)) (omega (arith, len, below, sound.within))
                (omega (arith, enough.enough)) (omega (arith, len, sound.fits, e.longer))))
    ]

    -- Whatever memcpy leaves.
    pub handle_file_unpack_underflow-Ends :
        Reallocates heap
        → ((fd : ℤ) → LeavesAlone heap (unread fd))
        → Ends more uc (handle_file_unpack_underflow heap unix uc more)
    unfolding handle_file_unpack_underflow
    handle_file_unpack_underflow-Ends r apart =
        let fd = uc.outer.file_descriptor in
        let needed = more + (uc.current - bstart) in
        after_room (ensure_length heap needed moved uc.outer.buffer_length uc.outer.world) (
          ensure_length_lem heap (unread fd) r (apart fd) needed moved uc.outer.buffer_length
            uc.outer.world sound.some_room
            (omega (arith, sound.fits, length-copy_down unix uc.buffer bstart remains)))
