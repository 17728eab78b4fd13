-- ===== src/Contexts/StreamSource.antt =====
-- The stream unpack context as a source of input.
use cwpack.Prelude.{
  ℕ, ◌+◌, ◌-◌, ◌≤◌, ◌<◌, ◌≡◌, refl, sym, ap, ◌∙◌, ◌⊎◌, inl, inr, true, false, List, ◌++◌,
  append_assoc, length, length-append, length-take, length-drop, take, drop, take-all, ◌==◌,
  if◌then◌else◌, Bool-cases, arith, min,
}
use cwpack.Prelude.Int.{ℤ}
use cwpack.ReturnCode.{rc_ok, rc_end_of_input, rc_buffer_underflow, is_error}
use cwpack.Unpack.Source.{input}
use cwpack.Contexts.Memory.{Heap, Reallocates, LeavesAlone}
use cwpack.Contexts.MemorySink.{take-take}
use cwpack.Contexts.Stdio.{Stdio, Reads}
use cwpack.Contexts.Unix.{move_down, length-move_down, take-move_down}
use cwpack.Contexts.Refill.{Room, RunsOut, ensure_length, Enough, Ensured, ensure_length_lem}
use cwpack.Contexts.StreamUnpack.{
  StreamInput, StreamUnpackContext, fill_stream_buffer, handle_stream_unpack_underflow,
}

module _ {V : Type 0} (heap : Heap V) (stdio : Stdio V) (unread : ℕ → V → List ℕ) where
  -- What the stream has still to give.
  abbrev pub from_stream : StreamInput V → List ℕ
  from_stream w = unread w.file w.world

  -- The buffer is not longer than its block, and the block is not empty.
  abbrev pub Fits : StreamUnpackContext V → Type 0
  Fits uc = (1 ≤ uc.outer.buffer_length) × (length uc.buffer ≤ uc.outer.buffer_length)

  -- Everything that the block has place for, or all that there is.
  pub record Filled (uc uc' : StreamUnpackContext V) : Type 0 where
    pub fits : Fits uc'
    pub item : uc'.item ≡ uc.item
    pub return_code : uc'.return_code ≡ uc.return_code
    pub handler : uc'.handle_unpack_underflow ≡ uc.handle_unpack_underflow
    pub current : uc'.current ≡ 0
    pub kept : input from_stream uc' ≡ input from_stream uc
    pub full : length uc'.buffer ≡ min uc'.outer.buffer_length (length (input from_stream uc))

  abbrev pub fill_code : StreamUnpackContext V → ℤ
  fill_code uc = if 0 == length (from_stream uc.outer) then rc_end_of_input else rc_ok

  -- The context `uc₁` has the input of `uc`, with the bytes left in the buffer at the start.
  record AtFront (remains : ℕ) (uc uc₁ : StreamUnpackContext V) : Type 0 where
    within : remains ≤ length uc₁.buffer
    less : remains < uc₁.outer.buffer_length
    item : uc₁.item ≡ uc.item
    return_code : uc₁.return_code ≡ uc.return_code
    handler : uc₁.handle_unpack_underflow ≡ uc.handle_unpack_underflow
    front : take remains uc₁.buffer ≡ drop uc.current uc.buffer
    rest : from_stream uc₁.outer ≡ from_stream uc.outer

  module _ (remains : ℕ) (uc uc₁ : StreamUnpackContext V) (at : AtFront remains uc uc₁)
      (reads : Reads stdio unread) where
    abbrev room : ℕ
    room = uc₁.outer.buffer_length - remains

    abbrev got : List ℕ × V
    got = stdio.fread 1 room uc₁.outer.file uc₁.outer.world

    length-input : length (input from_stream uc) ≡ remains + length (from_stream uc₁.outer)
    length-input = omega (
      arith,
      length-append (drop uc.current uc.buffer) (from_stream uc.outer),
      ap (λ l. length l) at.front,
      length-take remains uc₁.buffer,
      at.within,
      ap (λ l. length l) at.rest,
    )

    filled :
        (e : ℤ)
        → Filled uc (record uc₁ {
          buffer = take remains uc₁.buffer ++ got.0;
          current = 0;
          err_no = e;
          outer = record uc₁.outer { world = got.1 };
        })
    unfolding drop
    filled e =
        let count = reads.count room uc₁.outer.file uc₁.outer.world in
        let len : length (take remains uc₁.buffer ++ got.0) ≡ remains + length got.0 = omega (
          arith,
          length-append (take remains uc₁.buffer) got.0,
          length-take remains uc₁.buffer,
          at.within,
        ) in
        record {
          fits = (omega (arith, at.less), omega (arith, len, count, at.less));
          item = at.item;
          return_code = at.return_code;
          handler = at.handler;
          current = refl;
          kept =
              append_assoc (take remains uc₁.buffer) got.0 (unread uc₁.outer.file got.1)
              ∙ ap (λ l. take remains uc₁.buffer ++ l)
                  (reads.takes room uc₁.outer.file uc₁.outer.world)
              ∙ ap (λ l. l ++ from_stream uc₁.outer) at.front
              ∙ ap (λ l. drop uc.current uc.buffer ++ l) at.rest;
          full = omega (arith, len, count, length-input, at.less);
        }

    fill_stream_buffer-Filled :
        let (rc, uc') = fill_stream_buffer heap stdio remains uc₁ in
        Filled uc uc' × (uc'.outer.buffer_length ≡ uc₁.outer.buffer_length) × (rc ≡ fill_code uc)
    unfolding fill_stream_buffer
    fill_stream_buffer-Filled =
        let count = reads.count room uc₁.outer.file uc₁.outer.world in
        let same = ap (λ l. length l) at.rest in
        elim (Bool-cases (length got.0 == 0)) [
          | inl nothing ↦
              let eof : stdio.feof uc₁.outer.file got.1 ≡ true =
                reads.at_end room uc₁.outer.file uc₁.outer.world (ground (arith, at.less)) in
              let dry : (0 == length (from_stream uc.outer)) ≡ true =
                ground (arith, count, at.less, same) in
              rw (nothing, eof) (filled uc₁.err_no, refl, rw dry refl)
          | inr something ↦
              let more : (0 == length (from_stream uc.outer)) ≡ false =
                ground (arith, count, at.less, same) in
              rw something (filled uc₁.err_no, refl, rw more refl)
        ]

  abbrev pub Refilled : ℕ → StreamUnpackContext V → ℤ × StreamUnpackContext V → Type 0
  Refilled more uc (rc, uc') =
      (Filled uc uc' × (more ≤ uc'.outer.buffer_length) × (rc ≡ fill_code uc))
      ⊎ ((rc ≡ rc_buffer_underflow)
          × Fits uc'
          × (uc'.handle_unpack_underflow ≡ uc.handle_unpack_underflow)
          × RunsOut heap)

  module _ (r : Reallocates heap) (apart : (file : ℕ) → LeavesAlone heap (unread file))
      (reads : Reads stdio unread) (more : ℕ) (uc : StreamUnpackContext V) (fits : Fits uc)
      (within : uc.current ≤ length uc.buffer) (lacks : length uc.buffer < uc.current + more) where
    abbrev remains : ℕ
    remains = length uc.buffer - uc.current

    abbrev moved : List ℕ
    moved = move_down uc.buffer uc.current remains

    abbrev settled : Room V → StreamUnpackContext V
    settled room = record uc {
      buffer = room.block;
      outer = record uc.outer { buffer_length = room.buffer_length; world = room.world };
    }

    at_front :
        (room : Room V)
        → Ensured heap (unread uc.outer.file) more moved uc.outer.buffer_length uc.outer.world room
        → Enough heap (unread uc.outer.file) more moved uc.outer.buffer_length uc.outer.world room
        → AtFront remains uc (settled room)
    at_front room e enough =
        let n = length moved in
        let small : remains ≤ n = omega (arith, length-move_down uc.buffer uc.current remains) in
        let long : n ≤ length room.block =
          omega (arith, length-take n room.block, ap (λ l. length l) enough.kept) in
        record {
          within = omega (arith, small, long);
          less = omega (arith, enough.enough);
          item = refl;
          return_code = refl;
          handler = refl;
          front =
              sym (take-take remains n room.block small)
              ∙ ap (take remains) enough.kept
              ∙ take-move_down uc.buffer uc.current remains (omega arith)
              ∙ take-all remains (drop uc.current uc.buffer)
                  (omega (arith, length-drop uc.current uc.buffer));
          rest = e.apart;
        }

    after_room :
        (room : Room V)
        → Ensured heap (unread uc.outer.file) more moved uc.outer.buffer_length uc.outer.world room
        → Refilled more uc (
            if is_error room.rc
            then (room.rc, settled room)
            else fill_stream_buffer heap stdio remains (settled room))
    after_room room e = elim e.outcome [
      | inl enough ↦
          let (f, same, code) =
            fill_stream_buffer-Filled remains uc (settled room) (at_front room e enough) reads in
          rw enough.ok (inl (f, rw same enough.enough, code))
      | inr failed ↦ rw failed.0 (
          inr (
            refl,
            (
              omega (arith, e.longer),
              rw failed.1 (omega (arith, length-move_down uc.buffer uc.current remains, e.longer)),
            ),
            refl,
            failed.2,
          ))
    ]

    -- Where the stream is read without an error, handle_stream_unpack_underflow fills the buffer with
    -- what it has place for, which is no less than was asked for, or with all that there is; it reports
    -- the end of the input only where the stream has nothing more. Or else realloc has failed.
    pub handle_stream_unpack_underflow-Refilled :
        Refilled more uc (handle_stream_unpack_underflow heap stdio uc more)
    unfolding handle_stream_unpack_underflow
    handle_stream_unpack_underflow-Refilled =
        after_room (ensure_length heap more moved uc.outer.buffer_length uc.outer.world) (
          ensure_length_lem heap (unread uc.outer.file) r (apart uc.outer.file) more moved
            uc.outer.buffer_length uc.outer.world fits.0
            (omega (arith, fits.1, length-move_down uc.buffer uc.current remains)))
