-- ===== src/Contexts/StreamSink.antt =====
-- The stream pack context keeps the contract of overflow handlers.
use cwpack.Prelude.{
  ℕ, ◌*◌, ◌≤◌, ◌≡◌, refl, sym, ap, ◌∙◌, subst, inl, inr, true, false, Option, none, some, List,
  ◌++◌, append-nil, length, take, ltb, ◌==◌, if◌then◌else◌, Bool-cases, arith,
}
use cwpack.Prelude.Int.{ℤ}
use cwpack.ReturnCode.{rc_ok, is_error}
use cwpack.Wire.{Build}
use cwpack.Pack.Sink.{Sink, MakesRoom, SameSettings, SameSettings-trans, output}
use cwpack.Contexts.Memory.{Heap, Allocates, LeavesAlone}
use cwpack.Contexts.MemorySink.{grow-enough}
use cwpack.Contexts.Stdio.{Stdio, Writes}
use cwpack.Contexts.StreamPack.{
  Stream, StreamPackContext, flush_stream_pack_context, replace_block, empty_stream_buffer,
  handle_stream_pack_overflow, stream_pack_platform,
}

module _ {V : Type 0} (heap : Heap V) (stdio : Stdio V) (written : ℕ → V → List ℕ) where
  -- What was written to the stream.
  abbrev pub to_stream : Stream V → List ℕ
  to_stream w = written w.file w.world

  -- The handlers write the bytes of the buffer to the stream.
  pub record Flushes (pc : StreamPackContext V) (rc : ℤ) (pc' : StreamPackContext V) : Type 0 where
    pub buffer : pc'.buffer ≡ pc.buffer
    pub current : pc'.current ≡ pc.current
    pub settings : SameSettings pc pc'
    pub file : pc'.outer.file ≡ pc.outer.file
    pub wrote : is_error rc ≡ false → to_stream pc'.outer ≡ output to_stream pc

  whole :
      (pc : StreamPackContext V)
      → Writes stdio written
      → pc.current ≤ length pc.buffer
      → (stdio.fwrite pc.buffer pc.current 1 pc.outer.file pc.outer.world).0 ≡ 1
      → written pc.outer.file (stdio.fwrite pc.buffer pc.current 1 pc.outer.file pc.outer.world).1
        ≡ output to_stream pc
  whole pc writes within all_sent =
      let one : pc.current * 1 ≡ pc.current = omega arith in
      subst
        (λ n.
          written pc.outer.file (stdio.fwrite pc.buffer pc.current 1 pc.outer.file pc.outer.world).1
          ≡ to_stream pc.outer ++ take n pc.buffer)
        one
        (writes.appends pc.buffer pc.current 1 pc.outer.file pc.outer.world (omega arith) all_sent)

  pub flush_stream_pack_context-Flushes :
      (pc : StreamPackContext V)
      → Writes stdio written
      → pc.current ≤ length pc.buffer
      → let (rc, pc') = flush_stream_pack_context heap stdio pc in Flushes pc rc pc'
  unfolding flush_stream_pack_context take
  flush_stream_pack_context-Flushes pc writes within =
      let sent = stdio.fwrite pc.buffer pc.current 1 pc.outer.file pc.outer.world in
      elim (Bool-cases (ltb 0 pc.current)) [
        | inl some_bytes ↦ elim (Bool-cases (sent.0 == 1)) [
          | inl all_sent ↦
              rw (some_bytes, all_sent)
                (record {
                  buffer = refl;
                  current = refl;
                  settings = record {
                    be_compatible = refl;
                    return_code = refl;
                    handle_pack_overflow = refl;
                  };
                  file = refl;
                  wrote = λ good. whole pc writes within (ground arith);
                })
          | inr short ↦
              rw (some_bytes, short)
                (record {
                  buffer = refl;
                  current = refl;
                  settings = record {
                    be_compatible = refl;
                    return_code = refl;
                    handle_pack_overflow = refl;
                  };
                  file = refl;
                  wrote = λ good. absurd cc;
                })
        ]
        | inr no_bytes ↦
            let start : pc.current ≡ 0 = ground arith in
            rw no_bytes (record {
              buffer = refl;
              current = refl;
              settings = record {
                be_compatible = refl;
                return_code = refl;
                handle_pack_overflow = refl;
              };
              file = refl;
              wrote = λ good. rw start (sym (append-nil (to_stream pc.outer)));
            })
      ]

  -- The block that takes the place of the buffer, if there is one.
  pub record Replaced (n : ℕ) (pc : StreamPackContext V) (rc : ℤ) (pc' : StreamPackContext V)
      : Type 0 where
    pub current : pc'.current ≡ pc.current
    pub settings : SameSettings pc pc'
    pub outside : to_stream pc'.outer ≡ to_stream pc.outer
    pub as_long : is_error rc ≡ true → length pc'.buffer ≡ length pc.buffer
    pub long : is_error rc ≡ false → length pc'.buffer ≡ n

  module _ (a : Allocates heap) (apart : (file : ℕ) → LeavesAlone heap (written file)) where
    replaced :
        (n : ℕ) (pc : StreamPackContext V) (block : Option (List ℕ))
        → (heap.malloc n pc.outer.world).0 ≡ block
        → let (rc, pc') = replace_block heap stdio (some n) pc in Replaced n pc rc pc'
    unfolding replace_block
    replaced n pc none e =
        rw (e, replace_block)
          (record {
            current = refl;
            settings = record {
              be_compatible = refl;
              return_code = refl;
              handle_pack_overflow = refl;
            };
            outside = (apart pc.outer.file).malloc_apart n pc.outer.world;
            as_long = λ bad. refl;
            long = λ good. absurd cc;
          })
    replaced n pc (some new) e =
        rw (e, replace_block)
          (record {
            current = refl;
            settings = record {
              be_compatible = refl;
              return_code = refl;
              handle_pack_overflow = refl;
            };
            outside =
                (apart pc.outer.file).free_apart pc.buffer (heap.malloc n pc.outer.world).1
                ∙ (apart pc.outer.file).malloc_apart n pc.outer.world;
            as_long = λ bad. absurd cc;
            long = λ good. a.malloc_length new n pc.outer.world e;
          })

    abbrev Emptied : ℕ → StreamPackContext V → ℤ × StreamPackContext V → Type 0
    Emptied more pc (rc, pc') =
        SameSettings pc pc'
        × (to_stream pc'.outer ≡ to_stream pc.outer)
        × (1 ≤ length pc'.buffer)
        × (pc'.current ≤ length pc'.buffer)
        × (is_error rc ≡ false → (pc'.current ≡ 0) × (more ≤ length pc'.buffer))

    -- Behind the replacement: `current` goes back to the start.
    to_start :
        (more n : ℕ) (pc pc' : StreamPackContext V) (rc : ℤ)
        → 1 ≤ length pc.buffer
        → pc.current ≤ length pc.buffer
        → 1 ≤ n
        → more ≤ n
        → Replaced n pc rc pc'
        → Emptied more pc (if is_error rc then (rc, pc') else (rc_ok, record pc' { current = 0 }))
    to_start more n pc pc' rc some_room within one enough r =
        let settings = r.settings in
        elim (Bool-cases (is_error rc)) [
          | inl bad ↦ rw bad (
            settings,
            r.outside,
            rw (r.as_long bad) some_room,
            rw (r.as_long bad) (rw r.current within),
            λ good. absurd cc,
          )
          | inr good ↦ rw good (
            record {
              be_compatible = settings.be_compatible;
              return_code = settings.return_code;
              handle_pack_overflow = settings.handle_pack_overflow;
            },
            r.outside,
            rw (r.long good) one,
            omega arith,
            λ _. (refl, rw (r.long good) enough),
          )
        ]

    emptied :
        (more : ℕ) (pc : StreamPackContext V)
        → 1 ≤ length pc.buffer
        → pc.current ≤ length pc.buffer
        → Emptied more pc (empty_stream_buffer heap stdio more pc)
    unfolding empty_stream_buffer
    emptied more pc some_room within =
        let len = length pc.buffer in
        elim (Bool-cases (ltb len more)) [
          | inl short ↦
              let (n, e, reached, longer) = grow-enough more len more some_room (omega arith) in
              let (rc, pc') = replace_block heap stdio (some n) pc in
              rw (short, e)
                (to_start more n pc pc' rc some_room within (omega (arith, longer, some_room))
                  reached (replaced n pc (heap.malloc n pc.outer.world).0 refl))
          | inr enough ↦ rw enough (
              to_start more len pc pc rc_ok some_room within some_room (ground arith) (record {
                current = refl;
                settings = record {
                  be_compatible = refl;
                  return_code = refl;
                  handle_pack_overflow = refl;
                };
                outside = refl;
                as_long = λ bad. refl;
                long = λ good. refl;
              }))
        ]

    after_flush :
        (more : ℕ) (pc pc' : StreamPackContext V) (rc : ℤ)
        → 1 ≤ length pc.buffer
        → pc.current ≤ length pc.buffer
        → Flushes pc rc pc'
        → let (rc'', pc'') =
            if is_error rc then (rc, pc') else empty_stream_buffer heap stdio more pc' in
          MakesRoom to_stream more pc rc'' pc'' × (1 ≤ length pc''.buffer)
    unfolding take
    after_flush more pc pc' rc some_room within f = elim (Bool-cases (is_error rc)) [
      | inl bad ↦ rw bad (
        record {
          within = rw f.current (rw f.buffer within);
          settings = f.settings;
          room = λ good. absurd cc;
          kept = λ good. absurd cc;
        },
        rw f.buffer some_room,
      )
      | inr good ↦
          let (settings, outside, one, within', done) =
            emptied more pc' (rw f.buffer some_room) (rw f.current (rw f.buffer within)) in
          let pc'' = (empty_stream_buffer heap stdio more pc').1 in
          rw good (
            record {
              within = within';
              settings = SameSettings-trans f.settings settings;
              room = λ ok. omega (arith, (done ok).0, (done ok).1);
              kept = λ ok.
                  ap (λ n. to_stream pc''.outer ++ take n pc''.buffer) (done ok).0
                  ∙ append-nil (to_stream pc''.outer)
                  ∙ outside
                  ∙ f.wrote good;
            },
            one,
          )
    ]

    pub handle_stream_pack_overflow-MakesRoom :
        (more : ℕ) (pc : StreamPackContext V)
        → Writes stdio written
        → 1 ≤ length pc.buffer
        → pc.current ≤ length pc.buffer
        → let (rc, pc') = handle_stream_pack_overflow heap stdio pc more in
          MakesRoom to_stream more pc rc pc' × (1 ≤ length pc'.buffer)
    unfolding handle_stream_pack_overflow
    handle_stream_pack_overflow-MakesRoom more pc writes some_room within =
        let (rc, pc') = flush_stream_pack_context heap stdio pc in
        after_flush more pc pc' rc some_room within
          (flush_stream_pack_context-Flushes pc writes within)

    abbrev pub stream_sink :
        (b : Build) → Writes stdio written → Sink (stream_pack_platform heap stdio b)
    stream_sink b writes = record {
      flushed = to_stream;
      Holds = λ h n p w. 1 ≤ n;
      later = λ h n p q w le holds. holds;
      makes_room = λ f more pc e within holds.
          (handle_stream_pack_overflow-MakesRoom more pc writes holds within).0;
      holds_on = λ f more pc e within holds.
          (handle_stream_pack_overflow-MakesRoom more pc writes holds within).1;
    }
