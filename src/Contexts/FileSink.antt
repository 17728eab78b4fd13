-- ===== src/Contexts/FileSink.antt =====
-- The file pack context keeps the contract of overflow handlers, and what stands behind its barrier.
use cwpack.Prelude.{
  ℕ, ◌+◌, ◌-◌, ◌≤◌, ◌≡◌, refl, sym, ap, ◌∙◌, ◌⊎◌, inl, inr, true, false, Option, none, some, List,
  ◌++◌, append-nil, append_assoc, length, take, drop, ltb, Bool-cases, arith,
}
use cwpack.Prelude.Int.{ℤ, pos, ◌==ℤ◌, eq_of_parts}
use cwpack.ReturnCode.{is_error}
use cwpack.Pack.Sink.{SameSettings, output}
use cwpack.Contexts.Memory.{Heap}
use cwpack.Contexts.Barrier.{to_start, BarrierWithin, barrier_or, barrier_or-le}
use cwpack.Contexts.Unix.{Unix, WritesAll, length-copy_down, IsCopied, take-take-drop}
use cwpack.Contexts.FilePack.{
  PackFile, FilePackContext, pack_start, set_world, keep_from_barrier, flush_file_pack_context,
}

module _ {V : Type 0} where
  -- The bytes from the barrier up to `current`.
  abbrev pub since_barrier : FilePackContext V → List ℕ
  since_barrier pc = take (pc.current - pack_start pc) (drop (pack_start pc) pc.buffer)

  -- The rest behind the barrier now stands at the start of the buffer.
  pub record Cut (pc pc' : FilePackContext V) : Type 0 where
    pub length_kept : length pc'.buffer ≡ length pc.buffer
    pub current : pc'.current ≡ pc.current - pack_start pc
    pub outer : pc'.outer ≡ record pc.outer { barrier = to_start pc.outer.barrier }
    pub settings : SameSettings pc pc'
    pub since : take pc'.current pc'.buffer ≡ since_barrier pc

  -- What memcpy was to copy from the barrier is at the start.
  abbrev pub IsCut : Unix V → FilePackContext V → Type 0
  IsCut unix pc = IsCopied unix pc.buffer (pack_start pc) (pc.current - pack_start pc)

  cut :
      (unix : Unix V) (pc : FilePackContext V) (o : Option ℕ)
      → pc.outer.barrier ≡ o
      → BarrierWithin o pc.current
      → pc.current ≤ length pc.buffer
      → IsCopied unix pc.buffer (barrier_or o pc.current) (pc.current - barrier_or o pc.current)
      → Cut pc (keep_from_barrier unix pc)
  unfolding keep_from_barrier take
  cut unix pc none e h within copied =
      rw (e, keep_from_barrier)
        (record {
          length_kept = refl;
          current = omega arith;
          outer = ap (λ o'. record pc.outer { barrier = o' }) e;
          settings = record {
            be_compatible = refl;
            return_code = refl;
            handle_pack_overflow = refl;
          };
          since = let nothing : pc.current - pc.current ≡ 0 = omega arith in rw nothing refl;
        })
  cut unix pc (some p) e h within copied =
      rw (e, keep_from_barrier)
        (record {
          length_kept = length-copy_down unix pc.buffer p (pc.current - p);
          current = refl;
          outer = refl;
          settings = record {
            be_compatible = refl;
            return_code = refl;
            handle_pack_overflow = refl;
          };
          since = copied;
        })

module _ {V : Type 0} (heap : Heap V) (unix : Unix V) (written : ℤ → V → List ℕ) where
  -- What was written to the file.
  abbrev pub to_file : PackFile V → List ℕ
  to_file w = written w.file_descriptor w.world

  -- A handler has written the bytes in front of the barrier, and kept those behind it.
  pub record Sent (pc pc' : FilePackContext V) : Type 0 where
    pub length_kept : length pc'.buffer ≡ length pc.buffer
    pub current : pc'.current ≡ pc.current - pack_start pc
    pub barrier : pc'.outer.barrier ≡ to_start pc.outer.barrier
    pub settings : SameSettings pc pc'
    pub since : take pc'.current pc'.buffer ≡ since_barrier pc
    pub wrote : to_file pc'.outer ++ since_barrier pc ≡ output to_file pc

  -- A handler has failed.
  pub record Stays (pc pc' : FilePackContext V) : Type 0 where
    pub buffer : pc'.buffer ≡ pc.buffer
    pub current : pc'.current ≡ pc.current
    pub barrier : pc'.outer.barrier ≡ pc.outer.barrier
    pub settings : SameSettings pc pc'

  abbrev pub Flushes : FilePackContext V → ℤ × FilePackContext V → Type 0
  Flushes pc (rc, pc') =
      ((is_error rc ≡ false) × Sent pc pc') ⊎ ((is_error rc ≡ true) × Stays pc pc')

  sent :
      (pc : FilePackContext V) (v : V)
      → BarrierWithin pc.outer.barrier pc.current
      → pc.current ≤ length pc.buffer
      → IsCut unix pc
      → written pc.outer.file_descriptor v ≡ to_file pc.outer ++ take (pack_start pc) pc.buffer
      → Sent pc (keep_from_barrier unix (set_world v pc))
  sent pc v h within copied wrote =
      let c = cut unix (set_world v pc) pc.outer.barrier refl h within copied in
      let p = pack_start pc in
      let pc' = keep_from_barrier unix (set_world v pc) in
      let whole : p + (pc.current - p) ≡ pc.current =
        omega (arith, barrier_or-le pc.outer.barrier pc.current h) in
      record {
        length_kept = c.length_kept;
        current = c.current;
        barrier = ap (λ (o : PackFile V). o.barrier) c.outer;
        settings = record {
          be_compatible = c.settings.be_compatible;
          return_code = c.settings.return_code;
          handle_pack_overflow = c.settings.handle_pack_overflow;
        };
        since = c.since;
        wrote =
            ap (λ o. to_file o ++ since_barrier pc) c.outer
            ∙ ap (λ l. l ++ since_barrier pc) wrote
            ∙ append_assoc (to_file pc.outer) (take p pc.buffer) (since_barrier pc)
            ∙ ap (λ l. to_file pc.outer ++ l)
                (take-take-drop p (pc.current - p) pc.current pc.buffer whole);
      }

  equal : (a b : ℤ) → (a ==ℤ b) ≡ true → a ≡ b
  equal a b e = eq_of_parts a b (ground arith)

  pub flush_file_pack_context-Flushes :
      (pc : FilePackContext V)
      → WritesAll unix written
      → BarrierWithin pc.outer.barrier pc.current
      → pc.current ≤ length pc.buffer
      → IsCut unix pc
      → Flushes pc (flush_file_pack_context heap unix pc)
  unfolding flush_file_pack_context take
  flush_file_pack_context-Flushes pc writes h within copied =
      let n = pack_start pc in
      let done = unix.write pc.outer.file_descriptor pc.buffer n pc.outer.world in
      let small : n ≤ pc.current = barrier_or-le pc.outer.barrier pc.current h in
      elim (Bool-cases (ltb 0 n)) [
        | inl some_bytes ↦ elim (Bool-cases (done.0 ==ℤ pos n)) [
          | inl all ↦
              rw (some_bytes, all)
                (inl (
                  refl,
                  sent pc done.1 h within copied (
                      writes.appends pc.buffer n pc.outer.file_descriptor pc.outer.world
                        (omega (arith, small)) (equal done.0 (pos n) all)),
                ))
          | inr short ↦
              rw (some_bytes, short)
                (inr (
                  refl,
                  record {
                    buffer = refl;
                    current = refl;
                    barrier = refl;
                    settings = record {
                      be_compatible = refl;
                      return_code = refl;
                      handle_pack_overflow = refl;
                    };
                  },
                ))
        ]
        | inr no_bytes ↦
            let start : n ≡ 0 = ground arith in
            rw no_bytes (
              inl (
                refl,
                sent pc pc.outer.world h within copied (
                    sym (append-nil (to_file pc.outer))
                    ∙ ap (λ m. to_file pc.outer ++ take m pc.buffer) (sym start)),
              ))
      ]
