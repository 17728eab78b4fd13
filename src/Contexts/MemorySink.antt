-- ===== src/Contexts/MemorySink.antt =====
-- The dynamic memory pack context keeps the contract of overflow handlers.
use cwpack.Prelude.{
  ℕ, zero, suc, ◌+◌, ◌*◌, ◌≤◌, ◌≡◌, refl, sym, ap, ◌∙◌, inl, inr, Option, none, some, List, [], ◌∷◌,
  length, take, ltb, Bool-cases, arith,
}
use cwpack.ReturnCode.{rc_ok, rc_buffer_overflow}
use cwpack.Wire.{Build}
use cwpack.Pack.{PackContext, Platform}
use cwpack.Pack.Sink.{Sink, MakesRoom}
use cwpack.Contexts.Memory.{Heap, Reallocates, grow, reallocate, handle_memory_pack_overflow}

pub take-take : (n m : ℕ) (xs : List ℕ) → n ≤ m → take n (take m xs) ≡ take n xs
unfolding take
take-take zero m xs h = refl
take-take (suc n) zero xs h = absurd (omega arith)
take-take (suc n) (suc m) [] h = refl
take-take (suc n) (suc m) (x ∷ xs) h = ap (λ t. x ∷ t) (take-take n m xs (omega arith))

-- The loop ends, where the length is not 0, and reaches the length to reach.
pub grow-enough :
    (fuel len tot : ℕ)
    → 1 ≤ len
    → tot ≤ len + fuel
    → (n : ℕ) × (grow fuel len tot ≡ some n) × (tot ≤ n) × (len ≤ n)
unfolding grow
grow-enough zero len tot h enough = elim (Bool-cases (ltb len tot)) [
  | inl short ↦ absurd (ground arith)
  | inr done ↦ (len, rw done refl, ground arith, omega arith)
]
grow-enough (suc fuel) len tot h enough = elim (Bool-cases (ltb len tot)) [
  | inl short ↦
      let (n, e, reached, longer) = grow-enough fuel (2 * len) tot (omega arith) (omega arith) in
      (n, rw short e, reached, omega (arith, longer))
  | inr done ↦ (len, rw done refl, ground arith, omega arith)
]

module _ {W : Type 0} (heap : Heap W) (r : Reallocates heap) where
  no_block :
      (n : ℕ) (pc : PackContext W)
      → (heap.realloc pc.buffer n pc.outer).0 ≡ none
      → reallocate heap (some n) pc
        ≡ (rc_buffer_overflow, record pc { outer = (heap.realloc pc.buffer n pc.outer).1 })
  unfolding reallocate
  no_block n pc e = rw (e, reallocate) refl

  a_block :
      (n : ℕ) (pc : PackContext W) (new : List ℕ)
      → (heap.realloc pc.buffer n pc.outer).0 ≡ some new
      → reallocate heap (some n) pc
        ≡ (rc_ok, record pc { buffer = new; outer = (heap.realloc pc.buffer n pc.outer).1 })
  unfolding reallocate
  a_block n pc new e = rw (e, reallocate) refl

  reallocated :
      (more n : ℕ) (pc : PackContext W) (block : Option (List ℕ))
      → (heap.realloc pc.buffer n pc.outer).0 ≡ block
      → pc.current ≤ length pc.buffer
      → pc.current + more ≤ n
      → length pc.buffer ≤ n
      → let done = reallocate heap (some n) pc in MakesRoom (λ w. []) more pc done.0 done.1
  reallocated more n pc none e within room longer = rw (no_block n pc e) (record {
    within = within;
    settings = record { be_compatible = refl; return_code = refl; handle_pack_overflow = refl };
    room = λ bad. absurd cc;
    kept = λ bad. absurd cc;
  })
  reallocated more n pc (some new) e within room longer =
      let l : length new ≡ n = r.block_length pc.buffer new n pc.outer e in
      let front : take (length pc.buffer) new ≡ pc.buffer =
        r.kept pc.buffer new n pc.outer e longer in
      rw (a_block n pc new e) (record {
        within = omega (arith, l);
        settings = record { be_compatible = refl; return_code = refl; handle_pack_overflow = refl };
        room = λ good. omega (arith, l);
        kept = λ good.
            sym (take-take pc.current (length pc.buffer) new within) ∙ ap (take pc.current) front;
      })

  longer_block :
      (n : ℕ) (pc : PackContext W) (block : Option (List ℕ))
      → (heap.realloc pc.buffer n pc.outer).0 ≡ block
      → 1 ≤ length pc.buffer
      → length pc.buffer ≤ n
      → 1 ≤ length (reallocate heap (some n) pc).1.buffer
  longer_block n pc none e h longer = rw (no_block n pc e) h
  longer_block n pc (some new) e h longer =
      let l : length new ≡ n = r.block_length pc.buffer new n pc.outer e in
      rw (a_block n pc new e) (omega (arith, l))

  -- Where realloc does what it documents, handle_memory_pack_overflow makes the room that it is asked
  -- for, or reports an error, and loses nothing; the buffer does not become empty.
  pub handle_memory_pack_overflow-MakesRoom :
      (more : ℕ) (pc : PackContext W)
      → 1 ≤ length pc.buffer
      → pc.current ≤ length pc.buffer
      → let (rc, pc') = handle_memory_pack_overflow heap pc more in
        MakesRoom (λ w. []) more pc rc pc' × (1 ≤ length pc'.buffer)
  unfolding handle_memory_pack_overflow
  handle_memory_pack_overflow-MakesRoom more pc some_room within =
      let tot = pc.current + more in
      let (n, e, reached, longer) =
        grow-enough tot (length pc.buffer) tot some_room (omega arith) in
      rw e (
        reallocated more n pc (heap.realloc pc.buffer n pc.outer).0 refl within reached longer,
        longer_block n pc (heap.realloc pc.buffer n pc.outer).0 refl some_room longer,
      )

  -- A platform where every handler is this one.
  abbrev pub memory_platform : Build → Platform W
  memory_platform b = record {
    build = b;
    pack_overflow = λ f pc more. handle_memory_pack_overflow heap pc more;
    flush = λ f pc. (rc_ok, pc);
  }

  abbrev pub memory_sink : (b : Build) → Sink (memory_platform b)
  memory_sink b = record {
    flushed = λ w. [];
    Holds = λ h n p w. 1 ≤ n;
    later = λ h n p q w le holds. holds;
    makes_room =
        λ f more pc e within holds. (handle_memory_pack_overflow-MakesRoom more pc holds within).0;
    holds_on =
        λ f more pc e within holds. (handle_memory_pack_overflow-MakesRoom more pc holds within).1;
  }
