-- ===== src/Contexts/Refill.antt =====
-- What the two underflow handlers of goodies/basic-contexts/basic_contexts.c have in common: the loop
-- and the call of realloc that see to the length of the buffer.
use cwpack.Prelude.{
  ℕ, ◌≤◌, ◌≡◌, refl, ◌⊎◌, inl, inr, Option, none, some, List, length, take, take-all, ltb,
  if◌then◌else◌, Bool-cases, arith,
}
use cwpack.Prelude.Int.{ℤ}
use cwpack.ReturnCode.{rc_ok, rc_buffer_underflow}
use cwpack.Contexts.Memory.{Heap, Reallocates, LeavesAlone, grow}
use cwpack.Contexts.MemorySink.{grow-enough}

-- The block, the member `buffer_length`, and the world of the C library.
pub record Room (V : Type 0) : Type 0 where
  pub rc : ℤ
  pub block : List ℕ
  pub buffer_length : ℕ
  pub world : V

-- realloc finds no memory.
abbrev pub RunsOut : {V : Type 0} → Heap V → Type 0
RunsOut {V} heap = (old : List ℕ) × (n : ℕ) × (v : V) × ((heap.realloc old n v).0 ≡ none)

module _ {V : Type 0} (heap : Heap V) where
  -- Behind the loop, as in Memory.
  unfoldable pub lengthen : Option ℕ → Room V → Room V
  lengthen none r = record r { rc = rc_buffer_underflow }
  lengthen (some n) r =
      let (new, world) = heap.realloc r.block n r.world in
      elim new [
        | none ↦ record r { rc = rc_buffer_underflow; buffer_length = n; world = world }
        | some new_buffer ↦ record {
          rc = rc_ok;
          block = new_buffer;
          buffer_length = n;
          world = world;
        }
      ]

  -- `block` is what the block is known to hold, from its start. It is `buffer_length` long.
  unfoldable pub ensure_length : ℕ → List ℕ → ℕ → V → Room V
  unfolding grow lengthen
  ensure_length needed block buffer_length world =
      let r : Room V = record {
        rc = rc_ok;
        block = block;
        buffer_length = buffer_length;
        world = world;
      } in
      if ltb buffer_length needed then lengthen (grow needed buffer_length needed) r else r

  module _ {X : Type 0} (view : V → X) where
    pub record Enough (needed : ℕ) (block : List ℕ) (len : ℕ) (world : V) (r : Room V)
        : Type 0 where
      pub ok : r.rc ≡ rc_ok
      pub enough : needed ≤ r.buffer_length
      pub kept : take (length block) r.block ≡ block

    -- There is room, with the known bytes at the start of the block, or realloc has failed.
    pub record Ensured (needed : ℕ) (block : List ℕ) (len : ℕ) (world : V) (r : Room V)
        : Type 0 where
      pub longer : len ≤ r.buffer_length
      pub apart : view r.world ≡ view world
      pub outcome :
          Enough needed block len world r
          ⊎ ((r.rc ≡ rc_buffer_underflow) × (r.block ≡ block) × RunsOut heap)

    module _ (r : Reallocates heap) (outside : LeavesAlone heap view) (needed : ℕ) (block : List ℕ)
        (len : ℕ) (world : V) where
      lengthened :
          (n : ℕ) (new : Option (List ℕ))
          → (heap.realloc block n world).0 ≡ new
          → length block ≤ len
          → len ≤ n
          → needed ≤ n
          → Ensured needed block len world (
              lengthen
                (some n)
                (record { rc = rc_ok; block = block; buffer_length = len; world = world }))
      unfolding lengthen
      lengthened n none e fits longer enough =
          rw (e, lengthen)
            (record {
              longer = longer;
              apart = outside.realloc_apart block n world;
              outcome = inr (refl, refl, (block, n, world, e));
            })
      lengthened n (some new) e fits longer enough =
          rw (e, lengthen)
            (record {
              longer = longer;
              apart = outside.realloc_apart block n world;
              outcome = inl (record {
                ok = refl;
                enough = enough;
                kept = r.kept block new n world e (omega arith);
              });
            })

      pub ensure_length_lem :
          1 ≤ len
          → length block ≤ len
          → Ensured needed block len world (ensure_length needed block len world)
      unfolding ensure_length
      ensure_length_lem some_room fits = elim (Bool-cases (ltb len needed)) [
        | inl short ↦
            let (n, e, reached, longer) = grow-enough needed len needed some_room (omega arith) in
            rw (short, e) (lengthened n (heap.realloc block n world).0 refl fits longer reached)
        | inr long ↦ rw long (record {
          longer = omega arith;
          apart = refl;
          outcome = inl (record {
            ok = refl;
            enough = ground arith;
            kept = take-all (length block) block (omega arith);
          });
        })
      ]
