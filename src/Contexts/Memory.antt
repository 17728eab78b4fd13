-- ===== src/Contexts/Memory.antt =====
-- The dynamic memory pack context of goodies/basic-contexts/basic_contexts.c.
use cwpack.Prelude.{
  ℕ, zero, suc, ◌+◌, ◌*◌, ◌≤◌, ◌≡◌, Option, none, some, List, length, take, ltb, if◌then◌else◌,
}
use cwpack.Prelude.Int.{ℤ, ◌==ℤ◌}
use cwpack.ReturnCode.{rc_ok, rc_buffer_overflow, rc_malloc_error}
use cwpack.Wire.{Build}
use cwpack.Pack.{PackContext, cw_pack_context_init}

-- `malloc`, `realloc` and `free` of the C library, over all that lies outside of the context. A block
-- is its bytes.
pub record Heap (W : Type 0) : Type 0 where
  pub malloc : ℕ → W → Option (List ℕ) × W
  pub realloc : List ℕ → ℕ → W → Option (List ℕ) × W
  pub free : List ℕ → W → W

-- What the code relies on: a block that realloc gives has the length that was asked for, and starts
-- with the old block where that is not longer.
pub record Reallocates {W : Type 0} (heap : Heap W) : Type 0 where
  pub block_length :
      (old new : List ℕ) (n : ℕ) (w : W) → (heap.realloc old n w).0 ≡ some new → length new ≡ n
  pub kept :
      (old new : List ℕ) (n : ℕ) (w : W)
      → (heap.realloc old n w).0 ≡ some new
      → length old ≤ n
      → take (length old) new ≡ old

-- A block that malloc gives has the length that was asked for.
pub record Allocates {W : Type 0} (heap : Heap W) : Type 0 where
  pub malloc_length :
      (new : List ℕ) (n : ℕ) (w : W) → (heap.malloc n w).0 ≡ some new → length new ≡ n

-- What the functions of the heap leave alone, as a file.
pub record LeavesAlone {W X : Type 0} (heap : Heap W) (view : W → X) : Type 0 where
  pub malloc_apart : (n : ℕ) (w : W) → view (heap.malloc n w).1 ≡ view w
  pub realloc_apart : (old : List ℕ) (n : ℕ) (w : W) → view (heap.realloc old n w).1 ≡ view w
  pub free_apart : (block : List ℕ) (w : W) → view (heap.free block w) ≡ view w

-- `while (buffer_length < tot_len) buffer_length = 2 * buffer_length;`, and `none` where the fuel runs
-- out. With a length of 0 the loop does not end.
unfoldable pub grow : ℕ → ℕ → ℕ → Option ℕ
grow zero buffer_length tot_len = if ltb buffer_length tot_len then none else some buffer_length
grow (suc fuel) buffer_length tot_len =
    let more = grow fuel (2 * buffer_length) tot_len in
    if ltb buffer_length tot_len then more else some buffer_length

module _ {W : Type 0} (heap : Heap W) where
  -- Behind the loop. Where the loop does not end there is no result, and the one here is not meant.
  unfoldable pub reallocate : Option ℕ → PackContext W → ℤ × PackContext W
  reallocate none pc = (rc_buffer_overflow, pc)
  reallocate (some buffer_length) pc =
      let (block, outer) = heap.realloc pc.buffer buffer_length pc.outer in
      elim block [
        | none ↦ (rc_buffer_overflow, record pc { outer = outer })
        | some new_buffer ↦ (rc_ok, record pc { buffer = new_buffer; outer = outer })
      ]

  -- The offset `current` stays `contains`. The fuel is the length to reach.
  unfoldable pub handle_memory_pack_overflow : PackContext W → ℕ → ℤ × PackContext W
  unfolding grow reallocate
  handle_memory_pack_overflow pc more =
      let tot_len = pc.current + more in reallocate (grow tot_len (length pc.buffer) tot_len) pc

  -- `handler` is the address of handle_memory_pack_overflow. Where malloc fails, the fields but
  -- `return_code` are what the memory of the context held before.
  unfoldable pub init_dynamic_memory_pack_context : Build → ℕ → ℕ → PackContext W → PackContext W
  init_dynamic_memory_pack_context b handler initial_buffer_length dmpc =
      let buffer_length = if ltb 0 initial_buffer_length then initial_buffer_length else 1024 in
      let (block, outer) = heap.malloc buffer_length dmpc.outer in
      elim block [
        | none ↦ record dmpc { return_code = rc_malloc_error; outer = outer }
        | some buffer ↦ (cw_pack_context_init b buffer (some handler) outer).1
      ]

  -- The buffer itself is not to be used after that.
  pub free_dynamic_memory_pack_context : PackContext W → PackContext W
  free_dynamic_memory_pack_context dmpc =
      if dmpc.return_code ==ℤ rc_malloc_error
      then dmpc
      else record dmpc { outer = heap.free dmpc.buffer dmpc.outer }
