-- ===== src/Contexts/FileSource.antt =====
-- handle_file_unpack_underflow, where memcpy copies what it is asked to copy.
use cwpack.Prelude.{ℕ, ◌+◌, ◌-◌, ◌≤◌, inl, inr, List, length, arith}
use cwpack.Prelude.Int.{ℤ}
use cwpack.Contexts.Memory.{Heap, Reallocates, LeavesAlone}
use cwpack.Contexts.Barrier.{barrier_or-le}
use cwpack.Contexts.Unix.{Unix, ReadsFront, copy_down-IsCopied, CopiesOverlaps, overlaps-IsCopied}
use cwpack.Contexts.FileUnpack.{FileUnpackContext, unpack_start, handle_file_unpack_underflow}
use cwpack.Contexts.FileOutcome.{IsSound, Outcome, IsMoved, Ends, handle_file_unpack_underflow-Ends}

module _ {V : Type 0} (heap : Heap V) (unix : Unix V) (unread : ℤ → V → List ℕ) where
  pub Ends-Outcome :
      (more : ℕ) (uc : FileUnpackContext V) (out : ℤ × FileUnpackContext V)
      → IsMoved heap unix unread uc
      → Ends heap unix unread more uc out
      → Outcome heap unix unread more uc out
  Ends-Outcome more uc (rc, uc') moved (sound, handler, inl (answered, refilled, result)) =
      (sound, handler, inl (refilled moved, result))
  Ends-Outcome more uc (rc, uc') moved (sound, handler, inr failed) = (sound, handler, inr failed)

  module _ (more : ℕ) (uc : FileUnpackContext V) (sound : IsSound heap unix unread uc)
      (reads : ReadsFront unix unread) where
    within_buffer : unpack_start uc + (length uc.buffer - unpack_start uc) ≤ length uc.buffer
    within_buffer =
        omega (arith, barrier_or-le uc.outer.barrier uc.current sound.barrier_within, sound.within)

    pub handle_file_unpack_underflow-Outcome :
        length uc.buffer - unpack_start uc ≤ unpack_start uc
        → Reallocates heap
        → ((fd : ℤ) → LeavesAlone heap (unread fd))
        → Outcome heap unix unread more uc (handle_file_unpack_underflow heap unix uc more)
    handle_file_unpack_underflow-Outcome far r apart =
        Ends-Outcome more uc (handle_file_unpack_underflow heap unix uc more)
          (copy_down-IsCopied unix uc.buffer (unpack_start uc) (length uc.buffer - unpack_start uc)
            far within_buffer)
          (handle_file_unpack_underflow-Ends heap unix unread more uc sound reads r apart)

    -- The same for any areas, where memcpy does on overlapping ones what memmove does.
    pub overlapping-Outcome :
        CopiesOverlaps unix
        → Reallocates heap
        → ((fd : ℤ) → LeavesAlone heap (unread fd))
        → Outcome heap unix unread more uc (handle_file_unpack_underflow heap unix uc more)
    overlapping-Outcome copies r apart =
        Ends-Outcome more uc (handle_file_unpack_underflow heap unix uc more)
          (overlaps-IsCopied unix copies uc.buffer (unpack_start uc)
            (length uc.buffer - unpack_start uc) within_buffer)
          (handle_file_unpack_underflow-Ends heap unix unread more uc sound reads r apart)
