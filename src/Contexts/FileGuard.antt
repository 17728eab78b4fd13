-- ===== src/Contexts/FileGuard.antt =====
-- The file unpack context on any input, whatever read and realloc give.
use cwpack.Prelude.{ℕ, ◌+◌, ◌≤◌, ◌≡◌, inl, inr, Bool, Option, none, some, List, length}
use cwpack.Prelude.Int.{ℤ}
use cwpack.ReturnCode.{rc_ok}
use cwpack.Wire.{Build}
use cwpack.Unpack.Next.{cw_unpack_next}
use cwpack.Unpack.Skip.{cw_skip_items}
use cwpack.Unpack.LookAhead.{cw_look_ahead}
use cwpack.Unpack.Safety.{Guard, Answers, IsIn}
use cwpack.Contexts.Memory.{Heap, Reallocates, LeavesAlone}
use cwpack.Contexts.Barrier.{BarrierWithin-later}
use cwpack.Contexts.Unix.{Unix, ReadsFront}
use cwpack.Contexts.FileUnpack.{
  FileUnpackContext, handle_file_unpack_underflow, file_unpack_platform,
  file_unpack_context_set_barrier, file_unpack_context_rescan_from_barrier,
  file_unpack_context_release_barrier,
}
use cwpack.Contexts.FileReading.{Result}
use cwpack.Contexts.FileOutcome.{Ends, Held, IsSound-of, handle_file_unpack_underflow-Ends}

module _ {V : Type 0} (heap : Heap V) (unix : Unix V) (unread : ℤ → V → List ℕ)
    (r : Reallocates heap) (apart : (fd : ℤ) → LeavesAlone heap (unread fd))
    (reads : ReadsFront unix unread) (b : Build) where
  pub answered :
      (more : ℕ) (uc : FileUnpackContext V) (out : ℤ × FileUnpackContext V)
      → Ends heap unix unread more uc out
      → Answers more uc out.0 out.1
  answered more uc (rc, uc') (sound, handler, inl (f, refilled, result)) = record {
    within = sound.within;
    room = λ ok. room rc uc' ok result;
    item = λ ok. f.item;
    return_code = λ ok. f.return_code;
  }
    where
      room :
          (rc : ℤ) (uc' : FileUnpackContext V)
          → rc ≡ rc_ok
          → Result heap unix unread more rc uc'
          → uc'.current + more ≤ length uc'.buffer
      room rc uc' ok (inl (code, enough)) = enough
      room rc uc' ok (inr (inl (code, dry, short))) = absurd cc
      room rc uc' ok (inr (inr (code, failed))) = absurd cc
  answered more uc (rc, uc') (sound, handler, inr (code, failed)) = record {
    within = sound.within;
    room = λ ok. absurd cc;
    item = λ ok. absurd cc;
    return_code = λ ok. absurd cc;
  }

  abbrev pub file_guard : Guard (file_unpack_platform heap unix b)
  file_guard = record {
    Holds = Held heap unix unread;
    later = λ h n p q w le holds.
        (holds.0, holds.1, holds.2, BarrierWithin-later w.barrier p q le holds.3);
    answers = λ f more uc e within holds lacks.
        let sound = IsSound-of heap unix unread uc holds within in
        let o = handle_file_unpack_underflow-Ends heap unix unread more uc sound reads r apart in
        let s = o.0 in
        (
          answered more uc (handle_file_unpack_underflow heap unix uc more) o,
          (rw o.1 holds.0, s.some_room, s.fits, s.barrier_within),
        );
  }

  -- One call on a file unpack context.
  pub data Step (uc uc' : FileUnpackContext V) : Type 0 where
    next : cw_unpack_next (file_unpack_platform heap unix b) uc ≡ some (tt, uc') → Step uc uc'
    skip :
        (fuel : ℕ) (count : ℤ) (done : Bool)
        → cw_skip_items (file_unpack_platform heap unix b) fuel count uc ≡ some (done, uc')
        → Step uc uc'
    look_ahead :
        (type : ℤ)
        → cw_look_ahead (file_unpack_platform heap unix b) uc ≡ some (type, uc')
        → Step uc uc'
    set_barrier : uc' ≡ file_unpack_context_set_barrier uc → Step uc uc'
    rescan : file_unpack_context_rescan_from_barrier uc ≡ some uc' → Step uc uc'
    release_barrier : uc' ≡ file_unpack_context_release_barrier uc → Step uc uc'

  -- Any number of calls.
  pub data Reach (uc : FileUnpackContext V) : FileUnpackContext V → Type 0 where
    here : Reach uc uc
    call : {uc' uc'' : FileUnpackContext V} → Reach uc uc' → Step uc' uc'' → Reach uc uc''

  abbrev IsInOption : Option (FileUnpackContext V) → Type 0
  IsInOption none = ⊥
  IsInOption (some uc) = IsIn file_guard uc
