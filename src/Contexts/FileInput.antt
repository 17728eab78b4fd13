-- ===== src/Contexts/FileInput.antt =====
-- The file unpack context as a source of input, and its barrier.
use cwpack.Prelude.{
  ℕ, ◌-◌, ◌≤◌, ◌≡◌, refl, sym, ap, ◌∙◌, inl, inr, Option, none, some, List, length, length-append,
  length-drop, drop, arith,
}
use cwpack.Prelude.Int.{ℤ}
use cwpack.Wire.{Build}
use cwpack.Unpack.Source.{Source, Brings, input}
use cwpack.Contexts.Memory.{Heap, Reallocates, LeavesAlone}
use cwpack.Contexts.Barrier.{BarrierWithin-later, to_start}
use cwpack.Contexts.Unix.{Unix, ReadsFront, CopiesOverlaps}
use cwpack.Contexts.Refill.{RunsOut}
use cwpack.Contexts.FileUnpack.{
  UnpackFile, FileUnpackContext, unpack_start, handle_file_unpack_underflow, file_unpack_platform,
  file_unpack_context_rescan_from_barrier,
}
use cwpack.Contexts.FileReading.{Fails, Result}
use cwpack.Contexts.FileOutcome.{
  still_in, from_barrier, IsSound, Refilled, Outcome, Held, IsSound-of,
}
use cwpack.Contexts.FileSource.{handle_file_unpack_underflow-Outcome, overlapping-Outcome}

module _ {V : Type 0} (heap : Heap V) (unix : Unix V) (unread : ℤ → V → List ℕ)
    (r : Reallocates heap) (never : RunsOut heap → ⊥)
    (apart : (fd : ℤ) → LeavesAlone heap (unread fd)) (reads : ReadsFront unix unread) where
  abbrev pub bytes_left : UnpackFile V → List ℕ
  bytes_left = still_in heap unix unread

  pub only-Refilled :
      (more : ℕ) (uc : FileUnpackContext V) (out : ℤ × FileUnpackContext V)
      → Outcome heap unix unread more uc out
      → Refilled heap unix unread uc out.1 × Result heap unix unread more out.0 out.1
  only-Refilled more uc out (sound, handler, inl both) = both
  only-Refilled more uc out (sound, handler, inr (code, failed)) = absurd (never failed)

  -- The input from the barrier, or nothing where there is none.
  abbrev pub rescanned : FileUnpackContext V → Option (List ℕ)
  rescanned uc = elim (file_unpack_context_rescan_from_barrier uc) [
    | none ↦ none
    | some uc' ↦ some (input bytes_left uc')
  ]

  rescanned_lem :
      (uc : FileUnpackContext V) (o : Option ℕ)
      → uc.outer.barrier ≡ o
      → rescanned uc ≡ elim o [ none ↦ none | some p ↦ some (from_barrier heap unix unread uc) ]
  unfolding file_unpack_context_rescan_from_barrier
  rescanned_lem uc none e = rw (e, file_unpack_context_rescan_from_barrier) refl
  rescanned_lem uc (some p) e = rw (e, file_unpack_context_rescan_from_barrier) refl

  rescan-Refilled :
      (uc uc' : FileUnpackContext V) (o : Option ℕ)
      → uc.outer.barrier ≡ o
      → Refilled heap unix unread uc uc'
      → rescanned uc' ≡ rescanned uc
  rescan-Refilled uc uc' none e f =
      rescanned_lem uc' none (f.barrier ∙ ap to_start e) ∙ sym (rescanned_lem uc none e)
  rescan-Refilled uc uc' (some p) e f =
      rescanned_lem uc' (some 0) (f.barrier ∙ ap to_start e)
      ∙ ap (λ l. some l) f.from
      ∙ sym (rescanned_lem uc (some p) e)

  -- Where memory does not run out, and the bytes from the barrier (or from `current`) on are no more
  -- than those in front of it, so that the areas of memcpy are apart: whatever the calls of read give,
  -- a rescan behind handle_file_unpack_underflow finds the same input as one before it.
  pub rescan-handle_file_unpack_underflow :
      (more : ℕ) (uc : FileUnpackContext V)
      → IsSound heap unix unread uc
      → length uc.buffer - unpack_start uc ≤ unpack_start uc
      → rescanned (handle_file_unpack_underflow heap unix uc more).1 ≡ rescanned uc
  rescan-handle_file_unpack_underflow more uc sound far =
      let out = handle_file_unpack_underflow heap unix uc more in
      let (f, result) =
        only-Refilled more uc out
          (handle_file_unpack_underflow-Outcome heap unix unread more uc sound reads far r apart) in
      rescan-Refilled uc out.1 uc.outer.barrier refl f

  module _ (delivers : Fails unix → ⊥) (copies : CopiesOverlaps unix) where
    pub in_time :
        (more : ℕ) (uc : FileUnpackContext V) (out : ℤ × FileUnpackContext V)
        → out.1.current ≤ length out.1.buffer
        → Refilled heap unix unread uc out.1
        → Result heap unix unread more out.0 out.1
        → more ≤ length (input bytes_left uc)
        → Brings bytes_left more uc out.0 out.1
    in_time more uc (rc, uc') within f (inl (ok, room)) enough = record {
      ok = ok;
      item = f.item;
      return_code = f.return_code;
      room = room;
      kept = f.kept;
    }
    in_time more uc (rc, uc') within f (inr (inl (code, dry, short))) enough = absurd (
        omega (
          arith,
          ap (λ l. length l) f.kept,
          length-append (drop uc'.current uc'.buffer) (bytes_left uc'.outer),
          ap (λ l. length l) dry,
          length-drop uc'.current uc'.buffer,
        ))
    in_time more uc (rc, uc') within f (inr (inr (code, failed))) enough = absurd (delivers failed)

    abbrev pub file_source : (b : Build) → Source (file_unpack_platform heap unix b)
    file_source b = record {
      pending = bytes_left;
      Holds = Held heap unix unread;
      later = λ h n p q w le holds.
          (holds.0, holds.1, holds.2, BarrierWithin-later w.barrier p q le holds.3);
      dry = λ n p w holds. absurd holds.0;
      brings = λ f more uc e within holds lacks there.
          let sound = IsSound-of heap unix unread uc holds within in
          let out = handle_file_unpack_underflow heap unix uc more in
          let o = overlapping-Outcome heap unix unread more uc sound reads copies r apart in
          let (f, result) = only-Refilled more uc out o in
          in_time more uc out o.0.within f result there;
      holds_on = λ f more uc e within holds lacks.
          let sound = IsSound-of heap unix unread uc holds within in
          let (sound', handler, rest) =
            overlapping-Outcome heap unix unread more uc sound reads copies r apart in
          (rw handler holds.0, sound'.some_room, sound'.fits, sound'.barrier_within);
    }
