-- ===== src/Contexts/StreamEnd.antt =====
-- Input that a stream unpack context has, and input that ends too early.
use cwpack.Prelude.{
  ℕ, ◌+◌, ◌≤◌, ◌<◌, ◌≡◌, refl, ◌∙◌, inl, inr, true, false, some, List, length, length-append,
  length-drop, drop, ltb, leb, ◌==◌, arith,
}
use cwpack.Prelude.Int.{ℤ}
use cwpack.ReturnCode.{rc_ok, rc_buffer_underflow}
use cwpack.Wire.{Build}
use cwpack.Exec.{fault}
use cwpack.Unpack.{cw_unpack_assert_space, take_bytes, advance, read}
use cwpack.Unpack.Source.{Source, Brings, input, refill-some}
use cwpack.Contexts.Memory.{Heap, Reallocates, LeavesAlone}
use cwpack.Contexts.Stdio.{Stdio, Reads}
use cwpack.Contexts.Barrier.{HasHandler}
use cwpack.Contexts.Refill.{RunsOut}
use cwpack.Contexts.StreamUnpack.{
  StreamInput, StreamUnpackContext, handle_stream_unpack_underflow, stream_unpack_platform,
}
use cwpack.Contexts.StreamSource.{
  from_stream, Fits, Filled, fill_code, Refilled, handle_stream_unpack_underflow-Refilled,
}

module _ {V : Type 0} (heap : Heap V) (stdio : Stdio V) (unread : ℕ → V → List ℕ)
    (r : Reallocates heap) (never : RunsOut heap → ⊥)
    (apart : (file : ℕ) → LeavesAlone heap (unread file)) (reads : Reads stdio unread) where
  abbrev pub bytes_of : StreamInput V → List ℕ
  bytes_of = from_stream heap stdio unread

  only_filled :
      (more : ℕ) (uc : StreamUnpackContext V) (out : ℤ × StreamUnpackContext V)
      → Refilled heap stdio unread more uc out
      → Filled heap stdio unread uc out.1
        × (more ≤ out.1.outer.buffer_length)
        × (out.0 ≡ fill_code heap stdio unread uc)
  only_filled more uc out (inl f) = f
  only_filled more uc out (inr (code, fits, handler, failed)) = absurd (never failed)

  module _ (more : ℕ) (uc : StreamUnpackContext V) (fits : Fits heap stdio unread uc)
      (within : uc.current ≤ length uc.buffer) (lacks : length uc.buffer < uc.current + more) where
    abbrev pub handled : ℤ × StreamUnpackContext V
    handled = handle_stream_unpack_underflow heap stdio uc more

    pub done :
        Filled heap stdio unread uc handled.1
        × (more ≤ handled.1.outer.buffer_length)
        × (handled.0 ≡ fill_code heap stdio unread uc)
    done = only_filled more uc handled (
        handle_stream_unpack_underflow-Refilled heap stdio unread r apart reads more uc fits within
          lacks)

    code_ok : 1 ≤ length (bytes_of uc.outer) → handled.0 ≡ rc_ok
    code_ok some_left =
        let (f, long, code) = done in
        let left : (0 == length (bytes_of uc.outer)) ≡ false = ground arith in code ∙ rw left refl

    pub brought : more ≤ length (input bytes_of uc) → Brings bytes_of more uc handled.0 handled.1
    brought enough =
        let (f, long, code) = done in
        let len = length-append (drop uc.current uc.buffer) (bytes_of uc.outer) in
        record {
          ok = code_ok (omega (arith, len, length-drop uc.current uc.buffer));
          item = f.item;
          return_code = f.return_code;
          room = omega (arith, f.full, f.current, long);
          kept = f.kept;
        }

  abbrev pub stream_source : (b : Build) → Source (stream_unpack_platform heap stdio b)
  stream_source b = record {
    pending = bytes_of;
    Holds = λ h n p w. HasHandler h × (1 ≤ w.buffer_length) × (n ≤ w.buffer_length);
    later = λ h n p q w le holds. holds;
    dry = λ n p w holds. absurd holds.0;
    brings = λ f more uc e within holds lacks there.
        brought more uc (holds.1, holds.2) within lacks there;
    holds_on = λ f more uc e within holds lacks.
        let (g, long, code) = done more uc (holds.1, holds.2) within lacks in
        (rw g.handler holds.0, g.fits.0, g.fits.1);
  }

  module _ (more : ℕ) (uc : StreamUnpackContext V) (fits : Fits heap stdio unread uc)
      (within : uc.current ≤ length uc.buffer) (lacks : length uc.buffer < uc.current + more) where
    -- A stream that ends in the middle of what is asked for: where it has some bytes more, but too
    -- few, and memory does not run out, the handler reports no error, and the assertion of space is
    -- granted. The read that follows it is out of bounds.
    pub take_bytes-overruns :
        {R : Type 0} (abort : R) (b : Build) (f : ℕ)
        → uc.handle_unpack_underflow ≡ some f
        → 1 ≤ length (bytes_of uc.outer)
        → length (input bytes_of uc) < more
        → take_bytes (stream_unpack_platform heap stdio b) abort more uc ≡ fault
    unfolding take_bytes cw_unpack_assert_space advance read
    take_bytes-overruns abort b f e some_left short =
        let (g, long, code) = done more uc fits within lacks in
        let out = handle_stream_unpack_underflow heap stdio uc more in
        let full : ltb (length uc.buffer) (uc.current + more) ≡ true = ground arith in
        let beyond : leb (out.1.current + more) (length out.1.buffer) ≡ false =
          ground (arith, g.full, g.current) in
        let granted =
          refill-some (stream_source b) abort rc_buffer_underflow f more uc e
            (code_ok more uc fits within lacks some_left) in
        rw full (rw granted (rw beyond refl))
