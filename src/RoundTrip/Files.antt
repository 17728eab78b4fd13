-- ===== src/RoundTrip/Files.antt =====
-- Items written to a file by a file pack context, and read from it by a file unpack context.
use cwpack.Prelude.{
  ℕ, ◌≤◌, ◌≡◌, refl, ◌⊎◌, inl, inr, true, false, Option, none, some, List, ltb, drop, if◌then◌else◌,
  arith,
}
use cwpack.Prelude.Int.{ℤ}
use cwpack.ReturnCode.{is_error}
use cwpack.Wire.{Build, byte_order_matches}
use cwpack.Pack.{test_byte_order}
use cwpack.Pack.Sink.{Sink}
use cwpack.Unpack.{cw_unpack_context_init}
use cwpack.Unpack.Source.{IsReady, input}
use cwpack.Contexts.Memory.{Heap, Allocates, Reallocates, LeavesAlone}
use cwpack.Contexts.Unix.{Unix, WritesAll, ReadsFront, CopiesOverlaps}
use cwpack.Contexts.Refill.{RunsOut}
use cwpack.Contexts.FilePack.{
  FilePackContext, file_pack_platform, init_file_pack_context, terminate_file_pack_context,
}
use cwpack.Contexts.FileHandler.{file_sink}
use cwpack.Contexts.FileUnpack.{FileUnpackContext, init_file_unpack_context}
use cwpack.Contexts.FileReading.{Fails}
use cwpack.Contexts.FileInput.{file_source, bytes_left}

module _ {V : Type 0} (heap : Heap V) (unix : Unix V) (unread : ℤ → V → List ℕ)
    (r : Reallocates heap) (never : RunsOut heap → ⊥)
    (apart : (fd : ℤ) → LeavesAlone heap (unread fd)) (reads : ReadsFront unix unread)
    (delivers : Fails unix → ⊥) (copies : CopiesOverlaps unix) (b : Build)
    (matches : byte_order_matches b ≡ true) (underflow initial : ℕ) (fd : ℤ)
    (fuc : FileUnpackContext V) where
  abbrev pub opened : FileUnpackContext V
  opened = init_file_unpack_context heap unix b underflow initial fd fuc

  abbrev length_0 : ℕ
  length_0 = if ltb 0 initial then initial else 1024

  abbrev Ready : Type 0
  Ready =
      IsReady (file_source heap unix unread r never apart reads delivers copies b) opened
      × (is_error opened.return_code ≡ false)
      × (input (bytes_left heap unix unread r never apart reads) opened ≡ unread fd fuc.outer.world)

  ready :
      (block : Option (List ℕ))
      → (heap.malloc length_0 fuc.outer.world).0 ≡ block
      → 1 ≤ length_0
      → (is_error opened.return_code ≡ true) ⊎ Ready
  unfolding init_file_unpack_context cw_unpack_context_init test_byte_order drop
  ready none e one = rw (e, init_file_unpack_context) (inl refl)
  ready (some block) e one =
      rw (e, init_file_unpack_context)
        (rw (matches, test_byte_order)
          (inr (
            record { within = omega arith; holds = (tt, one, omega arith, tt) },
            refl,
            (apart fd).malloc_apart length_0 fuc.outer.world,
          )))

  only_ready :
      (is_error opened.return_code ≡ true) ⊎ Ready → is_error opened.return_code ≡ false → Ready
  only_ready (inl bad) good = absurd cc
  only_ready (inr d) good = d

  -- A file unpack context without an error is ready to read all of the file.
  pub init_file_unpack_context-IsReady : is_error opened.return_code ≡ false → Ready
  init_file_unpack_context-IsReady good =
      only_ready (ready (heap.malloc length_0 fuc.outer.world).0 refl (ground arith)) good

  module _ (written : ℤ → V → List ℕ) (a : Allocates heap)
      (apart_too : (fd : ℤ) → LeavesAlone heap (written fd)) (writes : WritesAll unix written)
      (overflow flush room : ℕ) (fd' : ℤ) (fpc : FilePackContext V) where
    abbrev pub begun : FilePackContext V
    begun = init_file_pack_context heap unix b overflow flush room fd' fpc

    abbrev pub ended : FilePackContext V → FilePackContext V
    ended = terminate_file_pack_context heap unix b

    abbrev sink : Sink (file_pack_platform heap unix b)
    sink = file_sink heap unix written a apart_too b writes
