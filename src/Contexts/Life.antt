-- ===== src/Contexts/Life.antt =====
-- A pack context from its init function over calls of the packing routines to its terminate function.
use cwpack.Prelude.{
  ◌≡◌, sym, ap, ◌∙◌, ◌⊎◌, inl, inr, true, false, Option, none, some, List, ◌++◌, ℕ, arith,
}
use cwpack.ReturnCode.{is_error}
use cwpack.Wire.{byte_order_matches}
use cwpack.Exec.{Void}
use cwpack.Pack.{PackContext, Platform}
use cwpack.Pack.Sink.{Sink, IsOpen, output}
use cwpack.Pack.Blobs.{cw_pack_flush}
use cwpack.Pack.Calls.{Call, payload, run_calls}
use cwpack.Pack.Calls.Stopped.{run_calls-stopped}
use cwpack.Pack.Calls.Output.{AllCalls, Packed, run_calls-output}

-- cw_pack_flush reports no error: nor did the context before it, nor the handler, which was called.
pub flush_good :
    {W : Type 0} (env : Platform W) (pc : PackContext W) (h : Option ℕ)
    → pc.handle_flush ≡ h
    → is_error (cw_pack_flush env pc).return_code ≡ false
    → (is_error pc.return_code ≡ false)
      × (f : ℕ) × (is_error (env.flush f pc).0 ≡ false)
      × (cw_pack_flush env pc ≡ record (env.flush f pc).1 { return_code = (env.flush f pc).0 })
unfolding cw_pack_flush
flush_good env pc none e good = absurd (ground arith)
flush_good env pc (some f) e good = (ground arith, f, ground arith, ground arith)

module _ {W : Type 0} {env : Platform W} (s : Sink env)
    (terminate : PackContext W → PackContext W) where
  -- What a terminate function promises: it takes no error back, and where it reports none, all that
  -- was packed has left the buffer.
  pub record Terminates : Type 0 where
    pub refuses :
        (pc : PackContext W)
        → is_error (terminate pc).return_code ≡ false
        → is_error pc.return_code ≡ false
    pub delivers :
        (pc : PackContext W)
        → IsOpen s pc
        → is_error (terminate pc).return_code ≡ false
        → s.flushed (terminate pc).outer ≡ output s.flushed pc

  -- What an init function promises: an error, or an open context that has packed nothing yet.
  abbrev pub Starts : List ℕ → PackContext W → Type 0
  Starts old pc =
      (is_error pc.return_code ≡ true)
      ⊎ (IsOpen s pc × (pc.be_compatible ≡ false) × (output s.flushed pc ≡ old))

  -- The calls make no access out of bounds. Where there is no error at the end, exactly the bytes of
  -- their items stand behind what was there before.
  abbrev pub Delivered : List ℕ → List Call → Option (Void × PackContext W) → Type 0
  Delivered old cs none = ⊥
  Delivered old cs (some (_, pc)) =
      is_error (terminate pc).return_code ≡ false
      → (bs : List ℕ) × (payload false cs ≡ some bs) × (s.flushed (terminate pc).outer ≡ old ++ bs)

  module _ (t : Terminates) where
    Packed-then :
        (old : List ℕ) (cs : List Call) (pc : PackContext W)
        → pc.be_compatible ≡ false
        → output s.flushed pc ≡ old
        → (r : Option (Void × PackContext W)) → Packed s pc cs r
        → Delivered old cs r
    Packed-then old cs pc new out none p = p
    Packed-then old cs pc new out (some (_, pc')) (ready, inl bad) =
        λ good. absurd (no_way (t.refuses pc' good) bad)
      where
        no_way : is_error pc'.return_code ≡ false → is_error pc'.return_code ≡ true → ⊥
        no_way a b = cc
    Packed-then old cs pc new out (some (_, pc')) (ready, inr (ok, bs, pay, out')) = λ good. (
      bs,
      ap (λ b. payload b cs) (sym new) ∙ pay,
      t.delivers pc' ready good ∙ out' ∙ ap (λ l. l ++ bs) out,
    )

    pub run_calls-Delivered :
        (old : List ℕ) (cs : List Call) (pc : PackContext W)
        → byte_order_matches env.build ≡ true
        → AllCalls cs
        → Starts old pc
        → Delivered old cs (run_calls env cs pc)
    run_calls-Delivered old cs pc matches h (inl bad) =
        rw (run_calls-stopped env pc bad cs) (λ good. absurd (no_way (t.refuses pc good)))
      where
        no_way : is_error pc.return_code ≡ false → ⊥
        no_way a = cc
    run_calls-Delivered old cs pc matches h (inr (ready, new, out)) =
        Packed-then old cs pc new out (run_calls env cs pc)
          (run_calls-output s matches cs pc h ready)
