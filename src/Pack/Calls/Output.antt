-- ===== src/Pack/Calls/Output.antt =====
-- What a sequence of calls leaves in the output.
use cwpack.Prelude.{
  ℕ, ◌≡◌, refl, sym, ap, ◌∙◌, ◌⊎◌, inl, inr, Bool, true, false, Option, none, some, List, [], ◌∷◌,
  ◌++◌, append_assoc, append-nil, Bool-cases,
}
use cwpack.ReturnCode.{is_error}
use cwpack.Wire.{byte_order_matches}
use cwpack.Exec.{Void}
use cwpack.Format.{Form, bytes}
use cwpack.Pack.{PackContext, Platform}
use cwpack.Pack.Emit.{append}
use cwpack.Pack.Sink.{Sink, IsOpen, Appended, output, append-Appended}
use cwpack.Pack.Calls.{Call, IsCall, call_form, payload, run_calls}
use cwpack.Pack.Calls.Outcome.{Outcome, outcome}
use cwpack.Pack.Calls.Stopped.{run_calls-stopped}

abbrev pub AllCalls : List Call → Type 0
AllCalls [] = Unit {0}
AllCalls (c ∷ cs) = IsCall c × AllCalls cs

payload-cons :
    (old : Bool) (c : Call) (cs : List Call) {f : Form} {bs : List ℕ}
    → call_form old c ≡ some f
    → payload old cs ≡ some bs
    → payload old (c ∷ cs) ≡ some (bytes f ++ bs)
unfolding payload
payload-cons old c cs p q = rw (p, payload) (rw (q, payload))

module _ {W : Type 0} {env : Platform W} (s : Sink env) where
  -- The outcome of a sequence of calls: no access out of bounds, and either an error or exactly the
  -- bytes of all the items.
  abbrev pub Packed : PackContext W → List Call → Option (Void × PackContext W) → Type 0
  Packed pc cs none = ⊥
  Packed pc cs (some (_, pc')) =
      IsOpen s pc'
      × ((is_error pc'.return_code ≡ true)
          ⊎ ((is_error pc'.return_code ≡ false)
              × (bs : List ℕ) × (payload pc.be_compatible cs ≡ some bs)
              × (output s.flushed pc' ≡ output s.flushed pc ++ bs)))

  module _ (matches : byte_order_matches env.build ≡ true) where
    more_calls :
        (c : Call) (cs : List Call) (f : Form) (pc pc' : PackContext W)
        → call_form pc.be_compatible c ≡ some f
        → pc'.be_compatible ≡ pc.be_compatible
        → output s.flushed pc' ≡ output s.flushed pc ++ bytes f
        → (r : Option (Void × PackContext W)) → Packed pc' cs r
        → Packed pc (c ∷ cs) r
    unfolding payload
    more_calls c cs f pc pc' form be out none p = p
    more_calls c cs f pc pc' form be out (some (_, pc'')) (ready, inl bad) = (ready, inl bad)
    more_calls c cs f pc pc' form be out (some (_, pc'')) (ready, inr (ok, bs, pay, out')) = (
      ready,
      inr (
        ok,
        bytes f ++ bs,
        payload-cons pc.be_compatible c cs form (ap (λ b. payload b cs) (sym be) ∙ pay),
        out' ∙ rw out (append_assoc _ (bytes f) bs),
      ),
    )

    next_call :
        (c : Call) (cs : List Call) (f : Form) (pc : PackContext W)
        → call_form pc.be_compatible c ≡ some f
        → ((pc' : PackContext W) → IsOpen s pc' → Packed pc' cs (run_calls env cs pc'))
        → (r : Option (Void × PackContext W)) → Appended s pc (bytes f) r
        → Packed pc (c ∷ cs) (elim r [ none ↦ none | some (_, pc') ↦ run_calls env cs pc' ])
    next_call c cs f pc form rest none a = a
    next_call c cs f pc form rest (some (_, pc')) (ready, be, inl bad) =
        rw (run_calls-stopped env pc' bad cs) (ready, inl bad)
    next_call c cs f pc form rest (some (_, pc')) (ready, be, inr (ok, out)) =
        more_calls c cs f pc pc' form be out (run_calls env cs pc') (rest pc' ready)

    step :
        (c : Call) (cs : List Call) (o : Option Form) (pc : PackContext W)
        → call_form pc.be_compatible c ≡ o
        → Outcome env c pc o
        → IsOpen s pc
        → ((pc' : PackContext W) → IsOpen s pc' → Packed pc' cs (run_calls env cs pc'))
        → Packed pc (c ∷ cs) (run_calls env (c ∷ cs) pc)
    unfolding run_calls
    step c cs (some f) pc form e ready rest =
        rw (e, run_calls)
          (next_call c cs f pc form rest (append env (bytes f) pc)
            (append-Appended s (bytes f) pc ready))
    step c cs none pc form (code, bad, e) ready rest = elim (Bool-cases (is_error pc.return_code)) [
      | inl stopped ↦ rw (run_calls-stopped env pc stopped (c ∷ cs)) (ready, inl stopped)
      | inr ok ↦
          let pc' : PackContext W = record pc { return_code = code } in
          rw (e, run_calls)
            (rw ok (
              rw (run_calls-stopped env pc' bad cs)
                (record { within = ready.within; holds = ready.holds }, inl bad)))
    ]

    -- Any sequence of calls of the packing routines other than cw_pack_insert, where the length of
    -- each string, binary and extension, and 6 more, is below 2^32, on a context whose overflow handler
    -- makes room or reports an error and loses nothing: no access is out of bounds, and in the end the
    -- context has an error, or no call was refused and the output is what it was before and the bytes
    -- of every item behind it, each in the form chosen for it.
    pub run_calls-output :
        (cs : List Call) (pc : PackContext W)
        → AllCalls cs
        → IsOpen s pc
        → Packed pc cs (run_calls env cs pc)
    unfolding run_calls payload
    run_calls-output [] pc h ready = elim (Bool-cases (is_error pc.return_code)) [
      | inl bad ↦ (ready, inl bad)
      | inr ok ↦ (ready, inr (ok, [], refl, sym (append-nil _)))
    ]
    run_calls-output (c ∷ cs) pc (h, hs) ready =
        step c cs (call_form pc.be_compatible c) pc refl (outcome env matches pc ready.within c h)
          ready (λ pc' ready'. run_calls-output cs pc' hs ready')
