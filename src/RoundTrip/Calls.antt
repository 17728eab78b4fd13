-- ===== src/RoundTrip/Calls.antt =====
-- Calls of the packing routines, and then of cw_unpack_next.
use cwpack.Prelude.{
  ℕ, ◌≡◌, refl, sym, ap, ◌∙◌, subst, inl, inr, Bool, true, false, Option, none, some, List, [], ◌∷◌,
  ◌++◌, append-nil,
}
use cwpack.ReturnCode.{is_error}
use cwpack.Wire.{byte_order_matches}
use cwpack.Format.{Form, bytes}
use cwpack.Pack
use cwpack.Pack.{PackContext}
use cwpack.Pack.Sink.{Sink, IsOpen, output}
use cwpack.Pack.Calls.{Call, call_form, payload, run_calls}
use cwpack.Pack.Calls.Output.{AllCalls, Packed, run_calls-output}
use cwpack.Unpack
use cwpack.Unpack.{UnpackContext}
use cwpack.Unpack.Source.{Source, IsReady, input}
use cwpack.RoundTrip.Ranges.{IsTyped, typed-IsCall, IsGoodOption, call_form-IsGood}
use cwpack.RoundTrip.Items.{AllGood, item_bytes, Gets, unpack_all}

abbrev pub AllTyped : List Call → Type 0
AllTyped [] = Unit {0}
AllTyped (c ∷ cs) = IsTyped c × AllTyped cs

pub typed-AllCalls : (cs : List Call) → AllTyped cs → AllCalls cs
typed-AllCalls [] h = tt
typed-AllCalls (c ∷ cs) (h, hs) = (typed-IsCall c h, typed-AllCalls cs hs)

-- `fs` are the forms of the calls, in their order.
abbrev pub Forms : Bool → List Call → List Form → Type 0
Forms old [] [] = Unit {0}
Forms old [] (f ∷ fs) = ⊥
Forms old (c ∷ cs) [] = ⊥
Forms old (c ∷ cs) (f ∷ fs) = (call_form old c ≡ some f) × Forms old cs fs

cons_parts :
    (o : Option Form) (q : Option (List ℕ)) (bs : List ℕ)
    → elim o [ none ↦ none | some f ↦ elim q [ none ↦ none | some tl ↦ some (bytes f ++ tl) ] ]
      ≡ some bs
    → (f : Form) × (tl : List ℕ) × (o ≡ some f) × (q ≡ some tl) × (bytes f ++ tl ≡ bs)
cons_parts none q bs e = cc
cons_parts (some f) none bs e = cc
cons_parts (some f) (some tl) bs e = (f, tl, refl, refl, cc)

-- The bytes of the calls are those of forms in range.
payload-Forms :
    (old : Bool) (cs : List Call) (bs : List ℕ)
    → AllTyped cs
    → payload old cs ≡ some bs
    → (fs : List Form) × Forms old cs fs × AllGood fs × (item_bytes fs ≡ bs)
unfolding payload
payload-Forms old [] bs h e = ([], tt, tt, cc)
payload-Forms old (c ∷ cs) bs (h, hs) e =
    let (f, tl, form, more, whole) = cons_parts (call_form old c) (payload old cs) bs e in
    let (fs, forms, good, same) = payload-Forms old cs tl hs more in
    (
      f ∷ fs,
      (form, forms),
      (subst IsGoodOption form (call_form-IsGood old c h), good),
      ap (λ l. bytes f ++ l) same ∙ whole,
    )

module _ {W V : Type 0} {env : Pack.Platform W} {env' : Unpack.Platform V} (sink : Sink env)
    (source : Source env') (matches : byte_order_matches env.build ≡ true)
    (matches' : byte_order_matches env'.build ≡ true) where
  from_Packed :
      (cs : List Call) (pc pc' : PackContext W) (uc : UnpackContext V)
      → AllTyped cs
      → Packed sink pc cs (some (tt, pc'))
      → is_error pc'.return_code ≡ false
      → output sink.flushed pc ≡ []
      → IsReady source uc
      → is_error uc.return_code ≡ false
      → input source.pending uc ≡ output sink.flushed pc'
      → (fs : List Form) × Forms pc.be_compatible cs fs × Gets source [] fs uc
  from_Packed cs pc pc' uc h (open', inl bad) good empty ready ok i = absurd cc
  from_Packed cs pc pc' uc h (open', inr (fine, bs, pay, out)) good empty ready ok i =
      let (fs, forms, all_good, same) = payload-Forms pc.be_compatible cs bs h pay in
      let whole : output sink.flushed pc' ≡ item_bytes fs ++ [] =
        out ∙ ap (λ l. l ++ bs) empty ∙ sym same ∙ sym (append-nil (item_bytes fs)) in
      (fs, forms, unpack_all source [] matches' fs uc all_good ready ok (i ∙ whole))

  -- Calls of the packing routines with arguments of their C types, cw_pack_insert and timestamps left
  -- out, where the length of each string, binary and extension, and 6 more, is below 2^32, on a
  -- context with no output yet, that end without an error: where their output is the input of an
  -- unpack context, as many calls of cw_unpack_next give the items of the calls in their order,
  -- without an error, and use up the input.
  pub unpack-run_calls :
      (cs : List Call) (pc pc' : PackContext W) (uc : UnpackContext V)
      → AllTyped cs
      → IsOpen sink pc
      → output sink.flushed pc ≡ []
      → run_calls env cs pc ≡ some (tt, pc')
      → is_error pc'.return_code ≡ false
      → IsReady source uc
      → is_error uc.return_code ≡ false
      → input source.pending uc ≡ output sink.flushed pc'
      → (fs : List Form) × Forms pc.be_compatible cs fs × Gets source [] fs uc
  unpack-run_calls cs pc pc' uc h opened empty run good ready ok i =
      from_Packed cs pc pc' uc h
        (subst (Packed sink pc cs) run
          (run_calls-output sink matches cs pc (typed-AllCalls cs h) opened))
        good empty ready ok i
