-- ===== src/Utils/Floats/Back.antt =====
-- Doubles and floats that the optimised routines pack, and the unpacking of what they packed.
use cwpack.Prelude.{
  ℕ, ◌^◌, ◌<◌, ◌≡◌, refl, sym, ap, ◌∙◌, subst, ◌⊎◌, inl, inr, true, false, Option, none, some, List,
  [], ◌∷◌, if◌then◌else◌, leb, arith,
}
use cwpack.Prelude.Int.{ℤ, pos, negsuc, word, leb_ℤ}
use cwpack.ReturnCode.{is_error}
use cwpack.Wire.{byte_order_matches}
use cwpack.Format
use cwpack.Format.{Form, Value, InRange, Fits, meaning}
use cwpack.Format.Choice.{unsigned_form, negative_form, signed_form}
use cwpack.Pack
use cwpack.Pack.{PackContext}
use cwpack.Pack.Numbers.{cw_pack_signed, cw_pack_float, cw_pack_double}
use cwpack.Pack.Sink.{Sink, IsOpen, output}
use cwpack.Pack.Calls
use cwpack.Pack.Calls.{Call, call_form, run_call, run_calls}
use cwpack.Unpack
use cwpack.Unpack.{UnpackContext}
use cwpack.Unpack.Source.{Source, IsReady, input}
use cwpack.Unpack.Next.Items.{IsItem}
use cwpack.RoundTrip.Ranges.{IsTyped, IsGoodOption, call_form-IsGood}
use cwpack.RoundTrip.Items.{Gets}
use cwpack.RoundTrip.Calls.{Forms, unpack-run_calls}
use cwpack.Utils.{next_and, after_next}
use cwpack.Utils.Results.{IsWire, meaning-IsWire, Expects}
use cwpack.Utils.Floats.{
  FloatUnit, float_body, double_body, cw_pack_double_opt, cw_pack_float_opt, cw_unpack_next_float,
  cw_unpack_next_double,
}
use cwpack.Utils.Floats.Packed.{KeepsWidths, wider, tests, test}
use cwpack.Utils.Floats.Results.{float_result, double_result, floats_after}

unsigned_form-meaning : (n : ℕ) → meaning (unsigned_form n) ≡ Format.integer (pos n)
unfolding meaning
unsigned_form-meaning n = ground arith

negative_form-meaning : (n : ℕ) → meaning (negative_form n) ≡ Format.integer (negsuc n)
unfolding meaning
negative_form-meaning n = ground arith

signed_form-meaning : (i : ℤ) → meaning (signed_form i) ≡ Format.integer i
signed_form-meaning (pos n) = unsigned_form-meaning n
signed_form-meaning (negsuc n) = negative_form-meaning n

abbrev IsMeaning : Value → Option Form → Type 0
IsMeaning v none = ⊥
IsMeaning v (some f) = meaning f ≡ v

same_meaning : (v : Value) (g f : Form) → meaning g ≡ v → some g ≡ some f → meaning f ≡ v
same_meaning v g f m e = subst (IsMeaning v) e m

module _ {V : Type 0} {env' : Unpack.Platform V} (source : Source env') (uc : UnpackContext V) where
  -- The routine returns `r`, without an error, and the input is used up.
  abbrev pub Returns : (UnpackContext V → Option (ℕ × UnpackContext V)) → ℕ → Type 0
  Returns m r =
      (uc' : UnpackContext V) × (m uc ≡ some (r, uc'))
      × (is_error uc'.return_code ≡ false)
      × (input source.pending uc' ≡ [])

module _ {W V : Type 0} (unit : FloatUnit) (widths : KeepsWidths unit) {env : Pack.Platform W}
    {env' : Unpack.Platform V} (sink : Sink env) (source : Source env')
    (matches : byte_order_matches env.build ≡ true)
    (matches' : byte_order_matches env'.build ≡ true) (pc pc' : PackContext W)
    (uc : UnpackContext V) (opened : IsOpen sink pc) (empty : output sink.flushed pc ≡ [])
    (good : is_error pc'.return_code ≡ false) (ready : IsReady source uc)
    (ok : is_error uc.return_code ≡ false)
    (i : input source.pending uc ≡ output sink.flushed pc') where
  -- One call that packs an item, and a routine that gives `r` for that item.
  returns :
      (c : Call) (body : Unpack.Routine V ℕ ℕ) (r : ℕ)
      → IsTyped c
      → run_call env c pc ≡ some (tt, pc')
      → ((f : Form) (uc' : UnpackContext V)
          → call_form pc.be_compatible c ≡ some f
          → IsWire (meaning f)
          → IsItem uc' (meaning f)
          → Expects body uc' (r, none))
      → Returns source uc (next_and env' 0 body) r
  unfolding run_calls next_and after_next
  returns c body r typed run expects =
      let (fs, forms, gets) =
        unpack-run_calls sink source matches matches' (c ∷ []) pc pc' uc (typed, tt) opened empty
          (rw (run_calls, run) refl) good ready ok i in
      one fs forms gets
    where
      one :
          (fs : List Form)
          → Forms pc.be_compatible (c ∷ []) fs
          → Gets source [] fs uc
          → Returns source uc (next_and env' 0 body) r
      one [] forms gets = absurd forms
      one (f ∷ g ∷ fs) (form, more) gets = absurd more
      one (f ∷ []) (form, more) (uc', e, item, (ok', left)) =
          let (range, plain) =
            subst IsGoodOption form (call_form-IsGood pc.be_compatible c typed) in
          (uc', rw e (rw ok' (expects f uc' form (meaning-IsWire f range) item)), ok', left)

  -- The call of a packing routine for `v`.
  value_back :
      (c : Call) (g : Form) (v : Value) (r t : ℕ)
      → IsTyped c
      → run_call env c pc ≡ some (tt, pc')
      → call_form pc.be_compatible c ≡ some g
      → meaning g ≡ v
      → double_result unit v ≡ (r, none)
      → float_result unit v ≡ (t, none)
      → Returns source uc (cw_unpack_next_double unit env') r
        × Returns source uc (cw_unpack_next_float unit env') t
  unfolding cw_unpack_next_double cw_unpack_next_float
  value_back c g v r t typed run form means double single = (
    returns c (double_body unit) r typed run (λ f uc' e wire item. (both f uc' e wire item).0),
    returns c (float_body unit) t typed run (λ f uc' e wire item. (both f uc' e wire item).1),
  )
    where
      both :
          (f : Form) (uc' : UnpackContext V)
          → call_form pc.be_compatible c ≡ some f
          → IsWire (meaning f)
          → IsItem uc' (meaning f)
          → Expects (double_body unit) uc' (r, none) × Expects (float_body unit) uc' (t, none)
      both f uc' e wire item =
          let m : meaning f ≡ v = same_meaning v g f means (sym form ∙ e) in
          let (x, y) = floats_after unit uc' (meaning f) wire item in
          (
            subst (Expects (double_body unit) uc') (ap (double_result unit) m ∙ double) y,
            subst (Expects (float_body unit) uc') (ap (float_result unit) m ∙ single) x,
          )

  signed_back :
      (k : ℤ)
      → Fits 32 k
      → cw_pack_signed env k pc ≡ some (tt, pc')
      → Returns source uc (cw_unpack_next_double unit env') (unit.double_of_integer k)
        × Returns source uc (cw_unpack_next_float unit env') (unit.float_of_integer k)
  unfolding run_call
  signed_back k fits run =
      value_back (Calls.signed k) (signed_form k) (Format.integer k) _ _ (wider k fits) run refl
        (signed_form-meaning k) refl refl

  float_back :
      (f : ℕ)
      → f < 2 ^ 32
      → cw_pack_float env f pc ≡ some (tt, pc')
      → Returns source uc (cw_unpack_next_double unit env') (unit.double_of_float f)
        × Returns source uc (cw_unpack_next_float unit env') f
  unfolding run_call meaning
  float_back f small run =
      value_back (Calls.float f) (Format.float32 f) (Format.single f) _ _ small run refl refl refl
        refl

  double_back :
      (d : ℕ)
      → d < 2 ^ 64
      → cw_pack_double env d pc ≡ some (tt, pc')
      → Returns source uc (cw_unpack_next_double unit env') d
  unfolding run_call meaning
  double_back d small run =
      (value_back (Calls.double d) (Format.float64 d) (Format.double d) _ _ small run refl refl refl
        refl).0

  -- A double that cw_pack_double_opt packs without an error, as an integer, a float or a double, on a
  -- context with no output yet, is unpacked by cw_unpack_next_double as a double that compares equal
  -- to it or has the same bits, without an error, and the input is used up.
  pub cw_unpack_next_double-cw_pack_double_opt :
      (d : ℕ)
      → d < 2 ^ 64
      → cw_pack_double_opt unit env d pc ≡ some (tt, pc')
      → (r : ℕ) × Returns source uc (cw_unpack_next_double unit env') r
        × ((unit.equal_double r d ≡ true) ⊎ (r ≡ d))
  unfolding cw_pack_double_opt
  cw_unpack_next_double-cw_pack_double_opt d small run =
      let k = unit.int_of_double d in
      let f = unit.float_of_double d in
      elim (tests (unit.equal_double (unit.double_of_integer k) d) (leb_ℤ (negsuc 0x7fff_ffff) k)
        (leb (word 32 k) 0xffff_ffff) (cw_pack_signed env k)
        (if unit.equal_double (unit.double_of_float f) d
          then cw_pack_float env f
          else cw_pack_double env d)
        pc run) [
          | inl (same, packed) ↦ (_, (signed_back k (widths.int_of_double d) packed).0, inl same)
          | inr other ↦
              elim (test (unit.equal_double (unit.double_of_float f) d) (cw_pack_float env f)
                (cw_pack_double env d) pc other) [
                  | inl (same, packed) ↦
                      (_, (float_back _ (widths.float_of_double d) packed).0, inl same)
                  | inr packed ↦ (d, double_back d small packed, inr refl)
                ]
        ]

  -- A float that cw_pack_float_opt packs without an error, as an integer or a float, is unpacked by
  -- cw_unpack_next_float in the same way.
  pub cw_unpack_next_float-cw_pack_float_opt :
      (f : ℕ)
      → f < 2 ^ 32
      → cw_pack_float_opt unit env f pc ≡ some (tt, pc')
      → (r : ℕ) × Returns source uc (cw_unpack_next_float unit env') r
        × ((unit.equal_float r f ≡ true) ⊎ (r ≡ f))
  unfolding cw_pack_float_opt
  cw_unpack_next_float-cw_pack_float_opt f small run =
      let k = unit.int_of_float f in
      elim (tests (unit.equal_float (unit.float_of_integer k) f) (leb_ℤ (negsuc 0x7fff) k)
        (leb_ℤ k (pos 0xffff)) (cw_pack_signed env k) (cw_pack_float env f) pc run) [
          | inl (same, packed) ↦ (_, (signed_back k (widths.int_of_float f) packed).1, inl same)
          | inr packed ↦ (f, (float_back f small packed).1, inr refl)
        ]
