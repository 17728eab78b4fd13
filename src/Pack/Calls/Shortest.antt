-- ===== src/Pack/Calls/Shortest.antt =====
-- The calls that pack a value pack it in the fewest bytes.
use cwpack.Prelude.{◌≤◌, ◌≡◌, refl, ap, ◌∙◌, subst, true, false, some, length}
use cwpack.Prelude.Int.{pos, negsuc}
use cwpack.Wire.{byte_order_matches}
use cwpack.Format
use cwpack.Format.{Form, Value, bytes, InRange, meaning}
use cwpack.Format.Shortest.{form_of, form_of-shortest, meaning-form_of}
use cwpack.Pack.{PackContext, Platform}
use cwpack.Pack.Emit.{append}
use cwpack.Pack.Calls
use cwpack.Pack.Calls.{Call, IsCall, call_form, run_call}
use cwpack.Pack.Calls.Outcome.{Outcome, outcome}

-- The call for a value.
abbrev pub call_of : Value → Call
call_of Format.nil = Calls.nil_call
call_of (Format.boolean b) = Calls.boolean b
call_of (Format.integer (pos n)) = Calls.unsigned n
call_of (Format.integer (negsuc n)) = Calls.signed (negsuc n)
call_of (Format.single f) = Calls.float f
call_of (Format.double d) = Calls.double d
call_of (Format.string v) = Calls.str v
call_of (Format.binary v) = Calls.bin v
call_of (Format.array n) = Calls.array_size n
call_of (Format.map n) = Calls.map_size n
call_of (Format.extension t v) = Calls.ext t v

form-call_of : (v : Value) → call_form false (call_of v) ≡ some (form_of v)
form-call_of Format.nil = refl
form-call_of (Format.boolean b) = refl
form-call_of (Format.integer (pos n)) = refl
form-call_of (Format.integer (negsuc n)) = refl
form-call_of (Format.single f) = refl
form-call_of (Format.double d) = refl
form-call_of (Format.string v) = refl
form-call_of (Format.binary v) = refl
form-call_of (Format.array n) = refl
form-call_of (Format.map n) = refl
form-call_of (Format.extension t v) = refl

module _ {W : Type 0} (env : Platform W) (matches : byte_order_matches env.build ≡ true)
    (pc : PackContext W) (within : pc.current ≤ length pc.buffer)
    (new : pc.be_compatible ≡ false) where
  call_of-append :
      (v : Value)
      → IsCall (call_of v)
      → run_call env (call_of v) pc ≡ append env (bytes (form_of v)) pc
  call_of-append v h =
      subst (Outcome env (call_of v) pc)
        (ap (λ old. call_form old (call_of v)) new ∙ form-call_of v)
        (outcome env matches pc within (call_of v) h)

  -- Outside of the compatibility mode, the call for the value of an item in range packs a form with
  -- the same meaning, and in no more bytes than the item has, where the length of a string, a binary
  -- or an extension, and 6 more, is below 2^32.
  pub run_call-shortest :
      (g : Form)
      → InRange g
      → IsCall (call_of (meaning g))
      → (run_call env (call_of (meaning g)) pc ≡ append env (bytes (form_of (meaning g))) pc)
        × (meaning (form_of (meaning g)) ≡ meaning g)
        × (length (bytes (form_of (meaning g))) ≤ length (bytes g))
  run_call-shortest g range h =
      (call_of-append (meaning g) h, meaning-form_of (meaning g), form_of-shortest g range)
