-- ===== src/Utils/Expected.antt =====
-- What the routines that expect a type give for each form of the format.
use cwpack.Prelude.{ℕ, ◌≡◌, true, false, Option, some, List, ◌++◌}
use cwpack.Prelude.Int.{ℤ, pos}
use cwpack.ReturnCode.{is_error}
use cwpack.Wire.{byte_order_matches}
use cwpack.Format.{Form, bytes, InRange, meaning}
use cwpack.Unpack.{UnpackContext, Platform, Routine}
use cwpack.Unpack.Source.{Source, IsReady, input}
use cwpack.Unpack.Next.Items.{IsItem, At}
use cwpack.Unpack.Next.Every.{IsPlain, cw_unpack_next-reads}
use cwpack.Utils.{
  signed_body, signed64_body, unsigned_body, unsigned64_body, next_and, after_next,
  cw_unpack_next_unsigned8, cw_unpack_next_unsigned16, cw_unpack_next_unsigned32,
  cw_unpack_next_unsigned64, cw_unpack_next_signed64, cw_unpack_next_signed32,
  cw_unpack_next_signed16, cw_unpack_next_signed8,
}
use cwpack.Utils.Results.{
  meaning-IsWire, signed_result, unsigned_result, with_error, Expects, signed_after, unsigned_after,
}

module _ {W : Type 0} {env : Platform W} (s : Source env) (uc : UnpackContext W)
    (rest : List ℕ) where
  -- The item is consumed, and the result and the error are as given.
  abbrev pub Consumes :
      {R : Type 0} → (UnpackContext W → Option (R × UnpackContext W)) → R × Option ℤ → Type 0
  Consumes m (r, code) =
      (uc' : UnpackContext W) × (m uc ≡ some (r, with_error code uc'))
      × At s rest uc.return_code uc'

module _ {W : Type 0} {env : Platform W} (s : Source env) (uc : UnpackContext W)
    (ready : IsReady s uc) (ok : is_error uc.return_code ≡ false) (rest : List ℕ)
    (matches : byte_order_matches env.build ≡ true) (f : Form) (range : InRange f)
    (plain : IsPlain f) (i : input s.pending uc ≡ bytes f ++ rest) where
  pub next_expected :
      {R : Type 0} (zero_result : R) (body : Routine W R R) (r : R × Option ℤ)
      → ((uc' : UnpackContext W) → IsItem uc' (meaning f) → Expects body uc' r)
      → Consumes s uc rest (next_and env zero_result body) r
  unfolding next_and after_next
  next_expected zero_result body (r, code) expects =
      let (uc', e, at', item) = cw_unpack_next-reads s uc ready ok rest matches f range plain i in
      let ok' : is_error uc'.return_code ≡ false = rw at'.return_code ok in
      (uc', rw e (rw ok' (expects uc' item)), at')

  -- On an item in any form but a timestamp, the routines that expect a signed integer consume the
  -- item and give its integer where their width holds it. Otherwise they give 0 with an error: a value
  -- error for an integer, and a type error for anything else.
  pub cw_unpack_next_signed-reads :
      Consumes s uc rest (cw_unpack_next_signed8 env) (signed_result 8 (meaning f))
      × Consumes s uc rest (cw_unpack_next_signed16 env) (signed_result 16 (meaning f))
      × Consumes s uc rest (cw_unpack_next_signed32 env) (signed_result 32 (meaning f))
      × Consumes s uc rest (cw_unpack_next_signed64 env) (signed_result 64 (meaning f))
  unfolding cw_unpack_next_signed8 cw_unpack_next_signed16 cw_unpack_next_signed32
      cw_unpack_next_signed64
  cw_unpack_next_signed-reads = (
    next_expected (pos 0) (signed_body 8) _
        (λ uc' it. (signed_after uc' (meaning f) (meaning-IsWire f range) it).0),
    next_expected (pos 0) (signed_body 16) _
        (λ uc' it. (signed_after uc' (meaning f) (meaning-IsWire f range) it).1),
    next_expected (pos 0) (signed_body 32) _
        (λ uc' it. (signed_after uc' (meaning f) (meaning-IsWire f range) it).2),
    next_expected (pos 0) signed64_body _
        (λ uc' it. (signed_after uc' (meaning f) (meaning-IsWire f range) it).3),
  )

  -- The routines that expect an unsigned integer do so for integers from 0 on. A negative integer is
  -- a type error.
  pub cw_unpack_next_unsigned-reads :
      Consumes s uc rest (cw_unpack_next_unsigned8 env) (unsigned_result 8 (meaning f))
      × Consumes s uc rest (cw_unpack_next_unsigned16 env) (unsigned_result 16 (meaning f))
      × Consumes s uc rest (cw_unpack_next_unsigned32 env) (unsigned_result 32 (meaning f))
      × Consumes s uc rest (cw_unpack_next_unsigned64 env) (unsigned_result 64 (meaning f))
  unfolding cw_unpack_next_unsigned8 cw_unpack_next_unsigned16 cw_unpack_next_unsigned32
      cw_unpack_next_unsigned64
  cw_unpack_next_unsigned-reads = (
    next_expected 0 (unsigned_body 8) _
        (λ uc' it. (unsigned_after uc' (meaning f) (meaning-IsWire f range) it).0),
    next_expected 0 (unsigned_body 16) _
        (λ uc' it. (unsigned_after uc' (meaning f) (meaning-IsWire f range) it).1),
    next_expected 0 (unsigned_body 32) _
        (λ uc' it. (unsigned_after uc' (meaning f) (meaning-IsWire f range) it).2),
    next_expected 0 unsigned64_body _
        (λ uc' it. (unsigned_after uc' (meaning f) (meaning-IsWire f range) it).3),
  )
