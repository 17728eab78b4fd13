-- ===== src/Pack/Encode/Extensions.antt =====
-- The routines for extensions and timestamps.
use cwpack.Prelude.{
  ℕ, ◌+◌, ◌%◌, ◌^◌, ◌<◌, ◌≡◌, ◌∙◌, refl, Bool, true, false, List, [], ◌∷◌, length, take, arith, inl,
  inr, Bool-cases,
}
use cwpack.Prelude.Int.{ℤ, word}
use cwpack.ReturnCode.{rc_illegal_call}
use cwpack.Exec.{Void, ◌>>◌, when}
use cwpack.Wire.{byte_order_matches, be_bytes}
use cwpack.Wire.Store.{cw_store-be_bytes}
use cwpack.Format.{bytes, fixext}
use cwpack.Format.Choice.{is_fixext_length, extension_form}
use cwpack.Pack.{PackContext, Platform, Routine, pack_error}
use cwpack.Pack.Blobs.{cw_pack_ext, ext_body}
use cwpack.Pack.Emit.{emit, append, guarded, emit_all}

take-one : (v : List ℕ) → length v ≡ 1 → take 1 v ≡ v
unfolding take
take-one [] h = refl
take-one (x ∷ []) h = refl
take-one (x ∷ y ∷ v) h = absurd (omega arith)

pub when-false :
    {W : Type 0} (b : Bool) (code : ℤ) (m : Routine W Void) (pc : PackContext W)
    → b ≡ false
    → (when b (pack_error code) >> m) pc ≡ m pc
when-false false code m pc e = refl
when-false true code m pc e = cc

module _ {W : Type 0} (env : Platform W) (matches : byte_order_matches env.build ≡ true)
    (pc : PackContext W) (new : pc.be_compatible ≡ false) where
  fixext_body :
      (t : ℤ) (v : List ℕ)
      → is_fixext_length (length v) ≡ true
      → ext_body env t v pc ≡ emit env (bytes (fixext t v)) pc
  unfolding ext_body bytes
  fixext_body t v fix =
      let tag : List ℕ = word 8 t ∷ [] in
      ground (
        arith,
        take-one v,
        emit_all env 3 3 (0xd4 ∷ []) (tag ∷ v ∷ []) pc,
        emit_all env 4 4 (0xd5 ∷ []) (tag ∷ v ∷ []) pc,
        emit_all env 6 6 (0xd6 ∷ []) (tag ∷ v ∷ []) pc,
        emit_all env 10 10 (0xd7 ∷ []) (tag ∷ v ∷ []) pc,
        emit_all env 18 18 (0xd8 ∷ []) (tag ∷ v ∷ []) pc,
      )

  long_body :
      (t : ℤ) (v : List ℕ)
      → length v + 6 < 2 ^ 32
      → is_fixext_length (length v) ≡ false
      → ext_body env t v pc ≡ emit env (bytes (extension_form t v)) pc
  unfolding ext_body bytes be_bytes
  long_body t v fits other =
      let l = length v in
      let tag : List ℕ = word 8 t ∷ [] in
      rw ((cw_store-be_bytes env.build l matches).0, (cw_store-be_bytes env.build l matches).1)
        (ground (
          arith,
          emit_all env (l + 3) ((l + 3) % 2 ^ 32) (0xc7 ∷ []) ((l % 256 ∷ []) ∷ tag ∷ v ∷ []) pc,
          emit_all env (l + 4) ((l + 4) % 2 ^ 32) (0xc8 ∷ []) (be_bytes 2 l ∷ tag ∷ v ∷ []) pc,
          emit_all env (l + 6) ((l + 6) % 2 ^ 32) (0xc9 ∷ []) (be_bytes 4 l ∷ tag ∷ v ∷ []) pc,
        ))

  -- Outside of the compatibility mode cw_pack_ext appends the bytes of `extension_form`, for a length
  -- to which 6 can be added in 32 bits.
  pub cw_pack_ext-append :
      (t : ℤ) (v : List ℕ)
      → length v + 6 < 2 ^ 32
      → cw_pack_ext env t v pc ≡ append env (bytes (extension_form t v)) pc
  unfolding cw_pack_ext append
  cw_pack_ext-append t v fits = guarded env _ _ pc (
      when-false pc.be_compatible rc_illegal_call (ext_body env t v) pc new
      ∙ elim (Bool-cases (is_fixext_length (length v))) [
        | inl fix ↦ rw fix (fixext_body t v fix)
        | inr other ↦ long_body t v fits other
      ])
