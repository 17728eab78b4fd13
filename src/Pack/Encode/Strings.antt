-- ===== src/Pack/Encode/Strings.antt =====
-- The routines for strings and binaries, in both modes.
use cwpack.Prelude.{
  ℕ, ◌+◌, ◌%◌, ◌^◌, ◌<◌, ◌≡◌, refl, ap, Bool, true, false, none, some, ◌∙◌, List, [], ◌∷◌, length,
  arith,
}
use cwpack.Exec.{function, ◌>>◌, call, finish-call, continue, fault}
use cwpack.Wire.{byte_order_matches, be_bytes}
use cwpack.Wire.Store.{cw_store-be_bytes}
use cwpack.Format.{bytes}
use cwpack.Format.Choice.{string_form, binary_form}
use cwpack.Pack.{PackContext, Platform, unless_stopped}
use cwpack.Pack.Blobs.{cw_pack_str, cw_pack_bin, bin_body}
use cwpack.Pack.Emit.{emit, append, guarded, emit_all}

module _ {W : Type 0} (env : Platform W) (matches : byte_order_matches env.build ≡ true)
    (v : List ℕ) (fits : length v + 5 < 2 ^ 32) (pc : PackContext W) where
  -- cw_pack_str appends the bytes of the `string_form` of the mode, for a length to which 5 can be
  -- added in 32 bits.
  pub cw_pack_str-append :
      cw_pack_str env v pc ≡ append env (bytes (string_form pc.be_compatible v)) pc
  unfolding cw_pack_str append bytes be_bytes
  cw_pack_str-append =
      let l = length v in
      guarded env _ _ pc (
        rw ((cw_store-be_bytes env.build l matches).0, (cw_store-be_bytes env.build l matches).1)
          (ground (
            arith,
            emit_all env (l + 1) ((l + 1) % 2 ^ 32) ((0xa0 + l) % 256 ∷ []) (v ∷ []) pc,
            emit_all env (l + 2) ((l + 2) % 2 ^ 32) (0xd9 ∷ []) ((l % 256 ∷ []) ∷ v ∷ []) pc,
            emit_all env (l + 3) ((l + 3) % 2 ^ 32) (0xda ∷ []) (be_bytes 2 l ∷ v ∷ []) pc,
            emit_all env (l + 5) ((l + 5) % 2 ^ 32) (0xdb ∷ []) (be_bytes 4 l ∷ v ∷ []) pc,
          )))

  stopped_call :
      (bs : List ℕ) → function (unless_stopped >> call (append env bs)) pc ≡ append env bs pc
  unfolding append unless_stopped
  stopped_call bs = ground (arith, finish-call (emit env bs pc) pc)

  new_binary : bin_body env false v pc ≡ emit env (bytes (binary_form false v)) pc
  unfolding bin_body bytes be_bytes
  new_binary =
      let l = length v in
      rw ((cw_store-be_bytes env.build l matches).0, (cw_store-be_bytes env.build l matches).1)
        (ground (
          arith,
          emit_all env (l + 2) ((l + 2) % 2 ^ 32) (0xc4 ∷ []) ((l % 256 ∷ []) ∷ v ∷ []) pc,
          emit_all env (l + 3) ((l + 3) % 2 ^ 32) (0xc5 ∷ []) (be_bytes 2 l ∷ v ∷ []) pc,
          emit_all env (l + 5) ((l + 5) % 2 ^ 32) (0xc6 ∷ []) (be_bytes 4 l ∷ v ∷ []) pc,
        ))

  binary_body :
      (old : Bool)
      → pc.be_compatible ≡ old
      → function (unless_stopped >> bin_body env old v) pc
        ≡ append env (bytes (binary_form old v)) pc
  unfolding append bin_body
  binary_body false e = guarded env _ _ pc new_binary
  binary_body true e =
      let bs = bytes (string_form true v) in
      guarded env (call (cw_pack_str env v)) (call (append env bs)) pc (
        ap (λ r. elim r [ none ↦ fault | some (a, s) ↦ continue a s ])
          (cw_pack_str-append ∙ ap (λ b. append env (bytes (string_form b v)) pc) e))
      ∙ stopped_call bs

  -- cw_pack_bin appends the bytes of the `binary_form` of the mode, which is a string in the
  -- compatibility mode, for a length to which 5 can be added in 32 bits.
  pub cw_pack_bin-append :
      cw_pack_bin env v pc ≡ append env (bytes (binary_form pc.be_compatible v)) pc
  unfolding cw_pack_bin
  cw_pack_bin-append = binary_body pc.be_compatible refl
