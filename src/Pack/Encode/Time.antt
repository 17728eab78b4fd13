-- ===== src/Pack/Encode/Time.antt =====
-- cw_pack_time.
use cwpack.Prelude.{
  ℕ, ◌+◌, ◌-◌, ◌*◌, ◌/◌, ◌%◌, ◌^◌, ◌<◌, ◌≡◌, ap, ◌∙◌, bit_or, bit_and, true, false, [], ◌∷◌, ◌++◌,
  ltb, leb, inl, inr, Bool-cases, if◌then◌else◌, arith,
}
use cwpack.Prelude.Int.{ℤ, pos, negsuc, word}
use cwpack.Prelude.Bits.{bit_or_fields, bit_and_shifted, bit_and_mask}
use cwpack.ReturnCode.{rc_illegal_call, rc_value_error}
use cwpack.Exec.{◌>>◌, when}
use cwpack.Wire.{byte_order_matches, be_bytes}
use cwpack.Wire.Store.{cw_store-be_bytes}
use cwpack.Format.{Form, bytes, fixext, ext8, Fits}
use cwpack.Format.Choice.{timestamp_type, timestamp_form}
use cwpack.Pack.{PackContext, Platform, pack_error}
use cwpack.Pack.Blobs.{cw_pack_time, time_body}
use cwpack.Pack.Emit.{emit, append, guarded, emit_all}
use cwpack.Pack.Encode.Extensions.{when-false}

-- The masks of cw_pack_time test for bits from 34 and from 32 on.
high_34 : (s : ℕ) → s < 2 ^ 64 → bit_and s 0xffff_fffc_0000_0000 ≡ s / 2 ^ 34 * 2 ^ 34
high_34 s h =
    omega (
      arith,
      bit_and_shifted 34 s (2 ^ 30 - 1),
      ap (λ t. t * 2 ^ 34) (bit_and_mask 30 (s / 2 ^ 34)),
    )

high_32 : (s : ℕ) → s < 2 ^ 64 → bit_and s 0xffff_ffff_0000_0000 ≡ s / 2 ^ 32 * 2 ^ 32
high_32 s h =
    omega (
      arith,
      bit_and_shifted 32 s (2 ^ 32 - 1),
      ap (λ t. t * 2 ^ 32) (bit_and_mask 32 (s / 2 ^ 32)),
    )

or_fields :
    (s nsec : ℕ)
    → s < 2 ^ 34
    → nsec < 2 ^ 30
    → bit_or (nsec * 2 ^ 34 % 2 ^ 64) s ≡ nsec * 2 ^ 34 + s
or_fields s nsec hs hn =
    let fits : nsec * 2 ^ 34 % 2 ^ 64 ≡ nsec * 2 ^ 34 = omega arith in
    rw fits (bit_or_fields 34 nsec s hs)

word-lt : (i : ℤ) → word 64 i < 2 ^ 64
word-lt (pos n) = omega arith
word-lt (negsuc n) = omega arith

-- The form of the bits of `sec` and of `nsec`.
abbrev timestamp_bits : ℕ → ℕ → Form
timestamp_bits s nsec =
    if ltb s (2 ^ 34)
    then (if ltb (nsec * 2 ^ 34 + s) (2 ^ 32)
        then fixext timestamp_type (be_bytes 4 s)
        else fixext timestamp_type (be_bytes 8 (nsec * 2 ^ 34 + s)))
    else ext8 timestamp_type (be_bytes 4 nsec ++ be_bytes 8 s)

timestamp_bits-form :
    (i : ℤ) (nsec : ℕ) → Fits 64 i → timestamp_bits (word 64 i) nsec ≡ timestamp_form i nsec
timestamp_bits-form (pos s) nsec h =
    let e : word 64 (pos s) ≡ s = omega arith in rw e (ground arith)
timestamp_bits-form (negsuc s) nsec h = ground arith

module _ {W : Type 0} (env : Platform W) (matches : byte_order_matches env.build ≡ true)
    (pc : PackContext W) where
  time_body-emit :
      (s nsec : ℕ)
      → s < 2 ^ 64
      → nsec < 1_000_000_000
      → time_body env s nsec pc ≡ emit env (bytes (timestamp_bits s nsec)) pc
  unfolding time_body bytes be_bytes
  time_body-emit s nsec hs hn =
      let stores = λ (x : ℕ). cw_store-be_bytes env.build x matches in
      elim (Bool-cases (ltb s (2 ^ 34))) [
        | inl short ↦
            let data64 : bit_or (nsec * 2 ^ 34 % 2 ^ 64) s ≡ nsec * 2 ^ 34 + s =
              ground (arith, or_fields s nsec) in
            let d : ℕ = nsec * 2 ^ 34 + s in
            rw (data64, (stores d).2, (stores (d % 2 ^ 32)).1)
              (ground (
                arith,
                high_34 s,
                high_32 d,
                emit_all env 10 10 (0xd7 ∷ []) ((0xff ∷ []) ∷ be_bytes 8 d ∷ []) pc,
                emit_all env 6 6 (0xd6 ∷ []) ((0xff ∷ []) ∷ be_bytes 4 (d % 2 ^ 32) ∷ []) pc,
              ))
        | inr long ↦
            rw ((stores nsec).1, (stores s).2)
              (ground (
                arith,
                high_34 s,
                emit_all env 15 15 (0xc7 ∷ [])
                    ((12 ∷ []) ∷ (0xff ∷ []) ∷ be_bytes 4 nsec ∷ be_bytes 8 s ∷ []) pc,
              ))
      ]

  -- Outside of the compatibility mode cw_pack_time appends the bytes of `timestamp_form`, for seconds
  -- in 64 bits and `nsec` below a second.
  pub cw_pack_time-append :
      (sec : ℤ) (nsec : ℕ)
      → pc.be_compatible ≡ false
      → Fits 64 sec
      → nsec < 1_000_000_000
      → cw_pack_time env sec nsec pc ≡ append env (bytes (timestamp_form sec nsec)) pc
  unfolding cw_pack_time append
  cw_pack_time-append sec nsec new h hn =
      let s = word 64 sec in
      guarded env _ _ pc (
        when-false pc.be_compatible rc_illegal_call
          (when (leb 1_000_000_000 nsec) (pack_error rc_value_error) >> time_body env s nsec) pc new
        ∙ when-false (leb 1_000_000_000 nsec) rc_value_error (time_body env s nsec) pc
            (ground arith)
        ∙ time_body-emit s nsec (word-lt sec) hn
        ∙ ap (λ f. emit env (bytes f) pc) (timestamp_bits-form sec nsec h))
