-- ===== src/NumericExtensions/Unpacked.antt =====
-- What the numeric extensions give back.
use cwpack.Prelude.{
  ℕ, ◌+◌, ◌/◌, ◌%◌, ◌^◌, ◌<◌, ◌≡◌, refl, ap, true, false, some, List, length, ltb, leb, arith,
  Bool-cases, inl, inr,
}
use cwpack.Prelude.Int.{ℤ, pos, negsuc, word, signed, ltb_ℤ}
use cwpack.ReturnCode.{is_error}
use cwpack.Exec.{continue}
use cwpack.Wire.{byte_order_matches, be_bytes}
use cwpack.Wire.RoundTrip.{cw_load16-be_bytes, cw_load32-be_bytes, cw_load64-be_bytes}
use cwpack.Format.{Fits, meaning, fixext}
use cwpack.Unpack.{UnpackContext, Platform, read}
use cwpack.Unpack.Next.Items.{HoldsBlob, IsItem}
use cwpack.NumericExtensions.{ext_member, user_ext, integer_body, get_ext_integer}
use cwpack.NumericExtensions.Packed.{sized, integer_form}

-- What two's complement keeps of an integer that fits.
kept :
    (i : ℤ)
    → (Fits 8 i → signed 8 (word 8 i / 1 % 256) ≡ i)
      × (Fits 16 i → signed 16 (word 16 i % 2 ^ 16) ≡ i)
      × (Fits 32 i → signed 32 (word 32 i % 2 ^ 32) ≡ i)
      × (Fits 64 i → signed 64 (word 64 i % 2 ^ 64) ≡ i)
kept (pos n) = (λ h. ground arith, λ h. ground arith, λ h. ground arith, λ h. ground arith)
kept (negsuc n) = (λ h. ground arith, λ h. ground arith, λ h. ground arith, λ h. ground arith)

module _ {W : Type 0} (uc : UnpackContext W) (ok : is_error uc.return_code ≡ false) where
  -- The blob of an extension is found and read.
  held :
      {R : Type 0} (r : R) (t : ℤ) (v : List ℕ)
      → Fits 8 t
      → uc.item.type ≡ t
      → HoldsBlob uc v
      → (p : ℕ) × (user_ext r uc ≡ continue (p, length v) uc)
        × (read {R = R} p (length v) uc ≡ continue v uc)
  unfolding user_ext ext_member read
  held r t v h ty (p, value, in_buffer, there) =
      let user : ltb_ℤ (pos 127) uc.item.type ≡ false = rw ty (ground arith) in
      let fits : leb (p + length v) (length uc.buffer) ≡ true = ground arith in
      (p, rw ok (rw user (rw value refl)), rw fits (ap (λ b. continue b uc) there))

  module _ (env : Platform W) (matches : byte_order_matches env.build ≡ true) (t : ℤ)
      (user : Fits 8 t) where
    gives_width :
        (i : ℤ)
        → (Fits 8 i
            → IsItem uc (meaning (fixext t (be_bytes 1 (word 8 i))))
            → get_ext_integer env uc ≡ some (i, uc))
          × (Fits 16 i
              → IsItem uc (meaning (fixext t (be_bytes 2 (word 16 i))))
              → get_ext_integer env uc ≡ some (i, uc))
          × (Fits 32 i
              → IsItem uc (meaning (fixext t (be_bytes 4 (word 32 i))))
              → get_ext_integer env uc ≡ some (i, uc))
          × (Fits 64 i
              → IsItem uc (meaning (fixext t (be_bytes 8 (word 64 i))))
              → get_ext_integer env uc ≡ some (i, uc))
    unfolding get_ext_integer integer_body meaning be_bytes
    gives_width i =
        let (k8, k16, k32, k64) = kept i in
        (
          λ h (ty, b).
              let (p, e, r) = held (pos 0) t (be_bytes 1 (word 8 i)) user ty b in
              rw e (rw r (ap (λ z. some (z, uc)) (k8 h))),
          λ h (ty, b).
              let (p, e, r) = held (pos 0) t (be_bytes 2 (word 16 i)) user ty b in
              rw e (
                rw r (
                  rw (cw_load16-be_bytes env.build (word 16 i) matches)
                    (ap (λ z. some (z, uc)) (k16 h)))),
          λ h (ty, b).
              let (p, e, r) = held (pos 0) t (be_bytes 4 (word 32 i)) user ty b in
              rw e (
                rw r (
                  rw (cw_load32-be_bytes env.build (word 32 i) matches)
                    (ap (λ z. some (z, uc)) (k32 h)))),
          λ h (ty, b).
              let (p, e, r) = held (pos 0) t (be_bytes 8 (word 64 i)) user ty b in
              rw e (
                rw r (
                  rw (cw_load64-be_bytes env.build (word 64 i) matches)
                    (ap (λ z. some (z, uc)) (k64 h)))),
        )

    -- Whichever of the four widths was chosen.
    gives_sized :
        (i : ℤ) (n : ℕ)
        → (n < 128 → Fits 8 i)
        → (n < 32768 → Fits 16 i)
        → (n < 0x80000000 → Fits 32 i)
        → Fits 64 i
        → IsItem uc (meaning (sized t i n))
        → get_ext_integer env uc ≡ some (i, uc)
    gives_sized i n f8 f16 f32 f64 it =
        let (g8, g16, g32, g64) = gives_width i in
        elim (Bool-cases (ltb n 128)) [
          | inl a ↦ g8 (f8 (ground arith)) (rw a at it)
          | inr a ↦ elim (Bool-cases (ltb n 32768)) [
            | inl b ↦ g16 (f16 (ground arith)) (rw (a, b) at it)
            | inr b ↦ elim (Bool-cases (ltb n 0x80000000)) [
              | inl c ↦ g32 (f32 (ground arith)) (rw (a, b, c) at it)
              | inr c ↦ g64 f64 (rw (a, b, c) at it)
            ]
          ]
        ]

    -- Where the item is the extension that cw_pack_ext_integer packs for an integer, get_ext_integer
    -- gives the integer back and leaves the context as it is.
    pub get_ext_integer-gives :
        (i : ℤ)
        → Fits 64 i
        → IsItem uc (meaning (integer_form t i))
        → get_ext_integer env uc ≡ some (i, uc)
    get_ext_integer-gives (pos n) h it =
        gives_sized (pos n) n (λ k. omega arith) (λ k. omega arith) (λ k. omega arith) h it
    get_ext_integer-gives (negsuc n) h it =
        gives_sized (negsuc n) n (λ k. omega arith) (λ k. omega arith) (λ k. omega arith) h it
