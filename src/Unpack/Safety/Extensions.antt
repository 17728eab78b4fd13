-- ===== src/Unpack/Safety/Extensions.antt =====
-- Extensions in cw_unpack_next, on any input.
use cwpack.Prelude.{
  ℕ, ◌+◌, ◌≤◌, ◌<◌, ◌≡◌, refl, ap, ◌∙◌, false, inl, inr, length, ◌==◌, get_or, Bool-cases,
}
use cwpack.Prelude.Int.{ℤ, signed, pos_part}
use cwpack.ReturnCode.{rc_wrong_timestamp_length, is_error}
use cwpack.Wire.{cw_load32, cw_load64}
use cwpack.Unpack.{Item, As, boolean, word64, real, array, map, blob, time, UnpackContext, Platform}
use cwpack.Unpack.Next.{
  length_of, assert_blob, ext_type, ext8_rest, is_timestamp, set_sec, set_nsec,
}
use cwpack.Unpack.Safety.{
  Guard, IsIn, Ends, Ends-and_then, Ends-cases, Ends-weaken, unpack_error-Ends, take_bytes-Ends,
}
use cwpack.Unpack.Safety.Items.{
  IsWhole, is_ext, is_long_timestamp, is_time, signed8-small, Blob, assert_blob-Ends,
}
use cwpack.Unpack.Safety.Next.{Whole, timestamp_type}

module _ {W : Type 0} {env : Platform W} (g : Guard env) where
  -- The type byte of an extension.
  abbrev pub TypeRead : UnpackContext W → ℤ → UnpackContext W → Type 0
  TypeRead uc t uc' = (uc'.item ≡ record { type = t; value = uc.item.value }) × (pos_part t < 128)

  pub ext_type-Ends :
      (uc : UnpackContext W)
      → IsIn g uc
      → is_error uc.return_code ≡ false
      → Ends g (TypeRead uc) (ext_type env uc)
  unfolding ext_type
  ext_type-Ends uc inside ok =
      Ends-and_then g (λ bs uc'. uc'.item ≡ uc.item) (TypeRead uc) _ _
        (take_bytes-Ends g tt 1 uc inside ok)
        (λ bs uc₁ inside₁ ok₁ same. (
          record { within = inside₁.within; holds = inside₁.holds },
          ok₁,
          (
            ap (λ (i : Item). record { type = signed 8 (get_or bs 0 0); value = i.value }) same,
            signed8-small (get_or bs 0 0),
          ),
        ))

  always_time : (sec : ℤ) (nsec : ℕ) (v : As) → set_sec sec (set_nsec nsec v) ≡ time sec nsec
  always_time sec nsec (time s n) = refl
  always_time sec nsec (boolean b) = refl
  always_time sec nsec (word64 k) = refl
  always_time sec nsec (real k) = refl
  always_time sec nsec (array k) = refl
  always_time sec nsec (map k) = refl
  always_time sec nsec (blob p l) = refl

  -- A blob in the buffer, of a type of extension.
  pub any_ext :
      (t : ℤ)
      → pos_part t < 128
      → (p l n : ℕ) (item : Item) → item ≡ record { type = t; value = blob p l }
      → p + l ≤ n
      → IsWhole n item
  any_ext t small p l n item e room = elim (Bool-cases (is_timestamp t)) [
    | inl stamp ↦
        is_long_timestamp p l
          (e ∙ ap (λ t'. record { type = t'; value = blob p l }) (timestamp_type t stamp)) room
    | inr other ↦ is_ext t p l other small e room
  ]

  -- A blob of a type that is known.
  pub typed_blob :
      (t : ℤ) (v : As) (uc : UnpackContext W)
      → IsIn g uc
      → is_error uc.return_code ≡ false
      → uc.item ≡ record { type = t; value = v }
      → ((p l n : ℕ) (item : Item)
          → item ≡ record { type = t; value = blob p l }
          → p + l ≤ n
          → IsWhole n item)
      → Ends g Whole (assert_blob env uc)
  typed_blob t v uc inside ok e make =
      Ends-weaken g (Blob g uc inside ok) Whole (assert_blob env uc)
        (assert_blob-Ends g uc inside ok)
        (λ _ uc₂ at.
          let (p, l, e₂, room) = at in
          make p l (length uc₂.buffer) uc₂.item
            (e₂ ∙ ap (λ (i : Item). record { type = i.type; value = blob p l }) e) room)

  pub ext8_rest-Whole :
      (uc : UnpackContext W)
      → IsIn g uc
      → is_error uc.return_code ≡ false
      → Ends g Whole (ext8_rest env uc)
  unfolding ext8_rest
  ext8_rest-Whole uc inside ok =
      Ends-and_then g (TypeRead uc) Whole _ _ (ext_type-Ends uc inside ok) (λ t uc₁ inside₁ ok₁ e₁.
        Ends-cases g Whole (is_timestamp t) _ _ uc₁
          (λ stamp.
            Ends-cases g Whole (length_of uc₁.item.value == 12) _ _ uc₁
              (λ twelve.
                Ends-and_then g (λ bs uc'. uc'.item ≡ uc₁.item) Whole _ _
                  (take_bytes-Ends g tt 4 uc₁ inside₁ ok₁)
                  (λ bs uc₂ inside₂ ok₂ e₂.
                    let nsec = cw_load32 env.build bs in
                    let uc₃ = record uc₂ {
                      item = record { type = uc₂.item.type; value = set_nsec nsec uc₂.item.value };
                    } in
                    Ends-and_then g (λ bs' uc'. uc'.item ≡ uc₃.item) Whole _ _
                      (take_bytes-Ends g tt 8 uc₃
                        (record { within = inside₂.within; holds = inside₂.holds }) ok₂)
                      (λ bs' uc₄ inside₄ ok₄ e₄.
                        let sec = signed 64 (cw_load64 env.build bs') in
                        (
                          record { within = inside₄.within; holds = inside₄.holds },
                          ok₄,
                          is_time sec nsec (
                              ap
                                (λ (i : Item). record {
                                  type = i.type;
                                  value = set_sec sec i.value;
                                })
                                e₄
                              ∙ ap (λ v. record { type = uc₂.item.type; value = v })
                                  (always_time sec nsec uc₂.item.value)
                              ∙ ap (λ t'. record { type = t'; value = time sec nsec })
                                  (ap (λ (i : Item). i.type) (e₂ ∙ e₁.0) ∙ timestamp_type t stamp)),
                        ))))
              (λ _. unpack_error-Ends g tt Whole rc_wrong_timestamp_length uc₁ refl inside₁))
          (λ other. typed_blob t uc.item.value uc₁ inside₁ ok₁ e₁.0 (any_ext t e₁.1)))
