-- ===== src/Unpack/Next/Signed.antt =====
-- cw_unpack_next on the signed integers, whose item type follows the sign.
use cwpack.Prelude.{
  ℕ, ◌%◌, ◌^◌, ◌≡◌, refl, sym, ap, ◌∙◌, true, false, List, [], ◌∷◌, ◌++◌, length, get_or, ltb,
  arith,
}
use cwpack.Prelude.Int.{ℤ, pos, negsuc, word, signed}
use cwpack.ReturnCode.{is_error}
use cwpack.Exec.{Void, ◌>>=◌, ◌>>◌}
use cwpack.Wire.{byte_order_matches, be_bytes, cw_load16, cw_load32, cw_load64}
use cwpack.Wire.RoundTrip.{cw_load16-be_bytes, cw_load32-be_bytes, cw_load64-be_bytes}
use cwpack.Format
use cwpack.Format.{Value, bytes, InRange, Fits}
use cwpack.Unpack.{
  As, word64, Item, UnpackContext, Platform, Routine, item_positive_integer, item_negative_integer,
  set_type, set_as, take_bytes,
}
use cwpack.Unpack.Source.{Source, IsReady, input}
use cwpack.Unpack.Next.{
  as_word, as_signed, get_item1, get_item2, get_item4, get_item8, positive_if_so, item_body,
  headed_item,
}
use cwpack.Unpack.Next.Items.{IsItem, Reads, fetch}
use cwpack.Unpack.Next.Reading.{Gives, from_body}

-- The type that the item of an integer has in the end.
abbrev signed_type : ℤ → ℤ
signed_type (pos n) = item_positive_integer
signed_type (negsuc n) = item_negative_integer

-- What two's complement keeps of an integer that fits.
word_kept :
    (z : ℤ)
    → (Fits 8 z → signed 8 (word 8 z) ≡ z)
      × (Fits 16 z → signed 16 (word 16 z) ≡ z)
      × (Fits 32 z → signed 32 (word 32 z) ≡ z)
word_kept (pos n) = (λ h. ground arith, λ h. ground arith, λ h. ground arith)
word_kept (negsuc n) = (λ h. ground arith, λ h. ground arith, λ h. ground arith)

pos_word : (n : ℕ) → Fits 64 (pos n) → ltb (word 64 (pos n)) (2 ^ 63) ≡ true
pos_word n h = ground arith

negsuc_word : (n : ℕ) → Fits 64 (negsuc n) → ltb (word 64 (negsuc n)) (2 ^ 63) ≡ false
negsuc_word n h = ground arith

word_small :
    (z : ℤ)
    → (word 16 z % 2 ^ 16 ≡ word 16 z)
      × (word 32 z % 2 ^ 32 ≡ word 32 z)
      × (word 64 z % 2 ^ 64 ≡ word 64 z)
word_small (pos n) = (omega arith, omega arith, omega arith)
word_small (negsuc n) = (omega arith, omega arith, omega arith)

signed_held :
    {W : Type 0} (z : ℤ) (uc : UnpackContext W)
    → Fits 64 z
    → (uc.item.type ≡ signed_type z) × (uc.item.value ≡ word64 (word 64 z))
    → IsItem uc (Format.integer z)
signed_held (pos n) uc h (t, v) = (t, v ∙ ap word64 (omega arith))
signed_held (negsuc n) uc h i = i

module _ {W : Type 0} {env : Platform W} (s : Source env) (uc : UnpackContext W)
    (ready : IsReady s uc) (ok : is_error uc.return_code ≡ false) (rest : List ℕ)
    (matches : byte_order_matches env.build ≡ true) where
  -- A field, and then the type that its sign asks for.
  with_sign :
      (z : ℤ) (m : Routine W Void Void) (uc₁ : UnpackContext W)
      → Fits 64 z
      → Reads s m uc₁ rest item_negative_integer (word64 (word 64 z))
      → Reads s (m >> positive_if_so env) uc₁ rest (signed_type z) (word64 (word 64 z))
  unfolding positive_if_so set_type
  with_sign (pos n) m uc₁ h (uc', e, at', it) = (
    record uc' { item = record { type = item_positive_integer; value = uc'.item.value } },
    rw e (rw it (rw (pos_word n h) refl)),
    record {
      ready = record { within = at'.ready.within; holds = at'.ready.holds };
      return_code = at'.return_code;
      left = at'.left;
    },
    ap (λ (t : Item). record { type = item_positive_integer; value = t.value }) it,
  )
  with_sign (negsuc n) m uc₁ h (uc', e, at', it) =
      (uc', rw e (rw it (rw (negsuc_word n h) refl)), at', it)

  reads_signed_field :
      (c : ℕ) (bs : List ℕ) (f : List ℕ → As → As) (z : ℤ)
      → Fits 64 z
      → item_body env c ≡ (
          (set_type item_negative_integer >> (take_bytes env tt (length bs) >>= λ b. set_as (f b)))
          >> positive_if_so env)
      → ((old : As) → f bs old ≡ word64 (word 64 z))
      → input s.pending uc ≡ c ∷ (bs ++ rest)
      → Gives s uc ready ok rest (Format.integer z)
  reads_signed_field c bs f z h e g i =
      from_body s uc ready ok rest c (bs ++ rest) (signed_type z) (word64 (word 64 z))
        (Format.integer z) i
        (λ uc₁ r i₁. rw e (
          with_sign z
            (set_type item_negative_integer
              >> (take_bytes env tt (length bs) >>= λ b. set_as (f b)))
            uc₁ h (rw (sym (g uc₁.item.value)) (fetch s f item_negative_integer bs rest uc₁ r i₁))))
        (λ uc' it.
          signed_held z uc' h (ap (λ (t : Item). t.type) it, ap (λ (t : Item). t.value) it))

  pub reads_signed :
      (z : ℤ)
      → (Fits 8 z
          → input s.pending uc ≡ bytes (Format.int8 z) ++ rest
          → Gives s uc ready ok rest (Format.integer z))
        × (Fits 16 z
            → input s.pending uc ≡ bytes (Format.int16 z) ++ rest
            → Gives s uc ready ok rest (Format.integer z))
        × (Fits 32 z
            → input s.pending uc ≡ bytes (Format.int32 z) ++ rest
            → Gives s uc ready ok rest (Format.integer z))
        × (Fits 64 z
            → input s.pending uc ≡ bytes (Format.int64 z) ++ rest
            → Gives s uc ready ok rest (Format.integer z))
  unfolding bytes item_body headed_item get_item1 get_item2 get_item4 get_item8 be_bytes
  reads_signed z =
      let (s8, s16, s32) = word_kept z in
      (
        λ h i.
            reads_signed_field 0xd0 (word 8 z ∷ []) (λ b. as_signed 8 (get_or b 0 0)) z
              (omega arith) refl (λ old. ap (λ x. word64 (word 64 x)) (s8 h)) i,
        λ h i.
            reads_signed_field 0xd1 (be_bytes 2 (word 16 z))
              (λ b. as_signed 16 (cw_load16 env.build b)) z (omega arith) refl
              (λ old.
                ap (λ x. word64 (word 64 x))
                  (ap (signed 16)
                      (cw_load16-be_bytes env.build (word 16 z) matches ∙ (word_small z).0)
                    ∙ s16 h))
              i,
        λ h i.
            reads_signed_field 0xd2 (be_bytes 4 (word 32 z))
              (λ b. as_signed 32 (cw_load32 env.build b)) z (omega arith) refl
              (λ old.
                ap (λ x. word64 (word 64 x))
                  (ap (signed 32)
                      (cw_load32-be_bytes env.build (word 32 z) matches ∙ (word_small z).1)
                    ∙ s32 h))
              i,
        λ h i.
            reads_signed_field 0xd3 (be_bytes 8 (word 64 z)) (λ b. as_word (cw_load64 env.build b))
              z (omega arith) refl
              (λ old.
                ap word64 (cw_load64-be_bytes env.build (word 64 z) matches ∙ (word_small z).2))
              i,
      )
