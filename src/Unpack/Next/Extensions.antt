-- ===== src/Unpack/Next/Extensions.antt =====
-- cw_unpack_next on extensions whose type is not that of timestamps.
use cwpack.Prelude.{
  ℕ, ◌+◌, ◌^◌, ◌<◌, ◌≡◌, refl, sym, ap, ◌∙◌, true, false, List, [], ◌∷◌, ◌++◌, length, get_or, leb,
  if◌then◌else◌, arith, take, drop, drop-drop, subst, inl, inr,
}
use cwpack.Prelude.Int.{ℤ, pos, negsuc, word, signed}
use cwpack.ReturnCode.{is_error, rc_buffer_underflow}
use cwpack.Exec.{Void, continue, ◌>>=◌, ◌>>◌}
use cwpack.Wire.{byte_order_matches, be_bytes, cw_load16, cw_load32}
use cwpack.Wire.RoundTrip.{cw_load16-be_bytes, cw_load32-be_bytes}
use cwpack.Format
use cwpack.Format.{Value, bytes, InRange, Fits, IsFixextLength, fixext_head}
use cwpack.Unpack.{
  blob, Item, UnpackContext, Platform, Routine, item_ext, set_type, set_as, take_bytes, read,
  cw_unpack_assert_space,
}
use cwpack.Unpack.Source.{Source, IsReady, input, assert_space_lem, take_bytes_lem}
use cwpack.Unpack.Next.{
  set_length, length_of, is_timestamp, get_item1, get_item2, get_item4, get_item_fix, ext_type,
  ext8_rest, assert_blob, item_body, headed_item,
}
use cwpack.Unpack.Next.Items.{ReadsBlob, fetch, assert_blob_lem}
use cwpack.Unpack.Next.Reading.{Gives}
use cwpack.Unpack.Next.Blobs.{length_of-set_length, from_blob}

-- The two parts of what stands at the front of a list.
front_parts :
    (a b xs : List ℕ)
    → take (length (a ++ b)) xs ≡ a ++ b
    → (take (length a) xs ≡ a) × (take (length b) (drop (length a) xs) ≡ b)
unfolding take drop
front_parts [] b xs e = (refl, e)
front_parts (x ∷ a) b [] e = cc
front_parts (x ∷ a) b (y ∷ ys) e = let (f, g) = front_parts a b ys cc in (cc, g)

-- The same, where it stands behind the first `p`.
pub parts_at :
    (a b : List ℕ) (p : ℕ) (xs : List ℕ)
    → take (length (a ++ b)) (drop p xs) ≡ a ++ b
    → (take (length a) (drop p xs) ≡ a) × (take (length b) (drop (p + length a) xs) ≡ b)
parts_at a b p xs e =
    let (f, g) = front_parts a b (drop p xs) e in
    (f, ap (λ l. take (length b) l) (sym (drop-drop p (length a) (p + length a) xs refl)) ∙ g)

pub signed_type_byte : (t : ℤ) → Fits 8 t → signed 8 (word 8 t) ≡ t
signed_type_byte (pos n) h = ground arith
signed_type_byte (negsuc n) h = ground arith

module _ {W : Type 0} {env : Platform W} (s : Source env) where
  fix_lem :
      (t : ℤ) (v rest : List ℕ) (uc : UnpackContext W)
      → IsReady s uc
      → Fits 8 t
      → is_timestamp t ≡ false
      → input s.pending uc ≡ word 8 t ∷ (v ++ rest)
      → ReadsBlob s (get_item_fix env (length v)) uc rest t v
  unfolding get_item_fix read set_type set_as
  fix_lem t v rest uc ready h not_time i =
      let (p, uc', e, m) =
        assert_space_lem s tt rc_buffer_underflow (word 8 t ∷ v) rest uc ready i in
      let e₁ : cw_unpack_assert_space env tt rc_buffer_underflow (length v + 1) uc
          ≡ continue p uc' =
        subst (λ n. cw_unpack_assert_space env tt rc_buffer_underflow n uc ≡ continue p uc')
          (omega arith) e in
      let (f, g) = parts_at (word 8 t ∷ []) v p uc'.buffer m.there in
      let r : leb (p + 1) (length uc'.buffer) ≡ true = ground (arith, m.in_buffer) in
      (
        record uc' { item = record { type = t; value = blob (p + 1) (length v) } },
        rw e₁ (rw r (rw f (rw (signed_type_byte t h) (rw not_time refl)))),
        record {
          ready = record { within = m.ready.within; holds = m.ready.holds };
          return_code = m.return_code;
          left = m.left;
        },
        refl,
        (p + 1, refl, omega (arith, m.in_buffer), g),
      )

  -- The type byte, and then the blob whose length is set.
  typed_blob_lem :
      (t : ℤ) (v rest : List ℕ) (m : ℤ → Routine W Void Void) (uc : UnpackContext W)
      → ((uc₁ : UnpackContext W) → m t uc₁ ≡ assert_blob env uc₁)
      → IsReady s uc
      → Fits 8 t
      → length_of uc.item.value ≡ length v
      → input s.pending uc ≡ word 8 t ∷ (v ++ rest)
      → ReadsBlob s (ext_type env >>= m) uc rest t v
  unfolding ext_type take_bytes set_type
  typed_blob_lem t v rest f uc same ready h l i =
      let (p, uc₁, e, m) =
        take_bytes_lem s tt rc_buffer_underflow (word 8 t ∷ []) (v ++ rest) uc ready i in
      let (uc', e', at', t', b') =
        assert_blob_lem s v rest (record uc₁ { item = record { type = t; value = uc₁.item.value } })
          (record { within = m.ready.within; holds = m.ready.holds })
          (ap (λ (it : Item). length_of it.value) m.item ∙ l) m.left in
      (
        uc',
        rw e (
            rw (signed_type_byte t h)
              (same (record uc₁ { item = record { type = t; value = uc₁.item.value } }) ∙ e')),
        record {
          ready = at'.ready;
          return_code = at'.return_code ∙ m.return_code;
          left = at'.left;
        },
        t',
        b',
      )

module _ {W : Type 0} {env : Platform W} (s : Source env) (uc : UnpackContext W)
    (ready : IsReady s uc) (ok : is_error uc.return_code ≡ false) (rest : List ℕ) (t : ℤ)
    (fits : Fits 8 t) (not_time : is_timestamp t ≡ false) (v : List ℕ) where
  reads_typed_blob :
      (c : ℕ) (bs : List ℕ) (l : List ℕ → ℕ) (m : ℤ → Routine W Void Void)
      → ((uc₁ : UnpackContext W) → m t uc₁ ≡ assert_blob env uc₁)
      → item_body env c ≡ (
          (set_type item_ext >> (take_bytes env tt (length bs) >>= λ b. set_as (set_length (l b))))
          >> (ext_type env >>= m))
      → l bs ≡ length v
      → input s.pending uc ≡ c ∷ (bs ++ (word 8 t ∷ (v ++ rest)))
      → Gives s uc ready ok rest (Format.extension t v)
  reads_typed_blob c bs l m same e h i =
      from_blob s uc ready ok rest c (bs ++ (word 8 t ∷ (v ++ rest))) t v (Format.extension t v) i
        (λ uc₁ r i₁.
          let (uc₂, e₂, at₂, it₂) =
            fetch s (λ b. set_length (l b)) item_ext bs (word 8 t ∷ (v ++ rest)) uc₁ r i₁ in
          let (uc', e', at', t', b') =
            typed_blob_lem s t v rest m uc₂ same at₂.ready fits
              (ap (λ (it : Item). length_of it.value) it₂
                ∙ length_of-set_length (l bs) uc₁.item.value
                ∙ h)
              at₂.left in
          (
            uc',
            rw e (rw e₂ e'),
            record {
              ready = at'.ready;
              return_code = at'.return_code ∙ at₂.return_code;
              left = at'.left;
            },
            t',
            b',
          ))
        (λ uc' it. it)

  ext8_not_time :
      (m : Routine W Void Void) (uc₁ : UnpackContext W)
      → (if is_timestamp t then m else assert_blob env) uc₁ ≡ assert_blob env uc₁
  ext8_not_time m uc₁ = rw not_time refl

  pub reads_ext :
      (matches : byte_order_matches env.build ≡ true)
      → (length v < 2 ^ 8
          → input s.pending uc ≡ bytes (Format.ext8 t v) ++ rest
          → Gives s uc ready ok rest (Format.extension t v))
        × (length v < 2 ^ 16
            → input s.pending uc ≡ bytes (Format.ext16 t v) ++ rest
            → Gives s uc ready ok rest (Format.extension t v))
        × (length v < 2 ^ 32
            → input s.pending uc ≡ bytes (Format.ext32 t v) ++ rest
            → Gives s uc ready ok rest (Format.extension t v))
  unfolding bytes item_body headed_item get_item1 get_item2 get_item4 ext8_rest be_bytes
  reads_ext matches = (
    λ h i.
        reads_typed_blob 0xc7 (length v ∷ []) (λ b. get_or b 0 0) _ (λ uc₁. ext8_not_time _ uc₁)
          refl refl i,
    λ h i.
        reads_typed_blob 0xc8 (be_bytes 2 (length v)) (cw_load16 env.build) (λ t. assert_blob env)
          (λ uc₁. refl) refl (cw_load16-be_bytes env.build (length v) matches ∙ omega arith) i,
    λ h i.
        reads_typed_blob 0xc9 (be_bytes 4 (length v)) (cw_load32 env.build) (λ t. assert_blob env)
          (λ uc₁. refl) refl (cw_load32-be_bytes env.build (length v) matches ∙ omega arith) i,
  )

  fixext_body : (l : ℕ) → IsFixextLength l → item_body env (fixext_head l) ≡ get_item_fix env l
  unfolding item_body headed_item
  fixext_body l (inl e) = rw e refl
  fixext_body l (inr (inl e)) = rw e refl
  fixext_body l (inr (inr (inl e))) = rw e refl
  fixext_body l (inr (inr (inr (inl e)))) = rw e refl
  fixext_body l (inr (inr (inr (inr e)))) = rw e refl

  pub reads_fixext :
      IsFixextLength (length v)
      → input s.pending uc ≡ bytes (Format.fixext t v) ++ rest
      → Gives s uc ready ok rest (Format.extension t v)
  unfolding bytes
  reads_fixext h i =
      from_blob s uc ready ok rest (fixext_head (length v)) (word 8 t ∷ (v ++ rest)) t v
        (Format.extension t v) i
        (λ uc₁ r i₁. rw (fixext_body (length v) h) (fix_lem s t v rest uc₁ r fits not_time i₁))
        (λ uc' it. it)
