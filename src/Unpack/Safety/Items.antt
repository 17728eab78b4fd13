-- ===== src/Unpack/Safety/Items.antt =====
-- What cw_unpack_next leaves in `item`, on any input.
use cwpack.Prelude.{ℕ, ◌+◌, ◌≤◌, ◌<◌, ◌≡◌, refl, ap, ◌∙◌, Bool, false, List, length, get_or, arith}
use cwpack.Prelude.Int.{ℤ, signed, pos_part}
use cwpack.ReturnCode.{rc_buffer_underflow, is_error}
use cwpack.Wire.{cw_load16, cw_load32, cw_load64}
use cwpack.Exec.{Void, ◌>>=◌, ◌>>◌}
use cwpack.Unpack.{
  Item, As, boolean, word64, real, array, map, blob, time, UnpackContext, Platform, item_timestamp,
  item_nil, item_boolean, item_positive_integer, item_negative_integer, item_float, item_double,
  item_str, item_bin, item_array, item_map, set_type, set_as, cw_unpack_assert_space, take_bytes,
}
use cwpack.Unpack.Next.{
  length_of, as_word, get_item, get_item1, get_item2, get_item4, get_item8, assert_blob,
  is_timestamp,
}
use cwpack.Unpack.Safety.{
  Guard, IsIn, Ends, Ends-and_then, Granted, assert_space-Ends, take_bytes-Ends,
}

-- The member of the union is the one for the type, and a blob lies in the buffer, which has the
-- length `n`. A user's extension has a type of its own;
-- but an ext 16 or ext 32 with the type of timestamps stays a blob.
pub data IsWhole (n : ℕ) (item : Item) : Type 0 where
  is_nil : item.type ≡ item_nil → IsWhole n item
  is_boolean :
      (b : Bool) → item ≡ record { type = item_boolean; value = boolean b } → IsWhole n item
  is_positive :
      (k : ℕ) → item ≡ record { type = item_positive_integer; value = word64 k } → IsWhole n item
  is_negative :
      (k : ℕ) → item ≡ record { type = item_negative_integer; value = word64 k } → IsWhole n item
  is_float : (k : ℕ) → item ≡ record { type = item_float; value = real k } → IsWhole n item
  is_double : (k : ℕ) → item ≡ record { type = item_double; value = word64 k } → IsWhole n item
  is_array : (k : ℕ) → item ≡ record { type = item_array; value = array k } → IsWhole n item
  is_map : (k : ℕ) → item ≡ record { type = item_map; value = map k } → IsWhole n item
  is_str :
      (p l : ℕ) → item ≡ record { type = item_str; value = blob p l } → p + l ≤ n → IsWhole n item
  is_bin :
      (p l : ℕ) → item ≡ record { type = item_bin; value = blob p l } → p + l ≤ n → IsWhole n item
  is_ext :
      (t : ℤ) (p l : ℕ)
      → is_timestamp t ≡ false
      → pos_part t < 128
      → item ≡ record { type = t; value = blob p l }
      → p + l ≤ n
      → IsWhole n item
  is_long_timestamp :
      (p l : ℕ)
      → item ≡ record { type = item_timestamp; value = blob p l }
      → p + l ≤ n
      → IsWhole n item
  is_time :
      (sec : ℤ) (nsec : ℕ)
      → item ≡ record { type = item_timestamp; value = time sec nsec }
      → IsWhole n item

pub signed8-small : (n : ℕ) → pos_part (signed 8 n) < 128
signed8-small n = ground arith

module _ {W : Type 0} {env : Platform W} (g : Guard env) where
  abbrev pub HasItem : Item → Void → UnpackContext W → Type 0
  HasItem item _ uc = uc.item ≡ item

  pub set_type-Ends :
      (P : Void → UnpackContext W → Type 0) (type : ℤ) (uc : UnpackContext W)
      → IsIn g uc
      → is_error uc.return_code ≡ false
      → P tt (record uc { item = record { type = type; value = uc.item.value } })
      → Ends g {R = Void} P (set_type type uc)
  unfolding set_type
  set_type-Ends P type uc inside ok p =
      (record { within = inside.within; holds = inside.holds }, ok, p)

  pub set_as-Ends :
      (P : Void → UnpackContext W → Type 0) (f : As → As) (uc : UnpackContext W)
      → IsIn g uc
      → is_error uc.return_code ≡ false
      → P tt (record uc { item = record { type = uc.item.type; value = f uc.item.value } })
      → Ends g {R = Void} P (set_as f uc)
  unfolding set_as
  set_as-Ends P f uc inside ok p = (record { within = inside.within; holds = inside.holds }, ok, p)

  -- The type is set, then the bytes are taken, and then the member is set by them.
  abbrev pub Filled : ℤ → (ℕ → As → As) → As → Void → UnpackContext W → Type 0
  Filled type var old _ uc = (x : ℕ) × (uc.item ≡ record { type = type; value = var x old })

  filled :
      (type : ℤ) (var : ℕ → As → As) (n : ℕ) (load : List ℕ → ℕ) (uc : UnpackContext W)
      → IsIn g uc
      → is_error uc.return_code ≡ false
      → Ends g
          (Filled type var uc.item.value)
          ((set_type type >> (take_bytes env tt n >>= λ bs. set_as (var (load bs)))) uc)
  filled type var n load uc inside ok =
      Ends-and_then g (HasItem (record { type = type; value = uc.item.value }))
        (Filled type var uc.item.value) (set_type type uc)
        (λ _. take_bytes env tt n >>= λ bs. set_as (var (load bs)))
        (set_type-Ends (HasItem (record { type = type; value = uc.item.value })) type uc inside ok
          refl)
        (λ _ uc₁ inside₁ ok₁ at₁.
          Ends-and_then g (λ bs uc'. uc'.item ≡ uc₁.item) (Filled type var uc.item.value)
            (take_bytes env tt n uc₁) (λ bs. set_as (var (load bs)))
            (take_bytes-Ends g tt n uc₁ inside₁ ok₁)
            (λ bs uc₂ inside₂ ok₂ at₂.
              set_as-Ends (Filled type var uc.item.value) (var (load bs)) uc₂ inside₂ ok₂ (
                load bs,
                ap (λ (i : Item). record { type = i.type; value = var (load bs) i.value })
                    (at₂ ∙ at₁),
              )))

  module _ (uc : UnpackContext W) (inside : IsIn g uc) (ok : is_error uc.return_code ≡ false) where
    pub get_item-Ends :
        (type : ℤ) (value : As)
        → Ends g (HasItem (record { type = type; value = value })) (get_item env type value uc)
    unfolding get_item
    get_item-Ends type value =
        Ends-and_then g {R = Void} (HasItem (record { type = type; value = uc.item.value }))
          (HasItem (record { type = type; value = value })) (set_type type uc)
          (λ _. set_as (λ old. value))
          (set_type-Ends (HasItem (record { type = type; value = uc.item.value })) type uc inside ok
            refl)
          (λ _ uc' inside' ok' at.
            set_as-Ends (HasItem (record { type = type; value = value })) (λ old. value) uc' inside'
              ok' (ap (λ (i : Item). record { type = i.type; value = value }) at))

    pub get_item1-Ends :
        (type : ℤ) (var : ℕ → As → As)
        → Ends g (Filled type var uc.item.value) (get_item1 env type var uc)
    unfolding get_item1
    get_item1-Ends type var = filled type var 1 (λ bs. get_or bs 0 0) uc inside ok

    pub get_item2-Ends :
        (type : ℤ) (var : ℕ → As → As)
        → Ends g (Filled type var uc.item.value) (get_item2 env type var uc)
    unfolding get_item2
    get_item2-Ends type var = filled type var 2 (cw_load16 env.build) uc inside ok

    pub get_item4-Ends :
        (type : ℤ) (var : ℕ → As → As)
        → Ends g (Filled type var uc.item.value) (get_item4 env type var uc)
    unfolding get_item4
    get_item4-Ends type var = filled type var 4 (cw_load32 env.build) uc inside ok

    pub get_item8-Ends :
        (type : ℤ) → Ends g (Filled type as_word uc.item.value) (get_item8 env type uc)
    unfolding get_item8
    get_item8-Ends type = filled type as_word 8 (cw_load64 env.build) uc inside ok

    -- A blob in the buffer, and the type as before.
    abbrev pub Blob : Void → UnpackContext W → Type 0
    Blob _ uc' =
        (p : ℕ) × (l : ℕ) × (uc'.item ≡ record { type = uc.item.type; value = blob p l })
        × (p + l ≤ length uc'.buffer)

    pub assert_blob-Ends : Ends g Blob (assert_blob env uc)
    unfolding assert_blob
    assert_blob-Ends =
        let l = length_of uc.item.value in
        Ends-and_then g (Granted g l uc) Blob
          (cw_unpack_assert_space env tt rc_buffer_underflow l uc) (λ p. set_as (λ old. blob p l))
          (assert_space-Ends g tt rc_buffer_underflow refl l uc inside ok)
          (λ p uc' inside' ok' at.
            set_as-Ends Blob (λ old. blob p l) uc' inside' ok'
              (
                p,
                l,
                ap (λ (i : Item). record { type = i.type; value = blob p l }) at.item,
                at.in_buffer,
              ))
