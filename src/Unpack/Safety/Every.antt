-- ===== src/Unpack/Safety/Every.antt =====
-- Every case of cw_unpack_next, on any input.
use cwpack.Prelude.{
  ℕ, ◌+◌, ◌≤◌, ◌≡◌, refl, bit_and, Bool, true, false, inl, inr, Option, none, some, length, ltb,
  leb, ◌==◌, get_or, if◌then◌else◌, Bool-cases,
}
use cwpack.Prelude.Int.{ℤ, word, signed}
use cwpack.ReturnCode.{rc_malformed_input, rc_end_of_input, is_error}
use cwpack.Exec.{Exec, continue, returned, fault, finish, Void, ◌>>=◌, ◌>>◌}
use cwpack.Unpack.{
  Item, As, boolean, word64, array, map, blob, UnpackContext, Platform, Routine, item_nil,
  item_boolean, item_positive_integer, item_negative_integer, item_float, item_double, item_str,
  item_bin, item_array, item_map, item_ext, unless_stopped,
}
use cwpack.Unpack.Next.{
  set_length, as_word, get_item, get_item1, get_item2, get_item4, get_item8, assert_blob,
  headed_item, item_body, cw_unpack_next, as_array, as_map, as_real, as_signed, ext_type, ext8_rest,
}
use cwpack.Unpack.Safety.{
  Guard, IsIn, Ends, Ends-and_then, Ends-if, Ends-weaken, Granted, unpack_error-Ends,
  assert_space-Ends, read-Ends,
}
use cwpack.Unpack.Safety.Items.{
  IsWhole, is_nil, is_boolean, is_positive, is_negative, is_float, is_double, is_array, is_map,
  is_str, is_bin, HasItem, set_type-Ends, Filled, get_item-Ends, get_item1-Ends, get_item2-Ends,
  get_item4-Ends, get_item8-Ends,
}
use cwpack.Unpack.Safety.Next.{Whole, blob-Whole, signed-Whole, get_item_fix-Whole}
use cwpack.Unpack.Safety.Extensions.{TypeRead, ext_type-Ends, any_ext, typed_blob, ext8_rest-Whole}

module _ {W : Type 0} {env : Platform W} (g : Guard env) where
  module _ (uc : UnpackContext W) (inside : IsIn g uc) (ok : is_error uc.return_code ≡ false) where
    abbrev old : As
    old = uc.item.value

    -- A user's extension, behind its length.
    ext-Whole :
        (m : Routine W Void Void)
        → Ends g (Filled g item_ext set_length old) (m uc)
        → Ends g Whole ((m >> (ext_type env >>= λ t. assert_blob env)) uc)
    ext-Whole m head =
        Ends-and_then g (Filled g item_ext set_length old) Whole (m uc) _ head
          (λ _ uc₁ inside₁ ok₁ at₁.
            Ends-and_then g (TypeRead g uc₁) Whole (ext_type env uc₁) (λ t. assert_blob env)
              (ext_type-Ends g uc₁ inside₁ ok₁)
              (λ t uc₂ inside₂ ok₂ e₂.
                typed_blob g t uc₁.item.value uc₂ inside₂ ok₂ e₂.0 (any_ext g t e₂.1)))

    ext8-Whole : Ends g Whole ((get_item1 env item_ext set_length >> ext8_rest env) uc)
    ext8-Whole =
        Ends-and_then g (Filled g item_ext set_length old) Whole
          (get_item1 env item_ext set_length uc) (λ _. ext8_rest env)
          (get_item1-Ends g uc inside ok item_ext set_length)
          (λ _ uc₁ inside₁ ok₁ at₁. ext8_rest-Whole g uc₁ inside₁ ok₁)

    make_str :
        (p l n : ℕ) (item : Item)
        → item ≡ record { type = item_str; value = blob p l }
        → p + l ≤ n
        → IsWhole n item
    make_str p l n item e room = is_str p l e room

    make_bin :
        (p l n : ℕ) (item : Item)
        → item ≡ record { type = item_bin; value = blob p l }
        → p + l ≤ n
        → IsWhole n item
    make_bin p l n item e room = is_bin p l e room

    -- A number that is the member.
    number-Whole :
        (type : ℤ) (var : ℕ → As → As) (m : Routine W Void Void)
        → Ends g (Filled g type var old) (m uc)
        → ((x n : ℕ) (item : Item)
            → item ≡ record { type = type; value = var x old }
            → IsWhole n item)
        → Ends g Whole (m uc)
    number-Whole type var m head make =
        Ends-weaken g (Filled g type var old) Whole (m uc) head
          (λ _ uc₁ at₁. make at₁.0 (length uc₁.buffer) uc₁.item at₁.1)

    branch :
        (b : Bool) (m n : Routine W Void Void)
        → Ends g Whole (m uc)
        → Ends g Whole (n uc)
        → Ends g Whole ((if b then m else n) uc)
    branch b m n = Ends-if g Whole b m n uc

    get1 :
        (type : ℤ) (var : ℕ → As → As) → Ends g (Filled g type var old) (get_item1 env type var uc)
    get1 = get_item1-Ends g uc inside ok

    get2 :
        (type : ℤ) (var : ℕ → As → As) → Ends g (Filled g type var old) (get_item2 env type var uc)
    get2 = get_item2-Ends g uc inside ok

    get4 :
        (type : ℤ) (var : ℕ → As → As) → Ends g (Filled g type var old) (get_item4 env type var uc)
    get4 = get_item4-Ends g uc inside ok

    get8 : (type : ℤ) → Ends g (Filled g type as_word old) (get_item8 env type uc)
    get8 = get_item8-Ends g uc inside ok

    fixed :
        (type : ℤ) (value : As)
        → ((n : ℕ) (item : Item) → item ≡ record { type = type; value = value } → IsWhole n item)
        → Ends g Whole (get_item env type value uc)
    fixed type value make =
        Ends-weaken g (HasItem g (record { type = type; value = value })) Whole
          (get_item env type value uc) (get_item-Ends g uc inside ok type value)
          (λ _ uc₁ at₁. make (length uc₁.buffer) uc₁.item at₁)

    headed_item-Whole : (c : ℕ) → Ends g Whole (headed_item env c uc)
    unfolding headed_item
    headed_item-Whole c =
        (branch (c == 0xc0) _ _ (set_type-Ends g Whole item_nil uc inside ok (is_nil refl)) (
          branch (c == 0xc2) _ _
            (fixed item_boolean (boolean false) (λ n item e. is_boolean false e))
            (branch (c == 0xc3) _ _
              (fixed item_boolean (boolean true) (λ n item e. is_boolean true e))
              (branch (c == 0xc4) _ _
                (blob-Whole g item_bin (get_item1 env item_bin set_length) old uc
                  (get1 item_bin set_length) make_bin)
                (branch (c == 0xc5) _ _
                  (blob-Whole g item_bin (get_item2 env item_bin set_length) old uc
                    (get2 item_bin set_length) make_bin)
                  (branch (c == 0xc6) _ _
                    (blob-Whole g item_bin (get_item4 env item_bin set_length) old uc
                      (get4 item_bin set_length) make_bin)
                    (branch (c == 0xc7) _ _ ext8-Whole (
                      branch (c == 0xc8) _ _
                        (ext-Whole (get_item2 env item_ext set_length) (get2 item_ext set_length))
                        (branch (c == 0xc9) _ _
                          (ext-Whole (get_item4 env item_ext set_length) (get4 item_ext set_length))
                          (branch (c == 0xca) _ _
                            (number-Whole item_float as_real (get_item4 env item_float as_real)
                              (get4 item_float as_real) (λ x n item e. is_float x e))
                            (branch (c == 0xcb) _ _
                              (number-Whole item_double as_word (get_item8 env item_double)
                                (get8 item_double) (λ x n item e. is_double x e))
                              (branch (c == 0xcc) _ _
                                (number-Whole item_positive_integer as_word
                                  (get_item1 env item_positive_integer as_word)
                                  (get1 item_positive_integer as_word)
                                  (λ x n item e. is_positive x e))
                                (branch (c == 0xcd) _ _
                                  (number-Whole item_positive_integer as_word
                                    (get_item2 env item_positive_integer as_word)
                                    (get2 item_positive_integer as_word)
                                    (λ x n item e. is_positive x e))
                                  (branch (c == 0xce) _ _
                                    (number-Whole item_positive_integer as_word
                                      (get_item4 env item_positive_integer as_word)
                                      (get4 item_positive_integer as_word)
                                      (λ x n item e. is_positive x e))
                                    (branch (c == 0xcf) _ _
                                      (number-Whole item_positive_integer as_word
                                        (get_item8 env item_positive_integer)
                                        (get8 item_positive_integer)
                                        (λ x n item e. is_positive x e))
                                      (branch (c == 0xd0) _ _
                                        (signed-Whole g
                                          (get_item1 env item_negative_integer (as_signed 8))
                                          (as_signed 8) old uc
                                          (get1 item_negative_integer (as_signed 8))
                                          (λ x v. (word 64 (signed 8 x), refl)))
                                        (branch (c == 0xd1) _ _
                                          (signed-Whole g
                                            (get_item2 env item_negative_integer (as_signed 16))
                                            (as_signed 16) old uc
                                            (get2 item_negative_integer (as_signed 16))
                                            (λ x v. (word 64 (signed 16 x), refl)))
                                          (branch (c == 0xd2) _ _
                                            (signed-Whole g
                                              (get_item4 env item_negative_integer (as_signed 32))
                                              (as_signed 32) old uc
                                              (get4 item_negative_integer (as_signed 32))
                                              (λ x v. (word 64 (signed 32 x), refl)))
                                            (branch (c == 0xd3) _ _
                                              (signed-Whole g (get_item8 env item_negative_integer)
                                                as_word old uc (get8 item_negative_integer)
                                                (λ x v. (x, refl)))
                                              (branch (c == 0xd4) _ _
                                                (get_item_fix-Whole g 1 uc inside ok)
                                                (branch (c == 0xd5) _ _
                                                  (get_item_fix-Whole g 2 uc inside ok)
                                                  (branch (c == 0xd6) _ _
                                                    (get_item_fix-Whole g 4 uc inside ok)
                                                    (branch (c == 0xd7) _ _
                                                      (get_item_fix-Whole g 8 uc inside ok)
                                                      (branch (c == 0xd8) _ _
                                                        (get_item_fix-Whole g 16 uc inside ok)
                                                        (branch (c == 0xd9) _ _
                                                          (blob-Whole g item_str
                                                            (get_item1 env item_str set_length) old
                                                            uc (get1 item_str set_length) make_str)
                                                          (branch (c == 0xda) _ _
                                                            (blob-Whole g item_str
                                                            (get_item2 env item_str set_length) old
                                                            uc (get2 item_str set_length) make_str)
                                                            (branch (c == 0xdb) _ _
                                                            (blob-Whole g item_str
                                                            (get_item4 env item_str set_length) old
                                                            uc (get4 item_str set_length) make_str)
                                                            (branch (c == 0xdc) _ _
                                                            (number-Whole item_array as_array
                                                            (get_item2 env item_array as_array)
                                                            (get2 item_array as_array)
                                                            (λ x n item e. is_array x e))
                                                            (branch (c == 0xdd) _ _
                                                            (number-Whole item_array as_array
                                                            (get_item4 env item_array as_array)
                                                            (get4 item_array as_array)
                                                            (λ x n item e. is_array x e))
                                                            (branch (c == 0xde) _ _
                                                            (number-Whole item_map as_map
                                                            (get_item2 env item_map as_map)
                                                            (get2 item_map as_map)
                                                            (λ x n item e. is_map x e))
                                                            (branch (c == 0xdf) _ _
                                                            (number-Whole item_map as_map
                                                            (get_item4 env item_map as_map)
                                                            (get4 item_map as_map)
                                                            (λ x n item e. is_map x e))
                                                            (unpack_error-Ends g tt Whole
                                                            rc_malformed_input uc refl
                                                            inside))))))))))))))))))))))))))))))))

    item_body-Whole : (c : ℕ) → Ends g Whole (item_body env c uc)
    unfolding item_body
    item_body-Whole c =
        (branch (ltb c 0x80) _ _
          (fixed item_positive_integer (word64 c) (λ n item e. is_positive c e))
          (branch (ltb c 0x90) _ _
            (fixed item_map (map (bit_and c 0x0f)) (λ n item e. is_map (bit_and c 0x0f) e))
            (branch (ltb c 0xa0) _ _
              (fixed item_array (array (bit_and c 0x0f)) (λ n item e. is_array (bit_and c 0x0f) e))
              (branch (ltb c 0xc0) _ _
                (typed_blob g item_str (set_length (bit_and c 0x1f) old)
                  (record uc {
                    item = record { type = item_str; value = set_length (bit_and c 0x1f) old };
                  })
                  (record { within = inside.within; holds = inside.holds }) ok refl make_str)
                (branch (leb 0xe0 c) _ _
                  (fixed item_negative_integer (word64 (word 64 (signed 8 c)))
                    (λ n item e. is_negative (word 64 (signed 8 c)) e))
                  (headed_item-Whole c))))))

  -- The outcome of a call of cw_unpack_next.
  abbrev pub Unpacked : Option (Void × UnpackContext W) → Type 0
  Unpacked none = ⊥
  Unpacked (some (_, uc)) =
      IsIn g uc × (is_error uc.return_code ≡ false → IsWhole (length uc.buffer) uc.item)

  finish-Unpacked : (e : Exec (UnpackContext W) Void Void) → Ends g Whole e → Unpacked (finish e)
  finish-Unpacked (continue a uc) (inside, ok, whole) = (inside, λ good. whole)
  finish-Unpacked (returned a uc) (inside, bad) = (inside, λ good. absurd cc)
  finish-Unpacked fault e = e

  -- Whatever the buffer holds and whatever the handler gives: where `current` is in the buffer, and
  -- the handler does not report bytes that are not there, cw_unpack_next makes no access out of
  -- bounds and leaves `current` in the buffer. Without an error the item is whole: its member of the
  -- union is the one for its type, with the exception of an ext 16 or ext 32 with the type of
  -- timestamps, and a blob lies in the buffer.
  pub cw_unpack_next-Unpacked :
      (uc : UnpackContext W) → IsIn g uc → Unpacked (cw_unpack_next env uc)
  unfolding cw_unpack_next unless_stopped
  cw_unpack_next-Unpacked uc inside = elim (Bool-cases (is_error uc.return_code)) [
    | inl stopped ↦ rw stopped (inside, λ good. absurd cc)
    | inr ok ↦ rw ok (
        finish-Unpacked _ (
          Ends-and_then g (Granted g 1 uc) Whole _ _
            (assert_space-Ends g tt rc_end_of_input refl 1 uc inside ok)
            (λ p uc₁ inside₁ ok₁ at.
              Ends-and_then g (λ bs uc₂. uc₂ ≡ uc₁) Whole _ _
                (read-Ends g tt (λ bs uc₂. uc₂ ≡ uc₁) p 1 uc₁ inside₁ ok₁ at.in_buffer refl)
                (λ bs uc₂ inside₂ ok₂ same. item_body-Whole uc₂ inside₂ ok₂ (get_or bs 0 0)))))
  ]
