-- ===== src/Unpack/Safety/Next.antt =====
-- cw_unpack_next, on any input.
use cwpack.Prelude.{
  ℕ, ◌+◌, ◌/◌, ◌%◌, ◌^◌, ◌≤◌, ◌<◌, ◌≡◌, refl, ap, ◌∙◌, bit_and, true, false, List, length, ◌==◌,
  get_or, if◌then◌else◌, arith,
}
use cwpack.Prelude.Int.{ℤ, pos, negsuc, signed, pos_part}
use cwpack.ReturnCode.{rc_buffer_underflow, rc_wrong_timestamp_length, is_error}
use cwpack.Wire.{cw_load32, cw_load64}
use cwpack.Exec.{continue, Void, ◌>>=◌, ◌>>◌}
use cwpack.Unpack.{
  Item, As, word64, blob, time, UnpackContext, Platform, Routine, item_timestamp,
  item_positive_integer, item_negative_integer, unpack_error, read, set_type, set_as,
}
use cwpack.Unpack.Next.{
  set_length, assert_blob, positive_if_so, get_item_fix, is_timestamp, is_nonnegative,
}
use cwpack.Unpack.Safety.{
  Guard, IsIn, Ends, Ends-and_then, Ends-if, Ends-cases, Ends-weaken, Granted, unpack_error-Ends,
  assert_space-Ends, read-Ends,
}
use cwpack.Unpack.Safety.Items.{
  IsWhole, is_positive, is_negative, is_ext, is_time, set_type-Ends, set_as-Ends, Filled,
  signed8-small, Blob, assert_blob-Ends,
}

pub timestamp_type : (t : ℤ) → is_timestamp t ≡ true → t ≡ item_timestamp
timestamp_type (pos n) h = cc
timestamp_type (negsuc n) h = ground arith

-- The item is whole.
abbrev pub Whole : {W : Type 0} → Void → UnpackContext W → Type 0
Whole _ uc = IsWhole (length uc.buffer) uc.item

module _ {W : Type 0} {env : Platform W} (g : Guard env) where
  -- A head that gives the length of a blob, and the blob.
  pub blob-Whole :
      (type : ℤ) (m : Routine W Void Void) (old : As) (uc : UnpackContext W)
      → Ends g (Filled g type set_length old) (m uc)
      → ((p l n : ℕ) (item : Item)
          → item ≡ record { type = type; value = blob p l }
          → p + l ≤ n
          → IsWhole n item)
      → Ends g Whole ((m >> assert_blob env) uc)
  blob-Whole type m old uc head make =
      Ends-and_then g (Filled g type set_length old) Whole (m uc) (λ _. assert_blob env) head
        (λ _ uc₁ inside₁ ok₁ at₁.
          Ends-weaken g (Blob g uc₁ inside₁ ok₁) Whole (assert_blob env uc₁)
            (assert_blob-Ends g uc₁ inside₁ ok₁)
            (λ _ uc₂ at₂.
              let (p, l, e, room) = at₂ in
              make p l (length uc₂.buffer) uc₂.item
                (e ∙ ap (λ (i : Item). record { type = i.type; value = blob p l }) at₁.1) room))

  -- A signed integer.
  pub signed-Whole :
      (m : Routine W Void Void) (var : ℕ → As → As) (old : As) (uc : UnpackContext W)
      → Ends g (Filled g item_negative_integer var old) (m uc)
      → ((x : ℕ) (v : As) → (k : ℕ) × (var x v ≡ word64 k))
      → Ends g Whole ((m >> positive_if_so env) uc)
  unfolding positive_if_so
  signed-Whole m var old uc head member =
      Ends-and_then g (Filled g item_negative_integer var old) Whole (m uc)
        (λ _. positive_if_so env) head
        (λ _ uc₁ inside₁ ok₁ at₁.
          let (x, e) = at₁ in
          let (k, e') = member x old in
          let whole = e ∙ ap (λ v. record { type = item_negative_integer; value = v }) e' in
          Ends-if g Whole (is_nonnegative uc₁.item.value) (set_type item_positive_integer)
            (λ uc. continue tt uc) uc₁
            (set_type-Ends g Whole item_positive_integer uc₁ inside₁ ok₁ (
              is_positive k (
                ap (λ (i : Item). record { type = item_positive_integer; value = i.value }) whole)))
            (inside₁, ok₁, is_negative k whole))

  -- A timestamp in `n` bytes that are in the buffer.
  time_at :
      (p n : ℕ) (sec : List ℕ → ℤ) (nsec : List ℕ → ℕ) (uc : UnpackContext W)
      → IsIn g uc
      → is_error uc.return_code ≡ false
      → uc.item.type ≡ item_timestamp
      → p + n ≤ length uc.buffer
      → Ends g {R = Void} Whole ((read p n >>= λ bs. set_as (λ old. time (sec bs) (nsec bs))) uc)
  time_at p n sec nsec uc inside ok stamp room =
      Ends-and_then g (λ _ uc₂. uc₂ ≡ uc) Whole (read p n uc)
        (λ bs. set_as (λ old. time (sec bs) (nsec bs)))
        (read-Ends g tt (λ _ uc₂. uc₂ ≡ uc) p n uc inside ok room refl)
        (λ bs uc₂ inside₂ ok₂ same.
          set_as-Ends g Whole (λ old. time (sec bs) (nsec bs)) uc₂ inside₂ ok₂
            (is_time (sec bs) (nsec bs) (
              ap (λ t. record { type = t; value = time (sec bs) (nsec bs) })
                (ap (λ (c : UnpackContext W). c.item.type) same ∙ stamp))))

  -- What follows the type byte of a fixext.
  fix_body :
      (type : ℤ) (p len : ℕ) (uc : UnpackContext W)
      → IsIn g uc
      → is_error uc.return_code ≡ false
      → uc.item.type ≡ type
      → pos_part type < 128
      → p + 1 + len ≤ length uc.buffer
      → Ends g {R = Void} Whole (
          (if is_timestamp type
              then (if len == 4
                  then (do
                    bs ← read (p + 1) 4
                    set_as (λ old. time (pos (cw_load32 env.build bs)) 0))
                  else if len == 8
                  then (do
                    bs ← read (p + 1) 8
                    let tmpu64 = cw_load64 env.build bs
                    set_as (λ old.
                        time
                          (pos (bit_and tmpu64 0x0000_0003_ffff_ffff))
                          (tmpu64 / 2 ^ 34 % 2 ^ 32)))
                  else unpack_error tt rc_wrong_timestamp_length)
              else set_as (λ old. blob (p + 1) len))
            uc)
  fix_body type p len uc inside ok e small room =
      Ends-cases g Whole (is_timestamp type) _ _ uc
        (λ is_time_type.
          let stamp : uc.item.type ≡ item_timestamp = e ∙ timestamp_type type is_time_type in
          Ends-cases g Whole (len == 4) _ _ uc
            (λ four.
              time_at (p + 1) 4 (λ bs. pos (cw_load32 env.build bs)) (λ bs. 0) uc inside ok stamp
                (ground arith))
            (λ _.
              Ends-cases g Whole (len == 8) _ _ uc
                (λ eight.
                  time_at (p + 1) 8
                    (λ bs. pos (bit_and (cw_load64 env.build bs) 0x0000_0003_ffff_ffff))
                    (λ bs. cw_load64 env.build bs / 2 ^ 34 % 2 ^ 32) uc inside ok stamp
                    (ground arith))
                (λ _. unpack_error-Ends g tt Whole rc_wrong_timestamp_length uc refl inside)))
        (λ other.
          set_as-Ends g Whole (λ old. blob (p + 1) len) uc inside ok
            (is_ext type (p + 1) len other small
              (ap (λ t. record { type = t; value = blob (p + 1) len }) e) room))

  pub get_item_fix-Whole :
      (len : ℕ) (uc : UnpackContext W)
      → IsIn g uc
      → is_error uc.return_code ≡ false
      → Ends g Whole (get_item_fix env len uc)
  unfolding get_item_fix
  get_item_fix-Whole len uc inside ok =
      Ends-and_then g (Granted g (len + 1) uc) Whole _ _
        (assert_space-Ends g tt rc_buffer_underflow refl (len + 1) uc inside ok)
        (λ p uc₁ inside₁ ok₁ at.
          Ends-and_then g (λ _ uc₂. uc₂ ≡ uc₁) Whole _ _
            (read-Ends g tt (λ _ uc₂. uc₂ ≡ uc₁) p 1 uc₁ inside₁ ok₁ (omega (arith, at.in_buffer))
              refl)
            (λ t uc₂ inside₂ ok₂ same.
              let type = signed 8 (get_or t 0 0) in
              let length_kept : length uc₂.buffer ≡ length uc₁.buffer =
                ap (λ (c : UnpackContext W). length c.buffer) same in
              fix_body type p len
                (record uc₂ { item = record { type = type; value = uc₂.item.value } })
                (record { within = inside₂.within; holds = inside₂.holds }) ok₂ refl
                (signed8-small (get_or t 0 0)) (omega (arith, at.in_buffer, length_kept))))
