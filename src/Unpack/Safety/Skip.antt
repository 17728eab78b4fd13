-- ===== src/Unpack/Safety/Skip.antt =====
-- cw_skip_items, on any input.
use cwpack.Prelude.{
  ℕ, zero, suc, ◌+◌, ◌*◌, ◌%◌, ◌^◌, ◌≡◌, refl, Bool, true, false, ◌||◌, bit_and, inl, inr, Option,
  none, some, List, ltb, leb, ◌==◌, get_or, if◌then◌else◌, Bool-cases,
}
use cwpack.Prelude.Int.{ℤ, pos_part}
use cwpack.ReturnCode.{rc_end_of_input, rc_buffer_underflow, rc_malformed_input, is_error}
use cwpack.Wire.{cw_load16, cw_load32}
use cwpack.Exec.{Exec, continue, returned, fault, finish, ◌>>=◌, pure}
use cwpack.Unpack.{UnpackContext, Platform, Routine, unless_stopped, take_bytes}
use cwpack.Unpack.Skip.{
  cw_skip_bytes, skip_length1, skip_length2, skip_length4, more_items2, more_items4, skip_headed,
  skip_body, skip_round, skip_loop, cw_skip_items,
}
use cwpack.Unpack.Safety.{
  Guard, IsIn, Ends, Ends-and_then, Ends-if, Granted, unpack_error-Ends, assert_space-Ends,
  read-Ends, take_bytes-Ends,
}

-- Whatever the value.
abbrev pub Any : {W A : Type 0} → A → UnpackContext W → Type 0
Any a uc = Unit {0}

module _ {W : Type 0} {env : Platform W} (g : Guard env) where
  skip_bytes-Ends :
      (count n : ℕ) (uc : UnpackContext W)
      → IsIn g uc
      → is_error uc.return_code ≡ false
      → Ends g Any (cw_skip_bytes env count n uc)
  unfolding cw_skip_bytes
  skip_bytes-Ends count n uc inside ok =
      Ends-and_then g (Granted g n uc) Any _ _
        (assert_space-Ends g true rc_buffer_underflow refl n uc inside ok)
        (λ p uc₁ inside₁ ok₁ at. (inside₁, ok₁, tt))

  module _ (uc : UnpackContext W) (inside : IsIn g uc) (ok : is_error uc.return_code ≡ false) where
    -- A length, and a skip that depends on it.
    length_then :
        (n : ℕ) (k : List ℕ → ℕ × ℕ)
        → Ends g Any ((take_bytes env true n >>= λ bs. cw_skip_bytes env (k bs).0 (k bs).1) uc)
    length_then n k =
        Ends-and_then g (λ bs uc'. uc'.item ≡ uc.item) Any _ _
          (take_bytes-Ends g true n uc inside ok)
          (λ bs uc₁ inside₁ ok₁ same. skip_bytes-Ends (k bs).0 (k bs).1 uc₁ inside₁ ok₁)

    count_then :
        (n : ℕ) (k : List ℕ → ℕ) → Ends g Any ((take_bytes env true n >>= λ bs. pure (k bs)) uc)
    count_then n k =
        Ends-and_then g (λ bs uc'. uc'.item ≡ uc.item) Any _ _
          (take_bytes-Ends g true n uc inside ok) (λ bs uc₁ inside₁ ok₁ same. (inside₁, ok₁, tt))

    plain : (n : ℕ) → Ends g {R = Bool} Any (pure n uc)
    plain n = (inside, ok, tt)

    branch :
        (b : Bool) (m n : Routine W Bool ℕ)
        → Ends g Any (m uc)
        → Ends g Any (n uc)
        → Ends g Any ((if b then m else n) uc)
    branch b m n = Ends-if g Any b m n uc

    skip_headed-Ends : (count c : ℕ) → Ends g Any (skip_headed env count c uc)
    unfolding skip_headed skip_length1 skip_length2 skip_length4 more_items2 more_items4
    skip_headed-Ends count c =
        (branch (c == 0xc0 || (c == 0xc2 || c == 0xc3)) _ _ (plain count) (
          branch (c == 0xcc || c == 0xd0) _ _ (skip_bytes-Ends count 1 uc inside ok) (
            branch (c == 0xcd || (c == 0xd1 || c == 0xd4)) _ _
              (skip_bytes-Ends count 2 uc inside ok)
              (branch (c == 0xd5) _ _ (skip_bytes-Ends count 3 uc inside ok) (
                branch (c == 0xca || (c == 0xce || c == 0xd2)) _ _
                  (skip_bytes-Ends count 4 uc inside ok)
                  (branch (c == 0xd6) _ _ (skip_bytes-Ends count 5 uc inside ok) (
                    branch (c == 0xcb || (c == 0xcf || c == 0xd3)) _ _
                      (skip_bytes-Ends count 8 uc inside ok)
                      (branch (c == 0xd7) _ _ (skip_bytes-Ends count 9 uc inside ok) (
                        branch (c == 0xd8) _ _ (skip_bytes-Ends count 17 uc inside ok) (
                          branch (c == 0xd9 || c == 0xc4) _ _
                            (length_then 1 (λ bs. (count, get_or bs 0 0)))
                            (branch (c == 0xda || c == 0xc5) _ _
                              (length_then 2 (λ bs. (count, cw_load16 env.build bs)))
                              (branch (c == 0xdb || c == 0xc6) _ _
                                (length_then 4 (λ bs. (count, cw_load32 env.build bs)))
                                (branch (c == 0xdc) _ _
                                  (count_then 2 (λ bs. count + cw_load16 env.build bs))
                                  (branch (c == 0xde) _ _
                                    (count_then 2 (λ bs. count + 2 * cw_load16 env.build bs))
                                    (branch (c == 0xdd) _ _
                                      (count_then 4 (λ bs. count + cw_load32 env.build bs))
                                      (branch (c == 0xdf) _ _
                                        (count_then 4
                                          (λ bs. count + 2 * cw_load32 env.build bs % 2 ^ 32))
                                        (branch (c == 0xc7) _ _
                                          (length_then 1 (λ bs. (count, get_or bs 0 0 + 1)))
                                          (branch (c == 0xc8) _ _
                                            (length_then 2
                                              (λ bs. (count, cw_load16 env.build bs + 1)))
                                            (branch (c == 0xc9) _ _
                                              (length_then 4 (λ bs.
                                                (count, (cw_load32 env.build bs + 1) % 2 ^ 32)))
                                              (unpack_error-Ends g true {A = ℕ} Any
                                                rc_malformed_input uc refl
                                                inside))))))))))))))))))))

    skip_body-Ends : (count c : ℕ) → Ends g Any (skip_body env count c uc)
    unfolding skip_body
    skip_body-Ends count c = branch (ltb c 0x80) _ _ (plain count) (
        branch (ltb c 0x90) _ _ (plain (count + 2 * bit_and c 15)) (
          branch (ltb c 0xa0) _ _ (plain (count + bit_and c 15)) (
            branch (ltb c 0xc0) _ _ (skip_bytes-Ends count (bit_and c 0x1f) uc inside ok)
              (branch (leb 0xe0 c) _ _ (plain count) (skip_headed-Ends count c)))))

  skip_round-Ends :
      (count : ℕ) (uc : UnpackContext W)
      → IsIn g uc
      → is_error uc.return_code ≡ false
      → Ends g Any (skip_round env count uc)
  unfolding skip_round
  skip_round-Ends count uc inside ok =
      Ends-and_then g (Granted g 1 uc) Any _ _
        (assert_space-Ends g true rc_end_of_input refl 1 uc inside ok)
        (λ p uc₁ inside₁ ok₁ at.
          Ends-and_then g (λ bs uc₂. uc₂ ≡ uc₁) Any _ _
            (read-Ends g true (λ bs uc₂. uc₂ ≡ uc₁) p 1 uc₁ inside₁ ok₁ at.in_buffer refl)
            (λ bs uc₂ inside₂ ok₂ same. skip_body-Ends uc₂ inside₂ ok₂ count (get_or bs 0 0)))

  skip_loop-Ends :
      (fuel count : ℕ) (uc : UnpackContext W)
      → IsIn g uc
      → is_error uc.return_code ≡ false
      → Ends g Any (skip_loop env fuel count uc)
  unfolding skip_loop
  skip_loop-Ends fuel zero uc inside ok = (inside, ok, tt)
  skip_loop-Ends zero (suc count) uc inside ok = (inside, ok, tt)
  skip_loop-Ends (suc fuel) (suc count) uc inside ok =
      Ends-and_then g Any Any (skip_round env count uc) (skip_loop env fuel)
        (skip_round-Ends count uc inside ok)
        (λ n uc₁ inside₁ ok₁ any. skip_loop-Ends fuel n uc₁ inside₁ ok₁)

  -- The call makes no access out of bounds, and leaves `current` in the buffer.
  abbrev pub StaysIn : {R : Type 0} → Option (R × UnpackContext W) → Type 0
  StaysIn none = ⊥
  StaysIn (some (r, uc)) = IsIn g uc

  pub finish-StaysIn :
      {R : Type 0} (e : Exec (UnpackContext W) R R) → Ends g Any e → StaysIn (finish e)
  finish-StaysIn (continue a uc) (inside, ok, any) = inside
  finish-StaysIn (returned a uc) (inside, bad) = inside
  finish-StaysIn fault e = e

  pub cw_skip_items-StaysIn :
      (fuel : ℕ) (count : ℤ) (uc : UnpackContext W)
      → IsIn g uc
      → StaysIn (cw_skip_items env fuel count uc)
  unfolding cw_skip_items unless_stopped
  cw_skip_items-StaysIn fuel count uc inside = elim (Bool-cases (is_error uc.return_code)) [
    | inl stopped ↦ rw stopped inside
    | inr ok ↦ rw ok (
        finish-StaysIn (skip_loop env fuel (pos_part count) uc)
          (skip_loop-Ends fuel (pos_part count) uc inside ok))
  ]
