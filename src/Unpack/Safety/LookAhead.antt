-- ===== src/Unpack/Safety/LookAhead.antt =====
-- cw_look_ahead, on any input.
use cwpack.Prelude.{
  ℕ, ◌+◌, ◌-◌, ◌≤◌, ◌≡◌, refl, Bool, false, ◌||◌, inl, inr, ltb, leb, ◌==◌, get_or, if◌then◌else◌,
  Bool-cases, arith,
}
use cwpack.Prelude.Int.{ℤ, pos, signed}
use cwpack.ReturnCode.{rc_end_of_input, rc_buffer_underflow, is_error}
use cwpack.Exec.{pure}
use cwpack.Unpack.{
  UnpackContext, Platform, Routine, item_timestamp, item_nil, item_boolean, item_positive_integer,
  item_negative_integer, item_float, item_double, item_str, item_bin, item_array, item_map,
  not_an_item, unless_stopped,
}
use cwpack.Unpack.LookAhead.{equals, step_back, ext_ahead, ext8_ahead, type_ahead, cw_look_ahead}
use cwpack.Unpack.Safety.{
  Guard, IsIn, Ends, Ends-and_then, Ends-if, Granted, assert_space-Ends, read-Ends,
}
use cwpack.Unpack.Safety.Skip.{Any, StaysIn, finish-StaysIn}

module _ {W : Type 0} {env : Platform W} (g : Guard env) where
  step_back-IsIn :
      (n p : ℕ) (uc uc₁ : UnpackContext W)
      → IsIn g uc₁
      → Granted g n uc p uc₁
      → IsIn g (record uc₁ { current = uc₁.current - n })
  step_back-IsIn n p uc uc₁ inside at =
      let back : uc₁.current - n ≡ p = omega (arith, at.current) in
      record { within = omega (arith, back, at.in_buffer); holds = rw back at.held }

  module _ (uc : UnpackContext W) (inside : IsIn g uc) (ok : is_error uc.return_code ≡ false) where
    plain : (t : ℤ) → Ends g {R = ℤ} Any (pure t uc)
    plain t = (inside, ok, tt)

    branch :
        (b : Bool) (m n : Routine W ℤ ℤ)
        → Ends g Any (m uc)
        → Ends g Any (n uc)
        → Ends g Any ((if b then m else n) uc)
    branch b m n = Ends-if g Any b m n uc

    ext_ahead-Ends : (n : ℕ) → 1 ≤ n → Ends g Any (ext_ahead env n uc)
    unfolding ext_ahead step_back
    ext_ahead-Ends n one =
        Ends-and_then g (Granted g n uc) Any _ _
          (assert_space-Ends g not_an_item rc_buffer_underflow refl n uc inside ok)
          (λ p uc₁ inside₁ ok₁ at.
            Ends-and_then g Any Any _ _
              (read-Ends g not_an_item Any (p + (n - 1)) 1
                (record uc₁ { current = uc₁.current - n }) (step_back-IsIn n p uc uc₁ inside₁ at)
                ok₁ (omega (arith, at.in_buffer)) tt)
              (λ bs uc₂ inside₂ ok₂ any. (inside₂, ok₂, tt)))

    ext8_ahead-Ends : Ends g Any (ext8_ahead env uc)
    unfolding ext8_ahead step_back
    ext8_ahead-Ends =
        Ends-and_then g (Granted g 3 uc) Any _ _
          (assert_space-Ends g not_an_item rc_buffer_underflow refl 3 uc inside ok)
          (λ p uc₁ inside₁ ok₁ at.
            Ends-and_then g Any Any _ _
              (read-Ends g not_an_item Any (p + 2) 1 (record uc₁ { current = uc₁.current - 3 })
                (step_back-IsIn 3 p uc uc₁ inside₁ at) ok₁ (omega (arith, at.in_buffer)) tt)
              (λ bs uc₂ inside₂ ok₂ any.
                Ends-if g {R = ℤ} Any (equals (pos (get_or bs 0 0)) item_timestamp)
                  (pure item_timestamp) (pure (signed 8 (get_or bs 0 0))) uc₂ (inside₂, ok₂, tt)
                  (inside₂, ok₂, tt)))

    type_ahead-Ends : (c : ℕ) → Ends g Any (type_ahead env c uc)
    unfolding type_ahead
    type_ahead-Ends c =
        (branch (ltb c 0x80) _ _ (plain item_positive_integer) (
          branch (ltb c 0x90) _ _ (plain item_map) (
            branch (ltb c 0xa0) _ _ (plain item_array) (
              branch (ltb c 0xc0) _ _ (plain item_str) (
                branch (leb 0xe0 c) _ _ (plain item_negative_integer) (
                  branch (c == 0xc0) _ _ (plain item_nil) (
                    branch (c == 0xc2 || c == 0xc3) _ _ (plain item_boolean) (
                      branch (c == 0xc4 || (c == 0xc5 || c == 0xc6)) _ _ (plain item_bin) (
                        branch (c == 0xc7) _ _ ext8_ahead-Ends (
                          branch (c == 0xc8) _ _ (ext_ahead-Ends 4 (omega arith)) (
                            branch (c == 0xc9) _ _ (ext_ahead-Ends 6 (omega arith)) (
                              branch (c == 0xca) _ _ (plain item_float) (
                                branch (c == 0xcb) _ _ (plain item_double) (
                                  branch (c == 0xcc || (c == 0xcd || (c == 0xce || c == 0xcf))) _ _
                                    (plain item_positive_integer)
                                    (branch (c == 0xd0 || (c == 0xd1 || (c == 0xd2 || c == 0xd3))) _
                                      _ (plain item_negative_integer)
                                      (branch
                                        (c == 0xd4
                                          || (c == 0xd5 || (c == 0xd6 || (c == 0xd7 || c == 0xd8))))
                                        _ _ (ext_ahead-Ends 2 (omega arith))
                                        (branch (c == 0xd9 || (c == 0xda || c == 0xdb)) _ _
                                          (plain item_str)
                                          (branch (c == 0xdc || c == 0xdd) _ _ (plain item_array) (
                                            branch (c == 0xde || c == 0xdf) _ _ (plain item_map)
                                              (plain not_an_item))))))))))))))))))))

  pub cw_look_ahead-StaysIn : (uc : UnpackContext W) → IsIn g uc → StaysIn g (cw_look_ahead env uc)
  unfolding cw_look_ahead unless_stopped step_back
  cw_look_ahead-StaysIn uc inside = elim (Bool-cases (is_error uc.return_code)) [
    | inl stopped ↦ rw stopped inside
    | inr ok ↦ rw ok (
        finish-StaysIn g _ (
          Ends-and_then g (Granted g 1 uc) Any _ _
            (assert_space-Ends g not_an_item rc_end_of_input refl 1 uc inside ok)
            (λ p uc₁ inside₁ ok₁ at.
              let uc₂ = record uc₁ { current = uc₁.current - 1 } in
              Ends-and_then g Any Any _ _
                (read-Ends g not_an_item Any p 1 uc₂ (step_back-IsIn 1 p uc uc₁ inside₁ at) ok₁
                  at.in_buffer tt)
                (λ bs uc₃ inside₃ ok₃ any. type_ahead-Ends uc₃ inside₃ ok₃ (get_or bs 0 0)))))
  ]
