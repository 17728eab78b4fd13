-- ===== src/Prelude/Bits/Step.antt =====
-- `bit_and` and `bit_or` by their lowest digit. The native operations mean a recursion on binary
-- digits with fuel, and the fuel is dropped here.
use Prim.Native.Nat.{
  ℕ, zero, suc, ◌+◌, ◌*◌, ◌/◌, ◌%◌, ◌≤◌, min, max, bit_and, bit_or, digits, bitwise,
  bit_and-bitwise, bit_or-bitwise,
}
use mathlib.Core.Path.{◌≡◌, refl}
use native.Mathlib.Nat.{le_refl}
use native.Mathlib.Omega.{arith}

module _ (rest : ℕ → ℕ) (join : ℕ → ℕ → ℕ) where
  -- Any two amounts of fuel that reach the first operand will do.
  same_digits :
      (x y more less : ℕ)
      → x ≤ more
      → x ≤ less
      → digits rest join more x y ≡ digits rest join less x y
  same_digits (suc x) y (suc more) (suc less) hm hl =
      let halved = same_digits (suc x / 2) (y / 2) more less (omega arith) (omega arith) in
      rw halved
  same_digits (suc x) y (suc more) zero hm hl = absurd (omega arith)
  same_digits (suc x) y zero less hm hl = absurd (omega arith)
  same_digits zero y (suc more) (suc less) hm hl = refl
  same_digits zero y (suc more) zero hm hl = refl
  same_digits zero y zero (suc less) hm hl = refl
  same_digits zero y zero zero hm hl = refl

  lowest_digit :
      (x y : ℕ)
      → bitwise rest join (suc x) y
        ≡ bitwise rest join (suc x / 2) (y / 2) * 2 + join (suc x % 2) (y % 2)
  lowest_digit x y =
      let half = suc x / 2 in
      let refuelled = same_digits half (y / 2) x half (omega arith) (le_refl half) in
      omega (arith, refuelled)

pub bit_or_step : (x y : ℕ) → bit_or x y ≡ bit_or (x / 2) (y / 2) * 2 + max (x % 2) (y % 2)
bit_or_step (suc x) y = simp bit_or-bitwise (lowest_digit (λ d. d) max x y)
bit_or_step zero y = simp bit_or-bitwise (omega arith)

pub bit_and_step : (x y : ℕ) → bit_and x y ≡ bit_and (x / 2) (y / 2) * 2 + min (x % 2) (y % 2)
bit_and_step (suc x) y = simp bit_and-bitwise (lowest_digit (λ d. 0) min x y)
bit_and_step zero y = simp bit_and-bitwise (omega arith)
