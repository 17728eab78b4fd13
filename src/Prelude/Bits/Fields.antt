-- ===== src/Prelude/Bits/Fields.antt =====
-- `|` of disjoint fields, and `&` with a mask of low or of high ones.
use Prim.Native.Nat.{ℕ, zero, suc, ◌+◌, ◌-◌, ◌*◌, ◌/◌, ◌%◌, ◌^◌, ◌≤◌, ◌<◌, bit_and, bit_or}
use mathlib.Core.Path.{◌≡◌, refl, ap}
use native.Mathlib.Nat.{pow-suc, one-le-pow, div-div-eq-div-mul}
use native.Mathlib.Omega.{arith}
use cwpack.Prelude.Bits.Step.{bit_or_step, bit_and_step}

pub bit_or-zero : (a : ℕ) → bit_or a 0 ≡ a
bit_or-zero a = below a a (omega arith)
  where
    below : (n a : ℕ) → a ≤ n → bit_or a 0 ≡ a
    below n zero h = refl
    below zero (suc a) h = absurd (omega arith)
    below (suc n) (suc a) h =
        omega (arith, bit_or_step (suc a) 0, below n (suc a / 2) (omega arith))

pub bit_and-zero : (a : ℕ) → bit_and a 0 ≡ 0
bit_and-zero a = below a a (omega arith)
  where
    below : (n a : ℕ) → a ≤ n → bit_and a 0 ≡ 0
    below n zero h = refl
    below zero (suc a) h = absurd (omega arith)
    below (suc n) (suc a) h =
        omega (arith, bit_and_step (suc a) 0, below n (suc a / 2) (omega arith))

shifted_once : (q k : ℕ) → q * 2 ^ suc k ≡ 2 * (q * 2 ^ k)
shifted_once q k = omega (arith, ap (λ (t : ℕ). q * t) (pow-suc 2 k))

-- `(q << k) | r` is a sum where `r` has `k` bits.
pub bit_or_fields : (k q r : ℕ) → r < 2 ^ k → bit_or (q * 2 ^ k) r ≡ q * 2 ^ k + r
bit_or_fields (suc k) high low small =
    let upper = bit_or_fields k high (low / 2) (omega arith) in
    ground (arith, upper, shifted_once high k, bit_or_step (high * 2 ^ suc k) low)
bit_or_fields zero high low small = ground (bit_or-zero high, arith)

-- `a & (m << k)` is decided by the bits of `a` from `k` on.
pub bit_and_shifted : (k a m : ℕ) → bit_and a (m * 2 ^ k) ≡ bit_and (a / 2 ^ k) m * 2 ^ k
bit_and_shifted zero a m = ground arith
bit_and_shifted (suc k) a m = ground (
  arith,
  bit_and_step a (m * 2 ^ suc k),
  shifted_once m k,
  pow-suc 2 k,
  one-le-pow k 2,
  shifted_once (bit_and (a / 2 / 2 ^ k) m) k,
  bit_and_shifted k (a / 2) m,
  div-div-eq-div-mul a 2 (2 ^ k),
)

-- Both operations work on the high and on the low part of their operands apart.
module _ (x y : ℕ) where
  pub bit_or_parts :
      (k a b : ℕ)
      → a < 2 ^ k
      → b < 2 ^ k
      → bit_or (x * 2 ^ k + a) (y * 2 ^ k + b) ≡ bit_or x y * 2 ^ k + bit_or a b
  bit_or_parts zero a b p q = ground (arith, bit_or-zero 0)
  bit_or_parts (suc k) a b p q = ground (
    arith,
    bit_or_step (x * 2 ^ suc k + a) (y * 2 ^ suc k + b),
    bit_or_step a b,
    shifted_once x k,
    shifted_once y k,
    shifted_once (bit_or x y) k,
    pow-suc 2 k,
    bit_or_parts k (a / 2) (b / 2) (omega (arith, pow-suc 2 k)) (omega (arith, pow-suc 2 k)),
  )

  pub bit_and_parts :
      (k a b : ℕ)
      → a < 2 ^ k
      → b < 2 ^ k
      → bit_and (x * 2 ^ k + a) (y * 2 ^ k + b) ≡ bit_and x y * 2 ^ k + bit_and a b
  bit_and_parts zero a b p q = ground (arith, bit_and-zero 0)
  bit_and_parts (suc k) a b p q = ground (
    arith,
    bit_and_step (x * 2 ^ suc k + a) (y * 2 ^ suc k + b),
    bit_and_step a b,
    shifted_once x k,
    shifted_once y k,
    shifted_once (bit_and x y) k,
    pow-suc 2 k,
    bit_and_parts k (a / 2) (b / 2) (omega (arith, pow-suc 2 k)) (omega (arith, pow-suc 2 k)),
  )

-- A mask of `k` low ones keeps what has `k` bits, and is the remainder by `2 ^ k`.
pub bit_and_all : (k r : ℕ) → r < 2 ^ k → bit_and r (2 ^ k - 1) ≡ r
bit_and_all zero r h = ground (arith, bit_and-zero r)
bit_and_all (suc k) r h = ground (
  arith,
  bit_and_step r (2 ^ suc k - 1),
  pow-suc 2 k,
  one-le-pow k 2,
  bit_and_all k (r / 2) (omega (arith, pow-suc 2 k)),
)

pub bit_and_mask : (k a : ℕ) → bit_and a (2 ^ k - 1) ≡ a % 2 ^ k
bit_and_mask k a = ground (
  arith,
  bit_and_parts (a / 2 ^ k) 0 k (a % 2 ^ k) (2 ^ k - 1),
  bit_and_all k (a % 2 ^ k),
  bit_and-zero (a / 2 ^ k),
  one-le-pow k 2,
)
