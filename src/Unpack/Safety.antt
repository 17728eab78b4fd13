-- ===== src/Unpack/Safety.antt =====
-- What an unpacking routine keeps on any input, right or wrong: no access out of bounds.
pub mod Items
pub mod Next
pub mod Extensions
pub mod Every
pub mod Skip
pub mod LookAhead
use cwpack.Prelude.{
  ℕ, zero, suc, ◌+◌, ◌≤◌, ◌<◌, ◌≡◌, refl, ap, ◌∙◌, Bool, true, false, inl, inr, Option, none, some,
  List, length, take, drop, ltb, leb, if◌then◌else◌, Bool-cases, arith,
}
use cwpack.Prelude.Int.{ℤ, pos, negsuc}
use cwpack.ReturnCode.{rc_ok, rc_buffer_underflow, is_error}
use cwpack.Exec.{Exec, continue, returned, fault, Void, and_then, ◌>>=◌}
use cwpack.Unpack.{
  UnpackContext, Platform, Routine, unpack_error, unless_stopped, read, advance, refill, set_type,
  set_as, cw_unpack_assert_space, take_bytes,
}

-- An underflow handler has an answer: an error, or the bytes.
pub record Answers {W : Type 0} (more : ℕ) (uc : UnpackContext W) (rc : ℤ) (uc' : UnpackContext W)
    : Type 0 where
  pub within : uc'.current ≤ length uc'.buffer
  pub room : rc ≡ rc_ok → uc'.current + more ≤ length uc'.buffer
  pub item : rc ≡ rc_ok → uc'.item ≡ uc.item
  pub return_code : rc ≡ rc_ok → uc'.return_code ≡ uc.return_code

-- The contract of handlers, with an invariant as in Source. It asks for no input to be there.
pub record Guard {W : Type 0} (env : Platform W) : Type 1 where
  pub Holds : Option ℕ → ℕ → ℕ → W → Type 0
  pub later : (h : Option ℕ) (n p q : ℕ) (w : W) → p ≤ q → Holds h n p w → Holds h n q w
  pub answers :
      (f more : ℕ) (uc : UnpackContext W)
      → uc.handle_unpack_underflow ≡ some f
      → uc.current ≤ length uc.buffer
      → Holds uc.handle_unpack_underflow (length uc.buffer) uc.current uc.outer
      → length uc.buffer < uc.current + more
      → let (rc, uc') = env.unpack_underflow f uc more in
        Answers more uc rc uc'
        × Holds uc'.handle_unpack_underflow (length uc'.buffer) uc'.current uc'.outer

module _ {W : Type 0} {env : Platform W} (g : Guard env) where
  pub record IsIn (uc : UnpackContext W) : Type 0 where
    pub within : uc.current ≤ length uc.buffer
    pub holds : g.Holds uc.handle_unpack_underflow (length uc.buffer) uc.current uc.outer

  -- A routine goes on with `Q`, or returns with an error, and makes no access out of bounds.
  abbrev pub Ends :
      {R A : Type 0} → (A → UnpackContext W → Type 0) → Exec (UnpackContext W) R A → Type 0
  Ends Q (continue a uc) = IsIn uc × (is_error uc.return_code ≡ false) × Q a uc
  Ends Q (returned r uc) = IsIn uc × (is_error uc.return_code ≡ true)
  Ends Q fault = ⊥

  pub Ends-and_then :
      {R A B : Type 0} (Q : A → UnpackContext W → Type 0) (P : B → UnpackContext W → Type 0)
      (e : Exec (UnpackContext W) R A) (k : A → Routine W R B)
      → Ends Q e
      → ((a : A) (uc : UnpackContext W)
          → IsIn uc
          → is_error uc.return_code ≡ false
          → Q a uc
          → Ends P (k a uc))
      → Ends P (and_then e k)
  Ends-and_then Q P (continue a uc) k (inside, ok, q) rest = rest a uc inside ok q
  Ends-and_then Q P (returned r uc) k e rest = e
  Ends-and_then Q P fault k e rest = e

  pub Ends-weaken :
      {R A : Type 0} (Q P : A → UnpackContext W → Type 0) (e : Exec (UnpackContext W) R A)
      → Ends Q e
      → ((a : A) (uc : UnpackContext W) → Q a uc → P a uc)
      → Ends P e
  Ends-weaken Q P (continue a uc) (inside, ok, q) w = (inside, ok, w a uc q)
  Ends-weaken Q P (returned r uc) e w = e
  Ends-weaken Q P fault e w = e

  pub Ends-if :
      {R A : Type 0} (Q : A → UnpackContext W → Type 0) (b : Bool) (m n : Routine W R A)
      (uc : UnpackContext W)
      → Ends Q (m uc)
      → Ends Q (n uc)
      → Ends Q ((if b then m else n) uc)
  Ends-if Q true m n uc e f = e
  Ends-if Q false m n uc e f = f

  pub Ends-cases :
      {R A : Type 0} (Q : A → UnpackContext W → Type 0) (b : Bool) (m n : Routine W R A)
      (uc : UnpackContext W)
      → (b ≡ true → Ends Q (m uc))
      → (b ≡ false → Ends Q (n uc))
      → Ends Q ((if b then m else n) uc)
  Ends-cases Q true m n uc e f = e refl
  Ends-cases Q false m n uc e f = f refl

  -- The bytes that were asserted stand at `p`.
  pub record Granted (more : ℕ) (uc : UnpackContext W) (p : ℕ) (uc' : UnpackContext W)
      : Type 0 where
    pub current : uc'.current ≡ p + more
    pub in_buffer : p + more ≤ length uc'.buffer
    pub item : uc'.item ≡ uc.item
    pub held : g.Holds uc'.handle_unpack_underflow (length uc'.buffer) p uc'.outer

  module _ {R : Type 0} (abort : R) where
    pub unpack_error-Ends :
        {A : Type 0} (Q : A → UnpackContext W → Type 0) (code : ℤ) (uc : UnpackContext W)
        → is_error code ≡ true
        → IsIn uc
        → Ends Q (unpack_error abort code uc)
    unfolding unpack_error
    unpack_error-Ends Q code uc bad inside =
        (record { within = inside.within; holds = inside.holds }, bad)

    module _ (buffer_end : ℤ) (bad : is_error buffer_end ≡ true) (more : ℕ) where
      abbrev HasRoom : UnpackContext W → Void → UnpackContext W → Type 0
      HasRoom uc _ uc' = (uc'.current + more ≤ length uc'.buffer) × (uc'.item ≡ uc.item)

      -- The handler's answer, as refill takes it.
      answered :
          (rc : ℤ) (uc uc' : UnpackContext W)
          → is_error uc.return_code ≡ false
          → Answers more uc rc uc'
          → IsIn uc'
          → Ends (HasRoom uc) (elim rc [
            | pos zero ↦ continue tt uc'
            | pos (suc n) ↦ unpack_error abort (pos (suc n)) uc'
            | negsuc zero ↦ unpack_error abort buffer_end uc'
            | negsuc (suc n) ↦ unpack_error abort (negsuc (suc n)) uc'
          ])
      answered (pos zero) uc uc' ok a inside =
          (inside, rw (a.return_code refl) ok, (a.room refl, a.item refl))
      answered (pos (suc n)) uc uc' ok a inside =
          unpack_error-Ends (HasRoom uc) (pos (suc n)) uc' refl inside
      answered (negsuc zero) uc uc' ok a inside =
          unpack_error-Ends (HasRoom uc) buffer_end uc' bad inside
      answered (negsuc (suc n)) uc uc' ok a inside =
          unpack_error-Ends (HasRoom uc) (negsuc (suc n)) uc' refl inside

      refill-Ends :
          (uc : UnpackContext W) (h : Option ℕ)
          → uc.handle_unpack_underflow ≡ h
          → IsIn uc
          → is_error uc.return_code ≡ false
          → length uc.buffer < uc.current + more
          → Ends (HasRoom uc) (refill env abort buffer_end more uc)
      unfolding refill
      refill-Ends uc none e inside ok lacks =
          rw (e, refill) (unpack_error-Ends (HasRoom uc) buffer_end uc bad inside)
      refill-Ends uc (some f) e inside ok lacks =
          let (a, holds) = g.answers f more uc e inside.within inside.holds lacks in
          let (rc, uc') = env.unpack_underflow f uc more in
          rw (e, refill) (answered rc uc uc' ok a (record { within = a.within; holds = holds }))

      granted :
          (uc uc' : UnpackContext W)
          → IsIn uc'
          → is_error uc'.return_code ≡ false
          → uc'.current + more ≤ length uc'.buffer
          → uc'.item ≡ uc.item
          → Ends {R = R} (Granted more uc) (advance more uc')
      unfolding advance
      granted uc uc' inside ok room item = (
        record {
          within = room;
          holds =
              g.later uc'.handle_unpack_underflow (length uc'.buffer) uc'.current
                (uc'.current + more) uc'.outer (omega arith) inside.holds;
        },
        ok,
        record { current = refl; in_buffer = room; item = item; held = inside.holds },
      )

      -- An assertion of space: the bytes are in the buffer then, or there is an error.
      pub assert_space-Ends :
          (uc : UnpackContext W)
          → IsIn uc
          → is_error uc.return_code ≡ false
          → Ends (Granted more uc) (cw_unpack_assert_space env abort buffer_end more uc)
      unfolding cw_unpack_assert_space
      assert_space-Ends uc inside ok =
          elim (Bool-cases (ltb (length uc.buffer) (uc.current + more))) [
            | inl full ↦ rw full (
                Ends-and_then (HasRoom uc) (Granted more uc) (refill env abort buffer_end more uc)
                  (λ _. advance more)
                  (refill-Ends uc uc.handle_unpack_underflow refl inside ok (ground arith))
                  (λ _ uc' inside' ok' room. granted uc uc' inside' ok' room.0 room.1))
            | inr room ↦ rw room (granted uc uc inside ok (ground arith) refl)
          ]

    -- A read inside of the buffer.
    pub read-Ends :
        (Q : List ℕ → UnpackContext W → Type 0) (p n : ℕ) (uc : UnpackContext W)
        → IsIn uc
        → is_error uc.return_code ≡ false
        → p + n ≤ length uc.buffer
        → Q (take n (drop p uc.buffer)) uc
        → Ends Q (read {R = R} p n uc)
    unfolding read
    read-Ends Q p n uc inside ok room q =
        let fits : leb (p + n) (length uc.buffer) ≡ true = ground arith in rw fits (inside, ok, q)

    pub take_bytes-Ends :
        (n : ℕ) (uc : UnpackContext W)
        → IsIn uc
        → is_error uc.return_code ≡ false
        → Ends (λ bs uc'. uc'.item ≡ uc.item) (take_bytes env abort n uc)
    unfolding take_bytes
    take_bytes-Ends n uc inside ok =
        Ends-and_then (Granted n uc) (λ bs uc'. uc'.item ≡ uc.item)
          (cw_unpack_assert_space env abort rc_buffer_underflow n uc) (λ p. read p n)
          (assert_space-Ends rc_buffer_underflow refl n uc inside ok)
          (λ p uc' inside' ok' at.
            read-Ends (λ bs uc''. uc''.item ≡ uc.item) p n uc' inside' ok' at.in_buffer at.item)
