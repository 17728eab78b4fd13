-- ===== src/Exec.antt =====
-- The body of a C function over the object `S` that its first argument points to: a statement goes
-- on with a value, returns from the function with an `R`, or faults, as on an access out of bounds.
use cwpack.Prelude.{◌≡◌, refl, Bool, Option, none, some, if◌then◌else◌}

pub data Exec (S R A : Type 0) : Type 0 where
  continue : A → S → Exec S R A
  returned : R → S → Exec S R A
  fault : Exec S R A

abbrev pub Body : Type 0 → Type 0 → Type 0 → Type 0
Body S R A = S → Exec S R A

-- A `void` function gives this.
abbrev pub Void : Type 0
Void = Unit {0}

module _ {S R : Type 0} where
  abbrev pub and_then : {A B : Type 0} → Exec S R A → (A → Body S R B) → Exec S R B
  and_then (continue a s) k = k a s
  and_then (returned r s) k = returned r s
  and_then fault k = fault

  infixl 5 ◌>>=◌ ◌>>◌
  abbrev pub ◌>>=◌ : {A B : Type 0} → Body S R A → (A → Body S R B) → Body S R B
  (m >>= k) s = and_then (m s) k

  abbrev pub ◌>>◌ : {B : Type 0} → Body S R Void → Body S R B → Body S R B
  (m >> k) s = and_then (m s) (λ _. k)

  abbrev pub pure : {A : Type 0} → A → Body S R A
  pure a s = continue a s

  abbrev pub skip : Body S R Void
  skip s = continue tt s

  -- `return r;` before the end.
  abbrev pub give : {A : Type 0} → R → Body S R A
  give r s = returned r s

  abbrev pub get : Body S R S
  get s = continue s s

  abbrev pub modify : (S → S) → Body S R Void
  modify f s = continue tt (f s)

  abbrev pub when : Bool → Body S R Void → Body S R Void
  when b m = if b then m else skip

  -- A call of a function; a fault inside it is a fault of the caller.
  abbrev pub call : {A : Type 0} → (S → Option (A × S)) → Body S R A
  call f s = elim (f s) [ none ↦ fault | some (a, s') ↦ continue a s' ]

-- The whole function: its result and the object, or `none` for a fault.
abbrev pub finish : {S R : Type 0} → Exec S R R → Option (R × S)
finish (continue r s) = some (r, s)
finish (returned r s) = some (r, s)
finish fault = none

abbrev pub function : {S R : Type 0} → Body S R R → S → Option (R × S)
function m s = finish (m s)

module _ {S R A B C : Type 0} where
  pub and_then_assoc :
      (r : Exec S R A) (f : A → Body S R B) (g : B → Body S R C)
      → and_then (and_then r f) g ≡ and_then r (λ a s. and_then (f a s) g)
  and_then_assoc (continue a s) f g = refl
  and_then_assoc (returned r s) f g = refl
  and_then_assoc fault f g = refl

-- A function that ends in the call of another gives what that gives.
pub finish-call :
    {S R : Type 0} (r : Exec S R R) (s : S) → finish (call (λ _. finish r) s) ≡ finish r
finish-call (continue a s') s = refl
finish-call (returned a s') s = refl
finish-call fault s = refl
