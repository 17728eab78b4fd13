-- ===== src/Prelude/Bits/Bytes.antt =====
-- Both operations digit by digit, on numbers written to the base 256, lowest digit first.
use Prim.Native.Nat.{ℕ, ◌+◌, ◌*◌, ◌<◌, bit_and, bit_or, bit_and-bitwise, bit_or-bitwise}
use mathlib.Core.Path.{◌≡◌, refl}
use mathlib.Core.List.{List, [], ◌∷◌}
use native.Mathlib.Omega.{arith}
use cwpack.Prelude.Bits.Fields.{bit_or_parts, bit_and_parts, bit_and_all}

abbrev pub le_value : List ℕ → ℕ
le_value [] = 0
le_value (d ∷ ds) = d + 256 * le_value ds

abbrev pub IsBytes : List ℕ → Type 0
IsBytes [] = Unit {0}
IsBytes (d ∷ ds) = (d < 256) × IsBytes ds

abbrev pub zip_digits : (ℕ → ℕ → ℕ) → List ℕ → List ℕ → List ℕ
zip_digits f [] es = []
zip_digits f (d ∷ ds) [] = []
zip_digits f (d ∷ ds) (e ∷ es) = f d e ∷ zip_digits f ds es

abbrev pub SameLength : List ℕ → List ℕ → Type 0
SameLength [] [] = Unit {0}
SameLength [] (e ∷ es) = ⊥
SameLength (d ∷ ds) [] = ⊥
SameLength (d ∷ ds) (e ∷ es) = SameLength ds es

pub bit_or-le_value :
    (ds es : List ℕ)
    → SameLength ds es
    → IsBytes ds
    → IsBytes es
    → bit_or (le_value ds) (le_value es) ≡ le_value (zip_digits bit_or ds es)
bit_or-le_value [] [] s p q = refl
bit_or-le_value [] (e ∷ es) s p q = absurd s
bit_or-le_value (d ∷ ds) [] s p q = absurd s
bit_or-le_value (d ∷ ds) (e ∷ es) s p q =
    ground (arith, bit_or_parts (le_value ds) (le_value es) 8 d e, bit_or-le_value ds es s p.1 q.1)

pub bit_and-le_value :
    (ds es : List ℕ)
    → SameLength ds es
    → IsBytes ds
    → IsBytes es
    → bit_and (le_value ds) (le_value es) ≡ le_value (zip_digits bit_and ds es)
bit_and-le_value [] [] s p q = refl
bit_and-le_value [] (e ∷ es) s p q = absurd s
bit_and-le_value (d ∷ ds) [] s p q = absurd s
bit_and-le_value (d ∷ ds) (e ∷ es) s p q =
    ground
      (arith, bit_and_parts (le_value ds) (le_value es) 8 d e, bit_and-le_value ds es s p.1 q.1)

pub zero-bit_or : (a : ℕ) → bit_or 0 a ≡ a
zero-bit_or a = bit_or-bitwise 0 a

pub zero-bit_and : (a : ℕ) → bit_and 0 a ≡ 0
zero-bit_and a = bit_and-bitwise 0 a

pub bit_and_byte : (a : ℕ) → a < 256 → bit_and a 255 ≡ a
bit_and_byte = bit_and_all 8
