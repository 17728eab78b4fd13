-- ===== src/Pack/Memory.antt =====
-- Writes into a buffer.
use cwpack.Prelude.{
  ℕ, zero, suc, ◌+◌, ◌≤◌, ◌≡◌, refl, ap, List, [], ◌∷◌, ◌++◌, length, take, drop, arith,
}
use cwpack.Pack.{overwrite}

pub length-overwrite : (xs : List ℕ) (p : ℕ) (bs : List ℕ) → length (overwrite xs p bs) ≡ length xs
unfolding overwrite
length-overwrite [] p bs = refl
length-overwrite (x ∷ xs) zero [] = refl
length-overwrite (x ∷ xs) zero (b ∷ bs) = ap suc (length-overwrite xs zero bs)
length-overwrite (x ∷ xs) (suc p) bs = ap suc (length-overwrite xs p bs)

-- Two writes side by side are one.
pub overwrite-overwrite :
    (xs : List ℕ) (p q : ℕ) (a b : List ℕ)
    → q ≡ p + length a
    → q + length b ≤ length xs
    → overwrite (overwrite xs p a) q b ≡ overwrite xs p (a ++ b)
unfolding overwrite
overwrite-overwrite [] p q a b e h = refl
overwrite-overwrite (x ∷ xs) zero zero [] b e h = refl
overwrite-overwrite (x ∷ xs) zero (suc q) [] b e h = absurd (omega arith)
overwrite-overwrite (x ∷ xs) zero zero (c ∷ a) b e h = absurd (omega arith)
overwrite-overwrite (x ∷ xs) zero (suc q) (c ∷ a) b e h =
    ap (λ t. c ∷ t) (overwrite-overwrite xs zero q a b (omega arith) (omega arith))
overwrite-overwrite (x ∷ xs) (suc p) zero a b e h = absurd (omega arith)
overwrite-overwrite (x ∷ xs) (suc p) (suc q) a b e h =
    ap (λ t. x ∷ t) (overwrite-overwrite xs p q a b (omega arith) (omega arith))

-- What stands before the end of the write, and what stands behind it.
pub take-overwrite :
    (xs : List ℕ) (p q : ℕ) (bs : List ℕ)
    → q ≡ p + length bs
    → q ≤ length xs
    → take q (overwrite xs p bs) ≡ take p xs ++ bs
unfolding overwrite take
take-overwrite [] zero zero [] e h = refl
take-overwrite [] zero zero (b ∷ bs) e h = absurd (omega arith)
take-overwrite [] (suc p) zero bs e h = absurd (omega arith)
take-overwrite [] p (suc q) bs e h = absurd (omega arith)
take-overwrite (x ∷ xs) zero zero [] e h = refl
take-overwrite (x ∷ xs) zero (suc q) [] e h = absurd (omega arith)
take-overwrite (x ∷ xs) zero zero (b ∷ bs) e h = absurd (omega arith)
take-overwrite (x ∷ xs) zero (suc q) (b ∷ bs) e h =
    ap (λ t. b ∷ t) (take-overwrite xs zero q bs (omega arith) (omega arith))
take-overwrite (x ∷ xs) (suc p) zero bs e h = absurd (omega arith)
take-overwrite (x ∷ xs) (suc p) (suc q) bs e h =
    ap (λ t. x ∷ t) (take-overwrite xs p q bs (omega arith) (omega arith))

pub drop-overwrite :
    (xs : List ℕ) (p q : ℕ) (bs : List ℕ)
    → q ≡ p + length bs
    → drop q (overwrite xs p bs) ≡ drop q xs
unfolding overwrite drop
drop-overwrite [] p zero bs e = refl
drop-overwrite [] p (suc q) bs e = refl
drop-overwrite (x ∷ xs) zero zero [] e = refl
drop-overwrite (x ∷ xs) zero (suc q) [] e = absurd (omega arith)
drop-overwrite (x ∷ xs) zero zero (b ∷ bs) e = absurd (omega arith)
drop-overwrite (x ∷ xs) zero (suc q) (b ∷ bs) e = drop-overwrite xs zero q bs (omega arith)
drop-overwrite (x ∷ xs) (suc p) zero bs e = absurd (omega arith)
drop-overwrite (x ∷ xs) (suc p) (suc q) bs e = drop-overwrite xs p q bs (omega arith)
