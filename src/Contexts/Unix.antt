-- ===== src/Contexts/Unix.antt =====
-- The system calls and block copies that goodies/basic-contexts/basic_contexts.c uses.
use cwpack.Prelude.{
  ℕ, zero, suc, ◌+◌, ◌≤◌, ◌≡◌, refl, ap, true, Option, none, some, List, [], ◌∷◌, ◌++◌, length, leb,
  Bool-cases, inl, inr, length-take, length-drop, take, drop, ltb, if◌then◌else◌, arith,
}
use cwpack.Prelude.Int.{ℤ, pos}
use cwpack.Pack.{overwrite}
use cwpack.Pack.Memory.{length-overwrite, take-overwrite}

-- `read` gives the bytes that it stored, or `none` for -1. `overlapping block from n` are bytes that
-- `memcpy (start, start + from, n)` leaves at `start` where the two areas overlap: C does not say
-- which.
pub record Unix (V : Type 0) : Type 0 where
  pub write : ℤ → List ℕ → ℕ → V → ℤ × V
  pub read : ℤ → ℕ → V → Option (List ℕ) × V
  pub errno : V → ℤ
  pub overlapping : List ℕ → ℕ → ℕ → List ℕ

-- A call that wrote all of its bytes appended them to what was written to the file before.
pub record WritesAll {V : Type 0} (unix : Unix V) (written : ℤ → V → List ℕ) : Type 0 where
  pub appends :
      (buf : List ℕ) (n : ℕ) (fd : ℤ) (v : V)
      → n ≤ length buf
      → (unix.write fd buf n v).0 ≡ pos n
      → written fd (unix.write fd buf n v).1 ≡ written fd v ++ take n buf

-- What is read comes from the front of what was not read yet, is no more than was asked for, and is
-- nothing at the end of the file only. A call that fails reads nothing.
pub record ReadsFront {V : Type 0} (unix : Unix V) (unread : ℤ → V → List ℕ) : Type 0 where
  pub takes :
      (n : ℕ) (fd : ℤ) (v : V) (bs : List ℕ)
      → (unix.read fd n v).0 ≡ some bs
      → bs ++ unread fd (unix.read fd n v).1 ≡ unread fd v
  pub at_most :
      (n : ℕ) (fd : ℤ) (v : V) (bs : List ℕ) → (unix.read fd n v).0 ≡ some bs → length bs ≤ n
  pub at_end : (n : ℕ) (fd : ℤ) (v : V) → (unix.read fd n v).0 ≡ some [] → 1 ≤ n → unread fd v ≡ []
  pub failed :
      (n : ℕ) (fd : ℤ) (v : V)
      → (unix.read fd n v).0 ≡ none
      → unread fd (unix.read fd n v).1 ≡ unread fd v

-- `if (n) memmove (start, start + from, n);`
unfoldable pub move_down : List ℕ → ℕ → ℕ → List ℕ
unfolding overwrite take drop
move_down block from n = if ltb 0 n then overwrite block 0 (take n (drop from block)) else block

pub length-move_down :
    (block : List ℕ) (from n : ℕ) → length (move_down block from n) ≡ length block
unfolding move_down
length-move_down block from n = ground (arith, length-overwrite block 0 (take n (drop from block)))

pub take-move_down :
    (block : List ℕ) (from n : ℕ)
    → from + n ≤ length block
    → take n (move_down block from n) ≡ take n (drop from block)
unfolding move_down take
take-move_down block from zero h = refl
take-move_down block from (suc n) h =
    let some_bytes : ltb 0 (suc n) ≡ true = ground arith in
    rw (some_bytes, move_down)
      (take-overwrite block 0 (suc n) (take (suc n) (drop from block))
        (omega (arith, length-take (suc n) (drop from block), length-drop from block))
        (omega arith))

module _ {V : Type 0} (unix : Unix V) where
  -- `if (n) memcpy (start, start + from, n);`, on areas that are apart or not.
  unfoldable pub copy_down : List ℕ → ℕ → ℕ → List ℕ
  unfolding move_down overwrite take
  copy_down block from n =
      if leb n from
      then move_down block from n
      else overwrite block 0 (take n (unix.overlapping block from n))

  pub length-copy_down :
      (block : List ℕ) (from n : ℕ) → length (copy_down block from n) ≡ length block
  unfolding copy_down
  length-copy_down block from n = elim (Bool-cases (leb n from)) [
    | inl far ↦ rw far (length-move_down block from n)
    | inr near ↦ rw near (length-overwrite block 0 (take n (unix.overlapping block from n)))
  ]

  -- The bytes that were to be copied are at the start.
  abbrev pub IsCopied : List ℕ → ℕ → ℕ → Type 0
  IsCopied block from n = take n (copy_down block from n) ≡ take n (drop from block)

  -- Areas that are apart.
  pub copy_down-IsCopied :
      (block : List ℕ) (from n : ℕ) → n ≤ from → from + n ≤ length block → IsCopied block from n
  unfolding copy_down
  copy_down-IsCopied block from n far within =
      let test : leb n from ≡ true = ground arith in rw test (take-move_down block from n within)

  pub nothing-IsCopied : (block : List ℕ) (from n : ℕ) → n ≡ 0 → IsCopied block from n
  unfolding take
  nothing-IsCopied block from n none_there = rw none_there refl

  -- A memcpy that does on areas that overlap what memmove does. C does not promise it.
  pub record CopiesOverlaps : Type 0 where
    pub copies :
        (block : List ℕ) (from n : ℕ)
        → from + n ≤ length block
        → take n (unix.overlapping block from n) ≡ take n (drop from block)

  pub overlaps-IsCopied :
      CopiesOverlaps
      → (block : List ℕ) (from n : ℕ) → from + n ≤ length block
      → IsCopied block from n
  unfolding copy_down
  overlaps-IsCopied c block from n within = elim (Bool-cases (leb n from)) [
    | inl far ↦ rw far (take-move_down block from n within)
    | inr near ↦ rw near (
        rw (c.copies block from n within) (
          take-overwrite block 0 n (take n (drop from block))
            (omega (arith, length-take n (drop from block), length-drop from block)) (omega arith)))
  ]

-- The bytes in front of a cut and those behind it.
pub take-take-drop :
    {A : Type 0} (p q n : ℕ) (xs : List A) → p + q ≡ n → take p xs ++ take q (drop p xs) ≡ take n xs
unfolding take drop
take-take-drop zero q n xs e = let same : q ≡ n = omega arith in ap (λ m. take m xs) same
take-take-drop (suc p) q zero xs e = absurd (omega arith)
take-take-drop (suc p) zero (suc n) [] e = refl
take-take-drop (suc p) (suc q) (suc n) [] e = refl
take-take-drop (suc p) q (suc n) (x ∷ xs) e =
    ap (λ l. x ∷ l) (take-take-drop p q n xs (omega arith))
