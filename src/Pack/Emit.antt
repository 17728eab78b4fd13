-- ===== src/Pack/Emit.antt =====
-- One reservation and one write: what every packing routine comes down to.
use mathlib.Core.Path.{fun_ext}
use cwpack.Prelude.{
  ℕ, ◌+◌, ◌%◌, ◌≤◌, ◌≡◌, refl, sym, ap, ◌∙◌, true, Option, List, [], ◌∷◌, ◌++◌, length,
  length-append, ltb, ◌==◌, arith,
}
use cwpack.Exec.{Void, and_then_assoc, ◌>>=◌, ◌>>◌, function, when}
use cwpack.Wire.{byte_order_matches, be_bytes}
use cwpack.Wire.Store.{cw_store-be_bytes}
use cwpack.Pack.{
  PackContext, Platform, Routine, unless_stopped, write, advance, cw_pack_new_buffer,
  cw_pack_reserve_space, try_move0, try_move1, try_move2, try_move4, try_move8,
}
use cwpack.Pack.Memory.{length-overwrite, overwrite-overwrite}

module _ {W : Type 0} where
  pub write-write :
      (a b : List ℕ) (k : ℕ)
      → k ≡ length a
      → (p : ℕ) (pc : PackContext W) → (write p a >> write (p + k) b) pc ≡ write p (a ++ b) pc
  unfolding write
  write-write a b k e p pc = ground (
    arith,
    length-append a b,
    length-overwrite pc.buffer p a,
    overwrite-overwrite pc.buffer p (p + k) a b,
  )

  -- Writes one behind the other, from `p` on.
  abbrev pub write_all : ℕ → List ℕ → List (List ℕ) → Routine W Void
  write_all p a [] = write p a
  write_all p a (b ∷ bs) = write p a >> write_all (p + length a) b bs

abbrev pub join : List ℕ → List (List ℕ) → List ℕ
join a [] = a
join a (b ∷ bs) = a ++ join b bs

module _ {W : Type 0} where
  pub write_all-join :
      (a : List ℕ) (bs : List (List ℕ)) (p : ℕ) → write_all {W = W} p a bs ≡ write p (join a bs)
  write_all-join a [] p = refl
  write_all-join a (b ∷ bs) p =
      ap (λ (w : Routine W Void). write p a >> w) (write_all-join b bs (p + length a))
      ∙ fun_ext (write-write a (join b bs) (length a) refl p)

module _ {W : Type 0} (env : Platform W) where
  unfoldable pub emit : List ℕ → Routine W Void
  unfolding write
  emit bs = do p ← cw_pack_reserve_space env (length bs) (length bs); write p bs

  -- The routine that appends `bs`.
  unfoldable pub append : List ℕ → PackContext W → Option (Void × PackContext W)
  unfolding unless_stopped emit
  append bs = function (unless_stopped >> emit bs)

  pub emit_all :
      (n m : ℕ) (a : List ℕ) (bs : List (List ℕ)) (pc : PackContext W)
      → n ≡ length (join a bs)
      → m ≡ length (join a bs)
      → (cw_pack_reserve_space env n m >>= λ p. write_all p a bs) pc ≡ emit (join a bs) pc
  unfolding emit
  emit_all n m a bs pc l k =
      rw (l, k)
        (ap
          (λ (w : ℕ → Routine W Void).
            (cw_pack_reserve_space env (length (join a bs)) (length (join a bs)) >>= w) pc)
          (fun_ext (write_all-join a bs)))

  -- Behind `if (return_code) return;` it is enough that two bodies agree where they start.
  pub guarded :
      (m n : Routine W Void) (pc : PackContext W)
      → m pc ≡ n pc
      → function (unless_stopped >> m) pc ≡ function (unless_stopped >> n) pc
  unfolding unless_stopped
  guarded m n pc e = ground (arith, e)

  module _ (matches : byte_order_matches env.build ≡ true) where
    pub try_move0-emit :
        (t : ℕ) (pc : PackContext W)
        → pc.current ≤ length pc.buffer
        → try_move0 env t pc ≡ emit (t % 256 ∷ []) pc
    unfolding try_move0 emit cw_pack_reserve_space
    try_move0-emit t pc valid =
        let full : (pc.current == length pc.buffer) ≡ ltb (length pc.buffer) (pc.current + 1) =
          ground arith in
        rw full (
          sym (
            and_then_assoc {A = Void} {B = ℕ}
              (when (ltb (length pc.buffer) (pc.current + 1)) (cw_pack_new_buffer env 1) pc)
              (λ _. advance 1) (λ p. write p (t % 256 ∷ []))))

    pub try_move1-emit :
        (t d : ℕ) (pc : PackContext W) → try_move1 env t d pc ≡ emit (t ∷ d % 256 ∷ []) pc
    unfolding try_move1
    try_move1-emit t d pc = emit_all 2 2 (t ∷ []) ((d % 256 ∷ []) ∷ []) pc refl refl

    pub try_move2-emit :
        (t d : ℕ) (pc : PackContext W) → try_move2 env t d pc ≡ emit (t ∷ be_bytes 2 d) pc
    unfolding try_move2 be_bytes
    try_move2-emit t d pc =
        rw (cw_store-be_bytes env.build d matches).0
          (emit_all 3 3 (t ∷ []) (be_bytes 2 d ∷ []) pc refl refl)

    pub try_move4-emit :
        (t d : ℕ) (pc : PackContext W) → try_move4 env t d pc ≡ emit (t ∷ be_bytes 4 d) pc
    unfolding try_move4 be_bytes
    try_move4-emit t d pc =
        rw (cw_store-be_bytes env.build d matches).1
          (emit_all 5 5 (t ∷ []) (be_bytes 4 d ∷ []) pc refl refl)

    pub try_move8-emit :
        (t d : ℕ) (pc : PackContext W) → try_move8 env t d pc ≡ emit (t ∷ be_bytes 8 d) pc
    unfolding try_move8 be_bytes
    try_move8-emit t d pc =
        rw (cw_store-be_bytes env.build d matches).2
          (emit_all 9 9 (t ∷ []) (be_bytes 8 d ∷ []) pc refl refl)
