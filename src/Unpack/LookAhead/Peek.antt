-- ===== src/Unpack/LookAhead/Peek.antt =====
-- Bytes that are asserted and given back.
use cwpack.Prelude.{
  ℕ, ◌+◌, ◌-◌, ◌≤◌, ◌≡◌, sym, ap, ◌∙◌, true, List, [], ◌∷◌, ◌++◌, append_assoc, length,
  length-append, take, drop, take-append-drop, drop-drop, leb, arith,
}
use cwpack.Prelude.Int.{ℤ, word}
use cwpack.ReturnCode.{rc_buffer_underflow}
use cwpack.Exec.{continue}
use cwpack.Format.{Fits}
use cwpack.Unpack.{UnpackContext, Platform, Routine, not_an_item, read, cw_unpack_assert_space}
use cwpack.Unpack.Source.{Source, IsReady, Moved, input, assert_space_lem}
use cwpack.Unpack.Next.Items.{At}
use cwpack.Unpack.Next.Extensions.{parts_at, signed_type_byte}
use cwpack.Unpack.LookAhead.{step_back, ext_ahead, ext8_ahead}

module _ {W : Type 0} {env : Platform W} (s : Source env) where
  -- The bytes stand at `p`, which is `current` again.
  pub record Seen (bs rest : List ℕ) (p : ℕ) (uc uc' : UnpackContext W) : Type 0 where
    pub at : At s (bs ++ rest) uc.return_code uc'
    pub in_buffer : p + length bs ≤ length uc'.buffer
    pub there : take (length bs) (drop p uc'.buffer) ≡ bs

  seen :
      (bs rest : List ℕ) (p : ℕ) (uc uc₁ : UnpackContext W)
      → Moved s bs rest p uc uc₁
      → Seen bs rest p uc (record uc₁ { current = uc₁.current - length bs })
  seen bs rest p uc uc₁ m =
      let n = length bs in
      let back : uc₁.current - n ≡ p = omega (arith, m.current) in
      let here = drop p uc₁.buffer in
      record {
        at = record {
          ready = record { within = omega (arith, m.in_buffer, back); holds = rw back m.held };
          return_code = m.return_code;
          left =
              ap (λ q. drop q uc₁.buffer ++ s.pending uc₁.outer) back
              ∙ ap (λ l. l ++ s.pending uc₁.outer) (sym (take-append-drop n here))
              ∙ append_assoc (take n here) (drop n here) (s.pending uc₁.outer)
              ∙ ap (λ l. l ++ (drop n here ++ s.pending uc₁.outer)) m.there
              ∙ ap (λ l. bs ++ (l ++ s.pending uc₁.outer))
                  (drop-drop p n uc₁.current uc₁.buffer m.current)
              ∙ ap (λ l. bs ++ l) m.left;
        };
        in_buffer = m.in_buffer;
        there = m.there;
      }

  pub peek :
      {R : Type 0} (abort : R) (buffer_end : ℤ) (bs rest : List ℕ) (uc : UnpackContext W)
      → IsReady s uc
      → input s.pending uc ≡ bs ++ rest
      → (p : ℕ) × (uc₁ : UnpackContext W) × (cw_unpack_assert_space env abort buffer_end
            (length bs)
            uc
          ≡ continue p uc₁)
        × Seen bs rest p uc (record uc₁ { current = uc₁.current - length bs })
  peek abort buffer_end bs rest uc ready i =
      let (p, uc₁, e, m) = assert_space_lem s abort buffer_end bs rest uc ready i in
      (p, uc₁, e, seen bs rest p uc uc₁ m)

  -- The routine gives a type, and the input is as before.
  abbrev pub Tells : Routine W ℤ ℤ → UnpackContext W → ℤ → Type 0
  Tells m uc t =
      (uc' : UnpackContext W) × (m uc ≡ continue t uc')
      × At s (input s.pending uc) uc.return_code uc'

  -- The type of an extension behind the bytes `front` of its head.
  pub ext_ahead_lem :
      (front rest : List ℕ) (t : ℤ) (n : ℕ) (uc : UnpackContext W)
      → Fits 8 t
      → n ≡ length (front ++ (word 8 t ∷ []))
      → IsReady s uc
      → input s.pending uc ≡ (front ++ (word 8 t ∷ [])) ++ rest
      → Tells (ext_ahead env n) uc t
  unfolding ext_ahead step_back read
  ext_ahead_lem front rest t n uc h l ready i =
      let bs = front ++ (word 8 t ∷ []) in
      let (p, uc₁, e, k) = peek not_an_item rc_buffer_underflow bs rest uc ready i in
      let (f, g) = parts_at front (word 8 t ∷ []) p uc₁.buffer k.there in
      let len = length-append front (word 8 t ∷ []) in
      let last : p + (length bs - 1) ≡ p + length front = omega (arith, len) in
      let fits : leb (p + length front + 1) (length uc₁.buffer) ≡ true =
        ground (arith, k.in_buffer, len) in
      (
        record uc₁ { current = uc₁.current - length bs },
        rw l (
            rw e (
              rw last (
                rw fits (
                  rw g (
                    ap (λ z. continue z (record uc₁ { current = uc₁.current - length bs }))
                      (signed_type_byte t h)))))),
        record { ready = k.at.ready; return_code = k.at.return_code; left = k.at.left ∙ sym i },
      )

  pub ext8_ahead_lem :
      (a b : ℕ) (rest : List ℕ) (t : ℤ) (uc : UnpackContext W)
      → Fits 8 t
      → IsReady s uc
      → input s.pending uc ≡ a ∷ b ∷ word 8 t ∷ rest
      → Tells (ext8_ahead env) uc t
  unfolding ext8_ahead step_back read
  ext8_ahead_lem a b rest t uc h ready i =
      let bs : List ℕ = a ∷ b ∷ word 8 t ∷ [] in
      let (p, uc₁, e, k) = peek not_an_item rc_buffer_underflow bs rest uc ready i in
      let (f, g) = parts_at (a ∷ b ∷ []) (word 8 t ∷ []) p uc₁.buffer k.there in
      let fits : leb (p + 2 + 1) (length uc₁.buffer) ≡ true = ground (arith, k.in_buffer) in
      (
        record uc₁ { current = uc₁.current - 3 },
        rw e (
            rw fits (
              rw g (
                ap (λ z. continue z (record uc₁ { current = uc₁.current - 3 }))
                  (signed_type_byte t h)))),
        record { ready = k.at.ready; return_code = k.at.return_code; left = k.at.left ∙ sym i },
      )
