-- ===== src/Unpack/Skip/Forms.antt =====
-- One round of the loop of cw_skip_items on an item in any form.
use cwpack.Prelude.{
  ℕ, ◌+◌, ◌-◌, ◌*◌, ◌%◌, ◌^◌, ◌<◌, ◌≡◌, refl, ap, ◌∙◌, inl, inr, true, false, List, [], ◌∷◌, ◌++◌,
  length, get_or, arith,
}
use cwpack.Prelude.Int.{word}
use cwpack.Prelude.Bits.{bit_and_mask}
use cwpack.Exec.{◌>>=◌, pure}
use cwpack.Wire.{byte_order_matches, be_bytes, cw_load16, cw_load32}
use cwpack.Wire.RoundTrip.{cw_load16-be_bytes, cw_load32-be_bytes}
use cwpack.Format
use cwpack.Format.{Form, bytes, InRange, IsFixextLength, fixext_head}
use cwpack.Unpack.{UnpackContext, Platform, take_bytes}
use cwpack.Unpack.Source.{Source, IsReady, input}
use cwpack.Unpack.Skip.{
  cw_skip_bytes, skip_length1, skip_length2, skip_length4, more_items2, more_items4, skip_headed,
  skip_body, skip_round,
}
use cwpack.Unpack.Skip.Round.{
  items_left, IsSkippable, Skips, nothing_more, skip_bytes_lem, skip_length_lem, more_items_lem,
  round_lem,
}

module _ {W : Type 0} {env : Platform W} (s : Source env)
    (matches : byte_order_matches env.build ≡ true) (count : ℕ) (rest : List ℕ)
    (uc : UnpackContext W) (ready : IsReady s uc) where
  -- The first byte carries a number.
  small_head :
      (c : ℕ)
      → (c < 0x80 → skip_body env count c ≡ pure count)
        × (c < 32 → skip_body env count (255 - c) ≡ pure count)
        × (c < 16 → skip_body env count (0x80 + c) ≡ pure (count + 2 * c))
        × (c < 16 → skip_body env count (0x90 + c) ≡ pure (count + c))
        × (c < 32 → skip_body env count (0xa0 + c) ≡ cw_skip_bytes env count c)
  unfolding skip_body
  small_head c = (
    λ h. ground arith,
    λ h. ground arith,
    λ h. ground (arith, bit_and_mask 4 (0x80 + c)),
    λ h. ground (arith, bit_and_mask 4 (0x90 + c)),
    λ h. ground (arith, bit_and_mask 5 (0xa0 + c)),
  )

  fixext_skip :
      (l : ℕ)
      → IsFixextLength l
      → skip_body env count (fixext_head l) ≡ cw_skip_bytes env count (l + 1)
  unfolding skip_body skip_headed
  fixext_skip l (inl e) = rw e refl
  fixext_skip l (inr (inl e)) = rw e refl
  fixext_skip l (inr (inr (inl e))) = rw e refl
  fixext_skip l (inr (inr (inr (inl e)))) = rw e refl
  fixext_skip l (inr (inr (inr (inr e)))) = rw e refl

  head_only :
      (c n : ℕ)
      → skip_body env count c ≡ pure n
      → input s.pending uc ≡ c ∷ rest
      → Skips s (skip_round env count) uc rest n
  head_only c n e i =
      round_lem s count rest c rest n uc ready i (λ uc₁ r i₁. rw e (nothing_more s n rest uc₁ r i₁))

  head_and_bytes :
      (c n : ℕ) (bs : List ℕ)
      → skip_body env count c ≡ cw_skip_bytes env count n
      → n ≡ length bs
      → input s.pending uc ≡ c ∷ (bs ++ rest)
      → Skips s (skip_round env count) uc rest count
  head_and_bytes c n bs e l i =
      round_lem s count rest c (bs ++ rest) count uc ready i
        (λ uc₁ r i₁. rw e (skip_bytes_lem s count rest n bs uc₁ l r i₁))

  head_and_length :
      (c : ℕ) (ls bs : List ℕ) (f : List ℕ → ℕ)
      → skip_body env count c
        ≡ (take_bytes env true (length ls) >>= λ b. cw_skip_bytes env count (f b))
      → f ls ≡ length bs
      → input s.pending uc ≡ c ∷ (ls ++ (bs ++ rest))
      → Skips s (skip_round env count) uc rest count
  head_and_length c ls bs f e l i =
      round_lem s count rest c (ls ++ (bs ++ rest)) count uc ready i
        (λ uc₁ r i₁. rw e (skip_length_lem s count rest ls bs f uc₁ l r i₁))

  head_and_items :
      (c : ℕ) (ls : List ℕ) (f : List ℕ → ℕ) (n : ℕ)
      → skip_body env count c ≡ (take_bytes env true (length ls) >>= λ b. pure (count + f b))
      → f ls ≡ n
      → input s.pending uc ≡ c ∷ (ls ++ rest)
      → Skips s (skip_round env count) uc rest (count + n)
  head_and_items c ls f n e l i =
      round_lem s count rest c (ls ++ rest) (count + n) uc ready i
        (λ uc₁ r i₁. rw e (rw (← l) (more_items_lem s count rest ls f uc₁ r i₁)))

  -- A round skips the bytes of an item, and adds the number of items inside of it to the count.
  pub skip_form :
      (f : Form)
      → InRange f
      → IsSkippable f
      → input s.pending uc ≡ bytes f ++ rest
      → Skips s (skip_round env count) uc rest (items_left f count)
  unfolding bytes be_bytes skip_body skip_headed skip_length1 skip_length2 skip_length4 more_items2
      more_items4
  skip_form Format.nil h k i = head_only 0xc0 count refl i
  skip_form (Format.bool true) h k i = head_only 0xc3 count refl i
  skip_form (Format.bool false) h k i = head_only 0xc2 count refl i
  skip_form (Format.positive_fixint n) h k i = head_only n count ((small_head n).0 h) i
  skip_form (Format.negative_fixint n) h k i = head_only (255 - n) count ((small_head n).1 h) i
  skip_form (Format.uint8 n) h k i = head_and_bytes 0xcc 1 (n ∷ []) refl refl i
  skip_form (Format.uint16 n) h k i = head_and_bytes 0xcd 2 (be_bytes 2 n) refl refl i
  skip_form (Format.uint32 n) h k i = head_and_bytes 0xce 4 (be_bytes 4 n) refl refl i
  skip_form (Format.uint64 n) h k i = head_and_bytes 0xcf 8 (be_bytes 8 n) refl refl i
  skip_form (Format.int8 z) h k i = head_and_bytes 0xd0 1 (word 8 z ∷ []) refl refl i
  skip_form (Format.int16 z) h k i = head_and_bytes 0xd1 2 (be_bytes 2 (word 16 z)) refl refl i
  skip_form (Format.int32 z) h k i = head_and_bytes 0xd2 4 (be_bytes 4 (word 32 z)) refl refl i
  skip_form (Format.int64 z) h k i = head_and_bytes 0xd3 8 (be_bytes 8 (word 64 z)) refl refl i
  skip_form (Format.float32 n) h k i = head_and_bytes 0xca 4 (be_bytes 4 n) refl refl i
  skip_form (Format.float64 n) h k i = head_and_bytes 0xcb 8 (be_bytes 8 n) refl refl i
  skip_form (Format.fixstr v) (h, hb) k i =
      head_and_bytes (0xa0 + length v) (length v) v ((small_head (length v)).4 h) refl i
  skip_form (Format.str8 v) (h, hb) k i =
      head_and_length 0xd9 (length v ∷ []) v (λ b. get_or b 0 0) refl refl i
  skip_form (Format.str16 v) (h, hb) k i =
      head_and_length 0xda (be_bytes 2 (length v)) v (cw_load16 env.build) refl
        (cw_load16-be_bytes env.build (length v) matches ∙ omega arith) i
  skip_form (Format.str32 v) (h, hb) k i =
      head_and_length 0xdb (be_bytes 4 (length v)) v (cw_load32 env.build) refl
        (cw_load32-be_bytes env.build (length v) matches ∙ omega arith) i
  skip_form (Format.bin8 v) (h, hb) k i =
      head_and_length 0xc4 (length v ∷ []) v (λ b. get_or b 0 0) refl refl i
  skip_form (Format.bin16 v) (h, hb) k i =
      head_and_length 0xc5 (be_bytes 2 (length v)) v (cw_load16 env.build) refl
        (cw_load16-be_bytes env.build (length v) matches ∙ omega arith) i
  skip_form (Format.bin32 v) (h, hb) k i =
      head_and_length 0xc6 (be_bytes 4 (length v)) v (cw_load32 env.build) refl
        (cw_load32-be_bytes env.build (length v) matches ∙ omega arith) i
  skip_form (Format.fixarray n) h k i = head_only (0x90 + n) (count + n) ((small_head n).3 h) i
  skip_form (Format.array16 n) h k i =
      head_and_items 0xdc (be_bytes 2 n) (cw_load16 env.build) n refl
        (cw_load16-be_bytes env.build n matches ∙ omega arith) i
  skip_form (Format.array32 n) h k i =
      head_and_items 0xdd (be_bytes 4 n) (cw_load32 env.build) n refl
        (cw_load32-be_bytes env.build n matches ∙ omega arith) i
  skip_form (Format.fixmap n) h k i = head_only (0x80 + n) (count + 2 * n) ((small_head n).2 h) i
  skip_form (Format.map16 n) h k i =
      head_and_items 0xde (be_bytes 2 n) (λ b. 2 * cw_load16 env.build b) (2 * n) refl
        (ap (λ x. 2 * x) (cw_load16-be_bytes env.build n matches ∙ omega arith)) i
  skip_form (Format.map32 n) h k i =
      head_and_items 0xdf (be_bytes 4 n) (λ b. 2 * cw_load32 env.build b % 2 ^ 32) (2 * n) refl
        (rw (cw_load32-be_bytes env.build n matches) (omega arith)) i
  skip_form (Format.fixext t v) (ht, hv, hb) k i =
      head_and_bytes (fixext_head (length v)) (length v + 1) (word 8 t ∷ v)
        (fixext_skip (length v) hv) (omega arith) i
  skip_form (Format.ext8 t v) (ht, hv, hb) k i =
      head_and_length 0xc7 (length v ∷ []) (word 8 t ∷ v) (λ b. get_or b 0 0 + 1) refl (omega arith)
        i
  skip_form (Format.ext16 t v) (ht, hv, hb) k i =
      head_and_length 0xc8 (be_bytes 2 (length v)) (word 8 t ∷ v) (λ b. cw_load16 env.build b + 1)
        refl (rw (cw_load16-be_bytes env.build (length v) matches) (omega arith)) i
  skip_form (Format.ext32 t v) (ht, hv, hb) k i =
      head_and_length 0xc9 (be_bytes 4 (length v)) (word 8 t ∷ v)
        (λ b. (cw_load32 env.build b + 1) % 2 ^ 32) refl
        (rw (cw_load32-be_bytes env.build (length v) matches) (omega arith)) i
