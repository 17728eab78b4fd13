-- ===== src/Unpack/Next/Words.antt =====
-- cw_unpack_next on an item of a first byte and a number in big-endian order.
use cwpack.Prelude.{
  ℕ, ◌^◌, ◌<◌, ◌≡◌, refl, sym, ap, ◌∙◌, true, false, List, [], ◌∷◌, ◌++◌, length, get_or, arith,
}
use cwpack.Prelude.Int.{ℤ, pos}
use cwpack.ReturnCode.{is_error}
use cwpack.Exec.{◌>>=◌, ◌>>◌}
use cwpack.Wire.{byte_order_matches, be_bytes, cw_load16, cw_load32, cw_load64}
use cwpack.Wire.RoundTrip.{cw_load16-be_bytes, cw_load32-be_bytes, cw_load64-be_bytes}
use cwpack.Format
use cwpack.Format.{Value, bytes, InRange, Fits}
use cwpack.Unpack.{
  As, word64, real, array, map, Item, UnpackContext, Platform, item_positive_integer, item_float,
  item_double, item_array, item_map, set_type, set_as, take_bytes,
}
use cwpack.Unpack.Source.{Source, IsReady, input}
use cwpack.Unpack.Next.{
  as_word, as_array, as_map, as_real, get_item1, get_item2, get_item4, get_item8, item_body,
  headed_item,
}
use cwpack.Unpack.Next.Items.{IsItem, fetch}
use cwpack.Unpack.Next.Reading.{Gives, from_body}

module _ {W : Type 0} {env : Platform W} (s : Source env) (uc : UnpackContext W)
    (ready : IsReady s uc) (ok : is_error uc.return_code ≡ false) (rest : List ℕ)
    (matches : byte_order_matches env.build ≡ true) where
  reads_field :
      (c : ℕ) (bs : List ℕ) (f : List ℕ → As → As) (type : ℤ) (value : As) (v : Value)
      → item_body env c ≡ (set_type type >> (take_bytes env tt (length bs) >>= λ b. set_as (f b)))
      → ((old : As) → f bs old ≡ value)
      → ((uc' : UnpackContext W) → (uc'.item.type ≡ type) × (uc'.item.value ≡ value) → IsItem uc' v)
      → input s.pending uc ≡ c ∷ (bs ++ rest)
      → Gives s uc ready ok rest v
  reads_field c bs f type value v e g item i =
      from_body s uc ready ok rest c (bs ++ rest) type value v i
        (λ uc₁ r i₁. rw e (rw (sym (g uc₁.item.value)) (fetch s f type bs rest uc₁ r i₁)))
        (λ uc' it. item uc' (ap (λ (t : Item). t.type) it, ap (λ (t : Item). t.value) it))

  pub reads_unsigned :
      (n : ℕ)
      → (n < 2 ^ 8
          → input s.pending uc ≡ bytes (Format.uint8 n) ++ rest
          → Gives s uc ready ok rest (Format.integer (pos n)))
        × (n < 2 ^ 16
            → input s.pending uc ≡ bytes (Format.uint16 n) ++ rest
            → Gives s uc ready ok rest (Format.integer (pos n)))
        × (n < 2 ^ 32
            → input s.pending uc ≡ bytes (Format.uint32 n) ++ rest
            → Gives s uc ready ok rest (Format.integer (pos n)))
        × (n < 2 ^ 64
            → input s.pending uc ≡ bytes (Format.uint64 n) ++ rest
            → Gives s uc ready ok rest (Format.integer (pos n)))
  unfolding bytes item_body headed_item get_item1 get_item2 get_item4 get_item8 be_bytes
  reads_unsigned n = (
    λ h i.
        reads_field 0xcc (n ∷ []) (λ b. as_word (get_or b 0 0)) item_positive_integer (word64 n)
          (Format.integer (pos n)) refl (λ old. refl) (λ uc' it. it) i,
    λ h i.
        reads_field 0xcd (be_bytes 2 n) (λ b. as_word (cw_load16 env.build b)) item_positive_integer
          (word64 n) (Format.integer (pos n)) refl
          (λ old. ap word64 (cw_load16-be_bytes env.build n matches ∙ omega arith)) (λ uc' it. it)
          i,
    λ h i.
        reads_field 0xce (be_bytes 4 n) (λ b. as_word (cw_load32 env.build b)) item_positive_integer
          (word64 n) (Format.integer (pos n)) refl
          (λ old. ap word64 (cw_load32-be_bytes env.build n matches ∙ omega arith)) (λ uc' it. it)
          i,
    λ h i.
        reads_field 0xcf (be_bytes 8 n) (λ b. as_word (cw_load64 env.build b)) item_positive_integer
          (word64 n) (Format.integer (pos n)) refl
          (λ old. ap word64 (cw_load64-be_bytes env.build n matches ∙ omega arith)) (λ uc' it. it)
          i,
  )

  pub reads_float :
      (n : ℕ)
      → (n < 2 ^ 32
          → input s.pending uc ≡ bytes (Format.float32 n) ++ rest
          → Gives s uc ready ok rest (Format.single n))
        × (n < 2 ^ 64
            → input s.pending uc ≡ bytes (Format.float64 n) ++ rest
            → Gives s uc ready ok rest (Format.double n))
  unfolding bytes item_body headed_item get_item4 get_item8 be_bytes
  reads_float n = (
    λ h i.
        reads_field 0xca (be_bytes 4 n) (λ b. as_real (cw_load32 env.build b)) item_float (real n)
          (Format.single n) refl
          (λ old. ap real (cw_load32-be_bytes env.build n matches ∙ omega arith)) (λ uc' it. it) i,
    λ h i.
        reads_field 0xcb (be_bytes 8 n) (λ b. as_word (cw_load64 env.build b)) item_double
          (word64 n) (Format.double n) refl
          (λ old. ap word64 (cw_load64-be_bytes env.build n matches ∙ omega arith)) (λ uc' it. it)
          i,
  )

  pub reads_array :
      (n : ℕ)
      → (n < 2 ^ 16
          → input s.pending uc ≡ bytes (Format.array16 n) ++ rest
          → Gives s uc ready ok rest (Format.array n))
        × (n < 2 ^ 32
            → input s.pending uc ≡ bytes (Format.array32 n) ++ rest
            → Gives s uc ready ok rest (Format.array n))
  unfolding bytes item_body headed_item get_item2 get_item4 be_bytes
  reads_array n = (
    λ h i.
        reads_field 0xdc (be_bytes 2 n) (λ b. as_array (cw_load16 env.build b)) item_array (array n)
          (Format.array n) refl
          (λ old. ap array (cw_load16-be_bytes env.build n matches ∙ omega arith)) (λ uc' it. it) i,
    λ h i.
        reads_field 0xdd (be_bytes 4 n) (λ b. as_array (cw_load32 env.build b)) item_array (array n)
          (Format.array n) refl
          (λ old. ap array (cw_load32-be_bytes env.build n matches ∙ omega arith)) (λ uc' it. it) i,
  )

  pub reads_map :
      (n : ℕ)
      → (n < 2 ^ 16
          → input s.pending uc ≡ bytes (Format.map16 n) ++ rest
          → Gives s uc ready ok rest (Format.map n))
        × (n < 2 ^ 32
            → input s.pending uc ≡ bytes (Format.map32 n) ++ rest
            → Gives s uc ready ok rest (Format.map n))
  unfolding bytes item_body headed_item get_item2 get_item4 be_bytes
  reads_map n = (
    λ h i.
        reads_field 0xde (be_bytes 2 n) (λ b. as_map (cw_load16 env.build b)) item_map (map n)
          (Format.map n) refl (λ old. ap map (cw_load16-be_bytes env.build n matches ∙ omega arith))
          (λ uc' it. it) i,
    λ h i.
        reads_field 0xdf (be_bytes 4 n) (λ b. as_map (cw_load32 env.build b)) item_map (map n)
          (Format.map n) refl (λ old. ap map (cw_load32-be_bytes env.build n matches ∙ omega arith))
          (λ uc' it. it) i,
  )
