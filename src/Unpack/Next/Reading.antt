-- ===== src/Unpack/Next/Reading.antt =====
-- cw_unpack_next on the numbers, and on nil, booleans and the heads of containers.
use cwpack.Prelude.{
  ℕ, ◌+◌, ◌-◌, ◌<◌, ◌≡◌, refl, ap, ◌∙◌, Bool, true, false, some, List, ◌∷◌, ◌++◌, arith,
}
use cwpack.Prelude.Int.{ℤ, pos, negsuc, word}
use cwpack.Prelude.Bits.{bit_and_mask}
use cwpack.ReturnCode.{is_error}
use cwpack.Exec.{finish}
use cwpack.Wire.{byte_order_matches}
use cwpack.Format
use cwpack.Format.{Value, bytes, InRange, Fits}
use cwpack.Unpack.{
  As, boolean, word64, array, map, Item, UnpackContext, Platform, item_nil, item_boolean,
  item_positive_integer, item_negative_integer, item_array, item_map, set_type,
}
use cwpack.Unpack.Source.{Source, IsReady, input}
use cwpack.Unpack.Next.{get_item, item_body, cw_unpack_next}
use cwpack.Unpack.Next.Items.{IsItem, At, Reads, head_lem}

module _ {W : Type 0} {env : Platform W} (s : Source env) (uc : UnpackContext W)
    (ready : IsReady s uc) (ok : is_error uc.return_code ≡ false) (rest : List ℕ) where
  -- The next item is `v`, and `rest` is left.
  abbrev pub Gives : Value → Type 0
  Gives v =
      (uc' : UnpackContext W) × (cw_unpack_next env uc ≡ some (tt, uc'))
      × At s rest uc.return_code uc'
      × IsItem uc' v

  -- From the part of the `switch` that the first byte selects.
  pub from_body :
      (c : ℕ) (more : List ℕ) (type : ℤ) (value : As) (v : Value)
      → input s.pending uc ≡ c ∷ more
      → ((uc₁ : UnpackContext W)
          → IsReady s uc₁
          → input s.pending uc₁ ≡ more
          → Reads s (item_body env c) uc₁ rest type value)
      → ((uc' : UnpackContext W) → uc'.item ≡ record { type = type; value = value } → IsItem uc' v)
      → Gives v
  from_body c more type value v i body item =
      let (uc₁, e, at₁) = head_lem s c more uc ready ok i in
      let (uc', e', at', it) = body uc₁ at₁.ready at₁.left in
      (
        uc',
        e ∙ ap finish e',
        record {
          ready = at'.ready;
          return_code = at'.return_code ∙ at₁.return_code;
          left = at'.left;
        },
        item uc' it,
      )

  -- getDDItem: no byte is read.
  set_item :
      (type : ℤ) (value : As) (uc₁ : UnpackContext W)
      → IsReady s uc₁
      → input s.pending uc₁ ≡ rest
      → Reads s (get_item env type value) uc₁ rest type value
  unfolding get_item
  set_item type value uc₁ ready₁ i = (
    record uc₁ { item = record { type = type; value = value } },
    refl,
    record {
      ready = record { within = ready₁.within; holds = ready₁.holds };
      return_code = refl;
      left = i;
    },
    refl,
  )

  module _ (matches : byte_order_matches env.build ≡ true) where
    pub reads_nil : input s.pending uc ≡ bytes Format.nil ++ rest → Gives Format.nil
    unfolding bytes item_body set_type
    reads_nil i =
        let (uc₁, e, at₁) = head_lem s 0xc0 rest uc ready ok i in
        (
          record uc₁ { item = record { type = item_nil; value = uc₁.item.value } },
          e,
          record {
            ready = record { within = at₁.ready.within; holds = at₁.ready.holds };
            return_code = at₁.return_code;
            left = at₁.left;
          },
          refl,
        )

    pub reads_bool :
        (b : Bool) → input s.pending uc ≡ bytes (Format.bool b) ++ rest → Gives (Format.boolean b)
    unfolding bytes item_body
    reads_bool true i =
        from_body 0xc3 rest item_boolean (boolean true) (Format.boolean true) i
          (set_item item_boolean (boolean true))
          (λ uc' it. (ap (λ (t : Item). t.type) it, ap (λ (t : Item). t.value) it))
    reads_bool false i =
        from_body 0xc2 rest item_boolean (boolean false) (Format.boolean false) i
          (set_item item_boolean (boolean false))
          (λ uc' it. (ap (λ (t : Item). t.type) it, ap (λ (t : Item). t.value) it))

    -- A first byte of its own range, with a number in it.
    item_body_ranges :
        (c : ℕ)
        → (c < 0x80 → item_body env c ≡ get_item env item_positive_integer (word64 c))
          × (c < 16 → item_body env (0x80 + c) ≡ get_item env item_map (map c))
          × (c < 16 → item_body env (0x90 + c) ≡ get_item env item_array (array c))
          × (c < 32
              → item_body env (255 - c)
                ≡ get_item env item_negative_integer (word64 (word 64 (negsuc c))))
    unfolding item_body
    item_body_ranges c = (
      λ h. ground arith,
      λ h. ground (arith, bit_and_mask 4 (0x80 + c)),
      λ h. ground (arith, bit_and_mask 4 (0x90 + c)),
      λ h. ground arith,
    )

    in_head :
        (c : ℕ) (type : ℤ) (value : As) (v : Value)
        → item_body env c ≡ get_item env type value
        → ((uc' : UnpackContext W)
            → uc'.item ≡ record { type = type; value = value }
            → IsItem uc' v)
        → input s.pending uc ≡ c ∷ rest
        → Gives v
    in_head c type value v e item i =
        from_body c rest type value v i (λ uc₁ r i₁. rw e (set_item type value uc₁ r i₁)) item

    abbrev both :
        (uc' : UnpackContext W) {type : ℤ} {value : As}
        → uc'.item ≡ record { type = type; value = value }
        → (uc'.item.type ≡ type) × (uc'.item.value ≡ value)
    both uc' it = (ap (λ (t : Item). t.type) it, ap (λ (t : Item). t.value) it)

    pub reads_fix :
        (n : ℕ)
        → (n < 128
            → input s.pending uc ≡ bytes (Format.positive_fixint n) ++ rest
            → Gives (Format.integer (pos n)))
          × (n < 32
              → input s.pending uc ≡ bytes (Format.negative_fixint n) ++ rest
              → Gives (Format.integer (negsuc n)))
          × (n < 16
              → input s.pending uc ≡ bytes (Format.fixarray n) ++ rest
              → Gives (Format.array n))
          × (n < 16 → input s.pending uc ≡ bytes (Format.fixmap n) ++ rest → Gives (Format.map n))
    unfolding bytes
    reads_fix n =
        let (p, m, a, g) = item_body_ranges n in
        (
          λ h i. in_head n _ _ (Format.integer (pos n)) (p h) (λ uc' it. both uc' it) i,
          λ h i. in_head (255 - n) _ _ (Format.integer (negsuc n)) (g h) (λ uc' it. both uc' it) i,
          λ h i. in_head (0x90 + n) _ _ (Format.array n) (a h) (λ uc' it. both uc' it) i,
          λ h i. in_head (0x80 + n) _ _ (Format.map n) (m h) (λ uc' it. both uc' it) i,
        )
