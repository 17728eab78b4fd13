-- ===== src/Unpack/Next/Items.antt =====
-- What an item in the context stands for, and the steps that cw_unpack_next takes to it.
use cwpack.Prelude.{
  ℕ, ◌+◌, ◌≤◌, ◌≡◌, refl, sym, ap, ◌∙◌, false, List, [], ◌∷◌, ◌++◌, length, take, drop, get_or,
}
use cwpack.Prelude.Int.{ℤ, pos, negsuc, word}
use cwpack.ReturnCode.{rc_end_of_input, rc_buffer_underflow, is_error}
use cwpack.Exec.{Void, and_then, and_then_assoc, continue, ◌>>=◌, ◌>>◌, finish}
use cwpack.Format
use cwpack.Format.{Value}
use cwpack.Unpack.{
  As, boolean, word64, real, array, map, blob, Item, UnpackContext, Platform, Routine, item_nil,
  item_boolean, item_positive_integer, item_negative_integer, item_float, item_double, item_str,
  item_bin, item_array, item_map, unless_stopped, read, set_type, set_as, cw_unpack_assert_space,
  take_bytes,
}
use cwpack.Unpack.Source.{Source, IsReady, input, assert_space_lem, take_bytes_lem}
use cwpack.Unpack.Next.{assert_blob, length_of, item_body, cw_unpack_next}

-- The item is a blob that stands in the buffer and holds `v`.
abbrev pub HoldsBlob : {W : Type 0} → UnpackContext W → List ℕ → Type 0
HoldsBlob uc v =
    (p : ℕ) × (uc.item.value ≡ blob p (length v))
    × (p + length v ≤ length uc.buffer)
    × (take (length v) (drop p uc.buffer) ≡ v)

abbrev pub IsItem : {W : Type 0} → UnpackContext W → Value → Type 0
IsItem uc Format.nil = uc.item.type ≡ item_nil
IsItem uc (Format.boolean b) = (uc.item.type ≡ item_boolean) × (uc.item.value ≡ boolean b)
IsItem uc (Format.integer (pos n)) =
    (uc.item.type ≡ item_positive_integer) × (uc.item.value ≡ word64 n)
IsItem uc (Format.integer (negsuc n)) =
    (uc.item.type ≡ item_negative_integer) × (uc.item.value ≡ word64 (word 64 (negsuc n)))
IsItem uc (Format.single f) = (uc.item.type ≡ item_float) × (uc.item.value ≡ real f)
IsItem uc (Format.double d) = (uc.item.type ≡ item_double) × (uc.item.value ≡ word64 d)
IsItem uc (Format.string v) = (uc.item.type ≡ item_str) × HoldsBlob uc v
IsItem uc (Format.binary v) = (uc.item.type ≡ item_bin) × HoldsBlob uc v
IsItem uc (Format.array n) = (uc.item.type ≡ item_array) × (uc.item.value ≡ array n)
IsItem uc (Format.map n) = (uc.item.type ≡ item_map) × (uc.item.value ≡ map n)
IsItem uc (Format.extension t v) = (uc.item.type ≡ t) × HoldsBlob uc v

module _ {W : Type 0} {env : Platform W} (s : Source env) where
  -- `uc` has moved on to what is `left`.
  pub record At (rest : List ℕ) (rc : ℤ) (uc : UnpackContext W) : Type 0 where
    pub ready : IsReady s uc
    pub return_code : uc.return_code ≡ rc
    pub left : input s.pending uc ≡ rest

  -- The body goes on, with the item set and `rest` left.
  abbrev pub Reads : Routine W Void Void → UnpackContext W → List ℕ → ℤ → As → Type 0
  Reads m uc rest type value =
      (uc' : UnpackContext W) × (m uc ≡ continue tt uc')
      × At rest uc.return_code uc'
      × (uc'.item ≡ record { type = type; value = value })

  abbrev pub ReadsBlob : Routine W Void Void → UnpackContext W → List ℕ → ℤ → List ℕ → Type 0
  ReadsBlob m uc rest type v =
      (uc' : UnpackContext W) × (m uc ≡ continue tt uc')
      × At rest uc.return_code uc'
      × (uc'.item.type ≡ type)
      × HoldsBlob uc' v

  -- getDDItem1 and its like: the type, some bytes, and a value made of these.
  pub fetch :
      (f : List ℕ → As → As) (type : ℤ) (bs rest : List ℕ) (uc : UnpackContext W)
      → IsReady s uc
      → input s.pending uc ≡ bs ++ rest
      → Reads
          (set_type type >> (take_bytes env tt (length bs) >>= λ b. set_as (f b)))
          uc
          rest
          type
          (f bs uc.item.value)
  unfolding set_type take_bytes set_as
  fetch f type bs rest uc ready i =
      let uc₁ : UnpackContext W = record uc {
        item = record { type = type; value = uc.item.value };
      } in
      let (p, uc', e, m) =
        take_bytes_lem s tt rc_buffer_underflow bs rest uc₁
          (record { within = ready.within; holds = ready.holds }) i in
      (
        record uc' { item = record { type = uc'.item.type; value = f bs uc'.item.value } },
        rw e refl,
        record {
          ready = record { within = m.ready.within; holds = m.ready.holds };
          return_code = m.return_code;
          left = m.left;
        },
        ap (λ (t : Item). record { type = t.type; value = f bs t.value }) m.item,
      )

  -- cw_unpack_assert_blob, where the length is set.
  pub assert_blob_lem :
      (v rest : List ℕ) (uc : UnpackContext W)
      → IsReady s uc
      → length_of uc.item.value ≡ length v
      → input s.pending uc ≡ v ++ rest
      → ReadsBlob (assert_blob env) uc rest uc.item.type v
  unfolding assert_blob set_as
  assert_blob_lem v rest uc ready l i =
      let (p, uc', e, m) = assert_space_lem s tt rc_buffer_underflow v rest uc ready i in
      (
        record uc' { item = record { type = uc'.item.type; value = blob p (length v) } },
        rw l (rw e refl),
        record {
          ready = record { within = m.ready.within; holds = m.ready.holds };
          return_code = m.return_code;
          left = m.left;
        },
        ap (λ (t : Item). t.type) m.item,
        (p, refl, m.in_buffer, m.there),
      )

  -- The first byte of an item.
  pub head_lem :
      (c : ℕ) (more : List ℕ) (uc : UnpackContext W)
      → IsReady s uc
      → is_error uc.return_code ≡ false
      → input s.pending uc ≡ c ∷ more
      → (uc' : UnpackContext W) × (cw_unpack_next env uc ≡ finish (item_body env c uc'))
        × At more uc.return_code uc'
  unfolding cw_unpack_next unless_stopped
  head_lem c more uc ready ok i =
      let (p, uc', e, m) = take_bytes_lem s tt rc_end_of_input (c ∷ []) more uc ready i in
      (
        uc',
        rw ok (
            ap finish (
              sym (
                and_then_assoc {A = ℕ} {B = List ℕ}
                  (cw_unpack_assert_space env tt rc_end_of_input 1 uc) (λ q. read q 1)
                  (λ b. item_body env (get_or b 0 0)))
              ∙ ap (λ r. and_then r (λ b. item_body env (get_or b 0 0))) e)),
        record { ready = m.ready; return_code = m.return_code; left = m.left },
      )
