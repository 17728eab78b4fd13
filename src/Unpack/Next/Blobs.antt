-- ===== src/Unpack/Next/Blobs.antt =====
-- cw_unpack_next on strings and binaries.
use cwpack.Prelude.{
  ℕ, ◌+◌, ◌^◌, ◌<◌, ◌≡◌, refl, ap, ◌∙◌, true, false, List, [], ◌∷◌, ◌++◌, length, get_or, arith,
}
use cwpack.Prelude.Int.{ℤ}
use cwpack.Prelude.Bits.{bit_and_mask}
use cwpack.ReturnCode.{is_error}
use cwpack.Exec.{finish, ◌>>=◌, ◌>>◌}
use cwpack.Wire.{byte_order_matches, be_bytes, cw_load16, cw_load32}
use cwpack.Wire.RoundTrip.{cw_load16-be_bytes, cw_load32-be_bytes}
use cwpack.Format
use cwpack.Format.{Value, bytes, InRange, Fits}
use cwpack.Unpack.{
  As, boolean, word64, real, array, map, blob, time, Item, UnpackContext, Platform, item_str,
  item_bin, set_type, set_as, take_bytes,
}
use cwpack.Unpack.Source.{Source, IsReady, input}
use cwpack.Unpack.Next.{
  set_length, length_of, get_item1, get_item2, get_item4, assert_blob, item_body, headed_item,
}
use cwpack.Unpack.Next.Items.{HoldsBlob, IsItem, ReadsBlob, fetch, head_lem, assert_blob_lem}
use cwpack.Unpack.Next.Reading.{Gives}

pub length_of-set_length : (l : ℕ) (old : As) → length_of (set_length l old) ≡ l
length_of-set_length l (blob p k) = refl
length_of-set_length l (boolean b) = refl
length_of-set_length l (word64 b) = refl
length_of-set_length l (real b) = refl
length_of-set_length l (array b) = refl
length_of-set_length l (map b) = refl
length_of-set_length l (time b c) = refl

module _ {W : Type 0} {env : Platform W} (s : Source env) (uc : UnpackContext W)
    (ready : IsReady s uc) (ok : is_error uc.return_code ≡ false) (rest : List ℕ) where
  pub from_blob :
      (c : ℕ) (more : List ℕ) (type : ℤ) (v : List ℕ) (value : Value)
      → input s.pending uc ≡ c ∷ more
      → ((uc₁ : UnpackContext W)
          → IsReady s uc₁
          → input s.pending uc₁ ≡ more
          → ReadsBlob s (item_body env c) uc₁ rest type v)
      → ((uc' : UnpackContext W) → (uc'.item.type ≡ type) × HoldsBlob uc' v → IsItem uc' value)
      → Gives s uc ready ok rest value
  from_blob c more type v value i body item =
      let (uc₁, e, at₁) = head_lem s c more uc ready ok i in
      let (uc', e', at', t', b') = body uc₁ at₁.ready at₁.left in
      (
        uc',
        e ∙ ap finish e',
        record {
          ready = at'.ready;
          return_code = at'.return_code ∙ at₁.return_code;
          left = at'.left;
        },
        item uc' (t', b'),
      )

  -- The length, and then the blob.
  reads_length_blob :
      (c : ℕ) (bs : List ℕ) (l : List ℕ → ℕ) (type : ℤ) (v : List ℕ) (value : Value)
      → item_body env c ≡ (
          (set_type type >> (take_bytes env tt (length bs) >>= λ b. set_as (set_length (l b))))
          >> assert_blob env)
      → l bs ≡ length v
      → ((uc' : UnpackContext W) → (uc'.item.type ≡ type) × HoldsBlob uc' v → IsItem uc' value)
      → input s.pending uc ≡ c ∷ (bs ++ (v ++ rest))
      → Gives s uc ready ok rest value
  reads_length_blob c bs l type v value e h item i =
      from_blob c (bs ++ (v ++ rest)) type v value i
        (λ uc₁ r i₁.
          let (uc₂, e₂, at₂, it₂) = fetch s (λ b. set_length (l b)) type bs (v ++ rest) uc₁ r i₁ in
          let (uc', e', at', t', b') =
            assert_blob_lem s v rest uc₂ at₂.ready
              (ap (λ (t : Item). length_of t.value) it₂
                ∙ length_of-set_length (l bs) uc₁.item.value
                ∙ h)
              at₂.left in
          (
            uc',
            rw e (rw e₂ e'),
            record {
              ready = at'.ready;
              return_code = at'.return_code ∙ at₂.return_code;
              left = at'.left;
            },
            t' ∙ ap (λ (t : Item). t.type) it₂,
            b',
          ))
        item

  module _ (matches : byte_order_matches env.build ≡ true) where
    pub reads_string :
        (v : List ℕ)
        → (length v < 2 ^ 8
            → input s.pending uc ≡ bytes (Format.str8 v) ++ rest
            → Gives s uc ready ok rest (Format.string v))
          × (length v < 2 ^ 16
              → input s.pending uc ≡ bytes (Format.str16 v) ++ rest
              → Gives s uc ready ok rest (Format.string v))
          × (length v < 2 ^ 32
              → input s.pending uc ≡ bytes (Format.str32 v) ++ rest
              → Gives s uc ready ok rest (Format.string v))
    unfolding bytes item_body headed_item get_item1 get_item2 get_item4 be_bytes
    reads_string v = (
      λ h i.
          reads_length_blob 0xd9 (length v ∷ []) (λ b. get_or b 0 0) item_str v (Format.string v)
            refl refl (λ uc' it. it) i,
      λ h i.
          reads_length_blob 0xda (be_bytes 2 (length v)) (cw_load16 env.build) item_str v
            (Format.string v) refl (cw_load16-be_bytes env.build (length v) matches ∙ omega arith)
            (λ uc' it. it) i,
      λ h i.
          reads_length_blob 0xdb (be_bytes 4 (length v)) (cw_load32 env.build) item_str v
            (Format.string v) refl (cw_load32-be_bytes env.build (length v) matches ∙ omega arith)
            (λ uc' it. it) i,
    )

    pub reads_binary :
        (v : List ℕ)
        → (length v < 2 ^ 8
            → input s.pending uc ≡ bytes (Format.bin8 v) ++ rest
            → Gives s uc ready ok rest (Format.binary v))
          × (length v < 2 ^ 16
              → input s.pending uc ≡ bytes (Format.bin16 v) ++ rest
              → Gives s uc ready ok rest (Format.binary v))
          × (length v < 2 ^ 32
              → input s.pending uc ≡ bytes (Format.bin32 v) ++ rest
              → Gives s uc ready ok rest (Format.binary v))
    unfolding bytes item_body headed_item get_item1 get_item2 get_item4 be_bytes
    reads_binary v = (
      λ h i.
          reads_length_blob 0xc4 (length v ∷ []) (λ b. get_or b 0 0) item_bin v (Format.binary v)
            refl refl (λ uc' it. it) i,
      λ h i.
          reads_length_blob 0xc5 (be_bytes 2 (length v)) (cw_load16 env.build) item_bin v
            (Format.binary v) refl (cw_load16-be_bytes env.build (length v) matches ∙ omega arith)
            (λ uc' it. it) i,
      λ h i.
          reads_length_blob 0xc6 (be_bytes 4 (length v)) (cw_load32 env.build) item_bin v
            (Format.binary v) refl (cw_load32-be_bytes env.build (length v) matches ∙ omega arith)
            (λ uc' it. it) i,
    )

    fixstr_body :
        (l : ℕ)
        → l < 32
        → item_body env (0xa0 + l)
          ≡ (set_type item_str >> (set_as (set_length l) >> assert_blob env))
    unfolding item_body
    fixstr_body l h = ground (arith, bit_and_mask 5 (0xa0 + l))

    pub reads_fixstr :
        (v : List ℕ)
        → length v < 32
        → input s.pending uc ≡ bytes (Format.fixstr v) ++ rest
        → Gives s uc ready ok rest (Format.string v)
    unfolding bytes set_type set_as
    reads_fixstr v h i =
        from_blob (0xa0 + length v) (v ++ rest) item_str v (Format.string v) i
          (λ uc₁ r i₁. rw (fixstr_body (length v) h) (
            assert_blob_lem s v rest
              (record uc₁ {
                item = record { type = item_str; value = set_length (length v) uc₁.item.value };
              })
              (record { within = r.within; holds = r.holds })
              (length_of-set_length (length v) uc₁.item.value) i₁))
          (λ uc' it. it)
