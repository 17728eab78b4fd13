-- ===== src/Unpack/LookAhead/Types.antt =====
-- The types that cw_look_ahead tells.
use cwpack.Prelude.{
  ℕ, ◌+◌, ◌-◌, ◌<◌, ◌≡◌, refl, sym, ap, ◌∙◌, inl, inr, true, false, some, List, [], ◌∷◌, ◌++◌,
  length, leb, arith,
}
use cwpack.Prelude.Int.{ℤ, word}
use cwpack.ReturnCode.{rc_end_of_input, is_error}
use cwpack.Exec.{finish, pure}
use cwpack.Wire.{be_bytes}
use cwpack.Format
use cwpack.Format.{Form, bytes, InRange, Fits, IsFixextLength, fixext_head}
use cwpack.Unpack.{
  UnpackContext, Platform, not_an_item, item_nil, item_boolean, item_positive_integer,
  item_negative_integer, item_float, item_double, item_str, item_bin, item_array, item_map, read,
  unless_stopped,
}
use cwpack.Unpack.Source.{Source, IsReady, input}
use cwpack.Unpack.Next.Items.{At}
use cwpack.Unpack.LookAhead.{step_back, ext_ahead, type_ahead, cw_look_ahead}
use cwpack.Unpack.LookAhead.Peek.{peek, Tells, ext_ahead_lem, ext8_ahead_lem}

-- The type of an item by its form: a signed format counts as negative, whatever its number is.
abbrev pub type_of : Form → ℤ
type_of Format.nil = item_nil
type_of (Format.bool b) = item_boolean
type_of (Format.positive_fixint n) = item_positive_integer
type_of (Format.negative_fixint n) = item_negative_integer
type_of (Format.uint8 n) = item_positive_integer
type_of (Format.uint16 n) = item_positive_integer
type_of (Format.uint32 n) = item_positive_integer
type_of (Format.uint64 n) = item_positive_integer
type_of (Format.int8 z) = item_negative_integer
type_of (Format.int16 z) = item_negative_integer
type_of (Format.int32 z) = item_negative_integer
type_of (Format.int64 z) = item_negative_integer
type_of (Format.float32 n) = item_float
type_of (Format.float64 n) = item_double
type_of (Format.fixstr v) = item_str
type_of (Format.str8 v) = item_str
type_of (Format.str16 v) = item_str
type_of (Format.str32 v) = item_str
type_of (Format.bin8 v) = item_bin
type_of (Format.bin16 v) = item_bin
type_of (Format.bin32 v) = item_bin
type_of (Format.fixarray n) = item_array
type_of (Format.array16 n) = item_array
type_of (Format.array32 n) = item_array
type_of (Format.fixmap n) = item_map
type_of (Format.map16 n) = item_map
type_of (Format.map32 n) = item_map
type_of (Format.fixext t v) = t
type_of (Format.ext8 t v) = t
type_of (Format.ext16 t v) = t
type_of (Format.ext32 t v) = t

module _ {W : Type 0} {env : Platform W} (s : Source env) (rest : List ℕ) (uc : UnpackContext W)
    (ready : IsReady s uc) where
  small_type :
      (c : ℕ)
      → (c < 0x80 → type_ahead env c ≡ pure item_positive_integer)
        × (c < 32 → type_ahead env (255 - c) ≡ pure item_negative_integer)
        × (c < 16 → type_ahead env (0x80 + c) ≡ pure item_map)
        × (c < 16 → type_ahead env (0x90 + c) ≡ pure item_array)
        × (c < 32 → type_ahead env (0xa0 + c) ≡ pure item_str)
  unfolding type_ahead
  small_type c = (
    λ h. ground arith,
    λ h. ground arith,
    λ h. ground arith,
    λ h. ground arith,
    λ h. ground arith,
  )

  fixext_ahead : (l : ℕ) → IsFixextLength l → type_ahead env (fixext_head l) ≡ ext_ahead env 2
  unfolding type_ahead
  fixext_ahead l (inl e) = rw e refl
  fixext_ahead l (inr (inl e)) = rw e refl
  fixext_ahead l (inr (inr (inl e))) = rw e refl
  fixext_ahead l (inr (inr (inr (inl e)))) = rw e refl
  fixext_ahead l (inr (inr (inr (inr e)))) = rw e refl

  -- The first byte, and then the type that it stands for.
  from_head :
      (c : ℕ) (more : List ℕ) (t : ℤ)
      → is_error uc.return_code ≡ false
      → input s.pending uc ≡ c ∷ more
      → ((uc₁ : UnpackContext W)
          → IsReady s uc₁
          → input s.pending uc₁ ≡ c ∷ more
          → Tells s (type_ahead env c) uc₁ t)
      → (uc' : UnpackContext W) × (cw_look_ahead env uc ≡ some (t, uc'))
        × At s (input s.pending uc) uc.return_code uc'
  unfolding cw_look_ahead unless_stopped step_back read
  from_head c more t ok i tells =
      let (p, uc₁, e, k) = peek s not_an_item rc_end_of_input (c ∷ []) more uc ready i in
      let (uc', e', at') = tells (record uc₁ { current = uc₁.current - 1 }) k.at.ready k.at.left in
      let fits : leb (p + 1) (length uc₁.buffer) ≡ true = ground (arith, k.in_buffer) in
      (
        uc',
        rw ok (rw e (rw fits (rw k.there (ap finish e')))),
        record {
          ready = at'.ready;
          return_code = at'.return_code ∙ k.at.return_code;
          left = at'.left ∙ k.at.left ∙ sym i;
        },
      )

  told : (uc₁ : UnpackContext W) → IsReady s uc₁ → (t : ℤ) → Tells s (pure t) uc₁ t
  told uc₁ r t = (uc₁, refl, record { ready = r; return_code = refl; left = refl })

  -- Where the input starts with the bytes of an item in any form, timestamps included, cw_look_ahead
  -- tells its type, and the input and the return code are as before. Every signed format counts as
  -- negative.
  pub cw_look_ahead-type_of :
      (f : Form)
      → InRange f
      → is_error uc.return_code ≡ false
      → input s.pending uc ≡ bytes f ++ rest
      → (uc' : UnpackContext W) × (cw_look_ahead env uc ≡ some (type_of f, uc'))
        × At s (input s.pending uc) uc.return_code uc'
  unfolding bytes be_bytes type_ahead
  cw_look_ahead-type_of Format.nil h ok i = from_head 0xc0 rest _ ok i (λ uc₁ r i₁. told uc₁ r _)
  cw_look_ahead-type_of (Format.bool true) h ok i =
      from_head 0xc3 rest _ ok i (λ uc₁ r i₁. told uc₁ r _)
  cw_look_ahead-type_of (Format.bool false) h ok i =
      from_head 0xc2 rest _ ok i (λ uc₁ r i₁. told uc₁ r _)
  cw_look_ahead-type_of (Format.positive_fixint n) h ok i =
      from_head n rest _ ok i (λ uc₁ r i₁. rw ((small_type n).0 h) (told uc₁ r _))
  cw_look_ahead-type_of (Format.negative_fixint n) h ok i =
      from_head (255 - n) rest _ ok i (λ uc₁ r i₁. rw ((small_type n).1 h) (told uc₁ r _))
  cw_look_ahead-type_of (Format.uint8 n) h ok i =
      from_head 0xcc (n ∷ rest) _ ok i (λ uc₁ r i₁. told uc₁ r _)
  cw_look_ahead-type_of (Format.uint16 n) h ok i =
      from_head 0xcd (be_bytes 2 n ++ rest) _ ok i (λ uc₁ r i₁. told uc₁ r _)
  cw_look_ahead-type_of (Format.uint32 n) h ok i =
      from_head 0xce (be_bytes 4 n ++ rest) _ ok i (λ uc₁ r i₁. told uc₁ r _)
  cw_look_ahead-type_of (Format.uint64 n) h ok i =
      from_head 0xcf (be_bytes 8 n ++ rest) _ ok i (λ uc₁ r i₁. told uc₁ r _)
  cw_look_ahead-type_of (Format.int8 z) h ok i =
      from_head 0xd0 (word 8 z ∷ rest) _ ok i (λ uc₁ r i₁. told uc₁ r _)
  cw_look_ahead-type_of (Format.int16 z) h ok i =
      from_head 0xd1 (be_bytes 2 (word 16 z) ++ rest) _ ok i (λ uc₁ r i₁. told uc₁ r _)
  cw_look_ahead-type_of (Format.int32 z) h ok i =
      from_head 0xd2 (be_bytes 4 (word 32 z) ++ rest) _ ok i (λ uc₁ r i₁. told uc₁ r _)
  cw_look_ahead-type_of (Format.int64 z) h ok i =
      from_head 0xd3 (be_bytes 8 (word 64 z) ++ rest) _ ok i (λ uc₁ r i₁. told uc₁ r _)
  cw_look_ahead-type_of (Format.float32 n) h ok i =
      from_head 0xca (be_bytes 4 n ++ rest) _ ok i (λ uc₁ r i₁. told uc₁ r _)
  cw_look_ahead-type_of (Format.float64 n) h ok i =
      from_head 0xcb (be_bytes 8 n ++ rest) _ ok i (λ uc₁ r i₁. told uc₁ r _)
  cw_look_ahead-type_of (Format.fixstr v) h ok i =
      from_head (0xa0 + length v) (v ++ rest) _ ok i
        (λ uc₁ r i₁. rw ((small_type (length v)).4 h.0) (told uc₁ r _))
  cw_look_ahead-type_of (Format.str8 v) h ok i =
      from_head 0xd9 (length v ∷ (v ++ rest)) _ ok i (λ uc₁ r i₁. told uc₁ r _)
  cw_look_ahead-type_of (Format.str16 v) h ok i =
      from_head 0xda ((be_bytes 2 (length v) ++ v) ++ rest) _ ok i (λ uc₁ r i₁. told uc₁ r _)
  cw_look_ahead-type_of (Format.str32 v) h ok i =
      from_head 0xdb ((be_bytes 4 (length v) ++ v) ++ rest) _ ok i (λ uc₁ r i₁. told uc₁ r _)
  cw_look_ahead-type_of (Format.bin8 v) h ok i =
      from_head 0xc4 (length v ∷ (v ++ rest)) _ ok i (λ uc₁ r i₁. told uc₁ r _)
  cw_look_ahead-type_of (Format.bin16 v) h ok i =
      from_head 0xc5 ((be_bytes 2 (length v) ++ v) ++ rest) _ ok i (λ uc₁ r i₁. told uc₁ r _)
  cw_look_ahead-type_of (Format.bin32 v) h ok i =
      from_head 0xc6 ((be_bytes 4 (length v) ++ v) ++ rest) _ ok i (λ uc₁ r i₁. told uc₁ r _)
  cw_look_ahead-type_of (Format.fixarray n) h ok i =
      from_head (0x90 + n) rest _ ok i (λ uc₁ r i₁. rw ((small_type n).3 h) (told uc₁ r _))
  cw_look_ahead-type_of (Format.array16 n) h ok i =
      from_head 0xdc (be_bytes 2 n ++ rest) _ ok i (λ uc₁ r i₁. told uc₁ r _)
  cw_look_ahead-type_of (Format.array32 n) h ok i =
      from_head 0xdd (be_bytes 4 n ++ rest) _ ok i (λ uc₁ r i₁. told uc₁ r _)
  cw_look_ahead-type_of (Format.fixmap n) h ok i =
      from_head (0x80 + n) rest _ ok i (λ uc₁ r i₁. rw ((small_type n).2 h) (told uc₁ r _))
  cw_look_ahead-type_of (Format.map16 n) h ok i =
      from_head 0xde (be_bytes 2 n ++ rest) _ ok i (λ uc₁ r i₁. told uc₁ r _)
  cw_look_ahead-type_of (Format.map32 n) h ok i =
      from_head 0xdf (be_bytes 4 n ++ rest) _ ok i (λ uc₁ r i₁. told uc₁ r _)
  cw_look_ahead-type_of (Format.fixext t v) (ht, hv, hb) ok i =
      from_head (fixext_head (length v)) (word 8 t ∷ (v ++ rest)) t ok i (λ uc₁ r i₁.
        rw (fixext_ahead (length v) hv)
          (ext_ahead_lem s (fixext_head (length v) ∷ []) (v ++ rest) t 2 uc₁ ht refl r i₁))
  cw_look_ahead-type_of (Format.ext8 t v) (ht, hv, hb) ok i =
      from_head 0xc7 (length v ∷ word 8 t ∷ (v ++ rest)) t ok i
        (λ uc₁ r i₁. ext8_ahead_lem s 0xc7 (length v) (v ++ rest) t uc₁ ht r i₁)
  cw_look_ahead-type_of (Format.ext16 t v) (ht, hv, hb) ok i =
      from_head 0xc8 ((be_bytes 2 (length v) ++ (word 8 t ∷ v)) ++ rest) t ok i (λ uc₁ r i₁.
        ext_ahead_lem s (0xc8 ∷ be_bytes 2 (length v)) (v ++ rest) t 4 uc₁ ht refl r i₁)
  cw_look_ahead-type_of (Format.ext32 t v) (ht, hv, hb) ok i =
      from_head 0xc9 ((be_bytes 4 (length v) ++ (word 8 t ∷ v)) ++ rest) t ok i (λ uc₁ r i₁.
        ext_ahead_lem s (0xc9 ∷ be_bytes 4 (length v)) (v ++ rest) t 6 uc₁ ht refl r i₁)
