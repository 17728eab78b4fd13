-- ===== src/Unpack/Next.antt =====
-- cw_unpack_next of src/cwpack.c.
pub mod Items
pub mod Reading
pub mod Words
pub mod Signed
pub mod Blobs
pub mod Extensions
pub mod TimeFields
pub mod Time
pub mod Every
use cwpack.Prelude.{
  ℕ, ◌+◌, ◌-◌, ◌/◌, ◌%◌, ◌^◌, bit_and, Bool, true, false, Option, List, [], ◌∷◌, ltb, leb, ◌==◌,
  get_or, if◌then◌else◌,
}
use cwpack.Prelude.Int.{ℤ, pos, negsuc, word, signed, leb_ℤ}
use cwpack.ReturnCode.{
  rc_end_of_input, rc_buffer_underflow, rc_malformed_input, rc_wrong_timestamp_length,
}
use cwpack.Wire.{cw_load16, cw_load32, cw_load64}
use cwpack.Exec.{Void, continue, and_then, ◌>>=◌, ◌>>◌, skip, get, when, function}
use cwpack.Unpack.{
  As, boolean, word64, real, array, map, blob, time, UnpackContext, Platform, Routine,
  item_timestamp, item_nil, item_boolean, item_positive_integer, item_negative_integer, item_float,
  item_double, item_str, item_bin, item_array, item_map, item_ext, unpack_error, unless_stopped,
  read, set_type, set_as, cw_unpack_assert_space, take_bytes,
}

-- `item.as.ext.length = l` and `item.as.time.tv_nsec = n`, which leave the other field of the
-- member as it is. That field is not read before it is set.
abbrev pub set_length : ℕ → As → As
set_length l (blob p k) = blob p l
set_length l other = blob 0 l

abbrev pub length_of : As → ℕ
length_of (blob p l) = l
length_of other = 0

abbrev pub set_nsec : ℕ → As → As
set_nsec n (time sec k) = time sec n
set_nsec n other = time (pos 0) n

abbrev pub set_sec : ℤ → As → As
set_sec sec (time k n) = time sec n
set_sec sec other = time sec 0

abbrev pub is_timestamp : ℤ → Bool
is_timestamp (pos n) = false
is_timestamp (negsuc n) = n == 0

-- A member that a number fills.
abbrev pub as_word : ℕ → As → As
as_word n old = word64 n

abbrev pub as_array : ℕ → As → As
as_array n old = array n

abbrev pub as_map : ℕ → As → As
as_map n old = map n

abbrev pub as_real : ℕ → As → As
as_real n old = real n

-- A number of `w` bits with its sign, as 64 bits.
abbrev pub as_signed : ℕ → ℕ → As → As
as_signed w n old = word64 (word 64 (signed w n))

abbrev pub is_nonnegative : As → Bool
is_nonnegative (word64 n) = ltb n (2 ^ 63)
is_nonnegative other = true

module _ {W : Type 0} (env : Platform W) where
  -- getDDItem
  unfoldable pub get_item : ℤ → As → Routine W Void Void
  unfolding set_type set_as
  get_item type value = do set_type type; set_as (λ old. value)

  -- getDDItem1, getDDItem2, getDDItem4 and getDDItem8
  unfoldable pub get_item1 : ℤ → (ℕ → As → As) → Routine W Void Void
  unfolding set_type set_as take_bytes
  get_item1 type var = do set_type type; bs ← take_bytes env tt 1; set_as (var (get_or bs 0 0))

  unfoldable pub get_item2 : ℤ → (ℕ → As → As) → Routine W Void Void
  unfolding set_type set_as take_bytes
  get_item2 type var = do
    set_type type
    bs ← take_bytes env tt 2
    set_as (var (cw_load16 env.build bs))

  unfoldable pub get_item4 : ℤ → (ℕ → As → As) → Routine W Void Void
  unfolding set_type set_as take_bytes
  get_item4 type var = do
    set_type type
    bs ← take_bytes env tt 4
    set_as (var (cw_load32 env.build bs))

  unfoldable pub get_item8 : ℤ → Routine W Void Void
  unfolding set_type set_as take_bytes
  get_item8 type = do
    set_type type
    bs ← take_bytes env tt 8
    set_as (as_word (cw_load64 env.build bs))

  -- cw_unpack_assert_blob
  unfoldable pub assert_blob : Routine W Void Void
  unfolding cw_unpack_assert_space set_as
  assert_blob = do
    uc ← get
    let l = length_of uc.item.value
    p ← cw_unpack_assert_space env tt rc_buffer_underflow l
    set_as (λ old. blob p l)

  -- `if (item.as.i64 >= 0) item.type = CWP_ITEM_POSITIVE_INTEGER;`
  unfoldable pub positive_if_so : Routine W Void Void
  unfolding set_type
  positive_if_so = do uc ← get; when (is_nonnegative uc.item.value) (set_type item_positive_integer)

  -- getDDItemFix
  unfoldable pub get_item_fix : ℕ → Routine W Void Void
  unfolding cw_unpack_assert_space set_type set_as read unpack_error
  get_item_fix len = do
    p ← cw_unpack_assert_space env tt rc_buffer_underflow (len + 1)
    t ← read p 1
    let type = signed 8 (get_or t 0 0)
    set_type type
    if is_timestamp type
        then (if len == 4
            then (do bs ← read (p + 1) 4; set_as (λ old. time (pos (cw_load32 env.build bs)) 0))
            else if len == 8
            then (do
              bs ← read (p + 1) 8
              let tmpu64 = cw_load64 env.build bs
              set_as (λ old.
                  time (pos (bit_and tmpu64 0x0000_0003_ffff_ffff)) (tmpu64 / 2 ^ 34 % 2 ^ 32)))
            else unpack_error tt rc_wrong_timestamp_length)
        else set_as (λ old. blob (p + 1) len)

  -- The type byte of ext 8, ext 16 and ext 32.
  unfoldable pub ext_type : Routine W Void ℤ
  unfolding take_bytes set_type
  ext_type uc =
      (take_bytes env tt 1 >>= λ t.
      let type = signed 8 (get_or t 0 0) in set_type type >> (λ uc'. continue type uc'))
        uc

  -- case 0xc7, behind its length
  unfoldable pub ext8_rest : Routine W Void Void
  unfolding ext_type take_bytes set_as assert_blob unpack_error
  ext8_rest = do
    type ← ext_type
    uc ← get
    if is_timestamp type
        then (if length_of uc.item.value == 12
            then (do
              bs ← take_bytes env tt 4
              set_as (set_nsec (cw_load32 env.build bs))
              bs ← take_bytes env tt 8
              set_as (set_sec (signed 64 (cw_load64 env.build bs))))
            else unpack_error tt rc_wrong_timestamp_length)
        else assert_blob

  -- The cases 0xc0 .. 0xdf of the `switch`.
  unfoldable pub headed_item : ℕ → Routine W Void Void
  unfolding get_item get_item1 get_item2 get_item4 get_item8 assert_blob positive_if_so get_item_fix
      ext_type ext8_rest
  headed_item c =
      if c == 0xc0
      then set_type item_nil
      else if c == 0xc2
      then get_item item_boolean (boolean false)
      else if c == 0xc3
      then get_item item_boolean (boolean true)
      else if c == 0xc4
      then get_item1 item_bin set_length >> assert_blob
      else if c == 0xc5
      then get_item2 item_bin set_length >> assert_blob
      else if c == 0xc6
      then get_item4 item_bin set_length >> assert_blob
      else if c == 0xc7
      then get_item1 item_ext set_length >> ext8_rest
      else if c == 0xc8
      then get_item2 item_ext set_length >> (ext_type >>= λ t. assert_blob)
      else if c == 0xc9
      then get_item4 item_ext set_length >> (ext_type >>= λ t. assert_blob)
      else if c == 0xca
      then get_item4 item_float as_real
      else if c == 0xcb
      then get_item8 item_double
      else if c == 0xcc
      then get_item1 item_positive_integer as_word
      else if c == 0xcd
      then get_item2 item_positive_integer as_word
      else if c == 0xce
      then get_item4 item_positive_integer as_word
      else if c == 0xcf
      then get_item8 item_positive_integer
      else if c == 0xd0
      then get_item1 item_negative_integer (as_signed 8) >> positive_if_so
      else if c == 0xd1
      then get_item2 item_negative_integer (as_signed 16) >> positive_if_so
      else if c == 0xd2
      then get_item4 item_negative_integer (as_signed 32) >> positive_if_so
      else if c == 0xd3
      then get_item8 item_negative_integer >> positive_if_so
      else if c == 0xd4
      then get_item_fix 1
      else if c == 0xd5
      then get_item_fix 2
      else if c == 0xd6
      then get_item_fix 4
      else if c == 0xd7
      then get_item_fix 8
      else if c == 0xd8
      then get_item_fix 16
      else if c == 0xd9
      then get_item1 item_str set_length >> assert_blob
      else if c == 0xda
      then get_item2 item_str set_length >> assert_blob
      else if c == 0xdb
      then get_item4 item_str set_length >> assert_blob
      else if c == 0xdc
      then get_item2 item_array as_array
      else if c == 0xdd
      then get_item4 item_array as_array
      else if c == 0xde
      then get_item2 item_map as_map
      else if c == 0xdf
      then get_item4 item_map as_map
      else unpack_error tt rc_malformed_input

  -- The whole `switch`.
  unfoldable pub item_body : ℕ → Routine W Void Void
  unfolding get_item headed_item assert_blob
  item_body c =
      if ltb c 0x80
      then get_item item_positive_integer (word64 c)
      else if ltb c 0x90
      then get_item item_map (map (bit_and c 0x0f))
      else if ltb c 0xa0
      then get_item item_array (array (bit_and c 0x0f))
      else if ltb c 0xc0
      then set_type item_str >> (set_as (set_length (bit_and c 0x1f)) >> assert_blob)
      else if leb 0xe0 c
      then get_item item_negative_integer (word64 (word 64 (signed 8 c)))
      else headed_item c

  unfoldable pub cw_unpack_next : UnpackContext W → Option (Void × UnpackContext W)
  unfolding unless_stopped cw_unpack_assert_space read item_body
  cw_unpack_next = function (do
    unless_stopped tt
    p ← cw_unpack_assert_space env tt rc_end_of_input 1
    c ← read p 1
    item_body (get_or c 0 0))
