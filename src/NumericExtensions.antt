-- ===== src/NumericExtensions.antt =====
-- goodies/numeric-extensions/numeric_extensions.c: integers and floats as extensions of a type that
-- the application chooses. A float is its bits.
pub mod Packed
pub mod Unpacked
use cwpack.Prelude.{
  ℕ, ◌+◌, ◌-◌, ◌%◌, ◌^◌, Bool, true, false, not, Option, none, some, List, [], ◌∷◌, ltb, leb, ◌==◌,
  get_or, if◌then◌else◌,
}
use cwpack.Prelude.Int.{ℤ, pos, negsuc, word, signed, ltb_ℤ, leb_ℤ}
use cwpack.ReturnCode.{rc_type_error, rc_value_error, is_error}
use cwpack.Exec.{
  Void, continue, returned, fault, Body, and_then, ◌>>=◌, ◌>>◌, pure, give, get, function,
}
use cwpack.Wire.{cw_store16, cw_store32, cw_store64, cw_load16, cw_load32, cw_load64}
use cwpack.Pack
use cwpack.Pack.{PackContext, unless_stopped, write, cw_pack_reserve_space}
use cwpack.Unpack
use cwpack.Unpack.{As, blob, UnpackContext, read, stop}

module _ {W : Type 0} (env : Pack.Platform W) where
  -- cw_storeN, where `stored` is what the store writes.
  unfoldable pub cw_store_n : ℕ → ℕ → ℤ → List ℕ → Pack.Routine W Void
  unfolding cw_pack_reserve_space write
  cw_store_n n op type stored = do
    p ← cw_pack_reserve_space env n n
    write p (op ∷ [])
    write (p + 1) (word 8 type ∷ [])
    write (p + 1 + 1) stored

  -- The four widths.
  unfoldable pub store_1 : ℤ → ℕ → Pack.Routine W Void
  unfolding cw_store_n
  store_1 type d = cw_store_n 3 0xd4 type (d % 256 ∷ [])

  unfoldable pub store_2 : ℤ → ℕ → Pack.Routine W Void
  unfolding cw_store_n
  store_2 type d = cw_store_n 4 0xd5 type (cw_store16 env.build d)

  unfoldable pub store_4 : ℤ → ℕ → Pack.Routine W Void
  unfolding cw_store_n
  store_4 type d = cw_store_n 6 0xd6 type (cw_store32 env.build d)

  unfoldable pub store_8 : ℤ → ℕ → Pack.Routine W Void
  unfolding cw_store_n
  store_8 type d = cw_store_n 10 0xd7 type (cw_store64 env.build d)

  unfoldable pub cw_pack_ext_integer : ℤ → ℤ → PackContext W → Option (Void × PackContext W)
  unfolding unless_stopped store_1 store_2 store_4 store_8
  cw_pack_ext_integer type i =
      let d = word 64 i in
      function (
        unless_stopped
        >> (if leb_ℤ (pos 0) i
            then (if ltb_ℤ i (pos 128)
                then store_1 type d
                else if ltb_ℤ i (pos 32768)
                then store_2 type d
                else if ltb_ℤ i (pos 0x80000000)
                then store_4 type d
                else store_8 type d)
            else if leb_ℤ (negsuc 127) i
            then store_1 type d
            else if leb_ℤ (negsuc 32767) i
            then store_2 type d
            else if leb_ℤ (negsuc 0x7fffffff) i
            then store_4 type d
            else store_8 type d))

  unfoldable pub cw_pack_ext_float : ℤ → ℕ → PackContext W → Option (Void × PackContext W)
  unfolding unless_stopped store_4
  cw_pack_ext_float type f = function (unless_stopped >> store_4 type f)

  unfoldable pub cw_pack_ext_double : ℤ → ℕ → PackContext W → Option (Void × PackContext W)
  unfolding unless_stopped store_8
  cw_pack_ext_double type d = function (unless_stopped >> store_8 type d)

-- The start and the length of `item.as.ext`. Where another member was written last, the code would
-- take its bytes for a pointer, which is undefined behaviour.
unfoldable pub ext_member : {W R : Type 0} → Unpack.Routine W R (ℕ × ℕ)
ext_member uc = elim uc.item.value [ blob p l ↦ continue (p, l) uc | other ↦ fault ]

-- The tests before the item is looked at. Extension types are up to 127.
unfoldable pub user_ext : {W R : Type 0} → R → Unpack.Routine W R (ℕ × ℕ)
unfolding ext_member stop
user_ext zero_result uc =
    if is_error uc.return_code
    then returned zero_result uc
    else if ltb_ℤ (pos 127) uc.item.type
    then stop zero_result rc_type_error uc
    else ext_member uc

module _ {W : Type 0} (env : Unpack.Platform W) where
  unfoldable pub integer_body : ℕ × ℕ → Unpack.Routine W ℤ ℤ
  unfolding read stop
  integer_body (p, l) =
      if l == 0
      then pure (pos 0)
      else if l == 1
      then (do bs ← read p 1; pure (signed 8 (get_or bs 0 0)))
      else if l == 2
      then (do bs ← read p 2; pure (signed 16 (cw_load16 env.build bs)))
      else if l == 4
      then (do bs ← read p 4; pure (signed 32 (cw_load32 env.build bs)))
      else if l == 8
      then (do bs ← read p 8; pure (signed 64 (cw_load64 env.build bs)))
      else stop (pos 0) rc_value_error

  unfoldable pub get_ext_integer : UnpackContext W → Option (ℤ × UnpackContext W)
  unfolding user_ext integer_body
  get_ext_integer = function (user_ext (pos 0) >>= integer_body)

  unfoldable pub get_ext_float : UnpackContext W → Option (ℕ × UnpackContext W)
  unfolding user_ext read stop
  get_ext_float = function (do
    (p, l) ← user_ext 0
    if l == 4 then (do bs ← read p 4; pure (cw_load32 env.build bs)) else stop 0 rc_value_error)

  unfoldable pub get_ext_double : UnpackContext W → Option (ℕ × UnpackContext W)
  unfolding user_ext read stop
  get_ext_double = function (do
    (p, l) ← user_ext 0
    if l == 8 then (do bs ← read p 8; pure (cw_load64 env.build bs)) else stop 0 rc_value_error)
