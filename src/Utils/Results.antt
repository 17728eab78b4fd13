-- ===== src/Utils/Results.antt =====
-- What the tests of the routines that expect an integer make of each item.
use cwpack.Prelude.{
  ℕ, ◌+◌, ◌-◌, ◌^◌, ◌<◌, ◌≡◌, refl, false, Option, none, some, leb, if◌then◌else◌, arith,
}
use cwpack.Prelude.Int.{ℤ, pos, negsuc}
use cwpack.ReturnCode.{rc_type_error, rc_value_error}
use cwpack.Exec.{finish}
use cwpack.Format
use cwpack.Format.{Form, Value, bytes, InRange, Fits, meaning}
use cwpack.Unpack.{UnpackContext, Routine, stop, item_positive_integer, item_negative_integer}
use cwpack.Unpack.LookAhead.{equals}
use cwpack.Unpack.Next.Items.{IsItem}
use cwpack.Utils.{with_word, signed_body, signed64_body, unsigned_body, unsigned64_body}

-- What a value of the wire can be.
abbrev pub IsWire : Value → Type 0
IsWire (Format.integer (pos n)) = n < 2 ^ 64
IsWire (Format.integer (negsuc n)) = n < 2 ^ 63
IsWire (Format.extension t v) = Fits 8 t
IsWire other = Unit {0}

pub meaning-IsWire : (f : Form) → InRange f → IsWire (meaning f)
unfolding meaning
meaning-IsWire Format.nil h = tt
meaning-IsWire (Format.bool b) h = tt
meaning-IsWire (Format.positive_fixint n) h = omega arith
meaning-IsWire (Format.negative_fixint n) h = omega arith
meaning-IsWire (Format.uint8 n) h = omega arith
meaning-IsWire (Format.uint16 n) h = omega arith
meaning-IsWire (Format.uint32 n) h = omega arith
meaning-IsWire (Format.uint64 n) h = h
meaning-IsWire (Format.int8 (pos n)) h = omega arith
meaning-IsWire (Format.int8 (negsuc n)) h = omega arith
meaning-IsWire (Format.int16 (pos n)) h = omega arith
meaning-IsWire (Format.int16 (negsuc n)) h = omega arith
meaning-IsWire (Format.int32 (pos n)) h = omega arith
meaning-IsWire (Format.int32 (negsuc n)) h = omega arith
meaning-IsWire (Format.int64 (pos n)) h = omega arith
meaning-IsWire (Format.int64 (negsuc n)) h = omega arith
meaning-IsWire (Format.float32 n) h = tt
meaning-IsWire (Format.float64 n) h = tt
meaning-IsWire (Format.fixstr v) h = tt
meaning-IsWire (Format.str8 v) h = tt
meaning-IsWire (Format.str16 v) h = tt
meaning-IsWire (Format.str32 v) h = tt
meaning-IsWire (Format.bin8 v) h = tt
meaning-IsWire (Format.bin16 v) h = tt
meaning-IsWire (Format.bin32 v) h = tt
meaning-IsWire (Format.fixarray n) h = tt
meaning-IsWire (Format.array16 n) h = tt
meaning-IsWire (Format.array32 n) h = tt
meaning-IsWire (Format.fixmap n) h = tt
meaning-IsWire (Format.map16 n) h = tt
meaning-IsWire (Format.map32 n) h = tt
meaning-IsWire (Format.fixext t v) h = h.0
meaning-IsWire (Format.ext8 t v) h = h.0
meaning-IsWire (Format.ext16 t v) h = h.0
meaning-IsWire (Format.ext32 t v) h = h.0

abbrev IsOther : Value → Type 0
IsOther (Format.integer z) = ⊥
IsOther other = Unit {0}

-- The result of a routine that expects an integer of `w` bits, and the error if there is one.
abbrev pub signed_result : ℕ → Value → ℤ × Option ℤ
signed_result w (Format.integer (pos n)) =
    if leb n (2 ^ (w - 1) - 1) then (pos n, none) else (pos 0, some rc_value_error)
signed_result w (Format.integer (negsuc n)) =
    if leb n (2 ^ (w - 1) - 1) then (negsuc n, none) else (pos 0, some rc_value_error)
signed_result w other = (pos 0, some rc_type_error)

abbrev pub unsigned_result : ℕ → Value → ℕ × Option ℤ
unsigned_result w (Format.integer (pos n)) =
    if leb n (2 ^ w - 1) then (n, none) else (0, some rc_value_error)
unsigned_result w other = (0, some rc_type_error)

-- The context, with the error in it.
abbrev pub with_error : {W : Type 0} → Option ℤ → UnpackContext W → UnpackContext W
with_error none uc = uc
with_error (some code) uc = record uc { return_code = code }

abbrev pub Expects : {W R : Type 0} → Routine W R R → UnpackContext W → R × Option ℤ → Type 0
Expects body uc (r, code) = finish (body uc) ≡ some (r, with_error code uc)

module _ {W : Type 0} (uc : UnpackContext W) where
  -- An extension is not an item of another type.
  pub user_type :
      (t : ℤ) (n : ℕ) → Fits 8 t → uc.item.type ≡ t → equals uc.item.type (pos (300 + n)) ≡ false
  user_type (pos k) n h e = rw e (ground arith)
  user_type (negsuc k) n h e = rw e refl

  -- The tests of the type find nothing but integers.
  other_types :
      (v : Value)
      → IsWire v
      → IsItem uc v
      → IsOther v
      → (equals uc.item.type item_positive_integer ≡ false)
        × (equals uc.item.type item_negative_integer ≡ false)
  other_types Format.nil h i o = (rw i refl, rw i refl)
  other_types (Format.boolean b) h (t, x) o = (rw t refl, rw t refl)
  other_types (Format.single f) h (t, x) o = (rw t refl, rw t refl)
  other_types (Format.double d) h (t, x) o = (rw t refl, rw t refl)
  other_types (Format.string v) h (t, x) o = (rw t refl, rw t refl)
  other_types (Format.binary v) h (t, x) o = (rw t refl, rw t refl)
  other_types (Format.array n) h (t, x) o = (rw t refl, rw t refl)
  other_types (Format.map n) h (t, x) o = (rw t refl, rw t refl)
  other_types (Format.extension t v) h (ty, x) o = (user_type t 2 h ty, user_type t 3 h ty)
  other_types (Format.integer z) h i o = absurd o

  not_integer :
      (v : Value)
      → IsWire v
      → IsItem uc v
      → IsOther v
      → (w : ℕ)
      → Expects (signed_body w) uc (pos 0, some rc_type_error)
        × Expects signed64_body uc (pos 0, some rc_type_error)
        × Expects (unsigned_body w) uc (0, some rc_type_error)
        × Expects unsigned64_body uc (0, some rc_type_error)
  unfolding signed_body signed64_body unsigned_body unsigned64_body stop
  not_integer v h i o w =
      let (p, n) = other_types v h i o in (rw p (rw n refl), rw p (rw n refl), rw p refl, rw p refl)

  integer_signed :
      (z : ℤ)
      → IsWire (Format.integer z)
      → IsItem uc (Format.integer z)
      → Expects (signed_body 8) uc (signed_result 8 (Format.integer z))
        × Expects (signed_body 16) uc (signed_result 16 (Format.integer z))
        × Expects (signed_body 32) uc (signed_result 32 (Format.integer z))
        × Expects signed64_body uc (signed_result 64 (Format.integer z))
  unfolding signed_body signed64_body with_word stop
  integer_signed (pos n) h (t, x) =
      rw t (rw x (ground arith, ground arith, ground arith, ground arith))
  integer_signed (negsuc n) h (t, x) =
      rw t (rw x (ground arith, ground arith, ground arith, ground arith))

  all_signed :
      (v : Value)
      → IsWire v
      → IsItem uc v
      → IsOther v
      → Expects (signed_body 8) uc (pos 0, some rc_type_error)
        × Expects (signed_body 16) uc (pos 0, some rc_type_error)
        × Expects (signed_body 32) uc (pos 0, some rc_type_error)
        × Expects signed64_body uc (pos 0, some rc_type_error)
  all_signed v h i o = (
    (not_integer v h i o 8).0,
    (not_integer v h i o 16).0,
    (not_integer v h i o 32).0,
    (not_integer v h i o 8).1,
  )

  pub signed_after :
      (v : Value)
      → IsWire v
      → IsItem uc v
      → Expects (signed_body 8) uc (signed_result 8 v)
        × Expects (signed_body 16) uc (signed_result 16 v)
        × Expects (signed_body 32) uc (signed_result 32 v)
        × Expects signed64_body uc (signed_result 64 v)
  signed_after (Format.integer z) h i = integer_signed z h i
  signed_after Format.nil h i = all_signed Format.nil h i tt
  signed_after (Format.boolean b) h i = all_signed (Format.boolean b) h i tt
  signed_after (Format.single f) h i = all_signed (Format.single f) h i tt
  signed_after (Format.double d) h i = all_signed (Format.double d) h i tt
  signed_after (Format.string v) h i = all_signed (Format.string v) h i tt
  signed_after (Format.binary v) h i = all_signed (Format.binary v) h i tt
  signed_after (Format.array n) h i = all_signed (Format.array n) h i tt
  signed_after (Format.map n) h i = all_signed (Format.map n) h i tt
  signed_after (Format.extension t v) h i = all_signed (Format.extension t v) h i tt

  all_unsigned :
      (v : Value)
      → IsWire v
      → IsItem uc v
      → IsOther v
      → Expects (unsigned_body 8) uc (0, some rc_type_error)
        × Expects (unsigned_body 16) uc (0, some rc_type_error)
        × Expects (unsigned_body 32) uc (0, some rc_type_error)
        × Expects unsigned64_body uc (0, some rc_type_error)
  all_unsigned v h i o = (
    (not_integer v h i o 8).2,
    (not_integer v h i o 16).2,
    (not_integer v h i o 32).2,
    (not_integer v h i o 8).3,
  )

  pub unsigned_after :
      (v : Value)
      → IsWire v
      → IsItem uc v
      → Expects (unsigned_body 8) uc (unsigned_result 8 v)
        × Expects (unsigned_body 16) uc (unsigned_result 16 v)
        × Expects (unsigned_body 32) uc (unsigned_result 32 v)
        × Expects unsigned64_body uc (unsigned_result 64 v)
  unfolding unsigned_body unsigned64_body with_word stop
  unsigned_after (Format.integer (pos n)) h (t, x) =
      rw t (rw x (ground arith, ground arith, ground arith, ground arith))
  unsigned_after (Format.integer (negsuc n)) h (t, x) = rw t (refl, refl, refl, refl)
  unsigned_after Format.nil h i = all_unsigned Format.nil h i tt
  unsigned_after (Format.boolean b) h i = all_unsigned (Format.boolean b) h i tt
  unsigned_after (Format.single f) h i = all_unsigned (Format.single f) h i tt
  unsigned_after (Format.double d) h i = all_unsigned (Format.double d) h i tt
  unsigned_after (Format.string v) h i = all_unsigned (Format.string v) h i tt
  unsigned_after (Format.binary v) h i = all_unsigned (Format.binary v) h i tt
  unsigned_after (Format.array n) h i = all_unsigned (Format.array n) h i tt
  unsigned_after (Format.map n) h i = all_unsigned (Format.map n) h i tt
  unsigned_after (Format.extension t v) h i = all_unsigned (Format.extension t v) h i tt
