-- ===== src/Format/Shortest.antt =====
-- The forms that the packing routines choose are the shortest with their meaning.
use cwpack.Prelude.{ℕ, ◌+◌, ◌^◌, ◌≤◌, ◌≡◌, refl, false, List, length, ltb, if◌then◌else◌, arith}
use cwpack.Prelude.Int.{ℤ, pos, negsuc}
use cwpack.Wire.{be_bytes}
use cwpack.Format
use cwpack.Format.{Form, Value, bytes, InRange, meaning, Fits, IsFixextLength, fixext_head}
use cwpack.Format.Choice.{
  unsigned_form, negative_form, signed_form, array_form, map_form, string_form, binary_form,
  is_fixext_length, extension_form,
}

-- The form that is chosen for a value, outside of the compatibility mode.
abbrev pub form_of : Value → Form
form_of Format.nil = Format.nil
form_of (Format.boolean b) = Format.bool b
form_of (Format.integer z) = signed_form z
form_of (Format.single f) = Format.float32 f
form_of (Format.double d) = Format.float64 d
form_of (Format.string v) = string_form false v
form_of (Format.binary v) = binary_form false v
form_of (Format.array n) = array_form n
form_of (Format.map n) = map_form n
form_of (Format.extension t v) = extension_form t v

-- How many bytes each choice has.
integer_size :
    (n : ℕ)
    → (length (bytes (unsigned_form n)) ≡ (
        if ltb n 128
        then 1
        else if ltb n (2 ^ 8)
        then 2
        else if ltb n (2 ^ 16)
        then 3
        else if ltb n (2 ^ 32)
        then 5
        else 9))
      × (length (bytes (negative_form n)) ≡ (
          if ltb n 32
          then 1
          else if ltb n (2 ^ 7)
          then 2
          else if ltb n (2 ^ 15)
          then 3
          else if ltb n (2 ^ 31)
          then 5
          else 9))
      × (length (bytes (array_form n)) ≡ (if ltb n 16 then 1 else if ltb n (2 ^ 16) then 3 else 5))
      × (length (bytes (map_form n)) ≡ (if ltb n 16 then 1 else if ltb n (2 ^ 16) then 3 else 5))
unfolding bytes be_bytes
integer_size n = (ground arith, ground arith, ground arith, ground arith)

blob_size :
    (t : ℤ) (v : List ℕ)
    → (length (bytes (string_form false v))
        ≡ length v
          + (if ltb (length v) 32
              then 1
              else if ltb (length v) (2 ^ 8)
              then 2
              else if ltb (length v) (2 ^ 16)
              then 3
              else 5))
      × (length (bytes (binary_form false v))
          ≡ length v
            + (if ltb (length v) (2 ^ 8) then 2 else if ltb (length v) (2 ^ 16) then 3 else 5))
      × (length (bytes (extension_form t v))
          ≡ length v
            + (if is_fixext_length (length v)
                then 2
                else if ltb (length v) (2 ^ 8)
                then 3
                else if ltb (length v) (2 ^ 16)
                then 4
                else 6))
unfolding bytes be_bytes
blob_size t v = (ground arith, ground arith, ground arith)

-- The value of each form has a chosen form that is not longer.
pub form_of-shortest :
    (g : Form) → InRange g → length (bytes (form_of (meaning g))) ≤ length (bytes g)
unfolding meaning bytes be_bytes
form_of-shortest Format.nil h = omega arith
form_of-shortest (Format.bool b) h = omega arith
form_of-shortest (Format.positive_fixint n) h = ground (arith, integer_size n)
form_of-shortest (Format.negative_fixint n) h = ground (arith, integer_size n)
form_of-shortest (Format.uint8 n) h = ground (arith, integer_size n)
form_of-shortest (Format.uint16 n) h = ground (arith, integer_size n)
form_of-shortest (Format.uint32 n) h = ground (arith, integer_size n)
form_of-shortest (Format.uint64 n) h = ground (arith, integer_size n)
form_of-shortest (Format.int8 (pos n)) h = ground (arith, integer_size n)
form_of-shortest (Format.int8 (negsuc n)) h = ground (arith, integer_size n)
form_of-shortest (Format.int16 (pos n)) h = ground (arith, integer_size n)
form_of-shortest (Format.int16 (negsuc n)) h = ground (arith, integer_size n)
form_of-shortest (Format.int32 (pos n)) h = ground (arith, integer_size n)
form_of-shortest (Format.int32 (negsuc n)) h = ground (arith, integer_size n)
form_of-shortest (Format.int64 (pos n)) h = ground (arith, integer_size n)
form_of-shortest (Format.int64 (negsuc n)) h = ground (arith, integer_size n)
form_of-shortest (Format.float32 n) h = omega arith
form_of-shortest (Format.float64 n) h = omega arith
form_of-shortest (Format.fixstr v) h = ground (arith, blob_size (pos 0) v)
form_of-shortest (Format.str8 v) h = ground (arith, blob_size (pos 0) v)
form_of-shortest (Format.str16 v) h = ground (arith, blob_size (pos 0) v)
form_of-shortest (Format.str32 v) h = ground (arith, blob_size (pos 0) v)
form_of-shortest (Format.bin8 v) h = ground (arith, blob_size (pos 0) v)
form_of-shortest (Format.bin16 v) h = ground (arith, blob_size (pos 0) v)
form_of-shortest (Format.bin32 v) h = ground (arith, blob_size (pos 0) v)
form_of-shortest (Format.fixarray n) h = ground (arith, integer_size n)
form_of-shortest (Format.array16 n) h = ground (arith, integer_size n)
form_of-shortest (Format.array32 n) h = ground (arith, integer_size n)
form_of-shortest (Format.fixmap n) h = ground (arith, integer_size n)
form_of-shortest (Format.map16 n) h = ground (arith, integer_size n)
form_of-shortest (Format.map32 n) h = ground (arith, integer_size n)
form_of-shortest (Format.fixext t v) h = ground (arith, blob_size t v)
form_of-shortest (Format.ext8 t v) h = ground (arith, blob_size t v)
form_of-shortest (Format.ext16 t v) h = ground (arith, blob_size t v)
form_of-shortest (Format.ext32 t v) h = ground (arith, blob_size t v)

-- The form that is chosen for a value means it.
pub meaning-form_of : (v : Value) → meaning (form_of v) ≡ v
unfolding meaning
meaning-form_of Format.nil = refl
meaning-form_of (Format.boolean b) = refl
meaning-form_of (Format.integer (pos n)) = ground arith
meaning-form_of (Format.integer (negsuc n)) = ground arith
meaning-form_of (Format.single f) = refl
meaning-form_of (Format.double d) = refl
meaning-form_of (Format.string v) = ground arith
meaning-form_of (Format.binary v) = ground arith
meaning-form_of (Format.array n) = ground arith
meaning-form_of (Format.map n) = ground arith
meaning-form_of (Format.extension t v) = ground arith
