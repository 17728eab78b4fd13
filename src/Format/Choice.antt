-- ===== src/Format/Choice.antt =====
-- The format that each packing routine of src/cwpack.c is meant to choose for its value.
use cwpack.Prelude.{
  ℕ, ◌+◌, ◌*◌, ◌^◌, Bool, not, ◌&&◌, ◌||◌, List, ◌++◌, length, ltb, ◌==◌, if◌then◌else◌,
}
use cwpack.Prelude.Int.{ℤ, pos, negsuc, word}
use cwpack.Wire.{be_bytes}
use cwpack.Format.{
  Form, positive_fixint, negative_fixint, uint8, uint16, uint32, uint64, int8, int16, int32, int64,
  fixstr, str8, str16, str32, bin8, bin16, bin32, fixarray, array16, array32, fixmap, map16, map32,
  fixext, ext8, ext16, ext32,
}

abbrev pub unsigned_form : ℕ → Form
unsigned_form n =
    if ltb n 128
    then positive_fixint n
    else if ltb n (2 ^ 8)
    then uint8 n
    else if ltb n (2 ^ 16)
    then uint16 n
    else if ltb n (2 ^ 32)
    then uint32 n
    else uint64 n

-- The integer is -(n + 1).
abbrev pub negative_form : ℕ → Form
negative_form n =
    if ltb n 32
    then negative_fixint n
    else if ltb n (2 ^ 7)
    then int8 (negsuc n)
    else if ltb n (2 ^ 15)
    then int16 (negsuc n)
    else if ltb n (2 ^ 31)
    then int32 (negsuc n)
    else int64 (negsuc n)

abbrev pub signed_form : ℤ → Form
signed_form (pos n) = unsigned_form n
signed_form (negsuc n) = negative_form n

abbrev pub array_form : ℕ → Form
array_form n = if ltb n 16 then fixarray n else if ltb n (2 ^ 16) then array16 n else array32 n

abbrev pub map_form : ℕ → Form
map_form n = if ltb n 16 then fixmap n else if ltb n (2 ^ 16) then map16 n else map32 n

-- `old` readers know no str 8 and no bin.
abbrev pub string_form : Bool → List ℕ → Form
string_form old v =
    if ltb (length v) 32
    then fixstr v
    else if ltb (length v) (2 ^ 8) && not old
    then str8 v
    else if ltb (length v) (2 ^ 16)
    then str16 v
    else str32 v

abbrev pub binary_form : Bool → List ℕ → Form
binary_form old v =
    if old
    then string_form old v
    else if ltb (length v) (2 ^ 8)
    then bin8 v
    else if ltb (length v) (2 ^ 16)
    then bin16 v
    else bin32 v

abbrev pub is_fixext_length : ℕ → Bool
is_fixext_length l = l == 1 || (l == 2 || (l == 4 || (l == 8 || l == 16)))

abbrev pub extension_form : ℤ → List ℕ → Form
extension_form t v =
    if is_fixext_length (length v)
    then fixext t v
    else if ltb (length v) (2 ^ 8)
    then ext8 t v
    else if ltb (length v) (2 ^ 16)
    then ext16 t v
    else ext32 t v

abbrev pub timestamp_type : ℤ
timestamp_type = negsuc 0

-- Timestamp 96, 64 and 32: seconds before 1970 or beyond 34 bits, nanoseconds or seconds beyond
-- 32 bits, and whole seconds in 32 bits.
abbrev pub timestamp_form : ℤ → ℕ → Form
timestamp_form (negsuc s) nsec =
    ext8 timestamp_type (be_bytes 4 nsec ++ be_bytes 8 (word 64 (negsuc s)))
timestamp_form (pos s) nsec =
    if ltb s (2 ^ 34)
    then (if nsec == 0 && ltb s (2 ^ 32)
        then fixext timestamp_type (be_bytes 4 s)
        else fixext timestamp_type (be_bytes 8 (nsec * 2 ^ 34 + s)))
    else ext8 timestamp_type (be_bytes 4 nsec ++ be_bytes 8 s)
