-- ===== src/Format.antt =====
-- The MessagePack wire format, as the specification of the format gives it: every way to write an
-- item down, with its bytes and with what it means. Not a part of the code, but what the packing
-- and unpacking routines of src/cwpack.c are held to.
pub mod Choice
pub mod Shortest
use cwpack.Prelude.{
  ℕ, ◌+◌, ◌-◌, ◌*◌, ◌%◌, ◌^◌, ◌≤◌, ◌<◌, ◌≡◌, ◌⊎◌, Bool, true, false, List, [], ◌∷◌, ◌++◌, length,
  ◌==◌, if◌then◌else◌,
}
use cwpack.Prelude.Int.{ℤ, pos, negsuc, word, ◌≤ℤ◌}
use cwpack.Prelude.Bits.{IsBytes}
use cwpack.Wire.{be_bytes}

-- An item as it stands on the wire. A float is its bits, and an array or a map is its head only.
pub data Form : Type 0 where
  nil : Form
  bool : Bool → Form
  positive_fixint negative_fixint : ℕ → Form
  uint8 uint16 uint32 uint64 : ℕ → Form
  int8 int16 int32 int64 : ℤ → Form
  float32 float64 : ℕ → Form
  fixstr str8 str16 str32 : List ℕ → Form
  bin8 bin16 bin32 : List ℕ → Form
  fixarray array16 array32 : ℕ → Form
  fixmap map16 map32 : ℕ → Form
  fixext ext8 ext16 ext32 : ℤ → List ℕ → Form

abbrev pub fixext_head : ℕ → ℕ
fixext_head l =
    if l == 1
    then 0xd4
    else if l == 2
    then 0xd5
    else if l == 4
    then 0xd6
    else if l == 8
    then 0xd7
    else 0xd8

-- The bytes of an item.
unfoldable pub bytes : Form → List ℕ
unfolding be_bytes
bytes nil = 0xc0 ∷ []
bytes (bool b) = (if b then 0xc3 else 0xc2) ∷ []
bytes (positive_fixint n) = n ∷ []
bytes (negative_fixint n) = (255 - n) ∷ []
bytes (uint8 n) = 0xcc ∷ n ∷ []
bytes (uint16 n) = 0xcd ∷ be_bytes 2 n
bytes (uint32 n) = 0xce ∷ be_bytes 4 n
bytes (uint64 n) = 0xcf ∷ be_bytes 8 n
bytes (int8 i) = 0xd0 ∷ word 8 i ∷ []
bytes (int16 i) = 0xd1 ∷ be_bytes 2 (word 16 i)
bytes (int32 i) = 0xd2 ∷ be_bytes 4 (word 32 i)
bytes (int64 i) = 0xd3 ∷ be_bytes 8 (word 64 i)
bytes (float32 f) = 0xca ∷ be_bytes 4 f
bytes (float64 d) = 0xcb ∷ be_bytes 8 d
bytes (fixstr v) = (0xa0 + length v) ∷ v
bytes (str8 v) = 0xd9 ∷ length v ∷ v
bytes (str16 v) = 0xda ∷ (be_bytes 2 (length v) ++ v)
bytes (str32 v) = 0xdb ∷ (be_bytes 4 (length v) ++ v)
bytes (bin8 v) = 0xc4 ∷ length v ∷ v
bytes (bin16 v) = 0xc5 ∷ (be_bytes 2 (length v) ++ v)
bytes (bin32 v) = 0xc6 ∷ (be_bytes 4 (length v) ++ v)
bytes (fixarray n) = (0x90 + n) ∷ []
bytes (array16 n) = 0xdc ∷ be_bytes 2 n
bytes (array32 n) = 0xdd ∷ be_bytes 4 n
bytes (fixmap n) = (0x80 + n) ∷ []
bytes (map16 n) = 0xde ∷ be_bytes 2 n
bytes (map32 n) = 0xdf ∷ be_bytes 4 n
bytes (fixext t v) = fixext_head (length v) ∷ word 8 t ∷ v
bytes (ext8 t v) = 0xc7 ∷ length v ∷ word 8 t ∷ v
bytes (ext16 t v) = 0xc8 ∷ (be_bytes 2 (length v) ++ (word 8 t ∷ v))
bytes (ext32 t v) = 0xc9 ∷ (be_bytes 4 (length v) ++ (word 8 t ∷ v))

-- An integer that `w` bits in two's complement can hold.
abbrev pub Fits : ℕ → ℤ → Type 0
Fits w i = (negsuc (2 ^ (w - 1) - 1) ≤ℤ i) × (i ≤ℤ pos (2 ^ (w - 1) - 1))

abbrev pub IsFixextLength : ℕ → Type 0
IsFixextLength l = (l ≡ 1) ⊎ (l ≡ 2) ⊎ (l ≡ 4) ⊎ (l ≡ 8) ⊎ (l ≡ 16)

-- What an item holds is in the range of its format.
abbrev pub InRange : Form → Type 0
InRange nil = Unit {0}
InRange (bool b) = Unit {0}
InRange (positive_fixint n) = n < 128
InRange (negative_fixint n) = n < 32
InRange (uint8 n) = n < 2 ^ 8
InRange (uint16 n) = n < 2 ^ 16
InRange (uint32 n) = n < 2 ^ 32
InRange (uint64 n) = n < 2 ^ 64
InRange (int8 i) = Fits 8 i
InRange (int16 i) = Fits 16 i
InRange (int32 i) = Fits 32 i
InRange (int64 i) = Fits 64 i
InRange (float32 f) = f < 2 ^ 32
InRange (float64 d) = d < 2 ^ 64
InRange (fixstr v) = (length v < 32) × IsBytes v
InRange (str8 v) = (length v < 2 ^ 8) × IsBytes v
InRange (str16 v) = (length v < 2 ^ 16) × IsBytes v
InRange (str32 v) = (length v < 2 ^ 32) × IsBytes v
InRange (bin8 v) = (length v < 2 ^ 8) × IsBytes v
InRange (bin16 v) = (length v < 2 ^ 16) × IsBytes v
InRange (bin32 v) = (length v < 2 ^ 32) × IsBytes v
InRange (fixarray n) = n < 16
InRange (array16 n) = n < 2 ^ 16
InRange (array32 n) = n < 2 ^ 32
InRange (fixmap n) = n < 16
InRange (map16 n) = n < 2 ^ 16
InRange (map32 n) = n < 2 ^ 32
InRange (fixext t v) = Fits 8 t × IsFixextLength (length v) × IsBytes v
InRange (ext8 t v) = Fits 8 t × (length v < 2 ^ 8) × IsBytes v
InRange (ext16 t v) = Fits 8 t × (length v < 2 ^ 16) × IsBytes v
InRange (ext32 t v) = Fits 8 t × (length v < 2 ^ 32) × IsBytes v

-- What an item means.
pub data Value : Type 0 where
  nil : Value
  boolean : Bool → Value
  integer : ℤ → Value
  single double : ℕ → Value
  string binary : List ℕ → Value
  array map : ℕ → Value
  extension : ℤ → List ℕ → Value

unfoldable pub meaning : Form → Value
meaning nil = nil
meaning (bool b) = boolean b
meaning (positive_fixint n) = integer (pos n)
meaning (negative_fixint n) = integer (negsuc n)
meaning (uint8 n) = integer (pos n)
meaning (uint16 n) = integer (pos n)
meaning (uint32 n) = integer (pos n)
meaning (uint64 n) = integer (pos n)
meaning (int8 i) = integer i
meaning (int16 i) = integer i
meaning (int32 i) = integer i
meaning (int64 i) = integer i
meaning (float32 f) = single f
meaning (float64 d) = double d
meaning (fixstr v) = string v
meaning (str8 v) = string v
meaning (str16 v) = string v
meaning (str32 v) = string v
meaning (bin8 v) = binary v
meaning (bin16 v) = binary v
meaning (bin32 v) = binary v
meaning (fixarray n) = array n
meaning (array16 n) = array n
meaning (array32 n) = array n
meaning (fixmap n) = map n
meaning (map16 n) = map n
meaning (map32 n) = map n
meaning (fixext t v) = extension t v
meaning (ext8 t v) = extension t v
meaning (ext16 t v) = extension t v
meaning (ext32 t v) = extension t v
