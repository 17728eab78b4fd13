-- ===== src/Runs/Floats.antt =====
-- Runs of the routines for floats, with a floating point that knows 0, 2 and 0.5.
use cwpack.Prelude.{
  ℕ, ◌≡◌, refl, ◌⊎◌, Bool, true, false, some, [], ◌∷◌, ◌==◌, drop, take, arith, if◌then◌else◌,
}
use cwpack.Prelude.Int.{ℤ, pos, negsuc}
use cwpack.Exec.{Void}
use cwpack.Wire.{cw_store32}
use cwpack.Format
use cwpack.Format.{Fits, bytes, meaning}
use cwpack.Pack.{
  PackContext, try_move4, cw_pack_reserve_space, write, advance, overwrite, unless_stopped,
}
use cwpack.Pack.Numbers.{cw_pack_float}
use cwpack.Pack.Calls
use cwpack.Pack.Calls.Output.{Packed}
use cwpack.Unpack.{UnpackContext}
use cwpack.Utils.Expected.{Consumes}
use cwpack.Utils.Floats.{
  FloatUnit, nanoseconds, cw_pack_double_opt, cw_pack_float_opt, cw_pack_time_interval,
  cw_unpack_next_float, cw_unpack_next_double,
}
use cwpack.Utils.Floats.Results.{float_result, double_result, cw_unpack_next_float-reads}
use cwpack.Utils.Floats.Packed.{KeepsWidths, IsDoubleCall, IsFloatCall, PacksOne, optimised-Packed}
use cwpack.Utils.Floats.Back.{
  cw_unpack_next_float-cw_pack_float_opt, Returns, cw_unpack_next_double-cw_pack_double_opt,
}
use cwpack.Runs.{x86_matches, static_pack, static_sink, fresh, static_unpack, static_source, packed}

abbrev two : ℕ → ℤ
two bits = if bits == 0x4000_0000_0000_0000 then pos 2 else pos 0

abbrev two_single : ℕ → ℤ
two_single bits = if bits == 0x4000_0000 then pos 2 else pos 0

abbrev narrow : ℕ → ℕ
narrow d =
    if d == 0x4000_0000_0000_0000
    then 0x4000_0000
    else if d == 0x3fe0_0000_0000_0000
    then 0x3f00_0000
    else 0

abbrev widen : ℕ → ℕ
widen f =
    if f == 0x4000_0000
    then 0x4000_0000_0000_0000
    else if f == 0x3f00_0000
    then 0x3fe0_0000_0000_0000
    else 0

abbrev from_integer : ℤ → ℕ
from_integer (pos n) = if n == 2 then 0x4000_0000_0000_0000 else 0
from_integer (negsuc n) = 0

abbrev table : FloatUnit
table = record {
  int_of_double = two;
  int_of_float = two_single;
  int64_of_double = two;
  uint32_of_double = λ d. 0;
  double_of_integer = from_integer;
  float_of_integer = λ i. narrow (from_integer i);
  float_of_double = narrow;
  double_of_float = widen;
  equal_double = λ a b. a == b;
  equal_float = λ a b. a == b;
  floor = λ d. if d == 0x3fe0_0000_0000_0000 then 0 else d;
  add = λ a b. a;
  subtract = λ a b. a;
  multiply = λ a b. a;
  divide = λ a b. a;
}

choice-Fits : (b : Bool) → Fits 32 (if b then pos 2 else pos 0)
choice-Fits true = omega arith
choice-Fits false = omega arith

choice64-Fits : (b : Bool) → Fits 64 (if b then pos 2 else pos 0)
choice64-Fits true = omega arith
choice64-Fits false = omega arith

table-KeepsWidths : KeepsWidths table
table-KeepsWidths = record {
  int_of_double = λ d. choice-Fits (d == 0x4000_0000_0000_0000);
  int_of_float = λ f. choice-Fits (f == 0x4000_0000);
  float_of_double = λ d. ground arith;
  int64_of_double = λ d. choice64-Fits (d == 0x4000_0000_0000_0000);
}

abbrev half : ℕ
half = 0x3fe0_0000_0000_0000

abbrev half_written : PackContext Void
half_written = record fresh {
  buffer = 0xca ∷ 0x3f ∷ 0 ∷ 0 ∷ 0 ∷ 0 ∷ 0 ∷ 0 ∷ 0 ∷ 0 ∷ 0 ∷ 0 ∷ 0 ∷ 0 ∷ 0 ∷ 0 ∷ [];
  current = 5;
}

abbrev half_read : UnpackContext Void
half_read = record packed { buffer = 0xca ∷ 0x3f ∷ 0 ∷ 0 ∷ 0 ∷ [] }

half-written : cw_pack_double_opt table static_pack half fresh ≡ some (tt, half_written)
unfolding cw_pack_double_opt cw_pack_float try_move4 cw_pack_reserve_space write advance overwrite
    unless_stopped cw_store32
half-written = refl

cw_unpack_next_double-cw_pack_double_opt_example :
    (r : ℕ) × Returns static_source half_read (cw_unpack_next_double table static_unpack) r
    × (((r == half) ≡ true) ⊎ (r ≡ half))
unfolding drop take
cw_unpack_next_double-cw_pack_double_opt_example =
    cw_unpack_next_double-cw_pack_double_opt table table-KeepsWidths static_sink static_source
      x86_matches x86_matches fresh half_written half_read
      (record { within = omega arith; holds = refl }) refl refl
      (record { within = omega arith; holds = refl }) refl refl half (omega arith) half-written

cw_unpack_next_float-reads_example :
    Consumes static_source half_read []
      (cw_unpack_next_float table static_unpack)
      (float_result table (meaning (Format.float32 0x3f00_0000)))
    × Consumes static_source half_read []
        (cw_unpack_next_double table static_unpack)
        (double_result table (meaning (Format.float32 0x3f00_0000)))
unfolding bytes drop
cw_unpack_next_float-reads_example =
    cw_unpack_next_float-reads static_source half_read
      (record { within = omega arith; holds = refl }) refl [] x86_matches
      (Format.float32 0x3f00_0000) (omega arith) tt refl table

optimised-Packed_example :
    PacksOne static_sink fresh
      (IsDoubleCall table half)
      (cw_pack_double_opt table static_pack half fresh)
    × PacksOne static_sink fresh
        (IsFloatCall table 0x4000_0000)
        (cw_pack_float_opt table static_pack 0x4000_0000 fresh)
    × Packed static_sink fresh
        (Calls.time (table.int64_of_double (table.floor 0x4000_0000_0000_0000)) (
            nanoseconds table 0x4000_0000_0000_0000
              (table.int64_of_double (table.floor 0x4000_0000_0000_0000)))
          ∷ [])
        (cw_pack_time_interval table static_pack 0x4000_0000_0000_0000 fresh)
optimised-Packed_example =
    optimised-Packed table table-KeepsWidths static_sink x86_matches fresh
      (record { within = omega arith; holds = refl }) half 0x4000_0000 0x4000_0000_0000_0000

abbrev single_half : ℕ
single_half = 0x3f00_0000

single_half-written :
    cw_pack_float_opt table static_pack single_half fresh ≡ some (tt, half_written)
unfolding cw_pack_float_opt cw_pack_float try_move4 cw_pack_reserve_space write advance overwrite
    unless_stopped cw_store32
single_half-written = refl

cw_unpack_next_float-cw_pack_float_opt_example :
    (r : ℕ) × Returns static_source half_read (cw_unpack_next_float table static_unpack) r
    × (((r == single_half) ≡ true) ⊎ (r ≡ single_half))
unfolding drop take
cw_unpack_next_float-cw_pack_float_opt_example =
    cw_unpack_next_float-cw_pack_float_opt table table-KeepsWidths static_sink static_source
      x86_matches x86_matches fresh half_written half_read
      (record { within = omega arith; holds = refl }) refl refl
      (record { within = omega arith; holds = refl }) refl refl single_half (omega arith)
      single_half-written

-- The timestamp of one second.
abbrev second_read : UnpackContext Void
second_read = record packed { buffer = 0xd6 ∷ 0xff ∷ 0 ∷ 0 ∷ 0 ∷ 1 ∷ [] }
