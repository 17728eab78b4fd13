-- ===== src/Utils/Floats/Results.antt =====
-- What the routines that expect a float or a double give for each form of the format.
use cwpack.Prelude.{ℕ, ◌^◌, ◌<◌, ◌≡◌, refl, true, false, Option, none, some, List, ◌++◌, arith}
use cwpack.Prelude.Int.{ℤ, pos, negsuc, word, signed}
use cwpack.ReturnCode.{rc_type_error, is_error}
use cwpack.Wire.{byte_order_matches}
use cwpack.Format
use cwpack.Format.{Form, Value, bytes, InRange, meaning}
use cwpack.Unpack.{UnpackContext, Platform, stop}
use cwpack.Unpack.Source.{Source, IsReady, input}
use cwpack.Unpack.Next.Items.{IsItem}
use cwpack.Unpack.Next.Every.{IsPlain}
use cwpack.Utils.{with_word}
use cwpack.Utils.Results.{IsWire, meaning-IsWire, Expects, user_type}
use cwpack.Utils.Expected.{Consumes, next_expected}
use cwpack.Utils.Floats.{
  FloatUnit, with_real, float_body, double_body, cw_unpack_next_float, cw_unpack_next_double,
}

signed64_word : (n : ℕ) → n < 2 ^ 63 → signed 64 (word 64 (negsuc n)) ≡ negsuc n
signed64_word n h = ground arith

module _ (unit : FloatUnit) where
  -- The result, and the error if there is one.
  abbrev pub float_result : Value → ℕ × Option ℤ
  float_result (Format.integer z) = (unit.float_of_integer z, none)
  float_result (Format.single f) = (f, none)
  float_result (Format.double d) = (unit.float_of_double d, none)
  float_result other = (0, some rc_type_error)

  abbrev pub double_result : Value → ℕ × Option ℤ
  double_result (Format.integer z) = (unit.double_of_integer z, none)
  double_result (Format.single f) = (unit.double_of_float f, none)
  double_result (Format.double d) = (d, none)
  double_result other = (0, some rc_type_error)

  module _ {W : Type 0} (uc : UnpackContext W) where
    pub floats_after :
        (v : Value)
        → IsWire v
        → IsItem uc v
        → Expects (float_body unit) uc (float_result v)
          × Expects (double_body unit) uc (double_result v)
    unfolding float_body double_body with_word with_real stop
    floats_after (Format.integer (pos n)) h (t, x) = rw t (rw x (cc, cc))
    floats_after (Format.integer (negsuc n)) h (t, x) =
        rw t (rw x (rw (signed64_word n h) (cc, cc)))
    floats_after (Format.single f) h (t, x) = rw t (rw x (cc, cc))
    floats_after (Format.double d) h (t, x) = rw t (rw x (cc, cc))
    floats_after Format.nil h i = rw i (refl, refl)
    floats_after (Format.boolean b) h (t, x) = rw t (refl, refl)
    floats_after (Format.string v) h (t, x) = rw t (refl, refl)
    floats_after (Format.binary v) h (t, x) = rw t (refl, refl)
    floats_after (Format.array n) h (t, x) = rw t (refl, refl)
    floats_after (Format.map n) h (t, x) = rw t (refl, refl)
    floats_after (Format.extension t v) h (ty, x) = rw (user_type uc t 2 h ty) (
        rw (user_type uc t 3 h ty)
          (rw (user_type uc t 4 h ty) (rw (user_type uc t 5 h ty) (refl, refl))))

module _ {W : Type 0} {env : Platform W} (s : Source env) (uc : UnpackContext W)
    (ready : IsReady s uc) (ok : is_error uc.return_code ≡ false) (rest : List ℕ)
    (matches : byte_order_matches env.build ≡ true) (f : Form) (range : InRange f)
    (plain : IsPlain f) (i : input s.pending uc ≡ bytes f ++ rest) where
  -- On an item in any form but a timestamp, cw_unpack_next_float and cw_unpack_next_double consume
  -- the item and give the conversion of its integer, its float or its double. Anything else gives 0
  -- with a type error.
  pub cw_unpack_next_float-reads :
      (unit : FloatUnit)
      → Consumes s uc rest (cw_unpack_next_float unit env) (float_result unit (meaning f))
        × Consumes s uc rest (cw_unpack_next_double unit env) (double_result unit (meaning f))
  unfolding cw_unpack_next_float cw_unpack_next_double
  cw_unpack_next_float-reads unit = (
    next_expected s uc ready ok rest matches f range plain i 0 (float_body unit) _
        (λ uc' it. (floats_after unit uc' (meaning f) (meaning-IsWire f range) it).0),
    next_expected s uc ready ok rest matches f range plain i 0 (double_body unit) _
        (λ uc' it. (floats_after unit uc' (meaning f) (meaning-IsWire f range) it).1),
  )
