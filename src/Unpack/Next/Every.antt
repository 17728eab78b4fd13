-- ===== src/Unpack/Next/Every.antt =====
-- cw_unpack_next on every item of the format but timestamps.
use cwpack.Prelude.{ℕ, ◌≡◌, true, false, some, List, ◌++◌}
use cwpack.ReturnCode.{is_error}
use cwpack.Wire.{byte_order_matches}
use cwpack.Format
use cwpack.Format.{Form, Value, bytes, InRange, meaning}
use cwpack.Unpack.{UnpackContext, Platform}
use cwpack.Unpack.Source.{Source, IsReady, input}
use cwpack.Unpack.Next.{is_timestamp, cw_unpack_next}
use cwpack.Unpack.Next.Items.{IsItem, At}
use cwpack.Unpack.Next.Reading.{reads_nil, reads_bool, reads_fix}
use cwpack.Unpack.Next.Words.{reads_unsigned, reads_float, reads_array, reads_map}
use cwpack.Unpack.Next.Signed.{reads_signed}
use cwpack.Unpack.Next.Blobs.{reads_string, reads_binary, reads_fixstr}
use cwpack.Unpack.Next.Extensions.{reads_ext, reads_fixext}

-- The type of an extension is not the one of timestamps.
abbrev pub IsPlain : Form → Type 0
IsPlain (Format.fixext t v) = is_timestamp t ≡ false
IsPlain (Format.ext8 t v) = is_timestamp t ≡ false
IsPlain (Format.ext16 t v) = is_timestamp t ≡ false
IsPlain (Format.ext32 t v) = is_timestamp t ≡ false
IsPlain other = Unit {0}

module _ {W : Type 0} {env : Platform W} (s : Source env) (uc : UnpackContext W)
    (ready : IsReady s uc) (ok : is_error uc.return_code ≡ false) (rest : List ℕ)
    (matches : byte_order_matches env.build ≡ true) where
  -- Where the input starts with the bytes of an item in any form of the format but a timestamp,
  -- cw_unpack_next returns. The item in the context is the one that the form means, the rest of the
  -- input is left, and the return code is as before, whatever chunks the underflow handler brings the
  -- input in.
  pub cw_unpack_next-reads :
      (f : Form)
      → InRange f
      → IsPlain f
      → input s.pending uc ≡ bytes f ++ rest
      → (uc' : UnpackContext W) × (cw_unpack_next env uc ≡ some (tt, uc'))
        × At s rest uc.return_code uc'
        × IsItem uc' (meaning f)
  unfolding meaning
  cw_unpack_next-reads Format.nil h p i = reads_nil s uc ready ok rest matches i
  cw_unpack_next-reads (Format.bool b) h p i = reads_bool s uc ready ok rest matches b i
  cw_unpack_next-reads (Format.positive_fixint n) h p i =
      (reads_fix s uc ready ok rest matches n).0 h i
  cw_unpack_next-reads (Format.negative_fixint n) h p i =
      (reads_fix s uc ready ok rest matches n).1 h i
  cw_unpack_next-reads (Format.uint8 n) h p i = (reads_unsigned s uc ready ok rest matches n).0 h i
  cw_unpack_next-reads (Format.uint16 n) h p i = (reads_unsigned s uc ready ok rest matches n).1 h i
  cw_unpack_next-reads (Format.uint32 n) h p i = (reads_unsigned s uc ready ok rest matches n).2 h i
  cw_unpack_next-reads (Format.uint64 n) h p i = (reads_unsigned s uc ready ok rest matches n).3 h i
  cw_unpack_next-reads (Format.int8 z) h p i = (reads_signed s uc ready ok rest matches z).0 h i
  cw_unpack_next-reads (Format.int16 z) h p i = (reads_signed s uc ready ok rest matches z).1 h i
  cw_unpack_next-reads (Format.int32 z) h p i = (reads_signed s uc ready ok rest matches z).2 h i
  cw_unpack_next-reads (Format.int64 z) h p i = (reads_signed s uc ready ok rest matches z).3 h i
  cw_unpack_next-reads (Format.float32 n) h p i = (reads_float s uc ready ok rest matches n).0 h i
  cw_unpack_next-reads (Format.float64 n) h p i = (reads_float s uc ready ok rest matches n).1 h i
  cw_unpack_next-reads (Format.fixstr v) (h, hb) p i = reads_fixstr s uc ready ok rest matches v h i
  cw_unpack_next-reads (Format.str8 v) (h, hb) p i =
      (reads_string s uc ready ok rest matches v).0 h i
  cw_unpack_next-reads (Format.str16 v) (h, hb) p i =
      (reads_string s uc ready ok rest matches v).1 h i
  cw_unpack_next-reads (Format.str32 v) (h, hb) p i =
      (reads_string s uc ready ok rest matches v).2 h i
  cw_unpack_next-reads (Format.bin8 v) (h, hb) p i =
      (reads_binary s uc ready ok rest matches v).0 h i
  cw_unpack_next-reads (Format.bin16 v) (h, hb) p i =
      (reads_binary s uc ready ok rest matches v).1 h i
  cw_unpack_next-reads (Format.bin32 v) (h, hb) p i =
      (reads_binary s uc ready ok rest matches v).2 h i
  cw_unpack_next-reads (Format.fixarray n) h p i = (reads_fix s uc ready ok rest matches n).2 h i
  cw_unpack_next-reads (Format.array16 n) h p i = (reads_array s uc ready ok rest matches n).0 h i
  cw_unpack_next-reads (Format.array32 n) h p i = (reads_array s uc ready ok rest matches n).1 h i
  cw_unpack_next-reads (Format.fixmap n) h p i = (reads_fix s uc ready ok rest matches n).3 h i
  cw_unpack_next-reads (Format.map16 n) h p i = (reads_map s uc ready ok rest matches n).0 h i
  cw_unpack_next-reads (Format.map32 n) h p i = (reads_map s uc ready ok rest matches n).1 h i
  cw_unpack_next-reads (Format.fixext t v) (ht, hv, hb) p i =
      reads_fixext s uc ready ok rest t ht p v hv i
  cw_unpack_next-reads (Format.ext8 t v) (ht, hv, hb) p i =
      (reads_ext s uc ready ok rest t ht p v matches).0 hv i
  cw_unpack_next-reads (Format.ext16 t v) (ht, hv, hb) p i =
      (reads_ext s uc ready ok rest t ht p v matches).1 hv i
  cw_unpack_next-reads (Format.ext32 t v) (ht, hv, hb) p i =
      (reads_ext s uc ready ok rest t ht p v matches).2 hv i
