-- ===== src/Pack/Calls.antt =====
-- Sequences of calls of the packing routines, as a program makes them that looks at `return_code`
-- only in the end.
pub mod Outcome
pub mod Stopped
pub mod Output
pub mod Shortest
use cwpack.Prelude.{
  ℕ, ◌+◌, ◌*◌, ◌^◌, ◌≤◌, ◌<◌, ◌≡◌, refl, sym, ap, ◌∙◌, ◌⊎◌, inl, inr, Bool, true, false, Option,
  none, some, List, [], ◌∷◌, ◌++◌, append_assoc, append-nil, length, take, ltb, leb, ◌==◌,
  if◌then◌else◌, Bool-cases, arith,
}
use cwpack.Prelude.Int.{ℤ, word}
use cwpack.ReturnCode.{is_error, rc_illegal_call, rc_value_error}
use cwpack.Wire.{byte_order_matches}
use cwpack.Exec.{Void, function, ◌>>◌, when}
use cwpack.Format.{Form, bytes, nil, bool, float32, float64, Fits}
use cwpack.Format.Choice.{
  unsigned_form, signed_form, array_form, map_form, string_form, binary_form, extension_form,
  timestamp_form,
}
use cwpack.Pack.{PackContext, Platform, Routine, unless_stopped, pack_error}
use cwpack.Pack.Numbers.{
  cw_pack_unsigned, cw_pack_signed, cw_pack_float, cw_pack_double, cw_pack_nil, cw_pack_boolean,
  cw_pack_array_size, cw_pack_map_size,
}
use cwpack.Pack.Blobs.{cw_pack_str, cw_pack_bin, cw_pack_ext, cw_pack_time, ext_body, time_body}
use cwpack.Pack.Emit.{append, guarded}
use cwpack.Pack.Encode.Numbers.{
  cw_pack_unsigned-append, cw_pack_signed-append, fixed-append, cw_pack_array_size-append,
  cw_pack_map_size-append,
}
use cwpack.Pack.Encode.Strings.{cw_pack_str-append, cw_pack_bin-append}
use cwpack.Pack.Encode.Extensions.{cw_pack_ext-append, when-false}
use cwpack.Pack.Encode.Time.{cw_pack_time-append}
use cwpack.Pack.Sink.{Sink, IsOpen, Appended, output, append-Appended}

-- A call, with its arguments.
pub data Call : Type 0 where
  unsigned : ℕ → Call
  signed : ℤ → Call
  float double : ℕ → Call
  nil_call : Call
  boolean : Bool → Call
  array_size map_size : ℕ → Call
  str bin : List ℕ → Call
  ext : ℤ → List ℕ → Call
  time : ℤ → ℕ → Call

-- The arguments are of their C types, and a blob is short enough for `length + 6` to be a
-- `uint32_t`.
abbrev pub IsCall : Call → Type 0
IsCall (signed i) = Fits 64 i
IsCall (str v) = length v + 6 < 2 ^ 32
IsCall (bin v) = length v + 6 < 2 ^ 32
IsCall (ext t v) = length v + 6 < 2 ^ 32
IsCall (time sec nsec) = Fits 64 sec
IsCall c = Unit {0}

-- The form that a call packs, or none if it is refused. `old` is the compatibility mode.
abbrev pub call_form : Bool → Call → Option Form
call_form old (unsigned n) = some (unsigned_form n)
call_form old (signed i) = some (signed_form i)
call_form old (float f) = some (float32 f)
call_form old (double d) = some (float64 d)
call_form old nil_call = some nil
call_form old (boolean b) = some (bool b)
call_form old (array_size n) = some (array_form n)
call_form old (map_size n) = some (map_form n)
call_form old (str v) = some (string_form old v)
call_form old (bin v) = some (binary_form old v)
call_form old (ext t v) = if old then none else some (extension_form t v)
call_form old (time sec nsec) =
    if old then none else if leb 1_000_000_000 nsec then none else some (timestamp_form sec nsec)

-- The bytes of a sequence of calls, if none is refused.
unfoldable pub payload : Bool → List Call → Option (List ℕ)
payload old [] = some []
payload old (c ∷ cs) = elim (call_form old c) [
  | none ↦ none
  | some f ↦ elim (payload old cs) [ none ↦ none | some bs ↦ some (bytes f ++ bs) ]
]

module _ {W : Type 0} (env : Platform W) where
  unfoldable pub run_call : Call → PackContext W → Option (Void × PackContext W)
  run_call (unsigned n) = cw_pack_unsigned env n
  run_call (signed i) = cw_pack_signed env i
  run_call (float f) = cw_pack_float env f
  run_call (double d) = cw_pack_double env d
  run_call nil_call = cw_pack_nil env
  run_call (boolean b) = cw_pack_boolean env b
  run_call (array_size n) = cw_pack_array_size env n
  run_call (map_size n) = cw_pack_map_size env n
  run_call (str v) = cw_pack_str env v
  run_call (bin v) = cw_pack_bin env v
  run_call (ext t v) = cw_pack_ext env t v
  run_call (time sec nsec) = cw_pack_time env sec nsec

  unfoldable pub run_calls : List Call → PackContext W → Option (Void × PackContext W)
  run_calls [] pc = some (tt, pc)
  run_calls (c ∷ cs) pc = elim (run_call c pc) [ none ↦ none | some (_, pc') ↦ run_calls cs pc' ]
