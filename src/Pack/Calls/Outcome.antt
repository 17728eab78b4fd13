-- ===== src/Pack/Calls/Outcome.antt =====
-- A single call, whatever the routine.
use cwpack.Prelude.{
  ℕ, ◌+◌, ◌^◌, ◌≤◌, ◌<◌, ◌≡◌, refl, ◌∙◌, Bool, true, false, Option, none, some, List, length, leb,
  if◌then◌else◌, arith,
}
use cwpack.Prelude.Int.{ℤ, word}
use cwpack.ReturnCode.{is_error, rc_illegal_call, rc_value_error}
use cwpack.Wire.{byte_order_matches}
use cwpack.Exec.{Void, function, ◌>>◌, when}
use cwpack.Format.{Form, bytes, Fits}
use cwpack.Format.Choice.{timestamp_form}
use cwpack.Pack.{PackContext, Platform, Routine, unless_stopped, pack_error}
use cwpack.Pack.Blobs.{cw_pack_ext, cw_pack_time, ext_body, time_body}
use cwpack.Pack.Emit.{append, guarded}
use cwpack.Pack.Encode.Numbers.{
  cw_pack_unsigned-append, cw_pack_signed-append, fixed-append, cw_pack_array_size-append,
  cw_pack_map_size-append,
}
use cwpack.Pack.Encode.Strings.{cw_pack_str-append, cw_pack_bin-append}
use cwpack.Pack.Encode.Extensions.{cw_pack_ext-append, when-false}
use cwpack.Pack.Encode.Time.{cw_pack_time-append}
use cwpack.Pack.Calls.{
  Call, unsigned, signed, float, double, nil_call, boolean, array_size, map_size, str, bin, ext,
  time, IsCall, call_form, run_call,
}

module _ {W : Type 0} (env : Platform W) where
  -- A call packs the bytes of its form, or is refused with an error code.
  abbrev pub Outcome : Call → PackContext W → Option Form → Type 0
  Outcome c pc (some f) = run_call env c pc ≡ append env (bytes f) pc
  Outcome c pc none =
      (code : ℤ) × (is_error code ≡ true)
      × (run_call env c pc ≡ (
          if is_error pc.return_code
          then some (tt, pc)
          else some (tt, record pc { return_code = code })))

  module _ (matches : byte_order_matches env.build ≡ true) (pc : PackContext W)
      (within : pc.current ≤ length pc.buffer) where
    refused :
        (code : ℤ) (m : Routine W Void) (b : Bool)
        → b ≡ true
        → function (unless_stopped >> (when b (pack_error code) >> m)) pc ≡ (
            if is_error pc.return_code
            then some (tt, pc)
            else some (tt, record pc { return_code = code }))
    unfolding unless_stopped pack_error
    refused code m true e = ground arith
    refused code m false e = cc

    ext_call :
        (t : ℤ) (v : List ℕ) (old : Bool)
        → length v + 6 < 2 ^ 32
        → pc.be_compatible ≡ old
        → Outcome (ext t v) pc (call_form old (ext t v))
    unfolding run_call
    ext_call t v false h e = cw_pack_ext-append env matches pc e t v h
    ext_call t v true h e = (
      rc_illegal_call,
      refl,
      unfold cw_pack_ext in refused rc_illegal_call (ext_body env t v) pc.be_compatible e,
    )

    late :
        (sec : ℤ) (nsec : ℕ) (b : Bool)
        → pc.be_compatible ≡ false
        → leb 1_000_000_000 nsec ≡ b
        → Fits 64 sec
        → Outcome (time sec nsec) pc (if b then none else some (timestamp_form sec nsec))
    unfolding run_call
    late sec nsec false new e h = cw_pack_time-append env matches pc sec nsec new h (ground arith)
    late sec nsec true new e h = (
      rc_value_error,
      refl,
      unfold cw_pack_time in
          (guarded env _ _ pc (
              when-false pc.be_compatible rc_illegal_call
                (when (leb 1_000_000_000 nsec) (pack_error rc_value_error)
                  >> time_body env (word 64 sec) nsec)
                pc new)
            ∙ refused rc_value_error (time_body env (word 64 sec) nsec) (leb 1_000_000_000 nsec) e),
    )

    time_call :
        (sec : ℤ) (nsec : ℕ) (old : Bool)
        → Fits 64 sec
        → pc.be_compatible ≡ old
        → Outcome (time sec nsec) pc (call_form old (time sec nsec))
    unfolding run_call
    time_call sec nsec false h e = late sec nsec (leb 1_000_000_000 nsec) e refl h
    time_call sec nsec true h e = (
      rc_illegal_call,
      refl,
      unfold cw_pack_time in
          refused rc_illegal_call
            (when (leb 1_000_000_000 nsec) (pack_error rc_value_error)
              >> time_body env (word 64 sec) nsec)
            pc.be_compatible e,
    )

    -- Every call of a packing routine packs the bytes of its form, or is refused with an error.
    pub outcome : (c : Call) → IsCall c → Outcome c pc (call_form pc.be_compatible c)
    unfolding run_call
    outcome (unsigned n) h = cw_pack_unsigned-append env matches pc within n
    outcome (signed i) h = cw_pack_signed-append env matches pc within i h
    outcome (float f) h = (fixed-append env matches pc within f 0 true).0
    outcome (double d) h = (fixed-append env matches pc within 0 d true).1
    outcome nil_call h = (fixed-append env matches pc within 0 0 true).2
    outcome (boolean b) h = (fixed-append env matches pc within 0 0 b).5
    outcome (array_size n) h = cw_pack_array_size-append env matches pc within n
    outcome (map_size n) h = cw_pack_map_size-append env matches pc within n
    outcome (str v) h = cw_pack_str-append env matches v (omega arith) pc
    outcome (bin v) h = cw_pack_bin-append env matches v (omega arith) pc
    outcome (ext t v) h = ext_call t v pc.be_compatible h refl
    outcome (time sec nsec) h = time_call sec nsec pc.be_compatible h refl
