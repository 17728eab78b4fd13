-- ===== src/Pack/Calls/Stopped.antt =====
-- Calls on a context that has an error.
use cwpack.Prelude.{◌≡◌, refl, true, some, List, [], ◌∷◌}
use cwpack.ReturnCode.{is_error}
use cwpack.Pack.{PackContext, Platform}
use cwpack.Pack.Numbers.{
  cw_pack_unsigned, cw_pack_signed, cw_pack_float, cw_pack_double, cw_pack_nil, cw_pack_boolean,
  cw_pack_array_size, cw_pack_map_size,
}
use cwpack.Pack.Blobs.{cw_pack_str, cw_pack_bin, cw_pack_ext, cw_pack_time}
use cwpack.Pack.Calls.{
  Call, unsigned, signed, float, double, nil_call, boolean, array_size, map_size, str, bin, ext,
  time, run_call, run_calls,
}

module _ {W : Type 0} (env : Platform W) (pc : PackContext W)
    (stopped : is_error pc.return_code ≡ true) where
  pub run_call-stopped : (c : Call) → run_call env c pc ≡ some (tt, pc)
  unfolding run_call cw_pack_unsigned cw_pack_signed cw_pack_float cw_pack_double cw_pack_nil
      cw_pack_boolean cw_pack_array_size cw_pack_map_size cw_pack_str cw_pack_bin cw_pack_ext
      cw_pack_time
  run_call-stopped (unsigned n) = rw stopped
  run_call-stopped (signed i) = rw stopped
  run_call-stopped (float f) = rw stopped
  run_call-stopped (double d) = rw stopped
  run_call-stopped nil_call = rw stopped
  run_call-stopped (boolean b) = rw stopped
  run_call-stopped (array_size n) = rw stopped
  run_call-stopped (map_size n) = rw stopped
  run_call-stopped (str v) = rw stopped
  run_call-stopped (bin v) = rw stopped
  run_call-stopped (ext t v) = rw stopped
  run_call-stopped (time sec nsec) = rw stopped

  -- Once a context has an error, later calls of the packing routines other than cw_pack_insert leave it
  -- as it is.
  pub run_calls-stopped : (cs : List Call) → run_calls env cs pc ≡ some (tt, pc)
  unfolding run_calls
  run_calls-stopped [] = refl
  run_calls-stopped (c ∷ cs) = rw (run_call-stopped c, run_calls) (run_calls-stopped cs)
