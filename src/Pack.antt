-- ===== src/Pack.antt =====
-- The pack context of src/cwpack.h, and the macros of src/cwpack_internals.h that the packing
-- routines are made of.
pub mod Numbers
pub mod Blobs
pub mod Memory
pub mod Emit
pub mod Encode
pub mod Sink
pub mod Calls
use cwpack.Prelude.{
  ℕ, zero, suc, ◌+◌, ◌%◌, ◌^◌, Bool, true, false, Option, none, some, List, [], ◌∷◌, ◌++◌, length,
  take, drop, ltb, leb, ◌==◌, if◌then◌else◌,
}
use cwpack.Prelude.Int.{ℤ}
use cwpack.ReturnCode.{rc_ok, rc_buffer_overflow, rc_wrong_byte_order, is_error}
use cwpack.Wire.{Build, cw_store16, cw_store32, cw_store64, byte_order_matches}
use cwpack.Exec.{
  Exec, continue, returned, fault, Body, Void, and_then, ◌>>=◌, ◌>>◌, pure, skip, give, get, modify,
  when,
}

-- struct cw_pack_context. `buffer` is the memory from `start` up to `end`, and `current` the offset
-- of the pointer `current` from `start`. A handler is its address, with `none` for NULL. `outer` is
-- what a handler reaches besides: the struct that encloses the context, files, the heap.
pub record PackContext (W : Type 0) : Type 0 where
  pub buffer : List ℕ
  pub current : ℕ
  pub be_compatible : Bool
  pub return_code : ℤ
  pub err_no : ℤ
  pub handle_pack_overflow : Option ℕ
  pub handle_flush : Option ℕ
  pub outer : W

-- The configuration, and the handler at each address.
pub record Platform (W : Type 0) : Type 0 where
  pub build : Build
  pub pack_overflow : ℕ → PackContext W → ℕ → ℤ × PackContext W
  pub flush : ℕ → PackContext W → ℤ × PackContext W

-- A packing routine.
abbrev pub Routine : Type 0 → Type 0 → Type 0
Routine W A = Body (PackContext W) Void A

-- `bs` in place of what the buffer holds from `p` on.
unfoldable pub overwrite : List ℕ → ℕ → List ℕ → List ℕ
overwrite [] p bs = []
overwrite (x ∷ xs) zero [] = x ∷ xs
overwrite (x ∷ xs) zero (b ∷ bs) = b ∷ overwrite xs zero bs
overwrite (x ∷ xs) (suc p) bs = x ∷ overwrite xs p bs

-- test_byte_order
unfoldable pub test_byte_order : Build → ℤ
test_byte_order b = if byte_order_matches b then rc_ok else rc_wrong_byte_order

-- The C heap gives `data` as a block of bytes.
unfoldable pub cw_pack_context_init :
    {W : Type 0} → Build → List ℕ → Option ℕ → W → ℤ × PackContext W
unfolding test_byte_order
cw_pack_context_init b memory hpo outer =
    let rc = test_byte_order b in
    (
      rc,
      record {
        buffer = memory;
        current = 0;
        be_compatible = false;
        return_code = rc;
        err_no = rc_ok;
        handle_pack_overflow = hpo;
        handle_flush = none;
        outer = outer;
      },
    )

pub cw_pack_set_compatibility : {W : Type 0} → PackContext W → Bool → PackContext W
cw_pack_set_compatibility pc be_compatible = record pc { be_compatible = be_compatible }

unfoldable pub cw_pack_set_flush_handler : {W : Type 0} → PackContext W → ℕ → PackContext W
cw_pack_set_flush_handler pc handle_flush = record pc { handle_flush = some handle_flush }

module _ {W : Type 0} where
  -- PACK_ERROR
  unfoldable pub pack_error : {A : Type 0} → ℤ → Routine W A
  pack_error code pc = returned tt (record pc { return_code = code })

  -- `if (pack_context->return_code) return;`
  unfoldable pub unless_stopped : Routine W Void
  unless_stopped pc = if is_error pc.return_code then returned tt pc else continue tt pc

  -- Stores through `p`, `p + 1` and so on. Outside of the buffer that is undefined behaviour.
  unfoldable pub write : ℕ → List ℕ → Routine W Void
  unfolding overwrite
  write p bs pc =
      if leb (p + length bs) (length pc.buffer)
      then continue tt (record pc { buffer = overwrite pc.buffer p bs })
      else fault

  -- `current = p + more`, with the old `current` as the result.
  unfoldable pub advance : ℕ → Routine W ℕ
  advance more pc = continue pc.current (record pc { current = pc.current + more })

module _ {W : Type 0} (env : Platform W) where
  -- cw_pack_new_buffer
  unfoldable pub cw_pack_new_buffer : ℕ → Routine W Void
  unfolding pack_error
  cw_pack_new_buffer more pc = elim pc.handle_pack_overflow [
    | none ↦ pack_error rc_buffer_overflow pc
    | some f ↦
        let (rc, pc') = env.pack_overflow f pc more in
        if is_error rc then pack_error rc pc' else continue tt pc'
  ]

  -- cw_pack_reserve_space. The sum `p + more` is one of pointers, while the handler is given the
  -- value of `more` in the type of that expression: `asked`.
  unfoldable pub cw_pack_reserve_space : (more asked : ℕ) → Routine W ℕ
  unfolding cw_pack_new_buffer advance
  cw_pack_reserve_space more asked pc =
      (when (ltb (length pc.buffer) (pc.current + more)) (cw_pack_new_buffer asked) >> advance more)
        pc

  -- tryMove0 .. tryMove8
  unfoldable pub try_move0 : ℕ → Routine W Void
  unfolding cw_pack_new_buffer advance write
  try_move0 t pc =
      (do
        when (pc.current == length pc.buffer) (cw_pack_new_buffer 1)
        p ← advance 1
        write p (t % 256 ∷ []))
        pc

  unfoldable pub try_move1 : ℕ → ℕ → Routine W Void
  unfolding cw_pack_reserve_space write
  try_move1 t d = do p ← cw_pack_reserve_space 2 2; write p (t ∷ []); write (p + 1) (d % 256 ∷ [])

  unfoldable pub try_move2 : ℕ → ℕ → Routine W Void
  unfolding cw_pack_reserve_space write
  try_move2 t d = do
    p ← cw_pack_reserve_space 3 3
    write p (t ∷ [])
    write (p + 1) (cw_store16 env.build d)

  unfoldable pub try_move4 : ℕ → ℕ → Routine W Void
  unfolding cw_pack_reserve_space write
  try_move4 t d = do
    p ← cw_pack_reserve_space 5 5
    write p (t ∷ [])
    write (p + 1) (cw_store32 env.build d)

  unfoldable pub try_move8 : ℕ → ℕ → Routine W Void
  unfolding cw_pack_reserve_space write
  try_move8 t d = do
    p ← cw_pack_reserve_space 9 9
    write p (t ∷ [])
    write (p + 1) (cw_store64 env.build d)
