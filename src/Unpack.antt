-- ===== src/Unpack.antt =====
-- The unpack context of src/cwpack.h, and the macros of src/cwpack_internals.h that the unpacking
-- routines are made of.
pub mod Next
pub mod Skip
pub mod LookAhead
pub mod Source
pub mod Safety
use cwpack.Prelude.{
  ℕ, zero, suc, ◌+◌, ◌-◌, ◌%◌, ◌^◌, Bool, true, false, Option, none, some, List, [], ◌∷◌, length,
  take, drop, ltb, leb, if◌then◌else◌,
}
use cwpack.Prelude.Int.{ℤ, pos, negsuc, signed}
use cwpack.ReturnCode.{rc_ok, rc_end_of_input, rc_buffer_underflow, is_error}
use cwpack.Wire.{Build, cw_load16, cw_load32, cw_load64}
use cwpack.Exec.{
  Exec, continue, returned, fault, Body, Void, and_then, ◌>>=◌, ◌>>◌, pure, skip, get, modify, when,
}
use cwpack.Pack.{test_byte_order}

-- cwpack_item_types: the type of an extension is its number, and the others follow.
abbrev pub item_timestamp : ℤ
item_timestamp = negsuc 0

abbrev pub item_nil : ℤ
item_nil = pos 300

abbrev pub item_boolean : ℤ
item_boolean = pos 301

abbrev pub item_positive_integer : ℤ
item_positive_integer = pos 302

abbrev pub item_negative_integer : ℤ
item_negative_integer = pos 303

abbrev pub item_float : ℤ
item_float = pos 304

abbrev pub item_double : ℤ
item_double = pos 305

abbrev pub item_str : ℤ
item_str = pos 306

abbrev pub item_bin : ℤ
item_bin = pos 307

abbrev pub item_array : ℤ
item_array = pos 308

abbrev pub item_map : ℤ
item_map = pos 309

abbrev pub item_ext : ℤ
item_ext = pos 310

abbrev pub not_an_item : ℤ
not_an_item = pos 999

-- The union of cwpack_item, by the member that was written last. `word64` is `u64`, `i64` and
-- `long_real`, which are the same 64 bits; `real` is 32 bits. The start of a blob is its offset from
-- the start of the buffer.
pub data As : Type 0 where
  boolean : Bool → As
  word64 : ℕ → As
  real : ℕ → As
  array map : ℕ → As
  blob : ℕ → ℕ → As
  time : ℤ → ℕ → As

pub record Item : Type 0 where
  pub type : ℤ
  pub value : As

-- struct cw_unpack_context. `buffer` is the memory from `start` up to `end`, and `current` is an
-- offset from `start`. See Pack for the handler and for `outer`.
pub record UnpackContext (W : Type 0) : Type 0 where
  pub item : Item
  pub buffer : List ℕ
  pub current : ℕ
  pub return_code : ℤ
  pub err_no : ℤ
  pub handle_unpack_underflow : Option ℕ
  pub outer : W

pub record Platform (W : Type 0) : Type 0 where
  pub build : Build
  pub unpack_underflow : ℕ → UnpackContext W → ℕ → ℤ × UnpackContext W

-- An unpacking routine that returns an `R`.
abbrev pub Routine : Type 0 → Type 0 → Type 0 → Type 0
Routine W R A = Body (UnpackContext W) R A

-- The item is what the memory of the context held before; the code leaves it alone.
unfoldable pub cw_unpack_context_init :
    {W : Type 0} → Build → Item → List ℕ → Option ℕ → W → ℤ × UnpackContext W
unfolding test_byte_order
cw_unpack_context_init b item memory huu outer =
    let rc = test_byte_order b in
    (
      rc,
      record {
        item = item;
        buffer = memory;
        current = 0;
        return_code = rc;
        err_no = rc_ok;
        handle_unpack_underflow = huu;
        outer = outer;
      },
    )

module _ {W R : Type 0} where
  -- UNPACK_ERROR_SUB, where `abort` is the value that the function returns.
  unfoldable pub unpack_error : {A : Type 0} → R → ℤ → Routine W R A
  unpack_error abort code uc = returned abort (record uc {
    item = record { type = not_an_item; value = uc.item.value };
    return_code = code;
  })

  -- `return_code = code; return result;`
  unfoldable pub stop : {A : Type 0} → R → ℤ → Routine W R A
  stop result code uc = returned result (record uc { return_code = code })

  -- `if (unpack_context->return_code) return abort;`
  unfoldable pub unless_stopped : R → Routine W R Void
  unless_stopped abort uc = if is_error uc.return_code then returned abort uc else continue tt uc

  -- `n` bytes at `p`. Outside of the buffer that is undefined behaviour.
  unfoldable pub read : ℕ → ℕ → Routine W R (List ℕ)
  read p n uc =
      if leb (p + n) (length uc.buffer) then continue (take n (drop p uc.buffer)) uc else fault

  -- `current = p + more`, with `p` as the result.
  unfoldable pub advance : ℕ → Routine W R ℕ
  advance more uc = continue uc.current (record uc { current = uc.current + more })

  unfoldable pub set_type : ℤ → Routine W R Void
  set_type type uc =
      continue tt (record uc { item = record { type = type; value = uc.item.value } })

  unfoldable pub set_as : (As → As) → Routine W R Void
  set_as f uc =
      continue tt (record uc { item = record { type = uc.item.type; value = f uc.item.value } })

module _ {W R : Type 0} (env : Platform W) (abort : R) where
  -- The handler's part of cw_unpack_assert_space_sub. `buffer_end` is `buffer_end_return_code`.
  unfoldable pub refill : ℤ → ℕ → Routine W R Void
  unfolding unpack_error
  refill buffer_end more uc = elim uc.handle_unpack_underflow [
    | none ↦ unpack_error abort buffer_end uc
    | some f ↦
        let (rc, uc') = env.unpack_underflow f uc more in
        elim rc [
          | pos zero ↦ continue tt uc'
          | pos (suc n) ↦ unpack_error abort (pos (suc n)) uc'
          | negsuc zero ↦ unpack_error abort buffer_end uc'
          | negsuc (suc n) ↦ unpack_error abort (negsuc (suc n)) uc'
        ]
  ]

  -- cw_unpack_assert_space_sub. The handler is given `more` too: it is a `long` or fits one.
  unfoldable pub cw_unpack_assert_space : ℤ → ℕ → Routine W R ℕ
  unfolding refill advance
  cw_unpack_assert_space buffer_end more uc =
      (when (ltb (length uc.buffer) (uc.current + more)) (refill buffer_end more) >> advance more)
        uc

  -- An assertion and the bytes it is for.
  unfoldable pub take_bytes : ℕ → Routine W R (List ℕ)
  unfolding cw_unpack_assert_space read
  take_bytes n = do p ← cw_unpack_assert_space rc_buffer_underflow n; read p n
