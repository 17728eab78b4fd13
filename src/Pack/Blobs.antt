-- ===== src/Pack/Blobs.antt =====
-- The packing routines of src/cwpack.c for strings, binaries, extensions and timestamps, and those
-- that insert packed bytes and flush. A blob is its bytes, and its length is that of the list.
use cwpack.Prelude.{
  ℕ, ◌+◌, ◌*◌, ◌%◌, ◌^◌, bit_and, bit_or, Bool, not, ◌&&◌, Option, none, some, List, [], ◌∷◌,
  length, take, ltb, leb, ◌==◌, if◌then◌else◌,
}
use cwpack.Prelude.Int.{ℤ, word}
use cwpack.ReturnCode.{rc_illegal_call, rc_value_error, is_error}
use cwpack.Exec.{Void, ◌>>=◌, ◌>>◌, when, function, call}
use cwpack.Wire.{cw_store16, cw_store32, cw_store64}
use cwpack.Pack.{
  PackContext, Platform, Routine, unless_stopped, pack_error, write, cw_pack_reserve_space,
}

-- The value of a `uint32_t` expression.
abbrev uint32 : ℕ → ℕ
uint32 n = n % 2 ^ 32

module _ {W : Type 0} (env : Platform W) where
  unfoldable pub cw_pack_str : List ℕ → PackContext W → Option (Void × PackContext W)
  unfolding unless_stopped write
  cw_pack_str v pc =
      let l = length v in
      function
        (unless_stopped
          >> (if ltb l 32
              then (do
                p ← cw_pack_reserve_space env (l + 1) (uint32 (l + 1))
                write p ((0xa0 + l) % 256 ∷ [])
                write (p + 1) v)
              else if ltb l 256 && not pc.be_compatible
              then (do
                p ← cw_pack_reserve_space env (l + 2) (uint32 (l + 2))
                write p (0xd9 ∷ [])
                write (p + 1) (l % 256 ∷ [])
                write (p + 1 + 1) v)
              else if ltb l 65536
              then (do
                p ← cw_pack_reserve_space env (l + 3) (uint32 (l + 3))
                write p (0xda ∷ [])
                write (p + 1) (cw_store16 env.build l)
                write (p + 1 + 2) v)
              else (do
                p ← cw_pack_reserve_space env (l + 5) (uint32 (l + 5))
                write p (0xdb ∷ [])
                write (p + 1) (cw_store32 env.build l)
                write (p + 1 + 4) v)))
        pc

  -- cw_pack_bin, where `old` is `be_compatible`.
  unfoldable pub bin_body : Bool → List ℕ → Routine W Void
  unfolding write
  bin_body old v =
      let l = length v in
      if old
      then call (cw_pack_str v)
      else if ltb l 256
      then (do
        p ← cw_pack_reserve_space env (l + 2) (uint32 (l + 2))
        write p (0xc4 ∷ [])
        write (p + 1) (l % 256 ∷ [])
        write (p + 1 + 1) v)
      else if ltb l 65536
      then (do
        p ← cw_pack_reserve_space env (l + 3) (uint32 (l + 3))
        write p (0xc5 ∷ [])
        write (p + 1) (cw_store16 env.build l)
        write (p + 1 + 2) v)
      else (do
        p ← cw_pack_reserve_space env (l + 5) (uint32 (l + 5))
        write p (0xc6 ∷ [])
        write (p + 1) (cw_store32 env.build l)
        write (p + 1 + 4) v)

  unfoldable pub cw_pack_bin : List ℕ → PackContext W → Option (Void × PackContext W)
  unfolding unless_stopped bin_body
  cw_pack_bin v pc = function (unless_stopped >> bin_body pc.be_compatible v) pc

  -- The tail of cw_pack_ext, behind its `switch`.
  ext_tail : ℕ → ℤ → List ℕ → Routine W Void
  unfolding write
  ext_tail p type v = do write p (word 8 type ∷ []); write (p + 1) v

  -- The cases 2, 4, 8 and 16 of its `switch`.
  fixext : ℕ → ℕ → ℤ → List ℕ → Routine W Void
  unfolding write ext_tail
  fixext more head type v = do
    p ← cw_pack_reserve_space env more more
    write p (head ∷ [])
    ext_tail (p + 1) type v

  -- The `switch`, with the tail.
  unfoldable pub ext_body : ℤ → List ℕ → Routine W Void
  unfolding write fixext ext_tail
  ext_body type v =
      let l = length v in
      if l == 1
      then (do
        p ← cw_pack_reserve_space env 3 3
        write p (0xd4 ∷ [])
        write (p + 1) (word 8 type ∷ [])
        write (p + 1 + 1) (take 1 v))
      else if l == 2
      then fixext 4 0xd5 type v
      else if l == 4
      then fixext 6 0xd6 type v
      else if l == 8
      then fixext 10 0xd7 type v
      else if l == 16
      then fixext 18 0xd8 type v
      else if ltb l 256
      then (do
        p ← cw_pack_reserve_space env (l + 3) (uint32 (l + 3))
        write p (0xc7 ∷ [])
        write (p + 1) (l % 256 ∷ [])
        ext_tail (p + 1 + 1) type v)
      else if ltb l 65536
      then (do
        p ← cw_pack_reserve_space env (l + 4) (uint32 (l + 4))
        write p (0xc8 ∷ [])
        write (p + 1) (cw_store16 env.build l)
        ext_tail (p + 1 + 2) type v)
      else (do
        p ← cw_pack_reserve_space env (l + 6) (uint32 (l + 6))
        write p (0xc9 ∷ [])
        write (p + 1) (cw_store32 env.build l)
        ext_tail (p + 1 + 4) type v)

  unfoldable pub cw_pack_ext : ℤ → List ℕ → PackContext W → Option (Void × PackContext W)
  unfolding unless_stopped pack_error ext_body
  cw_pack_ext type v pc =
      function
        (do unless_stopped; when pc.be_compatible (pack_error rc_illegal_call); ext_body type v) pc

  -- The three formats of cw_pack_time, where `sec` is `(uint64_t)sec`.
  unfoldable pub time_body : ℕ → ℕ → Routine W Void
  unfolding write
  time_body sec nsec =
      let data64 = bit_or (nsec * 2 ^ 34 % 2 ^ 64) sec in
      if not (bit_and sec 0xffff_fffc_0000_0000 == 0)
      then (do
        p ← cw_pack_reserve_space env 15 15
        write p (0xc7 ∷ [])
        write (p + 1) (12 ∷ [])
        write (p + 1 + 1) (0xff ∷ [])
        write (p + 1 + 1 + 1) (cw_store32 env.build nsec)
        write (p + 1 + 1 + 1 + 4) (cw_store64 env.build sec))
      else if not (bit_and data64 0xffff_ffff_0000_0000 == 0)
      then (do
        p ← cw_pack_reserve_space env 10 10
        write p (0xd7 ∷ [])
        write (p + 1) (0xff ∷ [])
        write (p + 1 + 1) (cw_store64 env.build data64))
      else (do
        p ← cw_pack_reserve_space env 6 6
        write p (0xd6 ∷ [])
        write (p + 1) (0xff ∷ [])
        write (p + 1 + 1) (cw_store32 env.build (uint32 data64)))

  unfoldable pub cw_pack_time : ℤ → ℕ → PackContext W → Option (Void × PackContext W)
  unfolding unless_stopped pack_error time_body
  cw_pack_time sec nsec pc =
      function
        (do
          unless_stopped
          when pc.be_compatible (pack_error rc_illegal_call)
          when (leb 1_000_000_000 nsec) (pack_error rc_value_error)
          time_body (word 64 sec) nsec)
        pc

  -- No test of `return_code` here.
  unfoldable pub cw_pack_insert : List ℕ → PackContext W → Option (Void × PackContext W)
  unfolding write
  cw_pack_insert v = function (do p ← cw_pack_reserve_space env (length v) (length v); write p v)

  unfoldable pub cw_pack_flush : PackContext W → PackContext W
  cw_pack_flush pc = if is_error pc.return_code then pc else elim pc.handle_flush [
    | none ↦ record pc { return_code = rc_illegal_call }
    | some f ↦ let (rc, pc') = env.flush f pc in record pc' { return_code = rc }
  ]
