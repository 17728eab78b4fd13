-- ===== src/Utils/Floats/Packed.antt =====
-- The optimised packing of floats and doubles, and of time intervals, over any overflow handler that
-- keeps the contract Sink.
use cwpack.Prelude.{
  ℕ, ◌≡◌, refl, subst, ◌⊎◌, inl, inr, ◌^◌, ◌<◌, arith, Bool, true, false, ◌&&◌, Option, none, some,
  [], ◌∷◌, leb, if◌then◌else◌,
}
use cwpack.Prelude.Int.{ℤ, pos, negsuc, word, leb_ℤ}
use cwpack.Exec.{Void}
use cwpack.Wire.{byte_order_matches}
use cwpack.Format.{Fits}
use cwpack.Pack.{PackContext, Platform}
use cwpack.Pack.Numbers.{cw_pack_signed, cw_pack_float, cw_pack_double}
use cwpack.Pack.Sink.{Sink, IsOpen}
use cwpack.Pack.Calls
use cwpack.Pack.Calls.{Call, IsCall, run_call, run_calls}
use cwpack.Pack.Calls.Output.{Packed, run_calls-output}
use cwpack.Utils.Floats.{
  FloatUnit, nanoseconds, cw_pack_double_opt, cw_pack_float_opt, cw_pack_time_interval,
}

-- The results have the widths of their C types.
pub record KeepsWidths (unit : FloatUnit) : Type 0 where
  pub int_of_double : (d : ℕ) → Fits 32 (unit.int_of_double d)
  pub int_of_float : (f : ℕ) → Fits 32 (unit.int_of_float f)
  pub float_of_double : (d : ℕ) → unit.float_of_double d < 2 ^ 32
  pub int64_of_double : (d : ℕ) → Fits 64 (unit.int64_of_double d)

pub wider : (i : ℤ) → Fits 32 i → Fits 64 i
wider (pos n) h = omega arith
wider (negsuc n) h = omega arith

-- The first of three tests, and what was chosen.
pub tests :
    {A B : Type 0} (a b c : Bool) (x y : A → B) (i : A) {z : B}
    → (if a && b && c then x else y) i ≡ z
    → ((a ≡ true) × (x i ≡ z)) ⊎ (y i ≡ z)
tests true true true x y i e = inl (refl, e)
tests true true false x y i e = inr e
tests true false true x y i e = inr e
tests true false false x y i e = inr e
tests false true true x y i e = inr e
tests false true false x y i e = inr e
tests false false true x y i e = inr e
tests false false false x y i e = inr e

pub test :
    {A B : Type 0} (a : Bool) (x y : A → B) (i : A) {z : B}
    → (if a then x else y) i ≡ z
    → ((a ≡ true) × (x i ≡ z)) ⊎ (y i ≡ z)
test true x y i e = inl (refl, e)
test false x y i e = inr e

module _ (unit : FloatUnit) where
  -- The call packs an item that compares equal to the double, or is it.
  abbrev pub IsDoubleCall : ℕ → Call → Type 0
  IsDoubleCall d (Calls.signed k) = unit.equal_double (unit.double_of_integer k) d ≡ true
  IsDoubleCall d (Calls.float f) = unit.equal_double (unit.double_of_float f) d ≡ true
  IsDoubleCall d (Calls.double e) = e ≡ d
  IsDoubleCall d other = ⊥

  abbrev pub IsFloatCall : ℕ → Call → Type 0
  IsFloatCall f (Calls.signed k) = unit.equal_float (unit.float_of_integer k) f ≡ true
  IsFloatCall f (Calls.float g) = g ≡ f
  IsFloatCall f other = ⊥

module _ {W : Type 0} {env : Platform W} (s : Sink env) (pc : PackContext W) where
  -- The outcome is that of one call with the property.
  abbrev pub PacksOne : (Call → Type 0) → Option (Void × PackContext W) → Type 0
  PacksOne P r = (c : Call) × P c × Packed s pc (c ∷ []) r

module _ {W : Type 0} (unit : FloatUnit) (widths : KeepsWidths unit) {env : Platform W}
    (s : Sink env) (matches : byte_order_matches env.build ≡ true) (pc : PackContext W)
    (opened : IsOpen s pc) where
  last_call :
      (r : Option (Void × PackContext W))
      → elim r [ none ↦ none | some (_, pc') ↦ run_calls env [] pc' ] ≡ r
  unfolding run_calls
  last_call none = refl
  last_call (some (tt, pc')) = refl

  call-Packed : (c : Call) → IsCall c → Packed s pc (c ∷ []) (run_call env c pc)
  unfolding run_calls
  call-Packed c h =
      subst (Packed s pc (c ∷ [])) (last_call (run_call env c pc))
        (run_calls-output s matches (c ∷ []) pc (h, tt) opened)

  call-PacksOne :
      (P : Call → Type 0) (c : Call) {r : Option (Void × PackContext W)}
      → IsCall c
      → P c
      → run_call env c pc ≡ r
      → PacksOne s pc P r
  call-PacksOne P c h p e = (c, p, subst (Packed s pc (c ∷ [])) e (call-Packed c h))

  double_opt-PacksOne :
      (d : ℕ) → PacksOne s pc (IsDoubleCall unit d) (cw_pack_double_opt unit env d pc)
  unfolding cw_pack_double_opt run_call
  double_opt-PacksOne d =
      let k = unit.int_of_double d in
      let f = unit.float_of_double d in
      elim (tests (unit.equal_double (unit.double_of_integer k) d) (leb_ℤ (negsuc 0x7fff_ffff) k)
        (leb (word 32 k) 0xffff_ffff) (cw_pack_signed env k)
        (if unit.equal_double (unit.double_of_float f) d
          then cw_pack_float env f
          else cw_pack_double env d)
        pc refl) [
          | inl (same, e) ↦
              call-PacksOne (IsDoubleCall unit d) (Calls.signed k)
                (wider k (widths.int_of_double d)) same e
          | inr other ↦
              elim (test (unit.equal_double (unit.double_of_float f) d) (cw_pack_float env f)
                (cw_pack_double env d) pc other) [
                  | inl (same, e) ↦ call-PacksOne (IsDoubleCall unit d) (Calls.float f) tt same e
                  | inr e ↦ call-PacksOne (IsDoubleCall unit d) (Calls.double d) tt refl e
                ]
        ]

  float_opt-PacksOne :
      (f : ℕ) → PacksOne s pc (IsFloatCall unit f) (cw_pack_float_opt unit env f pc)
  unfolding cw_pack_float_opt run_call
  float_opt-PacksOne f =
      let k = unit.int_of_float f in
      elim (tests (unit.equal_float (unit.float_of_integer k) f) (leb_ℤ (negsuc 0x7fff) k)
        (leb_ℤ k (pos 0xffff)) (cw_pack_signed env k) (cw_pack_float env f) pc refl) [
          | inl (same, e) ↦
              call-PacksOne (IsFloatCall unit f) (Calls.signed k) (wider k (widths.int_of_float f))
                same e
          | inr e ↦ call-PacksOne (IsFloatCall unit f) (Calls.float f) tt refl e
        ]

  -- Over any overflow handler that keeps the contract, the optimised routines return, with the outcome
  -- of one call: for a double, that of an integer, a float or a double that compares equal to it or is
  -- it, and for a float that of an integer or a float. cw_pack_time_interval has the outcome of
  -- cw_pack_time for the floor of the interval and the nanoseconds of what is left.
  pub optimised-Packed :
      (d f ti : ℕ)
      → PacksOne s pc (IsDoubleCall unit d) (cw_pack_double_opt unit env d pc)
        × PacksOne s pc (IsFloatCall unit f) (cw_pack_float_opt unit env f pc)
        × Packed s pc
            (Calls.time
                (unit.int64_of_double (unit.floor ti))
                (nanoseconds unit ti (unit.int64_of_double (unit.floor ti)))
              ∷ [])
            (cw_pack_time_interval unit env ti pc)
  unfolding cw_pack_time_interval run_call
  optimised-Packed d f ti = (
    double_opt-PacksOne d,
    float_opt-PacksOne f,
    call-Packed (Calls.time _ _) (widths.int64_of_double (unit.floor ti)),
  )
