-- ===== src/RoundTrip/Ranges.antt =====
-- Calls with arguments of their C types, and the ranges of the forms that they pack.
use cwpack.Prelude.{
  ℕ, ◌+◌, ◌^◌, ◌<◌, ◌≡◌, refl, Bool, true, false, not, ◌&&◌, Option, none, some, List, length, ltb,
  if◌then◌else◌, arith,
}
use cwpack.Prelude.Int.{ℤ, pos, negsuc}
use cwpack.Prelude.Bits.{IsBytes}
use cwpack.Format.{Form, InRange, Fits, IsFixextLength}
use cwpack.Format.Choice.{
  unsigned_form, negative_form, array_form, map_form, string_form, binary_form, is_fixext_length,
  extension_form,
}
use cwpack.Pack.Calls
use cwpack.Pack.Calls.{Call, IsCall, call_form}
use cwpack.Unpack.Next.{is_timestamp}
use cwpack.Unpack.Next.Every.{IsPlain}

-- A call other than cw_pack_time, and not of cw_pack_ext for a timestamp.
abbrev pub IsTyped : Call → Type 0
IsTyped (Calls.unsigned n) = n < 2 ^ 64
IsTyped (Calls.signed i) = Fits 64 i
IsTyped (Calls.float f) = f < 2 ^ 32
IsTyped (Calls.double d) = d < 2 ^ 64
IsTyped Calls.nil_call = Unit {0}
IsTyped (Calls.boolean b) = Unit {0}
IsTyped (Calls.array_size n) = n < 2 ^ 32
IsTyped (Calls.map_size n) = n < 2 ^ 32
IsTyped (Calls.str v) = (length v + 6 < 2 ^ 32) × IsBytes v
IsTyped (Calls.bin v) = (length v + 6 < 2 ^ 32) × IsBytes v
IsTyped (Calls.ext t v) = (length v + 6 < 2 ^ 32) × IsBytes v × Fits 8 t × (is_timestamp t ≡ false)
IsTyped (Calls.time sec nsec) = ⊥

pub typed-IsCall : (c : Call) → IsTyped c → IsCall c
typed-IsCall (Calls.unsigned n) h = tt
typed-IsCall (Calls.signed i) h = h
typed-IsCall (Calls.float f) h = tt
typed-IsCall (Calls.double d) h = tt
typed-IsCall Calls.nil_call h = tt
typed-IsCall (Calls.boolean b) h = tt
typed-IsCall (Calls.array_size n) h = tt
typed-IsCall (Calls.map_size n) h = tt
typed-IsCall (Calls.str v) h = h.0
typed-IsCall (Calls.bin v) h = h.0
typed-IsCall (Calls.ext t v) h = h.0
typed-IsCall (Calls.time sec nsec) h = absurd h

abbrev pub IsGood : Form → Type 0
IsGood f = InRange f × IsPlain f

abbrev pub IsGoodOption : Option Form → Type 0
IsGoodOption none = Unit {0}
IsGoodOption (some f) = IsGood f

-- Whichever of the two is chosen.
either :
    (b : Bool) (x y : Form)
    → (b ≡ true → IsGood x)
    → (b ≡ false → IsGood y)
    → IsGood (if b then x else y)
either true x y h k = h refl
either false x y h k = k refl

unsigned_form-IsGood : (n : ℕ) → n < 2 ^ 64 → IsGood (unsigned_form n)
unsigned_form-IsGood n h =
    either (ltb n 128) _ _ (λ e. (ground arith, tt))
      (λ _.
        either (ltb n (2 ^ 8)) _ _ (λ e. (ground arith, tt))
          (λ _.
            either (ltb n (2 ^ 16)) _ _ (λ e. (ground arith, tt))
              (λ _. either (ltb n (2 ^ 32)) _ _ (λ e. (ground arith, tt)) (λ _. (h, tt)))))

negative_form-IsGood : (n : ℕ) → n < 2 ^ 63 → IsGood (negative_form n)
negative_form-IsGood n h =
    either (ltb n 32) _ _ (λ e. (ground arith, tt))
      (λ _.
        either (ltb n (2 ^ 7)) _ _ (λ e. (ground arith, tt))
          (λ _.
            either (ltb n (2 ^ 15)) _ _ (λ e. (ground arith, tt))
              (λ _.
                either (ltb n (2 ^ 31)) _ _ (λ e. (ground arith, tt)) (λ _. (ground arith, tt)))))

head-IsGood : (n : ℕ) → n < 2 ^ 32 → IsGood (array_form n) × IsGood (map_form n)
head-IsGood n h = (
  either (ltb n 16) _ _ (λ e. (ground arith, tt))
      (λ _. either (ltb n (2 ^ 16)) _ _ (λ e. (ground arith, tt)) (λ _. (h, tt))),
  either (ltb n 16) _ _ (λ e. (ground arith, tt))
      (λ _. either (ltb n (2 ^ 16)) _ _ (λ e. (ground arith, tt)) (λ _. (h, tt))),
)

string_form-IsGood :
    (old : Bool) (v : List ℕ) → length v + 6 < 2 ^ 32 → IsBytes v → IsGood (string_form old v)
string_form-IsGood old v h b =
    either (ltb (length v) 32) _ _ (λ e. ((ground arith, b), tt))
      (λ _.
        either (ltb (length v) (2 ^ 8) && not old) _ _ (λ e. ((ground arith, b), tt))
          (λ _.
            either (ltb (length v) (2 ^ 16)) _ _ (λ e. ((ground arith, b), tt))
              (λ _. ((omega arith, b), tt))))

binary_form-IsGood :
    (old : Bool) (v : List ℕ) → length v + 6 < 2 ^ 32 → IsBytes v → IsGood (binary_form old v)
binary_form-IsGood true v h b = string_form-IsGood true v h b
binary_form-IsGood false v h b =
    either (ltb (length v) (2 ^ 8)) _ _ (λ e. ((ground arith, b), tt))
      (λ _.
        either (ltb (length v) (2 ^ 16)) _ _ (λ e. ((ground arith, b), tt))
          (λ _. ((omega arith, b), tt)))

fixext_length : (l : ℕ) → is_fixext_length l ≡ true → IsFixextLength l
fixext_length l e = ground arith

extension_form-IsGood :
    (t : ℤ) (v : List ℕ)
    → length v + 6 < 2 ^ 32
    → IsBytes v
    → Fits 8 t
    → is_timestamp t ≡ false
    → IsGood (extension_form t v)
extension_form-IsGood t v h b ht plain =
    either (is_fixext_length (length v)) _ _ (λ e. ((ht, fixext_length (length v) e, b), plain))
      (λ _.
        either (ltb (length v) (2 ^ 8)) _ _ (λ e. ((ht, ground arith, b), plain))
          (λ _.
            either (ltb (length v) (2 ^ 16)) _ _ (λ e. ((ht, ground arith, b), plain))
              (λ _. ((ht, omega arith, b), plain))))

-- Every call packs a form in its range, if it packs one.
pub call_form-IsGood : (old : Bool) (c : Call) → IsTyped c → IsGoodOption (call_form old c)
call_form-IsGood old (Calls.unsigned n) h = unsigned_form-IsGood n h
call_form-IsGood old (Calls.signed (pos n)) h = unsigned_form-IsGood n (omega arith)
call_form-IsGood old (Calls.signed (negsuc n)) h = negative_form-IsGood n (omega arith)
call_form-IsGood old (Calls.float f) h = (h, tt)
call_form-IsGood old (Calls.double d) h = (h, tt)
call_form-IsGood old Calls.nil_call h = (tt, tt)
call_form-IsGood old (Calls.boolean b) h = (tt, tt)
call_form-IsGood old (Calls.array_size n) h = (head-IsGood n h).0
call_form-IsGood old (Calls.map_size n) h = (head-IsGood n h).1
call_form-IsGood old (Calls.str v) (h, b) = string_form-IsGood old v h b
call_form-IsGood old (Calls.bin v) (h, b) = binary_form-IsGood old v h b
call_form-IsGood true (Calls.ext t v) h = tt
call_form-IsGood false (Calls.ext t v) (h, b, ht, plain) = extension_form-IsGood t v h b ht plain
call_form-IsGood old (Calls.time sec nsec) h = absurd h
