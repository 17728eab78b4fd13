-- ===== src/Utils/Safety.antt =====
-- The routines that expect an item of a certain type, on any input.
use cwpack.Prelude.{
  ℕ, ◌-◌, ◌%◌, ◌^◌, ◌≡◌, refl, ◌∙◌, ◌⊎◌, inl, inr, Bool, true, false, Option, none, some, length,
  leb, if◌then◌else◌, Bool-cases,
}
use cwpack.Prelude.Int.{ℤ, pos, negsuc, signed, leb_ℤ}
use cwpack.ReturnCode.{rc_type_error, rc_value_error, is_error}
use cwpack.Exec.{Void, finish, pure}
use cwpack.Unpack.{
  UnpackContext, Platform, Routine, item_positive_integer, item_negative_integer, item_str,
  item_bin, stop,
}
use cwpack.Unpack.Next.{cw_unpack_next}
use cwpack.Unpack.LookAhead.{equals}
use cwpack.Utils.{
  with_word, with_boolean, with_length, with_array, with_map, signed_body, signed64_body,
  unsigned_body, unsigned64_body, typed_body, after_next, next_and, cw_unpack_next_nil,
  cw_unpack_next_boolean, cw_unpack_next_signed8, cw_unpack_next_signed16, cw_unpack_next_signed32,
  cw_unpack_next_signed64, cw_unpack_next_unsigned8, cw_unpack_next_unsigned16,
  cw_unpack_next_unsigned32, cw_unpack_next_unsigned64, cw_unpack_next_str_lengh,
  cw_unpack_next_bin_lengh, cw_unpack_next_array_size, cw_unpack_next_map_size,
}
use cwpack.Unpack.Safety.{Guard, IsIn}
use cwpack.Unpack.Safety.Items.{IsWhole}
use cwpack.Unpack.Safety.Every.{Unpacked, cw_unpack_next-Unpacked}
use cwpack.Unpack.Safety.Skip.{StaysIn}
use cwpack.Utils.Members.{
  word_member, boolean_member, array_member, map_member, blob_member, same_type,
}

module _ {W : Type 0} {env : Platform W} (g : Guard env) where
  module _ {R : Type 0} (uc : UnpackContext W) (inside : IsIn g uc) where
    -- The rest of a routine stays in the buffer.
    abbrev Fine : Routine W R R → Type 0
    Fine m = StaysIn g (finish (m uc))

    stop-Fine : (zero_result : R) (code : ℤ) → Fine (stop zero_result code)
    unfolding stop
    stop-Fine zero_result code = record { within = inside.within; holds = inside.holds }

    branch :
        (b : Bool) (m n : Routine W R R)
        → (b ≡ true → Fine m)
        → (b ≡ false → Fine n)
        → Fine (if b then m else n)
    branch true m n f h = f refl
    branch false m n f h = h refl

    module _ (whole : IsWhole (length uc.buffer) uc.item) where
      word-Fine :
          (k : ℕ → Routine W R R)
          → (uc.item.type ≡ item_positive_integer) ⊎ (uc.item.type ≡ item_negative_integer)
          → ((n : ℕ) → Fine (k n))
          → Fine (with_word k)
      unfolding with_word
      word-Fine k h f =
          let (n, e) = word_member (length uc.buffer) uc.item whole h in rw (e, with_word) (f n)

      -- An integer that is in range or not.
      ranged-Fine :
          (test : ℕ → Bool) (f : ℕ → R) (zero_result : R) (code : ℤ)
          → (uc.item.type ≡ item_positive_integer) ⊎ (uc.item.type ≡ item_negative_integer)
          → Fine (with_word (λ n. if test n then pure (f n) else stop zero_result code))
      ranged-Fine test f zero_result code h =
          word-Fine (λ n. if test n then pure (f n) else stop zero_result code) h
            (λ n.
              branch (test n) (pure (f n)) (stop zero_result code) (λ _. inside)
                (λ _. stop-Fine zero_result code))

      typed-Fine :
          (n : ℕ) (member : Routine W R R) (zero_result : R)
          → (uc.item.type ≡ pos n → Fine member)
          → Fine (typed_body (pos n) member zero_result)
      unfolding typed_body
      typed-Fine n member zero_result f =
          branch (equals uc.item.type (pos n)) member _ (λ e. f (same_type uc.item.type n e))
            (λ _. stop-Fine zero_result _)

  -- A routine that calls cw_unpack_next first.
  next-StaysIn :
      {R : Type 0} (zero_result : R) (body : Routine W R R) (uc : UnpackContext W)
      → IsIn g uc
      → ((uc' : UnpackContext W)
          → IsIn g uc'
          → IsWhole (length uc'.buffer) uc'.item
          → StaysIn g (finish (body uc')))
      → StaysIn g (next_and env zero_result body uc)
  unfolding next_and after_next
  next-StaysIn zero_result body uc inside f =
      after-StaysIn (cw_unpack_next env uc) (cw_unpack_next-Unpacked g uc inside)
    where
      after-StaysIn :
          (r : Option (Void × UnpackContext W))
          → Unpacked g r
          → StaysIn g (after_next zero_result body r)
      after-StaysIn none r = r
      after-StaysIn (some (_, uc')) (inside', whole) =
          elim (Bool-cases (is_error uc'.return_code)) [
            | inl bad ↦ rw bad inside'
            | inr good ↦ rw good (f uc' inside' (whole good))
          ]

  module _ (uc : UnpackContext W) (inside : IsIn g uc) where
    signed-StaysIn : (w : ℕ) → StaysIn g (next_and env (pos 0) (signed_body w) uc)
    unfolding signed_body
    signed-StaysIn w = next-StaysIn (pos 0) (signed_body w) uc inside (λ uc' inside' whole.
        branch uc' inside' (equals uc'.item.type item_positive_integer) _ _
          (λ e.
            ranged-Fine uc' inside' whole (λ n. leb n (2 ^ (w - 1) - 1)) (λ n. signed w (n % 2 ^ w))
              (pos 0) rc_value_error (inl (same_type uc'.item.type 302 e)))
          (λ _.
            branch uc' inside' (equals uc'.item.type item_negative_integer) _ _
              (λ e.
                ranged-Fine uc' inside' whole (λ n. leb_ℤ (negsuc (2 ^ (w - 1) - 1)) (signed 64 n))
                  (λ n. signed w (n % 2 ^ w)) (pos 0) rc_value_error
                  (inr (same_type uc'.item.type 303 e)))
              (λ _. stop-Fine uc' inside' (pos 0) rc_type_error)))

    signed64-StaysIn : StaysIn g (next_and env (pos 0) signed64_body uc)
    unfolding signed64_body
    signed64-StaysIn = next-StaysIn (pos 0) signed64_body uc inside (λ uc' inside' whole.
        branch uc' inside' (equals uc'.item.type item_positive_integer) _ _
          (λ e.
            ranged-Fine uc' inside' whole (λ n. leb n (2 ^ 63 - 1)) (λ n. signed 64 n) (pos 0)
              rc_value_error (inl (same_type uc'.item.type 302 e)))
          (λ _.
            branch uc' inside' (equals uc'.item.type item_negative_integer) _ _
              (λ e.
                word-Fine uc' inside' whole (λ n. pure (signed 64 n))
                  (inr (same_type uc'.item.type 303 e)) (λ n. inside'))
              (λ _. stop-Fine uc' inside' (pos 0) rc_type_error)))

    unsigned-StaysIn : (w : ℕ) → StaysIn g (next_and env 0 (unsigned_body w) uc)
    unfolding unsigned_body
    unsigned-StaysIn w = next-StaysIn 0 (unsigned_body w) uc inside (λ uc' inside' whole.
        branch uc' inside' (equals uc'.item.type item_positive_integer) _ _
          (λ e.
            ranged-Fine uc' inside' whole (λ n. leb n (2 ^ w - 1)) (λ n. n % 2 ^ w) 0 rc_value_error
              (inl (same_type uc'.item.type 302 e)))
          (λ _. stop-Fine {R = ℕ} uc' inside' 0 rc_type_error))

    unsigned64-StaysIn : StaysIn g (next_and env 0 unsigned64_body uc)
    unfolding unsigned64_body
    unsigned64-StaysIn = next-StaysIn 0 unsigned64_body uc inside (λ uc' inside' whole.
        branch uc' inside' (equals uc'.item.type item_positive_integer) _ _
          (λ e.
            word-Fine uc' inside' whole (λ n. pure n) (inl (same_type uc'.item.type 302 e))
              (λ n. inside'))
          (λ _. stop-Fine {R = ℕ} uc' inside' 0 rc_type_error))

    length-StaysIn :
        (n : ℕ)
        → ((pos n ≡ item_str) ⊎ (pos n ≡ item_bin))
        → StaysIn g (next_and env 0 (typed_body (pos n) (with_length pure) 0) uc)
    unfolding with_length
    length-StaysIn n h =
        next-StaysIn 0 (typed_body (pos n) (with_length pure) 0) uc inside (λ uc' inside' whole.
          typed-Fine uc' inside' whole n (with_length pure) 0 (λ e.
            let (p, l, e') =
              blob_member (length uc'.buffer) uc'.item whole (either uc'.item.type e h) in
            rw (e', with_length) inside'))
      where
        either :
            (t : ℤ)
            → t ≡ pos n
            → (pos n ≡ item_str) ⊎ (pos n ≡ item_bin)
            → (t ≡ item_str) ⊎ (t ≡ item_bin)
        either t e (inl s) = inl (e ∙ s)
        either t e (inr b) = inr (e ∙ b)

    -- Whatever the input: where `current` is in the buffer, and the handler does not report bytes that
    -- are not there, the routines for nil, booleans, integers, lengths and sizes make no access out of
    -- bounds, read no member of the union but the one that was written, and leave `current` in the
    -- buffer.
    pub typed_routines-StaysIn :
        StaysIn g (cw_unpack_next_nil env uc)
        × StaysIn g (cw_unpack_next_boolean env uc)
        × StaysIn g (cw_unpack_next_signed64 env uc)
        × StaysIn g (cw_unpack_next_signed32 env uc)
        × StaysIn g (cw_unpack_next_signed16 env uc)
        × StaysIn g (cw_unpack_next_signed8 env uc)
        × StaysIn g (cw_unpack_next_unsigned64 env uc)
        × StaysIn g (cw_unpack_next_unsigned32 env uc)
        × StaysIn g (cw_unpack_next_unsigned16 env uc)
        × StaysIn g (cw_unpack_next_unsigned8 env uc)
        × StaysIn g (cw_unpack_next_str_lengh env uc)
        × StaysIn g (cw_unpack_next_bin_lengh env uc)
        × StaysIn g (cw_unpack_next_array_size env uc)
        × StaysIn g (cw_unpack_next_map_size env uc)
    unfolding cw_unpack_next_nil cw_unpack_next_boolean cw_unpack_next_signed64
        cw_unpack_next_signed32 cw_unpack_next_signed16 cw_unpack_next_signed8
        cw_unpack_next_unsigned64 cw_unpack_next_unsigned32 cw_unpack_next_unsigned16
        cw_unpack_next_unsigned8 cw_unpack_next_str_lengh cw_unpack_next_bin_lengh
        cw_unpack_next_array_size cw_unpack_next_map_size with_boolean with_array with_map
    typed_routines-StaysIn = (
      next-StaysIn tt _ uc inside
          (λ uc' inside' whole. typed-Fine uc' inside' whole 300 (pure tt) tt (λ e. inside')),
      next-StaysIn false _ uc inside (λ uc' inside' whole.
          typed-Fine uc' inside' whole 301 (with_boolean pure) false (λ e.
            let (b, e') = boolean_member (length uc'.buffer) uc'.item whole e in
            rw (e', with_boolean) inside')),
      signed64-StaysIn,
      signed-StaysIn 32,
      signed-StaysIn 16,
      signed-StaysIn 8,
      unsigned64-StaysIn,
      unsigned-StaysIn 32,
      unsigned-StaysIn 16,
      unsigned-StaysIn 8,
      length-StaysIn 306 (inl refl),
      length-StaysIn 307 (inr refl),
      next-StaysIn 0 _ uc inside (λ uc' inside' whole.
          typed-Fine uc' inside' whole 308 (with_array pure) 0 (λ e.
            let (k, e') = array_member (length uc'.buffer) uc'.item whole e in
            rw (e', with_array) inside')),
      next-StaysIn 0 _ uc inside (λ uc' inside' whole.
          typed-Fine uc' inside' whole 309 (with_map pure) 0 (λ e.
            let (k, e') = map_member (length uc'.buffer) uc'.item whole e in
            rw (e', with_map) inside')),
    )
