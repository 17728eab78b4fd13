-- ===== src/Unpack/Next/TimeFields.antt =====
-- The seconds and nanoseconds of the three timestamp formats.
use cwpack.Prelude.{
  ℕ, suc, ◌+◌, ◌*◌, ◌/◌, ◌%◌, ◌^◌, ◌<◌, ◌≡◌, refl, sym, ap, ◌∙◌, bit_and, true, List, [], ◌∷◌, ◌++◌,
  length, get_or, leb, arith, take, drop, subst,
}
use cwpack.Prelude.Int.{ℤ, pos, signed}
use cwpack.Prelude.Bits.{bit_and_mask}
use cwpack.ReturnCode.{rc_buffer_underflow}
use cwpack.Exec.{continue}
use cwpack.Wire.{byte_order_matches, be_bytes, cw_load32, cw_load64}
use cwpack.Wire.RoundTrip.{cw_load32-be_bytes, cw_load64-be_bytes}
use cwpack.Unpack.{
  As, time, blob, Item, UnpackContext, Platform, item_ext, item_timestamp, set_type, set_as,
  take_bytes, read, cw_unpack_assert_space,
}
use cwpack.Unpack.Source.{Source, IsReady, input, assert_space_lem, take_bytes_lem}
use cwpack.Unpack.Next.{
  set_length, length_of, set_nsec, set_sec, get_item1, get_item_fix, ext_type, ext8_rest, item_body,
  headed_item,
}
use cwpack.Unpack.Next.Items.{Reads, fetch}
use cwpack.Unpack.Next.Extensions.{parts_at}

module _ {W : Type 0} {env : Platform W} (s : Source env)
    (matches : byte_order_matches env.build ≡ true) where
  -- A fixext of `l` bytes, and what is made of its bytes.
  fix_time :
      (v rest : List ℕ) (l : ℕ) (sec : ℤ) (nsec : ℕ) (uc : UnpackContext W)
      → l + 1 ≡ suc (length v)
      → ((p : ℕ) (uc' : UnpackContext W)
          → cw_unpack_assert_space env tt rc_buffer_underflow (l + 1) uc ≡ continue p uc'
          → leb (p + 1) (length uc'.buffer) ≡ true
          → take 1 (drop p uc'.buffer) ≡ 0xff ∷ []
          → leb (p + 1 + length v) (length uc'.buffer) ≡ true
          → take (length v) (drop (p + 1) uc'.buffer) ≡ v
          → get_item_fix env l uc
            ≡ continue tt
                (record uc' { item = record { type = item_timestamp; value = time sec nsec } }))
      → IsReady s uc
      → input s.pending uc ≡ 0xff ∷ (v ++ rest)
      → Reads s (get_item_fix env l) uc rest item_timestamp (time sec nsec)
  fix_time v rest l sec nsec uc n body ready i =
      let (p, uc', e, m) = assert_space_lem s tt rc_buffer_underflow (0xff ∷ v) rest uc ready i in
      let (f, g) = parts_at (0xff ∷ []) v p uc'.buffer m.there in
      (
        record uc' { item = record { type = item_timestamp; value = time sec nsec } },
        body p uc'
            (subst (λ k. cw_unpack_assert_space env tt rc_buffer_underflow k uc ≡ continue p uc')
              (sym n) e)
            (ground (arith, m.in_buffer)) f (ground (arith, m.in_buffer)) g,
        record {
          ready = record { within = m.ready.within; holds = m.ready.holds };
          return_code = m.return_code;
          left = m.left;
        },
        refl,
      )

  pub time32 :
      (n : ℕ) (rest : List ℕ) (uc : UnpackContext W)
      → n < 2 ^ 32
      → IsReady s uc
      → input s.pending uc ≡ 0xff ∷ (be_bytes 4 n ++ rest)
      → Reads s (get_item_fix env 4) uc rest item_timestamp (time (pos n) 0)
  unfolding get_item_fix read set_type set_as be_bytes
  time32 n rest uc h ready i =
      let load : cw_load32 env.build (be_bytes 4 n) ≡ n =
        cw_load32-be_bytes env.build n matches ∙ omega arith in
      fix_time (be_bytes 4 n) rest 4 (pos n) 0 uc refl
        (λ p uc' e a b c d. rw e (rw a (rw b (rw c (rw d (rw load refl)))))) ready i

  pub time64 :
      (sec nsec : ℕ) (rest : List ℕ) (uc : UnpackContext W)
      → sec < 2 ^ 34
      → nsec < 2 ^ 30
      → IsReady s uc
      → input s.pending uc ≡ 0xff ∷ (be_bytes 8 (nsec * 2 ^ 34 + sec) ++ rest)
      → Reads s (get_item_fix env 8) uc rest item_timestamp (time (pos sec) nsec)
  unfolding get_item_fix read set_type set_as be_bytes
  time64 sec nsec rest uc hs hn ready i =
      let x = nsec * 2 ^ 34 + sec in
      let load : cw_load64 env.build (be_bytes 8 x) ≡ x =
        cw_load64-be_bytes env.build x matches ∙ omega arith in
      let low : bit_and x 0x0000_0003_ffff_ffff ≡ sec = bit_and_mask 34 x ∙ omega arith in
      let high : x / 2 ^ 34 % 2 ^ 32 ≡ nsec = omega arith in
      fix_time (be_bytes 8 x) rest 8 (pos sec) nsec uc refl
        (λ p uc' e a b c d. rw e (rw a (rw b (rw c (rw d (rw load (rw low (rw high refl))))))))
        ready i

  set_time :
      (sec : ℤ) (nsec l : ℕ) (old : As)
      → (set_sec sec (set_nsec nsec (set_length l old)) ≡ time sec nsec)
        × (length_of (set_length l old) ≡ l)
  set_time sec nsec l (As.boolean b) = (refl, refl)
  set_time sec nsec l (As.word64 n) = (refl, refl)
  set_time sec nsec l (As.real n) = (refl, refl)
  set_time sec nsec l (As.array n) = (refl, refl)
  set_time sec nsec l (As.map n) = (refl, refl)
  set_time sec nsec l (blob p k) = (refl, refl)
  set_time sec nsec l (time a b) = (refl, refl)

  -- Behind the length of an ext 8.
  time_fields :
      (sec nsec : ℕ) (rest : List ℕ) (uc : UnpackContext W)
      → sec < 2 ^ 64
      → nsec < 2 ^ 32
      → length_of uc.item.value ≡ 12
      → IsReady s uc
      → input s.pending uc ≡ 0xff ∷ (be_bytes 4 nsec ++ (be_bytes 8 sec ++ rest))
      → Reads s
          (ext8_rest env)
          uc
          rest
          item_timestamp
          (set_sec (signed 64 sec) (set_nsec nsec uc.item.value))
  unfolding ext8_rest ext_type take_bytes set_type set_as be_bytes
  time_fields sec nsec rest uc hs hn l ready i =
      let load4 : cw_load32 env.build (be_bytes 4 nsec) ≡ nsec =
        cw_load32-be_bytes env.build nsec matches ∙ omega arith in
      let load8 : cw_load64 env.build (be_bytes 8 sec) ≡ sec =
        cw_load64-be_bytes env.build sec matches ∙ omega arith in
      let (p, uc₁, e₁, m₁) =
        take_bytes_lem s tt rc_buffer_underflow (0xff ∷ [])
          (be_bytes 4 nsec ++ (be_bytes 8 sec ++ rest)) uc ready i in
      let t₁ : UnpackContext W = record uc₁ {
        item = record { type = item_timestamp; value = uc₁.item.value };
      } in
      let (q, uc₂, e₂, m₂) =
        take_bytes_lem s tt rc_buffer_underflow (be_bytes 4 nsec) (be_bytes 8 sec ++ rest) t₁
          (record { within = m₁.ready.within; holds = m₁.ready.holds }) m₁.left in
      let t₂ : UnpackContext W = record uc₂ {
        item = record { type = uc₂.item.type; value = set_nsec nsec uc₂.item.value };
      } in
      let (r, uc₃, e₃, m₃) =
        take_bytes_lem s tt rc_buffer_underflow (be_bytes 8 sec) rest t₂
          (record { within = m₂.ready.within; holds = m₂.ready.holds }) m₂.left in
      let twelve : length_of uc₁.item.value ≡ 12 =
        ap (λ (it : Item). length_of it.value) m₁.item ∙ l in
      (
        record uc₃ {
          item = record { type = uc₃.item.type; value = set_sec (signed 64 sec) uc₃.item.value };
        },
        rw e₁ (rw twelve (rw e₂ (rw load4 (rw e₃ (rw load8 refl))))),
        record {
          ready = record { within = m₃.ready.within; holds = m₃.ready.holds };
          return_code = m₃.return_code ∙ m₂.return_code ∙ m₁.return_code;
          left = m₃.left;
        },
        ap (λ (it : Item). record { type = it.type; value = set_sec (signed 64 sec) it.value })
              m₃.item
            ∙ ap
                (λ (it : Item). record {
                  type = it.type;
                  value = set_sec (signed 64 sec) (set_nsec nsec it.value);
                })
                m₂.item
            ∙ ap
                (λ (it : Item). record {
                  type = item_timestamp;
                  value = set_sec (signed 64 sec) (set_nsec nsec it.value);
                })
                m₁.item,
      )

  pub time96 :
      (sec nsec : ℕ) (rest : List ℕ) (uc : UnpackContext W)
      → sec < 2 ^ 64
      → nsec < 2 ^ 32
      → IsReady s uc
      → input s.pending uc ≡ 12 ∷ 0xff ∷ (be_bytes 4 nsec ++ (be_bytes 8 sec ++ rest))
      → Reads s (item_body env 0xc7) uc rest item_timestamp (time (signed 64 sec) nsec)
  unfolding item_body headed_item get_item1
  time96 sec nsec rest uc hs hn ready i =
      let (uc₁, e₁, at₁, it₁) =
        fetch s (λ b. set_length (get_or b 0 0)) item_ext (12 ∷ [])
          (0xff ∷ (be_bytes 4 nsec ++ (be_bytes 8 sec ++ rest))) uc ready i in
      let (both, twelve) = set_time (signed 64 sec) nsec 12 uc.item.value in
      let value = ap (λ (it : Item). it.value) it₁ in
      let (uc', e', at', it') =
        time_fields sec nsec rest uc₁ hs hn (ap length_of value ∙ twelve) at₁.ready at₁.left in
      (
        uc',
        rw e₁ e',
        record {
          ready = at'.ready;
          return_code = at'.return_code ∙ at₁.return_code;
          left = at'.left;
        },
        it'
            ∙ ap
                (λ v. record {
                  type = item_timestamp;
                  value = set_sec (signed 64 sec) (set_nsec nsec v);
                })
                value
            ∙ ap (λ v. record { type = item_timestamp; value = v }) both,
      )
