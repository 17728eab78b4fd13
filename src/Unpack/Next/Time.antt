-- ===== src/Unpack/Next/Time.antt =====
-- cw_unpack_next on timestamps.
use cwpack.Prelude.{
  ℕ, ◌+◌, ◌*◌, ◌^◌, ◌<◌, ◌≡◌, ap, ◌∙◌, Bool, true, false, some, List, ◌∷◌, ◌++◌, ltb, if◌then◌else◌,
  arith, ◌==◌, ◌&&◌, inl, inr, Bool-cases,
}
use cwpack.Prelude.Int.{ℤ, pos, negsuc, word, signed}
use cwpack.ReturnCode.{is_error}
use cwpack.Exec.{finish}
use cwpack.Wire.{byte_order_matches, be_bytes}
use cwpack.Format.{bytes, Fits}
use cwpack.Format.Choice.{timestamp_form}
use cwpack.Unpack.{time, UnpackContext, Platform, item_timestamp}
use cwpack.Unpack.Source.{Source, IsReady, input}
use cwpack.Unpack.Next.{item_body, headed_item, cw_unpack_next}
use cwpack.Unpack.Next.Items.{At, Reads, head_lem}
use cwpack.Unpack.Next.TimeFields.{time32, time64, time96}

module _ {W : Type 0} {env : Platform W} (s : Source env)
    (matches : byte_order_matches env.build ≡ true) where
  module _ (rest : List ℕ) (uc : UnpackContext W) (ready : IsReady s uc)
      (ok : is_error uc.return_code ≡ false) where
    -- The item is the timestamp, and `rest` is left.
    abbrev pub GivesTime : ℤ → ℕ → Type 0
    GivesTime sec nsec =
        (uc' : UnpackContext W) × (cw_unpack_next env uc ≡ some (tt, uc'))
        × At s rest uc.return_code uc'
        × (uc'.item ≡ record { type = item_timestamp; value = time sec nsec })

    from_first :
        (c : ℕ) (more : List ℕ) (sec : ℤ) (nsec : ℕ)
        → input s.pending uc ≡ c ∷ more
        → ((uc₁ : UnpackContext W)
            → IsReady s uc₁
            → input s.pending uc₁ ≡ more
            → Reads s (item_body env c) uc₁ rest item_timestamp (time sec nsec))
        → GivesTime sec nsec
    from_first c more sec nsec i body =
        let (uc₁, e, at₁) = head_lem s c more uc ready ok i in
        let (uc', e', at', it) = body uc₁ at₁.ready at₁.left in
        (
          uc',
          e ∙ ap finish e',
          record {
            ready = at'.ready;
            return_code = at'.return_code ∙ at₁.return_code;
            left = at'.left;
          },
          it,
        )

    long_time :
        (w nsec : ℕ)
        → w < 2 ^ 64
        → nsec < 2 ^ 32
        → input s.pending uc ≡ 0xc7 ∷ 12 ∷ 0xff ∷ (be_bytes 4 nsec ++ (be_bytes 8 w ++ rest))
        → GivesTime (signed 64 w) nsec
    long_time w nsec hw hn i =
        from_first 0xc7 (12 ∷ 0xff ∷ (be_bytes 4 nsec ++ (be_bytes 8 w ++ rest))) (signed 64 w) nsec
          i (λ uc₁ r i₁. time96 s matches w nsec rest uc₁ hw hn r i₁)

    short_time :
        (n nsec : ℕ) (whole : Bool)
        → n < 2 ^ 34
        → nsec < 2 ^ 30
        → (nsec == 0 && ltb n (2 ^ 32)) ≡ whole
        → input s.pending uc
          ≡ (if whole
              then 0xd6 ∷ 0xff ∷ be_bytes 4 n
              else 0xd7 ∷ 0xff ∷ be_bytes 8 (nsec * 2 ^ 34 + n))
            ++ rest
        → GivesTime (pos n) nsec
    unfolding item_body headed_item
    short_time n nsec false hs hn e i =
        from_first 0xd7 (0xff ∷ (be_bytes 8 (nsec * 2 ^ 34 + n) ++ rest)) (pos n) nsec i
          (λ uc₁ r i₁. time64 s matches n nsec rest uc₁ hs hn r i₁)
    short_time n nsec true hs hn e i =
        let none_left : nsec ≡ 0 = ground arith in
        rw none_left (
          from_first 0xd6 (0xff ∷ (be_bytes 4 n ++ rest)) (pos n) 0 i
            (λ uc₁ r i₁. time32 s matches n rest uc₁ (ground arith) r i₁))

    -- Where the input starts with the bytes of a timestamp, in the form that cw_pack_time is to choose
    -- for it, cw_unpack_next returns, the item is that timestamp, and the rest of the input is left.
    pub cw_unpack_next-reads_time :
        (sec : ℤ) (nsec : ℕ)
        → Fits 64 sec
        → nsec < 1_000_000_000
        → input s.pending uc ≡ bytes (timestamp_form sec nsec) ++ rest
        → (uc' : UnpackContext W) × (cw_unpack_next env uc ≡ some (tt, uc'))
          × At s rest uc.return_code uc'
          × (uc'.item ≡ record { type = item_timestamp; value = time sec nsec })
    unfolding bytes be_bytes
    cw_unpack_next-reads_time (negsuc n) nsec h hn i =
        let z : signed 64 (word 64 (negsuc n)) ≡ negsuc n = ground arith in
        rw (← z) (long_time (word 64 (negsuc n)) nsec (omega arith) (omega arith) i)
    cw_unpack_next-reads_time (pos n) nsec h hn i = elim (Bool-cases (ltb n (2 ^ 34))) [
      | inr late ↦
          let z : signed 64 n ≡ pos n = ground arith in
          rw (← z) (long_time n nsec (omega arith) (omega arith) (rw late at i))
      | inl early ↦ elim (Bool-cases (nsec == 0 && ltb n (2 ^ 32))) [
        | inl whole ↦
            short_time n nsec true (ground arith) (omega arith) whole (rw (early, whole) at i)
        | inr parts ↦
            short_time n nsec false (ground arith) (omega arith) parts (rw (early, parts) at i)
      ]
    ]
