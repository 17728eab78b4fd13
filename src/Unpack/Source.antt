-- ===== src/Unpack/Source.antt =====
-- What the unpacking routines ask of an underflow handler, and what an assertion of space then does.
-- An invariant of the handler's address, the buffer's length, `current` and what lies outside is part
-- of it, and holds on as `current` goes up.
use cwpack.Prelude.{
  ℕ, ◌+◌, ◌≤◌, ◌<◌, ◌≡◌, refl, sym, ap, ◌∙◌, inl, inr, true, Option, none, some, List, [], ◌++◌,
  append_assoc, length, length-append, length-take, length-drop, take, drop, take-append,
  drop-append, take-append-drop, drop-drop, ltb, leb, Bool-cases, arith,
}
use cwpack.Prelude.Int.{ℤ}
use cwpack.ReturnCode.{rc_ok}
use cwpack.Exec.{continue, ◌>>=◌}
use cwpack.Unpack.{UnpackContext, Platform, refill, advance, read, cw_unpack_assert_space}

-- The bytes still to be unpacked: those in the buffer, and those that a handler can bring.
abbrev pub input : {W : Type 0} → (W → List ℕ) → UnpackContext W → List ℕ
input pending uc = drop uc.current uc.buffer ++ pending uc.outer

-- An underflow handler was asked for `more` bytes and brought them.
pub record Brings {W : Type 0} (pending : W → List ℕ) (more : ℕ) (uc : UnpackContext W) (rc : ℤ)
    (uc' : UnpackContext W) : Type 0 where
  pub ok : rc ≡ rc_ok
  pub item : uc'.item ≡ uc.item
  pub return_code : uc'.return_code ≡ uc.return_code
  pub room : uc'.current + more ≤ length uc'.buffer
  pub kept : input pending uc' ≡ input pending uc

pub record Source {W : Type 0} (env : Platform W) : Type 1 where
  pub pending : W → List ℕ
  pub Holds : Option ℕ → ℕ → ℕ → W → Type 0
  pub later : (h : Option ℕ) (n p q : ℕ) (w : W) → p ≤ q → Holds h n p w → Holds h n q w
  pub dry : (n p : ℕ) (w : W) → Holds none n p w → pending w ≡ []
  pub brings :
      (f more : ℕ) (uc : UnpackContext W)
      → uc.handle_unpack_underflow ≡ some f
      → uc.current ≤ length uc.buffer
      → Holds uc.handle_unpack_underflow (length uc.buffer) uc.current uc.outer
      → length uc.buffer < uc.current + more
      → more ≤ length (input pending uc)
      → Brings pending more uc (env.unpack_underflow f uc more).0 (env.unpack_underflow f uc more).1
  pub holds_on :
      (f more : ℕ) (uc : UnpackContext W)
      → uc.handle_unpack_underflow ≡ some f
      → uc.current ≤ length uc.buffer
      → Holds uc.handle_unpack_underflow (length uc.buffer) uc.current uc.outer
      → length uc.buffer < uc.current + more
      → let uc' = (env.unpack_underflow f uc more).1 in
        Holds uc'.handle_unpack_underflow (length uc'.buffer) uc'.current uc'.outer

module _ {W : Type 0} {env : Platform W} (s : Source env) where
  pub record IsReady (uc : UnpackContext W) : Type 0 where
    pub within : uc.current ≤ length uc.buffer
    pub holds : s.Holds uc.handle_unpack_underflow (length uc.buffer) uc.current uc.outer

  -- The context has moved on by `bs`, which stand at `p` in its buffer.
  pub record Moved (bs rest : List ℕ) (p : ℕ) (uc uc' : UnpackContext W) : Type 0 where
    pub ready : IsReady uc'
    pub item : uc'.item ≡ uc.item
    pub return_code : uc'.return_code ≡ uc.return_code
    pub current : uc'.current ≡ p + length bs
    pub in_buffer : p + length bs ≤ length uc'.buffer
    pub there : take (length bs) (drop p uc'.buffer) ≡ bs
    pub held : s.Holds uc'.handle_unpack_underflow (length uc'.buffer) p uc'.outer
    pub left : input s.pending uc' ≡ rest

  -- A list cut in two ways at the same length.
  same_cut :
      (xs ys bs rest : List ℕ)
      → xs ++ ys ≡ bs ++ rest
      → length xs ≡ length bs
      → (xs ≡ bs) × (ys ≡ rest)
  same_cut xs ys bs rest e l = (
    sym (take-append (length xs) xs ys refl)
        ∙ ap (take (length xs)) e
        ∙ take-append (length xs) bs rest (sym l),
    sym (drop-append (length xs) xs ys refl)
        ∙ ap (drop (length xs)) e
        ∙ drop-append (length xs) bs rest (sym l),
  )

  -- There is room: `current` moves on.
  advanced :
      (bs rest : List ℕ) (uc : UnpackContext W)
      → IsReady uc
      → uc.current + length bs ≤ length uc.buffer
      → input s.pending uc ≡ bs ++ rest
      → Moved bs rest uc.current uc (record uc { current = uc.current + length bs })
  advanced bs rest uc ready room e =
      let n = length bs in
      let here = drop uc.current uc.buffer in
      let cut =
        same_cut (take n here) (drop n here ++ s.pending uc.outer) bs rest
          (sym (append_assoc (take n here) (drop n here) (s.pending uc.outer))
            ∙ ap (λ l. l ++ s.pending uc.outer) (take-append-drop n here)
            ∙ e)
          (omega (arith, length-take n here, length-drop uc.current uc.buffer)) in
      record {
        ready = record {
          within = room;
          holds =
              s.later uc.handle_unpack_underflow (length uc.buffer) uc.current (uc.current + n)
                uc.outer (omega arith) ready.holds;
        };
        item = refl;
        return_code = refl;
        current = refl;
        in_buffer = room;
        there = cut.0;
        held = ready.holds;
        left =
            ap (λ l. l ++ s.pending uc.outer)
              (sym (drop-drop uc.current n (uc.current + n) uc.buffer refl))
            ∙ cut.1;
      }

  module _ {R : Type 0} (abort : R) (buffer_end : ℤ) where
    abbrev Asserts : List ℕ → List ℕ → UnpackContext W → Type 0
    Asserts bs rest uc =
        (p : ℕ) × (uc' : UnpackContext W) × (cw_unpack_assert_space env abort buffer_end (length bs)
            uc
          ≡ continue p uc')
        × Moved bs rest p uc uc'

    refilled :
        (bs rest : List ℕ) (uc uc' : UnpackContext W) (rc : ℤ)
        → Brings s.pending (length bs) uc rc uc'
        → IsReady uc'
        → input s.pending uc ≡ bs ++ rest
        → Moved bs rest uc'.current uc (record uc' { current = uc'.current + length bs })
    refilled bs rest uc uc' rc b ready e =
        let m = advanced bs rest uc' ready b.room (b.kept ∙ e) in
        record {
          ready = m.ready;
          item = b.item;
          return_code = b.return_code;
          current = refl;
          in_buffer = m.in_buffer;
          there = m.there;
          held = m.held;
          left = m.left;
        }

    -- `more` bytes of input that the buffer lacks are not there without a handler.
    more-le-input :
        (bs rest : List ℕ) (uc : UnpackContext W)
        → input s.pending uc ≡ bs ++ rest
        → length bs ≤ length (input s.pending uc)
    more-le-input bs rest uc i = omega (arith, ap (λ l. length l) i, length-append bs rest)

    dry_input :
        (bs rest : List ℕ) (uc : UnpackContext W)
        → s.pending uc.outer ≡ []
        → input s.pending uc ≡ bs ++ rest
        → uc.current ≤ length uc.buffer
        → uc.current + length bs ≤ length uc.buffer
    dry_input bs rest uc none_left i within = omega (
      arith,
      more-le-input bs rest uc i,
      length-append (drop uc.current uc.buffer) (s.pending uc.outer),
      ap (λ l. length l) none_left,
      length-drop uc.current uc.buffer,
    )

    pub refill-some :
        (f more : ℕ) (uc : UnpackContext W)
        → uc.handle_unpack_underflow ≡ some f
        → (env.unpack_underflow f uc more).0 ≡ rc_ok
        → refill env abort buffer_end more uc ≡ continue tt (env.unpack_underflow f uc more).1
    unfolding refill
    refill-some f more uc e ok = ground arith

    handled :
        (bs rest : List ℕ) (uc : UnpackContext W) (h : Option ℕ)
        → uc.handle_unpack_underflow ≡ h
        → IsReady uc
        → length uc.buffer < uc.current + length bs
        → input s.pending uc ≡ bs ++ rest
        → (uc' : UnpackContext W) × (refill env abort buffer_end (length bs) uc ≡ continue tt uc')
          × Moved bs rest uc'.current uc (record uc' { current = uc'.current + length bs })
    handled bs rest uc none e ready full i =
        let none_left = s.dry (length uc.buffer) uc.current uc.outer (rw (← e) ready.holds) in
        absurd (omega (arith, dry_input bs rest uc none_left i ready.within))
    handled bs rest uc (some f) e ready full i =
        let n = length bs in
        let b = s.brings f n uc e ready.within ready.holds full (more-le-input bs rest uc i) in
        let (rc, uc') = env.unpack_underflow f uc n in
        (
          uc',
          refill-some f n uc e b.ok,
          refilled bs rest uc uc' rc b
              (record {
                within = omega (arith, b.room);
                holds = s.holds_on f n uc e ready.within ready.holds full;
              })
              i,
        )

    -- An assertion of no more space than there is input is granted, and moves on by that input.
    pub assert_space_lem :
        (bs rest : List ℕ) (uc : UnpackContext W)
        → IsReady uc
        → input s.pending uc ≡ bs ++ rest
        → Asserts bs rest uc
    unfolding cw_unpack_assert_space advance
    assert_space_lem bs rest uc ready i =
        elim (Bool-cases (ltb (length uc.buffer) (uc.current + length bs))) [
          | inl full ↦
              let (uc', r, m) =
                handled bs rest uc uc.handle_unpack_underflow refl ready (ground arith) i in
              (uc'.current, record uc' { current = uc'.current + length bs }, rw full (rw r), m)
          | inr room ↦ (
            uc.current,
            record uc { current = uc.current + length bs },
            rw room,
            advanced bs rest uc ready (ground arith) i,
          )
        ]

    -- The bytes that are asserted are read.
    pub take_bytes_lem :
        (bs rest : List ℕ) (uc : UnpackContext W)
        → IsReady uc
        → input s.pending uc ≡ bs ++ rest
        → (p : ℕ) × (uc' : UnpackContext W) × ((cw_unpack_assert_space env abort buffer_end
                  (length bs)
                >>= λ q. read q (length bs))
              uc
            ≡ continue bs uc')
          × Moved bs rest p uc uc'
    unfolding read
    take_bytes_lem bs rest uc ready i =
        let (p, uc', e, m) = assert_space_lem bs rest uc ready i in
        let fits : leb (p + length bs) (length uc'.buffer) ≡ true = ground (arith, m.in_buffer) in
        (p, uc', rw e (rw fits (ap (λ b. continue b uc') m.there)), m)
