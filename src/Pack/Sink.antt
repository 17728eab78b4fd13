-- ===== src/Pack/Sink.antt =====
-- What a packing routine promises over any overflow handler that keeps its side: the handler makes
-- room or reports an error, and loses nothing that was packed.
use cwpack.Prelude.{
  ℕ, ◌+◌, ◌≤◌, ◌≡◌, refl, sym, ap, ◌∙◌, ◌⊎◌, inl, inr, true, false, Option, none, some, List, ◌++◌,
  append_assoc, length, take, ltb, leb, if◌then◌else◌, Bool-cases, arith,
}
use cwpack.Prelude.Int.{ℤ}
use cwpack.ReturnCode.{is_error}
use cwpack.Exec.{Void, and_then, continue, finish}
use cwpack.Pack.{
  PackContext, Platform, unless_stopped, pack_error, write, advance, cw_pack_new_buffer,
  cw_pack_reserve_space,
}
use cwpack.Pack.Memory.{length-overwrite, take-overwrite}
use cwpack.Pack.Emit.{emit, append}

-- The bytes packed so far: those that left the buffer, and those in it.
abbrev pub output : {W : Type 0} → (W → List ℕ) → PackContext W → List ℕ
output flushed pc = flushed pc.outer ++ take pc.current pc.buffer

-- The fields that a handler leaves alone.
pub record SameSettings {W : Type 0} (pc pc' : PackContext W) : Type 0 where
  pub be_compatible : pc'.be_compatible ≡ pc.be_compatible
  pub return_code : pc'.return_code ≡ pc.return_code
  pub handle_pack_overflow : pc'.handle_pack_overflow ≡ pc.handle_pack_overflow

pub SameSettings-trans :
    {W : Type 0} {pc pc' pc'' : PackContext W}
    → SameSettings pc pc'
    → SameSettings pc' pc''
    → SameSettings pc pc''
SameSettings-trans a b = record {
  be_compatible = b.be_compatible ∙ a.be_compatible;
  return_code = b.return_code ∙ a.return_code;
  handle_pack_overflow = b.handle_pack_overflow ∙ a.handle_pack_overflow;
}

-- An overflow handler was asked for `more` bytes.
pub record MakesRoom {W : Type 0} (flushed : W → List ℕ) (more : ℕ) (pc : PackContext W) (rc : ℤ)
    (pc' : PackContext W) : Type 0 where
  pub within : pc'.current ≤ length pc'.buffer
  pub settings : SameSettings pc pc'
  pub room : is_error rc ≡ false → pc'.current + more ≤ length pc'.buffer
  pub kept : is_error rc ≡ false → output flushed pc' ≡ output flushed pc

-- Where packed bytes go to: the bytes that left the buffer, an invariant of the handler's address,
-- the buffer's length, `current` and what lies outside, and the handlers' promise. The invariant
-- holds on as `current` goes up.
pub record Sink {W : Type 0} (env : Platform W) : Type 1 where
  pub flushed : W → List ℕ
  pub Holds : Option ℕ → ℕ → ℕ → W → Type 0
  pub later : (h : Option ℕ) (n p q : ℕ) (w : W) → p ≤ q → Holds h n p w → Holds h n q w
  pub makes_room :
      (f more : ℕ) (pc : PackContext W)
      → pc.handle_pack_overflow ≡ some f
      → pc.current ≤ length pc.buffer
      → Holds pc.handle_pack_overflow (length pc.buffer) pc.current pc.outer
      → MakesRoom flushed more pc (env.pack_overflow f pc more).0 (env.pack_overflow f pc more).1
  pub holds_on :
      (f more : ℕ) (pc : PackContext W)
      → pc.handle_pack_overflow ≡ some f
      → pc.current ≤ length pc.buffer
      → Holds pc.handle_pack_overflow (length pc.buffer) pc.current pc.outer
      → let pc' = (env.pack_overflow f pc more).1 in
        Holds pc'.handle_pack_overflow (length pc'.buffer) pc'.current pc'.outer

module _ {W : Type 0} {env : Platform W} (s : Sink env) where
  pub record IsOpen (pc : PackContext W) : Type 0 where
    pub within : pc.current ≤ length pc.buffer
    pub holds : s.Holds pc.handle_pack_overflow (length pc.buffer) pc.current pc.outer

  -- The outcome of a call that appends `bs`: no access out of bounds, and an error or the bytes.
  abbrev pub Appended : PackContext W → List ℕ → Option (Void × PackContext W) → Type 0
  Appended pc bs none = ⊥
  Appended pc bs (some (_, pc')) =
      IsOpen pc'
      × (pc'.be_compatible ≡ pc.be_compatible)
      × ((is_error pc'.return_code ≡ true)
          ⊎ ((is_error pc'.return_code ≡ false)
              × (output s.flushed pc' ≡ output s.flushed pc ++ bs)))

  write_room :
      (bs : List ℕ) (pc pc₀ : PackContext W)
      → IsOpen pc
      → pc.current + length bs ≤ length pc.buffer
      → pc.be_compatible ≡ pc₀.be_compatible
      → is_error pc.return_code ≡ false
      → output s.flushed pc ≡ output s.flushed pc₀
      → Appended pc₀ bs (finish (and_then (advance (length bs) pc) (λ p. write p bs)))
  unfolding advance write
  write_room bs pc pc₀ ready room be ok same =
      let fits : leb (pc.current + length bs) (length pc.buffer) ≡ true = ground arith in
      let longer = length-overwrite pc.buffer pc.current bs in
      rw fits (
        record {
          within = rw longer room;
          holds = rw longer (
              s.later pc.handle_pack_overflow (length pc.buffer) pc.current (pc.current + length bs)
                pc.outer (omega arith) ready.holds);
        },
        be,
        inr (
          ok,
          rw (take-overwrite pc.buffer pc.current (pc.current + length bs) bs refl room) (
              sym (append_assoc (s.flushed pc.outer) (take pc.current pc.buffer) bs)
              ∙ ap (λ out. out ++ bs) same),
        ),
      )

  -- The handler's answer `rc`, and the rest of the reservation.
  asked :
      (bs : List ℕ) (pc pc' : PackContext W) (rc : ℤ)
      → is_error pc.return_code ≡ false
      → IsOpen pc'
      → MakesRoom s.flushed (length bs) pc rc pc'
      → Appended pc bs (
          finish (
            and_then
              (and_then
                (if is_error rc then pack_error rc pc' else continue tt pc')
                (λ _. advance (length bs)))
              (λ p. write p bs)))
  unfolding pack_error
  asked bs pc pc' rc ok ready room = elim (Bool-cases (is_error rc)) [
    | inl bad ↦ rw bad (
      record { within = ready.within; holds = ready.holds },
      room.settings.be_compatible,
      inl bad,
    )
    | inr good ↦ rw good (
        write_room bs pc' pc ready (room.room good) room.settings.be_compatible
          (rw room.settings.return_code ok) (room.kept good))
  ]

  handled :
      (bs : List ℕ) (pc : PackContext W) (h : Option ℕ)
      → pc.handle_pack_overflow ≡ h
      → is_error pc.return_code ≡ false
      → IsOpen pc
      → Appended pc bs (
          finish (
            and_then
              (and_then (cw_pack_new_buffer env (length bs) pc) (λ _. advance (length bs)))
              (λ p. write p bs)))
  unfolding cw_pack_new_buffer pack_error
  handled bs pc none e ok ready =
      rw (e, cw_pack_new_buffer)
        (record { within = ready.within; holds = ready.holds }, refl, inl refl)
  handled bs pc (some f) e ok ready =
      let room = s.makes_room f (length bs) pc e ready.within ready.holds in
      let (rc, pc') = env.pack_overflow f pc (length bs) in
      rw (e, cw_pack_new_buffer)
        (asked bs pc pc' rc ok
          (record {
            within = room.within;
            holds = s.holds_on f (length bs) pc e ready.within ready.holds;
          })
          room)

  -- `append bs` on an open context makes no access out of bounds. It leaves a stopped context as it
  -- is. Otherwise the context is open still, and either it has an error, or `bs` stands behind what
  -- was packed before.
  pub append-Appended :
      (bs : List ℕ) (pc : PackContext W) → IsOpen pc → Appended pc bs (append env bs pc)
  unfolding append emit unless_stopped cw_pack_reserve_space
  append-Appended bs pc ready = elim (Bool-cases (is_error pc.return_code)) [
    | inl stopped ↦ rw stopped (ready, refl, inl stopped)
    | inr ok ↦ rw ok (elim (Bool-cases (ltb (length pc.buffer) (pc.current + length bs))) [
      | inl full ↦ rw full (handled bs pc pc.handle_pack_overflow refl ok ready)
      | inr room ↦ rw room (write_room bs pc pc ready (ground arith) refl ok refl)
    ])
  ]
