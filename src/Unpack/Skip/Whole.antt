-- ===== src/Unpack/Skip/Whole.antt =====
-- cw_skip_items on items with all that is inside of them.
use cwpack.Prelude.{
  ℕ, zero, suc, ◌≤◌, ◌≡◌, refl, ap, ◌∙◌, true, false, some, List, [], ◌∷◌, ◌++◌, append_assoc,
  length, arith,
}
use cwpack.Prelude.Int.{pos}
use cwpack.ReturnCode.{is_error}
use cwpack.Exec.{continue, finish}
use cwpack.Wire.{byte_order_matches}
use cwpack.Format.{Form, bytes, InRange}
use cwpack.Unpack.{UnpackContext, Platform, unless_stopped}
use cwpack.Unpack.Source.{Source, IsReady, input}
use cwpack.Unpack.Skip.{skip_loop, cw_skip_items}
use cwpack.Unpack.Skip.Round.{items_left, IsSkippable}
use cwpack.Unpack.Skip.Forms.{skip_form}
use cwpack.Unpack.Next.Items.{At}

-- The list is exactly `n` items, each with everything inside of it.
abbrev pub IsItems : ℕ → List Form → Type 0
IsItems n [] = n ≡ 0
IsItems zero (f ∷ fs) = ⊥
IsItems (suc n) (f ∷ fs) = InRange f × IsSkippable f × IsItems (items_left f n) fs

abbrev pub all_bytes : List Form → List ℕ
all_bytes [] = []
all_bytes (f ∷ fs) = bytes f ++ all_bytes fs

module _ {W : Type 0} {env : Platform W} (s : Source env)
    (matches : byte_order_matches env.build ≡ true) (rest : List ℕ) where
  skip_all :
      (fs : List Form) (n fuel : ℕ) (uc : UnpackContext W)
      → length fs ≤ fuel
      → IsItems n fs
      → IsReady s uc
      → input s.pending uc ≡ all_bytes fs ++ rest
      → (uc' : UnpackContext W) × (skip_loop env fuel n uc ≡ continue true uc')
        × At s rest uc.return_code uc'
  unfolding skip_loop
  skip_all [] n fuel uc enough e ready i =
      (uc, rw e refl, record { ready = ready; return_code = refl; left = i })
  skip_all (f ∷ fs) zero fuel uc enough h ready i = absurd h
  skip_all (f ∷ fs) (suc n) zero uc enough h ready i = absurd (omega arith)
  skip_all (f ∷ fs) (suc n) (suc fuel) uc enough (h, k, more) ready i =
      let (uc₁, e₁, at₁) =
        skip_form s matches n (all_bytes fs ++ rest) uc ready f h k
          (i ∙ append_assoc (bytes f) (all_bytes fs) rest) in
      let (uc', e', at') =
        skip_all fs (items_left f n) fuel uc₁ (omega arith) more at₁.ready at₁.left in
      (
        uc',
        rw e₁ e',
        record {
          ready = at'.ready;
          return_code = at'.return_code ∙ at₁.return_code;
          left = at'.left;
        },
      )

  -- Where the input starts with `n` items, each with everything inside of it, and no sum of the code
  -- wraps, cw_skip_items with as much fuel as there are items, nested ones counted, ends, and leaves
  -- what is behind them.
  pub cw_skip_items-skips :
      (fs : List Form) (n fuel : ℕ) (uc : UnpackContext W)
      → length fs ≤ fuel
      → IsItems n fs
      → is_error uc.return_code ≡ false
      → IsReady s uc
      → input s.pending uc ≡ all_bytes fs ++ rest
      → (uc' : UnpackContext W) × (cw_skip_items env fuel (pos n) uc ≡ some (true, uc'))
        × At s rest uc.return_code uc'
  unfolding cw_skip_items unless_stopped
  cw_skip_items-skips fs n fuel uc enough h ok ready i =
      let (uc', e, at') = skip_all fs n fuel uc enough h ready i in (uc', rw ok (ap finish e), at')
