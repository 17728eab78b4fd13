-- ===== src/Unpack/Skip/Round.antt =====
-- One round of the loop of cw_skip_items.
use cwpack.Prelude.{
  ℕ, ◌+◌, ◌*◌, ◌^◌, ◌<◌, ◌≡◌, refl, sym, ap, ◌∙◌, Bool, true, List, [], ◌∷◌, ◌++◌, length, get_or,
}
use cwpack.ReturnCode.{rc_end_of_input, rc_buffer_underflow}
use cwpack.Exec.{continue, and_then, and_then_assoc, ◌>>=◌, pure}
use cwpack.Format
use cwpack.Format.{Form, bytes, InRange, IsFixextLength, fixext_head}
use cwpack.Unpack.{UnpackContext, Platform, Routine, take_bytes, read, cw_unpack_assert_space}
use cwpack.Unpack.Source.{Source, IsReady, input, assert_space_lem, take_bytes_lem}
use cwpack.Unpack.Skip.{cw_skip_bytes, skip_body, skip_round}
use cwpack.Unpack.Next.Items.{At}

-- The items still to skip behind an item, with those inside of it, where `count` are behind it.
abbrev pub items_left : Form → ℕ → ℕ
items_left (Format.fixarray n) count = count + n
items_left (Format.array16 n) count = count + n
items_left (Format.array32 n) count = count + n
items_left (Format.fixmap n) count = count + 2 * n
items_left (Format.map16 n) count = count + 2 * n
items_left (Format.map32 n) count = count + 2 * n
items_left other count = count

-- Where the sums of cw_skip_items do not wrap.
abbrev pub IsSkippable : Form → Type 0
IsSkippable (Format.map32 n) = 2 * n < 2 ^ 32
IsSkippable (Format.ext32 t v) = length v + 1 < 2 ^ 32
IsSkippable other = Unit {0}

module _ {W : Type 0} {env : Platform W} (s : Source env) where
  -- The body goes on with the number `n`, and `rest` is left.
  abbrev pub Skips : Routine W Bool ℕ → UnpackContext W → List ℕ → ℕ → Type 0
  Skips m uc rest n =
      (uc' : UnpackContext W) × (m uc ≡ continue n uc') × At s rest uc.return_code uc'

  module _ (count : ℕ) (rest : List ℕ) where
    pub nothing_more :
        (uc : UnpackContext W)
        → IsReady s uc
        → input s.pending uc ≡ rest
        → Skips (pure count) uc rest count
    nothing_more uc ready i = (uc, refl, record { ready = ready; return_code = refl; left = i })

    pub skip_bytes_lem :
        (n : ℕ) (bs : List ℕ) (uc : UnpackContext W)
        → n ≡ length bs
        → IsReady s uc
        → input s.pending uc ≡ bs ++ rest
        → Skips (cw_skip_bytes env count n) uc rest count
    unfolding cw_skip_bytes
    skip_bytes_lem n bs uc l ready i =
        let (p, uc', e, m) = assert_space_lem s true rc_buffer_underflow bs rest uc ready i in
        (
          uc',
          rw l (rw e refl),
          record { ready = m.ready; return_code = m.return_code; left = m.left },
        )

    -- A length in `ls`, and the bytes behind it.
    pub skip_length_lem :
        (ls bs : List ℕ) (f : List ℕ → ℕ) (uc : UnpackContext W)
        → f ls ≡ length bs
        → IsReady s uc
        → input s.pending uc ≡ ls ++ (bs ++ rest)
        → Skips
            (take_bytes env true (length ls) >>= λ b. cw_skip_bytes env count (f b))
            uc
            rest
            count
    unfolding take_bytes
    skip_length_lem ls bs f uc l ready i =
        let (p, uc₁, e, m) = take_bytes_lem s true rc_buffer_underflow ls (bs ++ rest) uc ready i in
        let (uc', e', at') = skip_bytes_lem (f ls) bs uc₁ l m.ready m.left in
        (
          uc',
          rw e e',
          record {
            ready = at'.ready;
            return_code = at'.return_code ∙ m.return_code;
            left = at'.left;
          },
        )

    pub more_items_lem :
        (ls : List ℕ) (f : List ℕ → ℕ) (uc : UnpackContext W)
        → IsReady s uc
        → input s.pending uc ≡ ls ++ rest
        → Skips (take_bytes env true (length ls) >>= λ b. pure (count + f b)) uc rest (count + f ls)
    unfolding take_bytes
    more_items_lem ls f uc ready i =
        let (p, uc', e, m) = take_bytes_lem s true rc_buffer_underflow ls rest uc ready i in
        (uc', rw e refl, record { ready = m.ready; return_code = m.return_code; left = m.left })

    -- The first byte of an item, and then the body that it selects.
    pub round_lem :
        (c : ℕ) (more : List ℕ) (n : ℕ) (uc : UnpackContext W)
        → IsReady s uc
        → input s.pending uc ≡ c ∷ more
        → ((uc₁ : UnpackContext W)
            → IsReady s uc₁
            → input s.pending uc₁ ≡ more
            → Skips (skip_body env count c) uc₁ rest n)
        → Skips (skip_round env count) uc rest n
    unfolding skip_round
    round_lem c more n uc ready i body =
        let (p, uc₁, e, m) = take_bytes_lem s true rc_end_of_input (c ∷ []) more uc ready i in
        let (uc', e', at') = body uc₁ m.ready m.left in
        (
          uc',
          sym (
                and_then_assoc {A = ℕ} {B = List ℕ}
                  (cw_unpack_assert_space env true rc_end_of_input 1 uc) (λ q. read q 1)
                  (λ b. skip_body env count (get_or b 0 0)))
              ∙ ap (λ r. and_then r (λ b. skip_body env count (get_or b 0 0))) e
              ∙ e',
          record {
            ready = at'.ready;
            return_code = at'.return_code ∙ m.return_code;
            left = at'.left;
          },
        )
