-- ===== src/RoundTrip/Items.antt =====
-- Items one after the other.
use cwpack.Prelude.{ℕ, ◌≡◌, ◌∙◌, true, false, some, List, [], ◌∷◌, ◌++◌, append_assoc}
use cwpack.ReturnCode.{is_error}
use cwpack.Wire.{byte_order_matches}
use cwpack.Format.{Form, bytes, meaning}
use cwpack.Unpack.{UnpackContext, Platform}
use cwpack.Unpack.Source.{Source, IsReady, input}
use cwpack.Unpack.Next.{cw_unpack_next}
use cwpack.Unpack.Next.Items.{IsItem}
use cwpack.Unpack.Next.Every.{cw_unpack_next-reads}
use cwpack.RoundTrip.Ranges.{IsGood}

abbrev pub AllGood : List Form → Type 0
AllGood [] = Unit {0}
AllGood (f ∷ fs) = IsGood f × AllGood fs

abbrev pub item_bytes : List Form → List ℕ
item_bytes [] = []
item_bytes (f ∷ fs) = bytes f ++ item_bytes fs

module _ {W : Type 0} {env : Platform W} (s : Source env) (rest : List ℕ) where
  -- As many calls of cw_unpack_next give the items, one by one, and leave `rest`.
  abbrev pub Gets : List Form → UnpackContext W → Type 0
  Gets [] uc = (is_error uc.return_code ≡ false) × (input s.pending uc ≡ rest)
  Gets (f ∷ fs) uc =
      (uc' : UnpackContext W) × (cw_unpack_next env uc ≡ some (tt, uc'))
      × IsItem uc' (meaning f)
      × Gets fs uc'

  -- Where the input starts with the bytes of items in range and without timestamps, as many calls of
  -- cw_unpack_next give these items in their order, without an error, and leave the rest.
  pub unpack_all :
      byte_order_matches env.build ≡ true
      → (fs : List Form) (uc : UnpackContext W) → AllGood fs
      → IsReady s uc
      → is_error uc.return_code ≡ false
      → input s.pending uc ≡ item_bytes fs ++ rest
      → Gets fs uc
  unpack_all matches [] uc h ready ok i = (ok, i)
  unpack_all matches (f ∷ fs) uc ((range, plain), h) ready ok i =
      let (uc', e, at', item) =
        cw_unpack_next-reads s uc ready ok (item_bytes fs ++ rest) matches f range plain
          (i ∙ append_assoc (bytes f) (item_bytes fs) rest) in
      (uc', e, item, unpack_all matches fs uc' h at'.ready (rw at'.return_code ok) at'.left)
