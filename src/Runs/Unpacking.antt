-- ===== src/Runs/Unpacking.antt =====
-- Runs of the unpacking routines.
use cwpack.Prelude.{ℕ, ◌≡◌, refl, true, some, [], ◌∷◌, drop, arith}
use cwpack.Prelude.Int.{pos, negsuc}
use cwpack.ReturnCode.{rc_ok, rc_end_of_input}
use cwpack.Exec.{Void, continue}
use cwpack.Wire.{be_bytes}
use cwpack.Format
use cwpack.Format.{bytes, meaning}
use cwpack.Unpack.Next.Time.{cw_unpack_next-reads_time}
use cwpack.Unpack.LookAhead.{cw_look_ahead}
use cwpack.Unpack.LookAhead.Types.{type_of, cw_look_ahead-type_of}
use cwpack.Unpack.Skip.{cw_skip_items}
use cwpack.Unpack.Skip.Whole.{cw_skip_items-skips}
use cwpack.Unpack.{UnpackContext, item_timestamp, time, cw_unpack_assert_space}
use cwpack.Unpack.Source.{Moved, input, assert_space_lem}
use cwpack.Unpack.Next.{cw_unpack_next}
use cwpack.Unpack.Next.Items.{At, IsItem}
use cwpack.Unpack.Next.Every.{cw_unpack_next-reads}
use cwpack.Runs.{x86_matches, static_unpack, static_source, packed, nested, moment}

cw_unpack_next-reads_example :
    (uc' : UnpackContext Void) × (cw_unpack_next static_unpack packed ≡ some (tt, uc'))
    × At static_source (0xc0 ∷ []) rc_ok uc'
    × IsItem uc' (meaning (Format.int16 (negsuc 199)))
unfolding bytes drop
cw_unpack_next-reads_example =
    cw_unpack_next-reads static_source packed (record { within = omega arith; holds = refl }) refl
      (0xc0 ∷ []) x86_matches (Format.int16 (negsuc 199)) (omega arith) tt refl

assert_space_lem_example :
    (p : ℕ) × (uc' : UnpackContext Void) × (cw_unpack_assert_space static_unpack tt rc_end_of_input
        2 packed
      ≡ continue p uc')
    × Moved static_source (0xd1 ∷ 0xff ∷ []) (0x38 ∷ 0xc0 ∷ []) p packed uc'
unfolding drop
assert_space_lem_example =
    assert_space_lem static_source tt rc_end_of_input (0xd1 ∷ 0xff ∷ []) (0x38 ∷ 0xc0 ∷ []) packed
      (record { within = omega arith; holds = refl }) refl

cw_look_ahead-type_of_example :
    (uc' : UnpackContext Void) × (cw_look_ahead static_unpack packed
      ≡ some (type_of (Format.int16 (negsuc 199)), uc'))
    × At static_source (input static_source.pending packed) rc_ok uc'
unfolding bytes drop
cw_look_ahead-type_of_example =
    cw_look_ahead-type_of static_source (0xc0 ∷ []) packed
      (record { within = omega arith; holds = refl }) (Format.int16 (negsuc 199)) (omega arith) refl
      refl

cw_skip_items-skips_example :
    (uc' : UnpackContext Void) × (cw_skip_items static_unpack 5 (pos 1) nested ≡ some (true, uc'))
    × At static_source (0xc0 ∷ []) rc_ok uc'
unfolding bytes drop
cw_skip_items-skips_example =
    cw_skip_items-skips static_source x86_matches (0xc0 ∷ [])
      (Format.fixarray 2
        ∷ Format.uint8 200
        ∷ Format.fixmap 1
        ∷ Format.positive_fixint 1
        ∷ Format.fixstr (0x41 ∷ [])
        ∷ [])
      1 5 nested (omega arith)
      (
        omega arith,
        tt,
        (
          omega arith,
          tt,
          (omega arith, tt, (omega arith, tt, ((omega arith, (omega arith, tt)), tt, refl))),
        ),
      )
      refl (record { within = omega arith; holds = refl }) refl

cw_unpack_next-reads_time_example :
    (uc' : UnpackContext Void) × (cw_unpack_next static_unpack moment ≡ some (tt, uc'))
    × At static_source (0xc0 ∷ []) rc_ok uc'
    × (uc'.item ≡ record { type = item_timestamp; value = time (pos 1) 1 })
unfolding bytes be_bytes drop
cw_unpack_next-reads_time_example =
    cw_unpack_next-reads_time static_source x86_matches (0xc0 ∷ []) moment
      (record { within = omega arith; holds = refl }) refl (pos 1) 1 (omega arith) (omega arith)
      refl
