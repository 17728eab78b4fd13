-- ===== src/Utils/Members.antt =====
-- The member of the union that is read after a test of the type.
use cwpack.Prelude.{ℕ, ◌≡◌, ap, ◌⊎◌, Bool, true, arith}
use cwpack.Prelude.Int.{ℤ, pos, negsuc}
use cwpack.Unpack.{
  Item, boolean, word64, array, map, blob, item_boolean, item_positive_integer,
  item_negative_integer, item_str, item_bin, item_array, item_map,
}
use cwpack.Unpack.LookAhead.{equals}
use cwpack.Unpack.Safety.Items.{
  IsWhole, is_nil, is_boolean, is_positive, is_negative, is_float, is_double, is_array, is_map,
  is_str, is_bin, is_ext, is_long_timestamp, is_time,
}

pub word_member :
    (n : ℕ) (i : Item)
    → IsWhole n i
    → (i.type ≡ item_positive_integer) ⊎ (i.type ≡ item_negative_integer)
    → (k : ℕ) × (i.value ≡ word64 k)
word_member n i (is_nil e) h = absurd (ground arith)
word_member n i (is_boolean b e) h = absurd (ground arith)
word_member n i (is_positive k e) h = (k, ap (λ (j : Item). j.value) e)
word_member n i (is_negative k e) h = (k, ap (λ (j : Item). j.value) e)
word_member n i (is_float k e) h = absurd (ground arith)
word_member n i (is_double k e) h = absurd (ground arith)
word_member n i (is_array k e) h = absurd (ground arith)
word_member n i (is_map k e) h = absurd (ground arith)
word_member n i (is_str p l e room) h = absurd (ground arith)
word_member n i (is_bin p l e room) h = absurd (ground arith)
word_member n i (is_ext t p l other small e room) h = absurd (ground arith)
word_member n i (is_long_timestamp p l e room) h = absurd (ground arith)
word_member n i (is_time sec nsec e) h = absurd (ground arith)

pub boolean_member :
    (n : ℕ) (i : Item) → IsWhole n i → i.type ≡ item_boolean → (b : Bool) × (i.value ≡ boolean b)
boolean_member n i (is_nil e) h = absurd (ground arith)
boolean_member n i (is_boolean b e) h = (b, ap (λ (j : Item). j.value) e)
boolean_member n i (is_positive k e) h = absurd (ground arith)
boolean_member n i (is_negative k e) h = absurd (ground arith)
boolean_member n i (is_float k e) h = absurd (ground arith)
boolean_member n i (is_double k e) h = absurd (ground arith)
boolean_member n i (is_array k e) h = absurd (ground arith)
boolean_member n i (is_map k e) h = absurd (ground arith)
boolean_member n i (is_str p l e room) h = absurd (ground arith)
boolean_member n i (is_bin p l e room) h = absurd (ground arith)
boolean_member n i (is_ext t p l other small e room) h = absurd (ground arith)
boolean_member n i (is_long_timestamp p l e room) h = absurd (ground arith)
boolean_member n i (is_time sec nsec e) h = absurd (ground arith)

pub array_member :
    (n : ℕ) (i : Item) → IsWhole n i → i.type ≡ item_array → (k : ℕ) × (i.value ≡ array k)
array_member n i (is_nil e) h = absurd (ground arith)
array_member n i (is_boolean b e) h = absurd (ground arith)
array_member n i (is_positive k e) h = absurd (ground arith)
array_member n i (is_negative k e) h = absurd (ground arith)
array_member n i (is_float k e) h = absurd (ground arith)
array_member n i (is_double k e) h = absurd (ground arith)
array_member n i (is_array k e) h = (k, ap (λ (j : Item). j.value) e)
array_member n i (is_map k e) h = absurd (ground arith)
array_member n i (is_str p l e room) h = absurd (ground arith)
array_member n i (is_bin p l e room) h = absurd (ground arith)
array_member n i (is_ext t p l other small e room) h = absurd (ground arith)
array_member n i (is_long_timestamp p l e room) h = absurd (ground arith)
array_member n i (is_time sec nsec e) h = absurd (ground arith)

pub map_member : (n : ℕ) (i : Item) → IsWhole n i → i.type ≡ item_map → (k : ℕ) × (i.value ≡ map k)
map_member n i (is_nil e) h = absurd (ground arith)
map_member n i (is_boolean b e) h = absurd (ground arith)
map_member n i (is_positive k e) h = absurd (ground arith)
map_member n i (is_negative k e) h = absurd (ground arith)
map_member n i (is_float k e) h = absurd (ground arith)
map_member n i (is_double k e) h = absurd (ground arith)
map_member n i (is_array k e) h = absurd (ground arith)
map_member n i (is_map k e) h = (k, ap (λ (j : Item). j.value) e)
map_member n i (is_str p l e room) h = absurd (ground arith)
map_member n i (is_bin p l e room) h = absurd (ground arith)
map_member n i (is_ext t p l other small e room) h = absurd (ground arith)
map_member n i (is_long_timestamp p l e room) h = absurd (ground arith)
map_member n i (is_time sec nsec e) h = absurd (ground arith)

pub blob_member :
    (n : ℕ) (i : Item)
    → IsWhole n i
    → (i.type ≡ item_str) ⊎ (i.type ≡ item_bin)
    → (p : ℕ) × (l : ℕ) × (i.value ≡ blob p l)
blob_member n i (is_nil e) h = absurd (ground arith)
blob_member n i (is_boolean b e) h = absurd (ground arith)
blob_member n i (is_positive k e) h = absurd (ground arith)
blob_member n i (is_negative k e) h = absurd (ground arith)
blob_member n i (is_float k e) h = absurd (ground arith)
blob_member n i (is_double k e) h = absurd (ground arith)
blob_member n i (is_array k e) h = absurd (ground arith)
blob_member n i (is_map k e) h = absurd (ground arith)
blob_member n i (is_str p l e room) h = (p, l, ap (λ (j : Item). j.value) e)
blob_member n i (is_bin p l e room) h = (p, l, ap (λ (j : Item). j.value) e)
blob_member n i (is_ext t p l other small e room) h = absurd (ground arith)
blob_member n i (is_long_timestamp p l e room) h = absurd (ground arith)
blob_member n i (is_time sec nsec e) h = absurd (ground arith)

pub same_type : (t : ℤ) (n : ℕ) → equals t (pos n) ≡ true → t ≡ pos n
same_type (pos m) n h = ground arith
same_type (negsuc m) n h = cc
