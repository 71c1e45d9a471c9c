-- ===== src/Examples/Lut.antt =====
-- Tests of the lookup tables.
use adapt.Prelude.{ℕ, ◌≡◌, ◌⊎◌, refl, some, List, [], ◌∷◌, Text, codes, nat_eq}
use adapt.Dict.{Dict, get, put, update}
use adapt.Exec.{ok, raise, value_error}
use adapt.Tracking.Lut.{
  fill_labels, build_cell_uid_lut, attach_cell_uid_lut, attach_registration_uid_lut,
}
use adapt.Tracking.Lut.Entries.{LooksUp, Misses, build_cell_uid_lut_lem}

abbrev uids : Dict ℕ Text
uids = (2, codes "B") ∷ (1, codes "A") ∷ []

two_labels : attach_cell_uid_lut 2 uids ≡ some (ok (codes "NONE" ∷ codes "A" ∷ codes "B" ∷ []))
unfolding build_cell_uid_lut fill_labels get put update
two_labels = refl

a_gap : attach_cell_uid_lut 3 uids ≡ some (raise value_error)
unfolding build_cell_uid_lut fill_labels get put update
a_gap = refl

up_to_largest :
    attach_registration_uid_lut uids ≡ some (ok (codes "NONE" ∷ codes "A" ∷ codes "B" ∷ []))
unfolding build_cell_uid_lut fill_labels get put update
up_to_largest = refl

build_cell_uid_lut_lem_example :
    ((found : List Text) × (build_cell_uid_lut uids 2 (codes "NONE") ≡ ok (codes "NONE" ∷ found))
      × LooksUp uids 2 1 found)
    ⊎ ((build_cell_uid_lut uids 2 (codes "NONE") ≡ raise value_error) × Misses uids 2 1)
build_cell_uid_lut_lem_example = build_cell_uid_lut_lem uids 2 (codes "NONE")
