-- ===== src/Tracking/Lut.antt =====
-- The lookup tables from labels to uids (src/adapt/utils/cell_uid_lut.py and
-- src/adapt/modules/tracking/lut.py). The frames of pandas are lists of pairs, and the largest label
-- of the segmentation is an argument.
pub mod Entries
use adapt.Prelude.{
  ℕ, zero, suc, ◌+◌, Option, none, some, List, [], ◌∷◌, Text, codes, nat_eq, ltb, if◌then◌else◌,
}
use adapt.Dict.{Dict, get, update, keys}
use adapt.Exec.{Result, ok, raise, value_error}

abbrev pub cons_ok : Text → Result (List Text) → Result (List Text)
cons_ok uid (ok uids) = ok (uid ∷ uids)
cons_ok uid (raise e) = raise e

abbrev entry_or_raise : Option Text → Result (List Text) → Result (List Text)
entry_or_raise none rest = raise value_error
entry_or_raise (some uid) rest = cons_ok uid rest

-- The loop over the labels from the given one on, with their count.
unfoldable pub fill_labels : Dict ℕ Text → (count label : ℕ) → Result (List Text)
fill_labels label_to_uid zero label = ok []
fill_labels label_to_uid (suc count) label =
    let rest = fill_labels label_to_uid count (label + 1) in
    entry_or_raise (get label label_to_uid) rest

unfoldable pub build_cell_uid_lut :
    (label_to_uid : Dict ℕ Text) → (max_label : ℕ) → (null_value : Text) → Result (List Text)
build_cell_uid_lut label_to_uid max_label null_value =
    cons_ok null_value (fill_labels label_to_uid max_label 1)

-- attach_cell_uid_lut: the new variable, or none without tracked cells
abbrev pub attach_cell_uid_lut :
    (max_label : ℕ) → (tracked_cells : List (ℕ × Text)) → Option (Result (List Text))
attach_cell_uid_lut max_label [] = none
attach_cell_uid_lut max_label (cell ∷ cells) =
    some (build_cell_uid_lut (update [] (cell ∷ cells)) max_label (codes "NONE"))

abbrev largest : ℕ → List ℕ → ℕ
largest best [] = best
largest best (l ∷ ls) = largest (if ltb best l then l else best) ls

-- attach_registration_uid_lut, up to the largest label of the previous scan
abbrev pub attach_registration_uid_lut :
    (prev_tracked_cells : List (ℕ × Text)) → Option (Result (List Text))
attach_registration_uid_lut [] = none
attach_registration_uid_lut ((label, uid) ∷ cells) =
    let label_to_uid = update [] ((label, uid) ∷ cells) in
    some (build_cell_uid_lut label_to_uid (largest 0 (keys label_to_uid)) (codes "NONE"))
