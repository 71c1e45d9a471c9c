-- ===== src/Tracking/Lut/Entries.antt =====
-- The entries of a lookup table (src/adapt/utils/cell_uid_lut.py), and when there is none.
use adapt.Prelude.{
  ℕ, zero, suc, ◌+◌, ◌≤◌, ◌<◌, ◌≡◌, refl, sym, ap, ◌∙◌, ◌⊎◌, inl, inr, none, some, List, [], ◌∷◌,
  arith, Text, nat_eq, length, get_elem?, Option-cases,
}
use adapt.Dict.{Dict, get}
use adapt.Exec.{Result, ok, raise, value_error}
use adapt.Tracking.Lut.{fill_labels, build_cell_uid_lut}

-- The uids of the labels from a first one on, as many as there are labels.
abbrev pub LooksUp : Dict ℕ Text → (count first : ℕ) → List Text → Type 0
LooksUp label_to_uid count first uids =
    (length uids ≡ count) × ((i : ℕ) → i < count → get_elem? uids i ≡ get (first + i) label_to_uid)

abbrev pub Misses : Dict ℕ Text → (count first : ℕ) → Type 0
Misses label_to_uid count first =
    (label : ℕ) × (first ≤ label) × (label < first + count) × (get label label_to_uid ≡ none)

abbrev Filled : Dict ℕ Text → (count first : ℕ) → Result (List Text) → Type 0
Filled label_to_uid count first r =
    ((uids : List Text) × (r ≡ ok uids) × LooksUp label_to_uid count first uids)
    ⊎ ((r ≡ raise value_error) × Misses label_to_uid count first)

LooksUp-next :
    (d : Dict ℕ Text) (count first : ℕ) (uid : Text) (uids : List Text)
    → get first d ≡ some uid
    → LooksUp d count (first + 1) uids
    → LooksUp d (suc count) first (uid ∷ uids)
LooksUp-next d count first uid uids e (same, entries) = (omega (arith, same), next)
  where
    next : (i : ℕ) → i < suc count → get_elem? (uid ∷ uids) i ≡ get (first + i) d
    next zero h = sym e ∙ ap (λ n. get n d) (omega arith)
    next (suc i) h = entries i (omega arith) ∙ ap (λ n. get n d) (omega arith)

fill_labels-Filled :
    (d : Dict ℕ Text) (count first : ℕ) → Filled d count first (fill_labels d count first)
unfolding fill_labels
fill_labels-Filled d zero first = inl ([], refl, (refl, λ i h. absurd (omega arith)))
fill_labels-Filled d (suc count) first = elim (Option-cases (get first d)) [
  | inr missing ↦ inr (rw missing refl, (first, omega arith, omega arith, missing))
  | inl (uid, e) ↦ elim (fill_labels-Filled d count (first + 1)) [
    | inl (uids, r, looks) ↦
        inl (uid ∷ uids, rw (e, r) refl, LooksUp-next d count first uid uids e looks)
    | inr (r, (label, low, high, gone)) ↦
        inr (rw (e, r) refl, (label, omega (arith, low), omega (arith, high), gone))
  ]
]

-- build_cell_uid_lut either returns the null value followed by the uid of each label from 1 to the
-- largest, one entry for each, or raises ValueError, and then one of these labels has no uid.
pub build_cell_uid_lut_lem :
    (label_to_uid : Dict ℕ Text) (max_label : ℕ) (null_value : Text)
    → ((uids : List Text) × (build_cell_uid_lut label_to_uid max_label null_value
          ≡ ok (null_value ∷ uids))
        × LooksUp label_to_uid max_label 1 uids)
      ⊎ ((build_cell_uid_lut label_to_uid max_label null_value ≡ raise value_error)
          × Misses label_to_uid max_label 1)
unfolding build_cell_uid_lut
build_cell_uid_lut_lem label_to_uid max_label null_value =
    elim (fill_labels-Filled label_to_uid max_label 1) [
      | inl (uids, r, looks) ↦ inl (uids, rw r refl, looks)
      | inr (r, gone) ↦ inr (rw r refl, gone)
    ]
