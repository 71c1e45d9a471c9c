-- ===== src/Persistence/Catalog/Tables.antt =====
-- What the constraints and updates of src/adapt/persistence/collection_catalog.py say of the rows.
use adapt.Prelude.{
  ℕ, ◌≡◌, refl, sym, ap, ◌∙◌, ◌⊎◌, inl, inr, true, false, Option, none, some, List, [], ◌∷◌, arith,
  Text, text_eq, text_beq_iff, ◌==◌, Bool-cases, if◌then◌else◌, mem, subset,
}
use adapt.Dict.{Dict, get, has}
use adapt.Persistence.Rows.{
  Instant, ScanKey, scan_key_eq, scan_key_beq_iff, ProductKey, product_key_eq, ArtifactRow,
  ScanStatus, ScanRow, ProductRow,
}
use adapt.Persistence.Catalog.{names_object, collides, linked_products, set_status}

pub subset_mono :
    (xs ys zs : List Text)
    → ((x : Text) → mem x ys ≡ true → mem x zs ≡ true)
    → subset xs ys ≡ true
    → subset xs zs ≡ true
subset_mono [] ys zs h s = refl
subset_mono (x ∷ xs) ys zs h s = ground (arith, h x, subset_mono xs ys zs h)

pub object_unnamed :
    (name i : Text) (a : ArtifactRow) (d : Dict Text ArtifactRow)
    → names_object name d ≡ false
    → get i d ≡ some a
    → a.fields.object_name ≡ name
    → ⊥
unfolding get
object_unnamed name i a [] n g e = ground arith
object_unnamed name i a ((j, b) ∷ d) n g e = elim (Bool-cases (j == i)) [
  | inl same ↦
      let row : b ≡ a = ground arith in
      ground (
        arith,
        ap (λ (x : ArtifactRow). x.fields.object_name) row,
        text_beq_iff b.fields.object_name name,
      )
  | inr other ↦ object_unnamed name i a d (ground arith) (ground arith) e
]

pub no_collision :
    (key k : ScanKey) (time : ℕ) (s : ScanRow) (d : Dict ScanKey ScanRow)
    → collides key time d ≡ false
    → get k d ≡ some s
    → k.run_id ≡ key.run_id
    → s.scan_time ≡ time
    → k ≡ key
unfolding get
no_collision key k time s [] n g r e = absurd (ground arith)
no_collision key k time s ((j, t) ∷ d) n g r e = elim (Bool-cases (j == k)) [
  | inl same ↦
      let row : t ≡ s = ground arith in
      ground (
        arith,
        ap (λ (x : ScanRow). x.scan_time) row,
        scan_key_beq_iff j k,
        scan_key_beq_iff j key,
        text_beq_iff j.run_id key.run_id,
        ap (λ (x : ScanKey). x.run_id) ((scan_key_beq_iff j k).0 same),
      )
  | inr other ↦ no_collision key k time s d (ground arith) (ground arith) r e
]

pub mem-linked_products :
    (key : ScanKey) (p : Text) (d : Dict ProductKey ProductRow)
    → mem p (linked_products key d) ≡ has (record { scan = key; product = p }) d
unfolding has
mem-linked_products key p [] = refl
mem-linked_products key p ((k, r) ∷ d) = ground (
  arith,
  mem-linked_products key p d,
  scan_key_beq_iff k.scan key,
  text_beq_iff p k.product,
  text_beq_iff k.product p,
)

abbrev pub with_status : ScanStatus → Instant → Option ScanRow → Option ScanRow
with_status status now none = none
with_status status now (some s) = some (record s { status = status; updated_at = now })

pub get-set_status :
    (status : ScanStatus) (now : Instant) (key k : ScanKey) (d : Dict ScanKey ScanRow)
    → get k (set_status status now key d)
      ≡ (if key == k then with_status status now (get k d) else get k d)
unfolding get
get-set_status status now key k [] = ground arith
get-set_status status now key k ((j, s) ∷ d) = ground (
  arith,
  get-set_status status now key k d,
  scan_key_beq_iff j key,
  scan_key_beq_iff key k,
  scan_key_beq_iff j k,
)

pub has-set_status :
    (status : ScanStatus) (now : Instant) (key k : ScanKey) (d : Dict ScanKey ScanRow)
    → has k (set_status status now key d) ≡ has k d
unfolding has
has-set_status status now key k [] = refl
has-set_status status now key k ((j, s) ∷ d) = ground (arith, has-set_status status now key k d)

-- A row after an update of the status, and the row before it.
pub set_status_cases :
    (status : ScanStatus) (now : Instant) (key k : ScanKey) (s : ScanRow) (d : Dict ScanKey ScanRow)
    → get k (set_status status now key d) ≡ some s
    → (x : ScanRow) × (get k d ≡ some x)
      × (x.scan_time ≡ s.scan_time)
      × (((key ≡ k) × (s.status ≡ status)) ⊎ (x ≡ s))
set_status_cases status now key k s d e =
    go (get k d) refl (sym (get-set_status status now key k d) ∙ e)
  where
    some_inj : (a b : ScanRow) → some a ≡ some b → a ≡ b
    some_inj a b q = ground arith

    changed :
        (x : ScanRow)
        → record x { status = status; updated_at = now } ≡ s
        → (x.scan_time ≡ s.scan_time) × (s.status ≡ status)
    changed x q = (ap (λ (y : ScanRow). y.scan_time) q, ap (λ (y : ScanRow). y.status) (sym q))

    go :
        (old : Option ScanRow)
        → get k d ≡ old
        → (if key == k then with_status status now (get k d) else get k d) ≡ some s
        → (x : ScanRow) × (get k d ≡ some x)
          × (x.scan_time ≡ s.scan_time)
          × (((key ≡ k) × (s.status ≡ status)) ⊎ (x ≡ s))
    go none p q = absurd (ground (arith, p))
    go (some x) p q = elim (Bool-cases (key == k)) [
      | inl same ↦
          let (time, set) = changed x (some_inj _ s (rw (p, same) at q)) in
          (x, p, time, inl ((scan_key_beq_iff key k).0 same, set))
      | inr other ↦
          let kept = some_inj x s (rw (p, other) at q) in
          (x, p, ap (λ (y : ScanRow). y.scan_time) kept, inr kept)
    ]
