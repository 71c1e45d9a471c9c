-- ===== src/Persistence/Catalog/Queries.antt =====
-- The listing methods of Catalog (src/adapt/persistence/collection_catalog.py).
use adapt.Prelude.{
  Bool, true, false, ◌&&◌, ◌||◌, Option, none, some, List, [], ◌∷◌, map, Text, text_eq, text_ltb,
  nat_beq, ltb, ◌==◌, if◌then◌else◌, keep, sorted_by,
}
use adapt.Dict.{Dict, values}
use adapt.Persistence.Rows.{
  ScanKey, scan_key_eq, ProductKey, ArtifactRow, ScanRow, is_complete, ProductRow,
}
use adapt.Persistence.Catalog.{Catalog}

-- scan_products: the links of one scan by product
abbrev pub products_of : ScanKey → Dict ProductKey ProductRow → Dict Text ProductRow
products_of key [] = []
products_of key ((k, p) ∷ products) =
    let others = products_of key products in
    if k.scan == key then (k.product, p) ∷ others else others

-- complete_scans: ORDER BY scan_time
abbrev pub complete_scans : (run_id : Text) → Catalog → List (ScanKey × ScanRow)
complete_scans run_id c =
    sorted_by (λ a b. ltb a.1.scan_time b.1.scan_time)
      (keep (λ s. s.0.run_id == run_id && is_complete s.1.status) c.scans)

abbrev pub parents_of : (artifact_id : Text) → Catalog → List Text
parents_of artifact_id c =
    sorted_by text_ltb (map (λ e. e.parent) (keep (λ e. e.child == artifact_id) c.artifact_lineage))

abbrev pub children_of : (artifact_id : Text) → Catalog → List Text
children_of artifact_id c =
    sorted_by text_ltb (map (λ e. e.child) (keep (λ e. e.parent == artifact_id) c.artifact_lineage))

-- list_artifacts: both filters are optional; ORDER BY observation_time, artifact_id, NULL first.
abbrev pub matches : Option Text → Text → Bool
matches none value = true
matches (some wanted) value = value == wanted

abbrev pub listed_before : ArtifactRow → ArtifactRow → Bool
listed_before a b = elim a.fields.observation_time [
  | none ↦ elim b.fields.observation_time [
    | none ↦ text_ltb a.fields.artifact_id b.fields.artifact_id
    | some t ↦ true
  ]
  | some s ↦ elim b.fields.observation_time [
    | none ↦ false
    | some t ↦ ltb s t || (nat_beq s t && text_ltb a.fields.artifact_id b.fields.artifact_id)
  ]
]

abbrev pub list_artifacts : (run_id artifact_type : Option Text) → Catalog → List ArtifactRow
list_artifacts run_id artifact_type c = sorted_by listed_before (
    keep (λ a. matches run_id a.fields.run_id && matches artifact_type a.fields.artifact_type)
      (values c.artifacts))
