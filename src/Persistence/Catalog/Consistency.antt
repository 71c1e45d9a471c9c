-- ===== src/Persistence/Catalog/Consistency.antt =====
-- The invariant of the catalog's tables (src/adapt/persistence/collection_catalog.py), and that each
-- method keeps it, whether it returns or raises.
use adapt.Prelude.{
  ◌≡◌, refl, sym, ap, ◌∙◌, inl, inr, true, ◌||◌, some, [], ◌∷◌, ◌++◌, arith, Text, text_eq,
  Bool-cases, mem, mem-append, subset,
}
use adapt.Dict.{get, has, put, get-put_cases, has-put}
use adapt.Persistence.Rows.{
  Instant, ScanKey, scan_key_eq, ProductKey, product_key_eq, ArtifactRecord, ArtifactRow,
  LineageEdge, lineage_eq, lineage_beq_iff, is_complete, ScanRow, ProductPlace, artifact, table,
  ProductRow, SchemaSnapshot,
}
use adapt.Persistence.Catalog.{
  Catalog, empty_catalog, required_scan_products, names_object, register_artifact,
  register_table_schema, add_lineage, edge_of, linked_products, is_cataloged,
}
use adapt.Persistence.Catalog.Tables.{object_unnamed}

pub record IsConsistent (c : Catalog) : Type 0 where
  -- Every artifact stands under its id, and no two name the same object.
  pub keyed : (i : Text) (a : ArtifactRow) → get i c.artifacts ≡ some a → a.fields.artifact_id ≡ i
  pub one_object :
      (i j : Text) (a b : ArtifactRow)
      → get i c.artifacts ≡ some a
      → get j c.artifacts ≡ some b
      → a.fields.object_name ≡ b.fields.object_name
      → i ≡ j
  -- Both ends of a lineage edge are cataloged.
  pub lineage_ends :
      (e : LineageEdge)
      → mem e c.artifact_lineage ≡ true
      → (has e.child c.artifacts ≡ true) × (has e.parent c.artifacts ≡ true)
  -- No two scans of a run have the same time.
  pub one_time :
      (k l : ScanKey) (s t : ScanRow)
      → get k c.scans ≡ some s
      → get l c.scans ≡ some t
      → k.run_id ≡ l.run_id
      → s.scan_time ≡ t.scan_time
      → k ≡ l
  -- A product is linked to a registered scan, and an artifact that it names is cataloged.
  pub links_scan : (p : ProductKey) → has p c.scan_products ≡ true → has p.scan c.scans ≡ true
  pub links_artifact :
      (p : ProductKey) (r : ProductRow)
      → get p c.scan_products ≡ some r
      → is_cataloged r.place c ≡ true
  -- A complete scan has all required products.
  pub complete_linked :
      (k : ScanKey) (s : ScanRow)
      → get k c.scans ≡ some s
      → is_complete s.status ≡ true
      → subset required_scan_products (linked_products k c.scan_products) ≡ true

pub empty-IsConsistent : IsConsistent empty_catalog
unfolding get has
empty-IsConsistent = record {
  keyed = λ i a e. absurd (ground arith);
  one_object = λ i j a b e. absurd (ground arith);
  lineage_ends = λ e m. absurd (ground arith);
  one_time = λ k l s t e. absurd (ground arith);
  links_scan = λ p e. absurd (ground arith);
  links_artifact = λ p r e. absurd (ground arith);
  complete_linked = λ k s e. absurd (ground arith);
}

cataloged_put :
    (i : Text) (row : ArtifactRow) (place : ProductPlace) (c : Catalog)
    → is_cataloged place c ≡ true
    → is_cataloged place (record c { artifacts = put i row c.artifacts }) ≡ true
cataloged_put i row (artifact a) c h = has-put i a row c.artifacts ∙ ground arith
cataloged_put i row (table t) c h = refl

pub register_artifact-IsConsistent :
    (now : Instant) (f : ArtifactRecord) (c : Catalog)
    → IsConsistent c
    → IsConsistent (register_artifact now f c).1
unfolding register_artifact
register_artifact-IsConsistent now f c h =
    elim (Bool-cases (has f.artifact_id c.artifacts || names_object f.object_name c.artifacts)) [
      | inl taken ↦ rw taken h
      | inr free ↦
          let row : ArtifactRow = record { fields = f; created_at = now } in
          let cases =
            λ (i : Text) (a : ArtifactRow). get-put_cases f.artifact_id i row a c.artifacts in
          let unnamed : (i : Text) (a : ArtifactRow)
              → get i c.artifacts ≡ some a
              → a.fields.object_name ≡ f.object_name
              → ⊥ =
            λ i a. object_unnamed f.object_name i a c.artifacts (ground arith) in
          rw free (record {
            keyed = λ i a e. elim (cases i a e) [
              | inl (same, new) ↦ ap (λ (x : ArtifactRow). x.fields.artifact_id) (sym new) ∙ same
              | inr (other, old) ↦ h.keyed i a old
            ];
            one_object = λ i j a b e g n. elim (cases i a e) [
              | inl (here, new) ↦ elim (cases j b g) [
                | inl (there, last) ↦ sym here ∙ there
                | inr (other, old) ↦ absurd (
                    unnamed j b old
                      (sym n ∙ ap (λ (x : ArtifactRow). x.fields.object_name) (sym new)))
              ]
              | inr (other, old) ↦ elim (cases j b g) [
                | inl (there, new) ↦
                    absurd (
                      unnamed i a old
                        (n ∙ ap (λ (x : ArtifactRow). x.fields.object_name) (sym new)))
                | inr (more, older) ↦ h.one_object i j a b old older n
              ]
            ];
            lineage_ends = λ e m.
                let (p, q) = h.lineage_ends e m in
                (
                  has-put f.artifact_id e.child row c.artifacts ∙ ground arith,
                  has-put f.artifact_id e.parent row c.artifacts ∙ ground arith,
                );
            one_time = h.one_time;
            links_scan = h.links_scan;
            links_artifact =
                λ p r e. cataloged_put f.artifact_id row r.place c (h.links_artifact p r e);
            complete_linked = h.complete_linked;
          })
    ]

pub register_table_schema-IsConsistent :
    (snapshot : SchemaSnapshot) (c : Catalog)
    → IsConsistent c
    → IsConsistent (register_table_schema snapshot c).1
unfolding register_table_schema
register_table_schema-IsConsistent snapshot c h =
    elim (Bool-cases (has snapshot.table_name c.table_schemas)) [
      | inl frozen ↦ rw frozen h
      | inr new ↦ rw new (record {
        keyed = h.keyed;
        one_object = h.one_object;
        lineage_ends = h.lineage_ends;
        one_time = h.one_time;
        links_scan = h.links_scan;
        links_artifact = λ p r e. same_artifacts r.place (h.links_artifact p r e);
        complete_linked = h.complete_linked;
      })
    ]
  where
    same_artifacts :
        (place : ProductPlace)
        → is_cataloged place c ≡ true
        → is_cataloged place
            (record c { table_schemas = put snapshot.table_name snapshot c.table_schemas })
          ≡ true
    same_artifacts (artifact a) e = e
    same_artifacts (table t) e = e

pub add_lineage-IsConsistent :
    (child parent relationship : Text) (c : Catalog)
    → IsConsistent c
    → IsConsistent (add_lineage child parent relationship c).1
unfolding add_lineage
add_lineage-IsConsistent child parent relationship c h =
    let edge = edge_of child parent relationship in
    elim (Bool-cases (has child c.artifacts)) [
      | inr no_child ↦ rw no_child h
      | inl a ↦ elim (Bool-cases (has parent c.artifacts)) [
        | inr no_parent ↦ rw (a, no_parent) h
        | inl b ↦ elim (Bool-cases (mem edge c.artifact_lineage)) [
          | inl known ↦ rw (a, b, known) h
          | inr new ↦ rw (a, b, new) (added edge a b)
        ]
      ]
    ]
  where
    same_artifacts :
        (edge : LineageEdge) (place : ProductPlace)
        → is_cataloged place c ≡ true
        → is_cataloged place (record c { artifact_lineage = c.artifact_lineage ++ edge ∷ [] })
          ≡ true
    same_artifacts edge (artifact a) e = e
    same_artifacts edge (table t) e = e

    added :
        (edge : LineageEdge)
        → has edge.child c.artifacts ≡ true
        → has edge.parent c.artifacts ≡ true
        → IsConsistent (record c { artifact_lineage = c.artifact_lineage ++ edge ∷ [] })
    added edge a b = record {
      keyed = h.keyed;
      one_object = h.one_object;
      lineage_ends = λ e m. elim (Bool-cases (mem e c.artifact_lineage)) [
        | inl old ↦ h.lineage_ends e old
        | inr new ↦
            let same : e ≡ edge =
              (lineage_beq_iff e edge).0
                (ground (arith, mem-append e c.artifact_lineage (edge ∷ []))) in
            rw same (a, b)
      ];
      one_time = h.one_time;
      links_scan = h.links_scan;
      links_artifact = λ p r e. same_artifacts edge r.place (h.links_artifact p r e);
      complete_linked = h.complete_linked;
    }
