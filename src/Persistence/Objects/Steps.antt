-- ===== src/Persistence/Objects/Steps.antt =====
-- The two ways in which a commit changes the store (src/adapt/persistence/objects.py).
use adapt.Prelude.{
  ◌≡◌, refl, ap, ◌∙◌, ◌⊎◌, true, false, some, List, [], ◌∷◌, arith, Text, text_eq, codes, all_of,
  Bool-cases, Option-cases, inl, inr,
}
use adapt.Dict.{get, has, put}
use adapt.Exec.{◌>>◌, Result-cases}
use adapt.Persistence.Rows.{Instant, ArtifactRecord, ArtifactRow}
use adapt.Persistence.Catalog.{Catalog, names_object, register_artifact, add_lineage}
use adapt.Persistence.Catalog.Consistency.{
  IsConsistent, register_artifact-IsConsistent, add_lineage-IsConsistent,
}
use adapt.Persistence.Objects.{
  Bytes, ArtifactMeta, ObjectWriteHandle, object_name_of, Store, publish, add_parents, record_of,
  commit,
}

pub same_artifacts :
    (child parent relationship : Text) (c : Catalog)
    → (add_lineage child parent relationship c).1.artifacts ≡ c.artifacts
unfolding add_lineage
same_artifacts child parent relationship c = elim (Bool-cases (has child c.artifacts)) [
  | inr no_child ↦ rw no_child refl
  | inl a ↦ elim (Bool-cases (has parent c.artifacts)) [
    | inr no_parent ↦ rw (a, no_parent) refl
    | inl b ↦ ground arith
  ]
]

pub add_parents-artifacts :
    (child : Text) (parents : List Text) (c : Catalog)
    → (add_parents child parents c).1.artifacts ≡ c.artifacts
unfolding add_parents
add_parents-artifacts child [] c = refl
add_parents-artifacts child (parent ∷ parents) c =
    elim (Result-cases (add_lineage child parent (codes "derived_from") c).0) [
      | inl (t, e) ↦ rw e (
          add_parents-artifacts child parents (add_lineage child parent (codes "derived_from") c).1
          ∙ same_artifacts child parent (codes "derived_from") c)
      | inr (x, e) ↦ rw e (same_artifacts child parent (codes "derived_from") c)
    ]

pub add_parents-IsConsistent :
    (child : Text) (parents : List Text) (c : Catalog)
    → IsConsistent c
    → IsConsistent (add_parents child parents c).1
unfolding add_parents
add_parents-IsConsistent child [] c h = h
add_parents-IsConsistent child (parent ∷ parents) c h =
    let kept = add_lineage-IsConsistent child parent (codes "derived_from") c h in
    elim (Result-cases (add_lineage child parent (codes "derived_from") c).0) [
      | inl (t, e) ↦ rw e (
          add_parents-IsConsistent child parents
            (add_lineage child parent (codes "derived_from") c).1 kept)
      | inr (x, e) ↦ rw e kept
    ]

-- The catalog's artifacts are as before, or there is one more, under a new id.
abbrev pub AddsAtMost : ArtifactRow → (c c' : Catalog) → Type 0
AddsAtMost row c c' =
    (c'.artifacts ≡ c.artifacts)
    ⊎ ((has row.fields.artifact_id c.artifacts ≡ false)
        × (c'.artifacts ≡ put row.fields.artifact_id row c.artifacts))

register_artifact-AddsAtMost :
    (now : Instant) (f : ArtifactRecord) (c : Catalog)
    → AddsAtMost (record { fields = f; created_at = now }) c (register_artifact now f c).1
unfolding register_artifact
register_artifact-AddsAtMost now f c = elim (Bool-cases (has f.artifact_id c.artifacts)) [
  | inl taken ↦ inl (rw taken refl)
  | inr new ↦ elim (Bool-cases (names_object f.object_name c.artifacts)) [
    | inl named ↦ inl (rw (new, named) refl)
    | inr free ↦ inr (new, rw (new, free) refl)
  ]
]

-- The catalog that a commit leaves, once it has published.
abbrev pub cataloged_by :
    (now : Instant) → ArtifactRecord → (parents : List Text) → Catalog → Catalog
cataloged_by now f parents c = ((register_artifact now f >> add_parents f.artifact_id parents) c).1

cataloged_by-AddsAtMost :
    (now : Instant) (f : ArtifactRecord) (parents : List Text) (c : Catalog)
    → AddsAtMost (record { fields = f; created_at = now }) c (cataloged_by now f parents c)
cataloged_by-AddsAtMost now f parents c =
    let added = register_artifact-AddsAtMost now f c in
    let linked = add_parents-artifacts f.artifact_id parents (register_artifact now f c).1 in
    elim (Result-cases (register_artifact now f c).0) [
      | inr (x, e) ↦ rw (cataloged_by, e) added
      | inl (t, e) ↦
          rw (cataloged_by, e)
            (elim added [
              | inl same ↦ inl (linked ∙ same)
              | inr (new, one) ↦ inr (new, linked ∙ one)
            ])
    ]

cataloged_by-IsConsistent :
    (now : Instant) (f : ArtifactRecord) (parents : List Text) (c : Catalog)
    → IsConsistent c
    → IsConsistent (cataloged_by now f parents c)
cataloged_by-IsConsistent now f parents c h =
    let kept = register_artifact-IsConsistent now f c h in
    elim (Result-cases (register_artifact now f c).0) [
      | inr (x, e) ↦ rw (cataloged_by, e) kept
      | inl (t, e) ↦
          rw (cataloged_by, e)
            (add_parents-IsConsistent f.artifact_id parents (register_artifact now f c).1 kept)
    ]

module _ (sha256 : Bytes → Text) where
  -- What is true behind a commit that has published the staged bytes.
  pub record Publishes (now : Instant) (handle : ObjectWriteHandle) (meta : ArtifactMeta)
      (s s' : Store) (bytes : Bytes) : Type 0 where
    pub staged : get (object_name_of handle) s.staging ≡ some bytes
    pub unpublished : has (object_name_of handle) s.objects ≡ false
    pub files : s'.objects ≡ put (object_name_of handle) bytes s.objects
    pub artifacts :
        AddsAtMost
          (record { fields = record_of sha256 handle meta bytes; created_at = now })
          s.catalog
          s'.catalog
    pub consistent : IsConsistent s.catalog → IsConsistent s'.catalog

  pub after_publishing :
      (now : Instant) (handle : ObjectWriteHandle) (meta : ArtifactMeta) (parents : List Text)
      (bytes : Bytes) (s : Store)
      → get (object_name_of handle) s.staging ≡ some bytes
      → has (object_name_of handle) s.objects ≡ false
      → all_of (λ parent. has parent s.catalog.artifacts) parents ≡ true
      → (commit sha256 now handle meta parents s).1
        ≡ record (publish (object_name_of handle) bytes s) {
          catalog = cataloged_by now (record_of sha256 handle meta bytes) parents s.catalog;
        }
  unfolding commit
  after_publishing now handle meta parents bytes s e unpublished cataloged =
      elim (Result-cases (register_artifact now (record_of sha256 handle meta bytes) s.catalog).0) [
        | inr (x, r) ↦ rw (cataloged_by, e, unpublished, cataloged, r) refl
        | inl (t, r) ↦
            elim (Result-cases
              (add_parents handle.artifact_id parents
                (register_artifact now (record_of sha256 handle meta bytes) s.catalog).1).0) [
                  | inr (x, q) ↦ rw (cataloged_by, e, unpublished, cataloged, r, q) refl
                  | inl (u, q) ↦ rw (cataloged_by, e, unpublished, cataloged, r, q) refl
                ]
      ]

  pub commit_cases :
      (now : Instant) (handle : ObjectWriteHandle) (meta : ArtifactMeta) (parents : List Text)
      (s : Store)
      → ((commit sha256 now handle meta parents s).1 ≡ s)
        ⊎ ((bytes : Bytes) × Publishes now handle meta s
              (commit sha256 now handle meta parents s).1
              bytes)
  unfolding commit
  commit_cases now handle meta parents s =
      elim (Option-cases (get (object_name_of handle) s.staging)) [
        | inr unstaged ↦ inl (rw unstaged refl)
        | inl (bytes, e) ↦ elim (Bool-cases (has (object_name_of handle) s.objects)) [
          | inl published ↦ inl (rw (e, published) refl)
          | inr unpublished ↦
              elim (Bool-cases (all_of (λ parent. has parent s.catalog.artifacts) parents)) [
                | inr missing ↦ inl (rw (e, unpublished, missing) refl)
                | inl cataloged ↦
                    let last =
                      after_publishing now handle meta parents bytes s e unpublished cataloged in
                    let f = record_of sha256 handle meta bytes in
                    inr (
                      bytes,
                      record {
                        staged = e;
                        unpublished = unpublished;
                        files = ap (λ (x : Store). x.objects) last;
                        artifacts = rw last (cataloged_by-AddsAtMost now f parents s.catalog);
                        consistent =
                            λ h. rw last (cataloged_by-IsConsistent now f parents s.catalog h);
                      },
                    )
              ]
        ]
      ]
