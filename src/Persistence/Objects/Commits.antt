-- ===== src/Persistence/Objects/Commits.antt =====
-- What a commit does (src/adapt/persistence/objects.py), on every branch.
use adapt.Prelude.{
  ◌≡◌, refl, ◌∙◌, Bool, true, false, not, ◌&&◌, Option, none, some, List, [], ◌∷◌, ◌++◌,
  append_assoc, append-nil, arith, Text, text_eq, text_beq_iff, codes, all_of, mem, mem-append,
  distinct, beq_refl, Bool-cases, Option-cases, inl, inr, if◌then◌else◌,
}
use adapt.Dict.{Dict, get, has, put, pop, has-put}
use adapt.Exec.{Result, ok, raise, store_error}
use adapt.Persistence.Rows.{Instant, ArtifactRecord, ArtifactRow, LineageEdge, lineage_eq}
use adapt.Persistence.Catalog.{Catalog, names_object, register_artifact, add_lineage, edge_of}
use adapt.Persistence.Catalog.Consistency.{IsConsistent}
use adapt.Persistence.Objects.{
  Bytes, ArtifactMeta, ObjectWriteHandle, object_name_of, Store, add_parents, record_of, commit,
}

abbrev pub derived_edge : (child parent : Text) → LineageEdge
derived_edge child parent = edge_of child parent (codes "derived_from")

-- The edge to each parent, in their order.
abbrev pub derived_edges : (child : Text) → List Text → List LineageEdge
derived_edges child [] = []
derived_edges child (parent ∷ parents) = derived_edge child parent ∷ derived_edges child parents

abbrev unlinked : (child : Text) → List Text → Catalog → Bool
unlinked child parents c =
    all_of (λ parent. not (mem (derived_edge child parent) c.artifact_lineage)) parents

unlinked-snoc :
    (child parent : Text) (parents : List Text) (c : Catalog)
    → unlinked child parents c ≡ true
    → mem parent parents ≡ false
    → unlinked child parents
        (record c { artifact_lineage = c.artifact_lineage ++ derived_edge child parent ∷ [] })
      ≡ true
unlinked-snoc child parent [] c u other = refl
unlinked-snoc child parent (p ∷ parents) c u other = ground (
  arith,
  mem-append (derived_edge child p) c.artifact_lineage (derived_edge child parent ∷ []),
  unlinked-snoc child parent parents c,
  text_beq_iff parent p,
  text_beq_iff p parent,
)

add_lineage_new :
    (child parent : Text) (c : Catalog)
    → has child c.artifacts ≡ true
    → has parent c.artifacts ≡ true
    → mem (derived_edge child parent) c.artifact_lineage ≡ false
    → add_lineage child parent (codes "derived_from") c ≡ (
      ok tt,
      record c { artifact_lineage = c.artifact_lineage ++ derived_edge child parent ∷ [] },
    )
unfolding add_lineage
add_lineage_new child parent c a b new = rw (a, b, new) refl

pub add_parents_lem :
    (child : Text) (parents : List Text) (c : Catalog)
    → has child c.artifacts ≡ true
    → all_of (λ parent. has parent c.artifacts) parents ≡ true
    → distinct parents ≡ true
    → unlinked child parents c ≡ true
    → add_parents child parents c
      ≡ (ok tt, record c { artifact_lineage = c.artifact_lineage ++ derived_edges child parents })
unfolding add_parents
add_parents_lem child [] c a b d u = rw append-nil refl
add_parents_lem child (parent ∷ parents) c a b d u =
    rw (add_lineage_new child parent c a (ground arith) (ground arith)) (
      add_parents_lem child parents
        (record c { artifact_lineage = c.artifact_lineage ++ derived_edge child parent ∷ [] }) a
        (ground arith) (ground arith)
        (unlinked-snoc child parent parents c (ground arith) (ground arith))
      ∙ rw append_assoc refl)

-- No edge leads from an artifact that is not cataloged.
new_unlinked :
    (child : Text) (parents : List Text) (c : Catalog)
    → IsConsistent c
    → has child c.artifacts ≡ false
    → unlinked child parents c ≡ true
new_unlinked child [] c h new = refl
new_unlinked child (parent ∷ parents) c h new =
    elim (Bool-cases (mem (derived_edge child parent) c.artifact_lineage)) [
      | inl old ↦
          let (has_child, _) = h.lineage_ends (derived_edge child parent) old in
          absurd (ground (arith, has_child))
      | inr none_yet ↦ ground (arith, new_unlinked child parents c h new)
    ]

still_cataloged :
    (i : Text) (row : ArtifactRow) (parents : List Text) (artifacts : Dict Text ArtifactRow)
    → all_of (λ parent. has parent artifacts) parents ≡ true
    → all_of (λ parent. has parent (put i row artifacts)) parents ≡ true
still_cataloged i row [] artifacts h = refl
still_cataloged i row (parent ∷ parents) artifacts h =
    ground (arith, has-put i parent row artifacts, still_cataloged i row parents artifacts)

module _ (sha256 : Bytes → Text) where
  -- The store behind a commit of the staged bytes.
  abbrev pub committed :
      (now : Instant)
      → ObjectWriteHandle
      → ArtifactMeta
      → (parents : List Text) → Bytes
      → Store
      → Store
  committed now handle meta parents bytes s = record {
    staging = pop (object_name_of handle) s.staging;
    objects = put (object_name_of handle) bytes s.objects;
    catalog = record s.catalog {
      artifacts =
          put handle.artifact_id
            (record { fields = record_of sha256 handle meta bytes; created_at = now })
            s.catalog.artifacts;
      artifact_lineage = s.catalog.artifact_lineage ++ derived_edges handle.artifact_id parents;
    };
  }

  -- The result and the store behind a commit, for the staged bytes if there are any.
  abbrev pub commit_outcome :
      (now : Instant)
      → ObjectWriteHandle
      → ArtifactMeta
      → (parents : List Text) → Option Bytes
      → Store
      → Result ArtifactRecord × Store
  commit_outcome now handle meta parents none s = (raise store_error, s)
  commit_outcome now handle meta parents (some bytes) s =
      if not (has (object_name_of handle) s.objects)
        && all_of (λ parent. has parent s.catalog.artifacts) parents
      then (ok (record_of sha256 handle meta bytes), committed now handle meta parents bytes s)
      else (raise store_error, s)

  recorded :
      (now : Instant) (handle : ObjectWriteHandle) (meta : ArtifactMeta) (parents : List Text)
      (bytes : Bytes) (c : Catalog)
      → has handle.artifact_id c.artifacts ≡ false
      → names_object (object_name_of handle) c.artifacts ≡ false
      → register_artifact now (record_of sha256 handle meta bytes) c ≡ (
        ok tt,
        record c {
          artifacts =
              put handle.artifact_id
                (record { fields = record_of sha256 handle meta bytes; created_at = now })
                c.artifacts;
        },
      )
  unfolding register_artifact
  recorded now handle meta parents bytes c new free = rw (new, free) refl

  -- In a consistent catalog, under an id and an object name that no artifact has, and with different
  -- parents: a commit returns the record of the staged bytes if there are any, no object has the name
  -- and every parent is cataloged, and then it has moved the bytes to the object, put the record
  -- under its id and added an edge to each parent; it raises StoreError otherwise and changes nothing.
  pub commit_lem :
      (now : Instant) (handle : ObjectWriteHandle) (meta : ArtifactMeta) (parents : List Text)
      (s : Store)
      → IsConsistent s.catalog
      → has handle.artifact_id s.catalog.artifacts ≡ false
      → names_object (object_name_of handle) s.catalog.artifacts ≡ false
      → distinct parents ≡ true
      → commit sha256 now handle meta parents s
        ≡ commit_outcome now handle meta parents (get (object_name_of handle) s.staging) s
  unfolding commit
  commit_lem now handle meta parents s h new free different =
      elim (Option-cases (get (object_name_of handle) s.staging)) [
        | inr unstaged ↦ rw unstaged refl
        | inl (bytes, e) ↦ elim (Bool-cases (has (object_name_of handle) s.objects)) [
          | inl published ↦ rw (e, published) refl
          | inr unpublished ↦
              elim (Bool-cases (all_of (λ parent. has parent s.catalog.artifacts) parents)) [
                | inr missing ↦ rw (e, unpublished, missing) refl
                | inl cataloged ↦
                    rw
                      (
                        e,
                        unpublished,
                        cataloged,
                        recorded now handle meta parents bytes s.catalog new free,
                        add_parents_lem handle.artifact_id parents
                            (record s.catalog {
                              artifacts =
                                  put handle.artifact_id
                                    (record {
                                      fields = record_of sha256 handle meta bytes;
                                      created_at = now;
                                    })
                                    s.catalog.artifacts;
                            })
                            (has-put handle.artifact_id handle.artifact_id _ _
                              ∙ ground (arith, beq_refl handle.artifact_id))
                            (still_cataloged handle.artifact_id _ parents _ cataloged) different
                            (new_unlinked handle.artifact_id parents s.catalog h new),
                      )
                      refl
              ]
        ]
      ]
