-- ===== src/Persistence/Objects/Returns.antt =====
-- What a commit that returns has done (src/adapt/persistence/objects.py).
use adapt.Prelude.{
  ◌≡◌, refl, ap, ◌∙◌, false, List, arith, Text, text_eq, all_of, Bool-cases, Option-cases, inl, inr,
}
use adapt.Dict.{get, has, put}
use adapt.Exec.{ok, ◌>>◌, pure, >>=-returns}
use adapt.Persistence.Rows.{Instant, ArtifactRecord}
use adapt.Persistence.Catalog.{Catalog, names_object, register_artifact}
use adapt.Persistence.Objects.{
  Bytes, ArtifactMeta, ObjectWriteHandle, object_name_of, Store, publish, in_catalog, add_parents,
  record_of, commit,
}
use adapt.Persistence.Objects.Steps.{add_parents-artifacts, cataloged_by, after_publishing}

registered :
    (now : Instant) (f : ArtifactRecord) (c : Catalog)
    → (register_artifact now f c).0 ≡ ok tt
    → (has f.artifact_id c.artifacts ≡ false)
      × ((register_artifact now f c).1.artifacts
          ≡ put f.artifact_id (record { fields = f; created_at = now }) c.artifacts)
unfolding register_artifact
registered now f c h = elim (Bool-cases (has f.artifact_id c.artifacts)) [
  | inl taken ↦ absurd (ground (arith, taken))
  | inr new ↦ elim (Bool-cases (names_object f.object_name c.artifacts)) [
    | inl named ↦ absurd (ground (arith, new, named))
    | inr free ↦ (new, rw (new, free) refl)
  ]
]

module _ (sha256 : Bytes → Text) where
  -- A commit that returns has put the record of the staged bytes under a new id.
  pub commit_returned :
      (now : Instant) (handle : ObjectWriteHandle) (meta : ArtifactMeta) (parents : List Text)
      (s : Store) (f : ArtifactRecord)
      → (commit sha256 now handle meta parents s).0 ≡ ok f
      → (bytes : Bytes) × (f ≡ record_of sha256 handle meta bytes)
        × (has handle.artifact_id s.catalog.artifacts ≡ false)
        × ((commit sha256 now handle meta parents s).1.catalog.artifacts
            ≡ put handle.artifact_id
                (record { fields = record_of sha256 handle meta bytes; created_at = now })
                s.catalog.artifacts)
  unfolding commit register_artifact
  commit_returned now handle meta parents s f h =
      elim (Option-cases (get (object_name_of handle) s.staging)) [
        | inr unstaged ↦ absurd (ground (arith, unstaged))
        | inl (bytes, e) ↦ elim (Bool-cases (has (object_name_of handle) s.objects)) [
          | inl published ↦ absurd (ground (arith, e, published))
          | inr unpublished ↦
              elim (Bool-cases (all_of (λ parent. has parent s.catalog.artifacts) parents)) [
                | inr missing ↦ absurd (ground (arith, e, unpublished, missing))
                | inl cataloged ↦
                    let (u, r, h', _) =
                      >>=-returns
                        (in_catalog (register_artifact now (record_of sha256 handle meta bytes)))
                        (λ _.
                          in_catalog (add_parents handle.artifact_id parents)
                          >> pure (record_of sha256 handle meta bytes))
                        (publish (object_name_of handle) bytes s) f
                        (rw (e, unpublished, cataloged) at h) in
                    let (v, q, last, _) =
                      >>=-returns (in_catalog (add_parents handle.artifact_id parents))
                        (λ _. pure (record_of sha256 handle meta bytes))
                        (in_catalog (register_artifact now (record_of sha256 handle meta bytes))
                          (publish (object_name_of handle) bytes s)).1
                        f h' in
                    let (new, one) =
                      registered now (record_of sha256 handle meta bytes) s.catalog r in
                    (
                      bytes,
                      ground (arith, last),
                      new,
                      ap (λ (x : Store). x.catalog.artifacts)
                            (after_publishing sha256 now handle meta parents bytes s e unpublished
                              cataloged)
                          ∙ rw (cataloged_by, r)
                              (add_parents-artifacts handle.artifact_id parents
                                  (register_artifact now (record_of sha256 handle meta bytes)
                                    s.catalog).1
                                ∙ one),
                    )
              ]
        ]
      ]
