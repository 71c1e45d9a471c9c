-- ===== src/Persistence/Objects/Soundness.antt =====
-- The invariant that ties the catalog to the files (src/adapt/persistence/objects.py), and what stays
-- in the store.
use adapt.Prelude.{
  ◌≡◌, refl, sym, ap, ◌∙◌, false, some, List, arith, Text, text_eq, ◌==◌, inl, inr, length,
  Bool-cases, text_beq_iff, beq_refl, subst,
}
use adapt.Dict.{Dict, get, has, put, get-put, get-put_cases, get→has}
use adapt.Persistence.Rows.{Instant, ArtifactRow}
use adapt.Persistence.Catalog.{Catalog}
use adapt.Persistence.Catalog.Consistency.{IsConsistent}
use adapt.Persistence.Objects.{
  Bytes, ArtifactMeta, ObjectWriteHandle, object_name_of, Store, record_of, commit,
}
use adapt.Persistence.Objects.Steps.{AddsAtMost, Publishes, commit_cases}

-- What is under a key stays when another key is new.
get-put_new :
    {V : Type 0} (k j : Text) (v w : V) (d : Dict Text V)
    → has k d ≡ false
    → get j d ≡ some w
    → get j (put k v d) ≡ some w
get-put_new k j v w d new there = elim (Bool-cases (k == j)) [
  | inl same ↦ absurd (ground (arith, get→has j w d there, text_beq_iff k j))
  | inr other ↦ get-put k j v d ∙ rw other there
]

-- Every object and every artifact of the one store is in the other, as it is.
pub record Preserves (s s' : Store) : Type 0 where
  pub objects :
      (name : Text) (bytes : Bytes)
      → get name s.objects ≡ some bytes
      → get name s'.objects ≡ some bytes
  pub artifacts :
      (i : Text) (a : ArtifactRow)
      → get i s.catalog.artifacts ≡ some a
      → get i s'.catalog.artifacts ≡ some a

pub same-Preserves :
    (s s' : Store)
    → s'.objects ≡ s.objects
    → s'.catalog.artifacts ≡ s.catalog.artifacts
    → Preserves s s'
same-Preserves s s' p q = record { objects = λ name bytes h. rw p h; artifacts = λ i a h. rw q h }

pub Preserves-trans : (s t u : Store) → Preserves s t → Preserves t u → Preserves s u
Preserves-trans s t u p q = record {
  objects = λ name bytes h. q.objects name bytes (p.objects name bytes h);
  artifacts = λ i a h. q.artifacts i a (p.artifacts i a h);
}

added-Preserves :
    (row : ArtifactRow) (i : Text) (a : ArtifactRow) (c c' : Catalog)
    → AddsAtMost row c c'
    → get i c.artifacts ≡ some a
    → get i c'.artifacts ≡ some a
added-Preserves row i a c c' (inl same) h = rw same h
added-Preserves row i a c c' (inr (new, one)) h =
    rw one (get-put_new row.fields.artifact_id i row a c.artifacts new h)

module _ (sha256 : Bytes → Text) where
  -- The object of a row is there, with the checksum and the size that the row states.
  abbrev pub HasObject : ArtifactRow → Dict Text Bytes → Type 0
  HasObject a objects =
      (bytes : Bytes) × (get a.fields.object_name objects ≡ some bytes)
      × (a.fields.checksum_sha256 ≡ sha256 bytes)
      × (a.fields.size_bytes ≡ length bytes)

  -- The catalog's tables are consistent, and every artifact has its object.
  pub record IsSound (s : Store) : Type 0 where
    pub tables : IsConsistent s.catalog
    pub backed :
        (i : Text) (a : ArtifactRow) → get i s.catalog.artifacts ≡ some a → HasObject a s.objects

  pub same-IsSound :
      (s s' : Store)
      → s'.objects ≡ s.objects
      → s'.catalog.artifacts ≡ s.catalog.artifacts
      → IsConsistent s'.catalog
      → IsSound s
      → IsSound s'
  same-IsSound s s' p q c h = record {
    tables = c;
    backed = λ i a e. rw p (h.backed i a (rw q at e));
  }

  module _ (now : Instant) (handle : ObjectWriteHandle) (meta : ArtifactMeta) (parents : List Text)
      (s : Store) where
    published-Preserves :
        (s' : Store) (bytes : Bytes) → Publishes sha256 now handle meta s s' bytes → Preserves s s'
    published-Preserves s' bytes p = record {
      objects = λ name b h.
          rw p.files (get-put_new (object_name_of handle) name bytes b s.objects p.unpublished h);
      artifacts = λ i a h.
          added-Preserves (record { fields = record_of sha256 handle meta bytes; created_at = now })
            i a s.catalog s'.catalog p.artifacts h;
    }

    -- The artifact that a commit adds has the bytes that it published.
    published_backed :
        (s' : Store) (bytes : Bytes) (i : Text) (a : ArtifactRow)
        → Publishes sha256 now handle meta s s' bytes
        → IsSound s
        → get i s'.catalog.artifacts ≡ some a
        → HasObject a s'.objects
    published_backed s' bytes i a p h e =
        let row : ArtifactRow = record {
          fields = record_of sha256 handle meta bytes;
          created_at = now;
        } in
        let kept : get i s.catalog.artifacts ≡ some a → HasObject a s'.objects = λ old.
          let (b, there, sum, size) = h.backed i a old in
          (b, (published-Preserves s' bytes p).objects a.fields.object_name b there, sum, size) in
        elim p.artifacts [
          | inl same ↦ kept (sym (ap (get i) same) ∙ e)
          | inr (new, one) ↦
              elim (get-put_cases handle.artifact_id i row a s.catalog.artifacts
                (sym (ap (get i) one) ∙ e)) [
                  | inr (other, old) ↦ kept old
                  | inl (here, last) ↦
                      subst (λ x. HasObject x s'.objects) last
                        (
                          bytes,
                          ap (get (object_name_of handle)) p.files
                              ∙ get-put (object_name_of handle) (object_name_of handle) bytes
                                  s.objects
                              ∙ ground (arith, beq_refl (object_name_of handle)),
                          refl,
                          refl,
                        )
                ]
        ]

    pub commit-Preserves : Preserves s (commit sha256 now handle meta parents s).1
    commit-Preserves = elim (commit_cases sha256 now handle meta parents s) [
      | inl same ↦
          same-Preserves s _ (ap (λ (x : Store). x.objects) same)
            (ap (λ (x : Store). x.catalog.artifacts) same)
      | inr (bytes, p) ↦ published-Preserves _ bytes p
    ]

    pub commit-IsSound : IsSound s → IsSound (commit sha256 now handle meta parents s).1
    commit-IsSound h = elim (commit_cases sha256 now handle meta parents s) [
      | inl same ↦ rw same h
      | inr (bytes, p) ↦ record {
        tables = p.consistent h.tables;
        backed = λ i a e. published_backed _ bytes i a p h e;
      }
    ]
