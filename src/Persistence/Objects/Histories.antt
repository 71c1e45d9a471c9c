-- ===== src/Persistence/Objects/Histories.antt =====
-- Sequences of calls of the object store (src/adapt/persistence/objects.py) and of the catalog's
-- other methods on one collection.
use adapt.Prelude.{
  ◌≡◌, refl, Bool, true, false, Option, List, [], ◌∷◌, arith, Text, text_eq, inl, inr, Bool-cases,
  Option-cases,
}
use adapt.Dict.{get, has}
use adapt.Persistence.Rows.{Instant, ScanKey, scan_key_eq}
use adapt.Persistence.Catalog.{
  Catalog, empty_catalog, register_table_schema, register_scan, link_scan_product, mark_scan_failed,
  place_of, is_cataloged, complete_if_linked,
}
use adapt.Persistence.Catalog.Consistency.{empty-IsConsistent}
use adapt.Persistence.Catalog.Histories.{
  Operation, add_artifact, freeze_schema, derive, add_scan, link_product, fail_scan, perform,
  perform-IsConsistent,
}
use adapt.Persistence.Objects.{Bytes, ArtifactMeta, ObjectWriteHandle, Store, stage, commit, abort}
use adapt.Persistence.Objects.Steps.{same_artifacts}
use adapt.Persistence.Objects.Soundness.{
  Preserves, same-Preserves, Preserves-trans, IsSound, same-IsSound, commit-Preserves,
  commit-IsSound,
}

abbrev pub empty_store : Store
empty_store = record { staging = []; objects = []; catalog = empty_catalog }

-- The catalog's methods that the object store leaves to others.
abbrev pub adds_artifact : Operation → Bool
adds_artifact (add_artifact now fields) = true
adds_artifact _ = false

pub data StoreOperation : Type 0 where
  write_bytes : ObjectWriteHandle → Bytes → StoreOperation
  commit_staged :
      (now : Instant) → ObjectWriteHandle → ArtifactMeta → (parents : List Text) → StoreOperation
  abort_staged : ObjectWriteHandle → StoreOperation
  annotate : (o : Operation) → adds_artifact o ≡ false → StoreOperation

-- UPDATE statements on scans and links leave the artifacts alone.
completed-artifacts :
    (now : Instant) (key : ScanKey) (c : Catalog)
    → (complete_if_linked now key c).artifacts ≡ c.artifacts
completed-artifacts now key c = ground arith

linked-artifacts :
    (now : Instant) (key : ScanKey) (product : Text) (artifact_id table_name : Option Text)
    (c : Catalog)
    → (link_scan_product now key product artifact_id table_name c).1.artifacts ≡ c.artifacts
unfolding link_scan_product
linked-artifacts now key product artifact_id table_name c =
    elim (Option-cases (place_of artifact_id table_name)) [
      | inr unclear ↦ rw unclear refl
      | inl (place, e) ↦ elim (Bool-cases (has key c.scans)) [
        | inr unknown ↦ rw (e, unknown) refl
        | inl known ↦ elim (Bool-cases (is_cataloged place c)) [
          | inr missing ↦ rw (e, known, missing) refl
          | inl there ↦ rw (e, known, there) (completed-artifacts now key _)
        ]
      ]
    ]

pub perform-artifacts :
    (o : Operation) (c : Catalog)
    → adds_artifact o ≡ false
    → (perform o c).1.artifacts ≡ c.artifacts
unfolding perform register_table_schema register_scan mark_scan_failed
perform-artifacts (add_artifact now fields) c others = absurd (ground arith)
perform-artifacts (freeze_schema snapshot) c others =
    elim (Bool-cases (has snapshot.table_name c.table_schemas)) [
      | inl frozen ↦ rw frozen refl
      | inr new ↦ rw new refl
    ]
perform-artifacts (derive child parent relationship) c others =
    same_artifacts child parent relationship c
perform-artifacts (add_scan now r) c others = ground arith
perform-artifacts (link_product now key product artifact_id table_name) c others =
    linked-artifacts now key product artifact_id table_name c
perform-artifacts (fail_scan now key) c others = elim (Bool-cases (has key c.scans)) [
  | inl known ↦ rw known refl
  | inr unknown ↦ rw unknown refl
]

module _ (sha256 : Bytes → Text) where
  unfoldable pub store_after : StoreOperation → Store → Store
  store_after (write_bytes handle bytes) s = (stage handle bytes s).1
  store_after (commit_staged now handle meta parents) s =
      (commit sha256 now handle meta parents s).1
  store_after (abort_staged handle) s = (abort handle s).1
  store_after (annotate o h) s = record s { catalog = (perform o s.catalog).1 }

  unfoldable pub store_after_all : List StoreOperation → Store → Store
  unfolding store_after
  store_after_all [] s = s
  store_after_all (o ∷ operations) s = store_after_all operations (store_after o s)

  store_after-IsSound :
      (o : StoreOperation) (s : Store) → IsSound sha256 s → IsSound sha256 (store_after o s)
  unfolding store_after stage abort
  store_after-IsSound (write_bytes handle bytes) s h = same-IsSound sha256 s _ refl refl h.tables h
  store_after-IsSound (commit_staged now handle meta parents) s h =
      commit-IsSound sha256 now handle meta parents s h
  store_after-IsSound (abort_staged handle) s h = same-IsSound sha256 s _ refl refl h.tables h
  store_after-IsSound (annotate o others) s h =
      same-IsSound sha256 s _ refl (perform-artifacts o s.catalog others)
        (perform-IsConsistent o s.catalog h.tables) h

  store_after-Preserves : (o : StoreOperation) (s : Store) → Preserves s (store_after o s)
  unfolding store_after stage abort
  store_after-Preserves (write_bytes handle bytes) s = same-Preserves s _ refl refl
  store_after-Preserves (commit_staged now handle meta parents) s =
      commit-Preserves sha256 now handle meta parents s
  store_after-Preserves (abort_staged handle) s = same-Preserves s _ refl refl
  store_after-Preserves (annotate o others) s =
      same-Preserves s _ refl (perform-artifacts o s.catalog others)

  from_IsSound :
      (operations : List StoreOperation) (s : Store)
      → IsSound sha256 s
      → IsSound sha256 (store_after_all operations s)
  unfolding store_after_all
  from_IsSound [] s h = h
  from_IsSound (o ∷ operations) s h =
      from_IsSound operations (store_after o s) (store_after-IsSound o s h)

  -- After any calls on an empty collection that stage, commit or abort objects or write the other
  -- tables, of which any may have raised: the tables are consistent, and every cataloged artifact has
  -- its object, whose sha256 and size are those of its row.
  pub store_after_all-IsSound :
      (operations : List StoreOperation) → IsSound sha256 (store_after_all operations empty_store)
  unfolding get
  store_after_all-IsSound operations =
      from_IsSound operations empty_store
        (record { tables = empty-IsConsistent; backed = λ i a e. absurd (ground arith) })

  -- No calls that stage, commit or abort objects or write the other tables change or remove an object
  -- or the row of an artifact.
  pub store_after_all-Preserves :
      (operations : List StoreOperation) (s : Store) → Preserves s (store_after_all operations s)
  unfolding store_after_all
  store_after_all-Preserves [] s = same-Preserves s s refl refl
  store_after_all-Preserves (o ∷ operations) s =
      Preserves-trans s (store_after o s) _ (store_after-Preserves o s)
        (store_after_all-Preserves operations (store_after o s))
