-- ===== src/Acquisition/Stored.antt =====
-- What the acquirer (src/adapt/runtime/acquire.py) leaves in the store: the row of the source that it
-- names, every object and artifact that was there, and a sound store.
use adapt.Prelude.{
  ◌≡◌, refl, ap, ◌∙◌, true, false, Option, none, some, List, [], ◌∷◌, ◌++◌, arith, Text, text_eq,
  keep, inl, inr, Bool-cases,
}
use adapt.Dict.{Dict, has, put, values, put_new}
use adapt.Exec.{ok, >>=-returns, >>-pure}
use adapt.Persistence.Rows.{Instant, to_scan_iso, ArtifactRow, ScanRecord}
use adapt.Persistence.Catalog.{
  Catalog, equals, newest, find_by_source_uri, key_of, collides, register_scan,
}
use adapt.Persistence.Objects.{Store, in_catalog}
use adapt.Acquisition.{ScanMessage, Readings, register_for}

newest-none : (rows : List ArtifactRow) → newest rows ≡ none → rows ≡ []
newest-none [] h = refl
newest-none (a ∷ rows) h = absurd (ground arith)

unfoldable pub of_source : Text → Dict Text ArtifactRow → List ArtifactRow
of_source source_uri d = keep (λ a. equals a.fields.source_uri source_uri) (values d)

-- A new row of the source goes behind the others.
of_source_added :
    (source_uri i : Text) (row : ArtifactRow) (d : Dict Text ArtifactRow)
    → has i d ≡ false
    → equals row.fields.source_uri source_uri ≡ true
    → of_source source_uri (put i row d) ≡ of_source source_uri d ++ row ∷ []
unfolding of_source
of_source_added source_uri i row d new named = rw (put_new i row d new) (go d)
  where
    go :
        (e : Dict Text ArtifactRow)
        → keep (λ a. equals a.fields.source_uri source_uri) (values (e ++ (i, row) ∷ []))
          ≡ keep (λ a. equals a.fields.source_uri source_uri) (values e) ++ row ∷ []
    go [] = rw named refl
    go ((j, b) ∷ e) = elim (Bool-cases (equals b.fields.source_uri source_uri)) [
      | inl yes_it ↦ rw (yes_it, go e) refl
      | inr other ↦ rw (other, go e) refl
    ]

-- A new row of another source does not count.
pub of_source_other :
    (source_uri i : Text) (row : ArtifactRow) (d : Dict Text ArtifactRow)
    → has i d ≡ false
    → equals row.fields.source_uri source_uri ≡ false
    → of_source source_uri (put i row d) ≡ of_source source_uri d
unfolding of_source
of_source_other source_uri i row d new named = rw (put_new i row d new) (go d)
  where
    go :
        (e : Dict Text ArtifactRow)
        → keep (λ a. equals a.fields.source_uri source_uri) (values (e ++ (i, row) ∷ []))
          ≡ keep (λ a. equals a.fields.source_uri source_uri) (values e)
    go [] = rw named refl
    go ((j, b) ∷ e) = elim (Bool-cases (equals b.fields.source_uri source_uri)) [
      | inl yes_it ↦ rw (yes_it, go e) refl
      | inr other ↦ rw (other, go e) refl
    ]

-- The first row of a source is the one that is found.
pub find_first_added :
    (source_uri i : Text) (row : ArtifactRow) (c c' : Catalog)
    → find_by_source_uri source_uri c ≡ none
    → has i c.artifacts ≡ false
    → equals row.fields.source_uri source_uri ≡ true
    → c'.artifacts ≡ put i row c.artifacts
    → find_by_source_uri source_uri c' ≡ some row
unfolding of_source
find_first_added source_uri i row c c' absent new named p =
    ap (λ d. newest (of_source source_uri d)) p
    ∙ ap newest (of_source_added source_uri i row c.artifacts new named)
    ∙ rw (newest-none (of_source source_uri c.artifacts) absent) refl

-- Only scans have changed.
pub record SameObjects (s s' : Store) : Type 0 where
  pub staging : s'.staging ≡ s.staging
  pub objects : s'.objects ≡ s.objects
  pub artifacts : s'.catalog.artifacts ≡ s.catalog.artifacts
  pub lineage : s'.catalog.artifact_lineage ≡ s.catalog.artifact_lineage

pub same_store : (s : Store) → SameObjects s s
same_store s = record { staging = refl; objects = refl; artifacts = refl; lineage = refl }

register_scan-SameObjects :
    (now : Instant) (r : ScanRecord) (s : Store)
    → SameObjects s (in_catalog (register_scan now r) s).1
unfolding register_scan
register_scan-SameObjects now r s =
    elim (Bool-cases (collides (key_of r) (to_scan_iso r.scan_time) s.catalog.scans)) [
      | inl taken ↦ rw taken (same_store s)
      | inr free ↦
          rw free (record { staging = refl; objects = refl; artifacts = refl; lineage = refl })
    ]

Same-subst : (s t t' : Store) → t' ≡ t → SameObjects s t → SameObjects s t'
Same-subst s t t' p h = rw p h

pub register_for-SameObjects :
    (run_id : Text) (now : Readings) (artifact_id : Text) (scan_id : Option Text)
    (scan_time : Instant) (file_name : Option Text) (s : Store)
    → SameObjects s (register_for run_id now artifact_id scan_id scan_time file_name s).1
register_for-SameObjects run_id now artifact_id none scan_time file_name s = same_store s
register_for-SameObjects run_id now artifact_id (some scan) scan_time none s = same_store s
register_for-SameObjects run_id now artifact_id (some scan) scan_time (some name) s =
    Same-subst s _ _ (>>-pure (in_catalog (register_scan now.registered_at _)) _ s)
      (register_scan-SameObjects now.registered_at _ s)

-- A registration that returns names the artifact and the scan that it was given.
pub register_for-names :
    (run_id : Text) (now : Readings) (artifact_id : Text) (scan_id : Option Text)
    (scan_time : Instant) (file_name : Option Text) (s : Store) (m : ScanMessage)
    → (register_for run_id now artifact_id scan_id scan_time file_name s).0 ≡ ok m
    → (m.artifact_id ≡ artifact_id) × (scan_id ≡ some m.scan_id)
register_for-names run_id now artifact_id none scan_time file_name s m h = absurd (ground arith)
register_for-names run_id now artifact_id (some scan) scan_time none s m h = absurd (ground arith)
register_for-names run_id now artifact_id (some scan) scan_time (some name) s m h =
    let (_, _, last, _) = >>=-returns (in_catalog (register_scan now.registered_at _)) _ s m h in
    (ground (arith, last), ground (arith, last))
