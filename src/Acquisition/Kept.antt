-- ===== src/Acquisition/Kept.antt =====
-- What the acquirer (src/adapt/runtime/acquire.py) finds for a source stays what it finds, whatever it
-- acquires later.
use adapt.Prelude.{
  ◌≡◌, sym, ap, ◌∙◌, inl, inr, false, Option, none, some, List, [], arith, Text, text_eq,
  text_beq_iff, ◌==◌, keep, Bool-cases, Option-cases,
}
use adapt.Dict.{Dict, has, put, values}
use adapt.Exec.{ok, lift, gets, need, store_error, Keeps, Keeps->>=, Keeps-need}
use adapt.Persistence.Rows.{Instant, ArtifactRecord, ArtifactRow}
use adapt.Persistence.Catalog.{equals, newest, find_by_source_uri}
use adapt.Persistence.Objects.{Bytes, ArtifactMeta, ObjectWriteHandle, Store, begin, stage, commit}
use adapt.Persistence.Objects.Steps.{commit_cases}
use adapt.Acquisition.{
  RawFile, ScanMessage, Readings, scan_id_from_bytes, raw_meta, register_for, acquire_new,
  acquire_file, acquire_existing,
}
use adapt.Acquisition.Stored.{
  of_source, of_source_other, register_for-SameObjects, register_for-names,
}
use adapt.Acquisition.Repeated.{IsStored, find_same}

abbrev pub Finds : (key : Text) → ArtifactRow → Store → Type 0
Finds key row s = find_by_source_uri key s.catalog ≡ some row

find_other :
    (key i : Text) (added : ArtifactRow) (d d' : Dict Text ArtifactRow)
    → has i d ≡ false
    → equals added.fields.source_uri key ≡ false
    → d' ≡ put i added d
    → newest (keep (λ a. equals a.fields.source_uri key) (values d'))
      ≡ newest (keep (λ a. equals a.fields.source_uri key) (values d))
unfolding of_source
find_other key i added d d' new other p =
    ap (λ e. newest (of_source key e)) p ∙ ap newest (of_source_other key i added d new other)

module _ (sha256 : Bytes → Text) (run_id : Text) (now : Readings) (key : Text)
    (row : ArtifactRow) where
  register_for-Finds :
      (artifact_id : Text) (scan_id : Option Text) (scan_time : Instant) (file_name : Option Text)
      → Keeps (Finds key row) (register_for run_id now artifact_id scan_id scan_time file_name)
  register_for-Finds artifact_id scan_id scan_time file_name = record {
    at = λ s h.
        find_same key s.catalog.artifacts _
          (register_for-SameObjects run_id now artifact_id scan_id scan_time file_name s).artifacts
        ∙ h;
  }

  commit-Finds :
      (handle : ObjectWriteHandle) (meta : ArtifactMeta) (parents : List Text)
      → equals meta.source_uri key ≡ false
      → Keeps (Finds key row) (commit sha256 now.committed_at handle meta parents)
  commit-Finds handle meta parents other = record {
    at = λ s h. elim (commit_cases sha256 now.committed_at handle meta parents s) [
      | inl same ↦
          find_same key s.catalog.artifacts _ (ap (λ (x : Store). x.catalog.artifacts) same) ∙ h
      | inr (bytes, p) ↦ elim p.artifacts [
        | inl same ↦ find_same key s.catalog.artifacts _ same ∙ h
        | inr (new, one) ↦
            find_other key handle.artifact_id _ s.catalog.artifacts _ new other one ∙ h
      ]
    ];
  }

  acquire_new-Finds :
      (file : RawFile) (source_uri : Text) (scan_time : Instant)
      → (source_uri == key) ≡ false
      → Keeps (Finds key row) (acquire_new sha256 run_id now file source_uri scan_time)
  unfolding acquire_new stage
  acquire_new-Finds file source_uri scan_time other =
      Keeps->>= {m = lift file.contents} (record { at = λ s h. h })
        λ (bytes : Bytes).
          let handle = begin now.fresh_id file.suffix in
          let meta = raw_meta sha256 run_id file source_uri scan_time bytes in
          Keeps->>= {m = stage handle bytes} (record { at = λ s h. h })
            λ t.
              Keeps->>= {m = commit sha256 now.committed_at handle meta []}
                (commit-Finds handle meta [] other)
                λ (fields : ArtifactRecord).
                  register_for-Finds fields.artifact_id (some (scan_id_from_bytes sha256 bytes))
                    scan_time (some file.name)

  pub acquire_existing-Finds :
      (source_uri : Text) (scan_time : Option Instant)
      → Keeps (Finds key row) (acquire_existing sha256 run_id now source_uri scan_time)
  unfolding acquire_existing
  acquire_existing-Finds source_uri scan_time =
      Keeps->>= {m = gets (λ s. find_by_source_uri source_uri s.catalog)} (record { at = λ s h. h })
        λ (existing : Option ArtifactRow).
          Keeps->>= {m = need store_error existing} (Keeps-need store_error existing)
            λ (r : ArtifactRow).
              Keeps->>= {m = need store_error scan_time} (Keeps-need store_error scan_time)
                λ (time : Instant).
                  register_for-Finds r.fields.artifact_id r.fields.scan_id time
                    r.fields.original_filename

  different_source :
      (source_uri : Text) (s : Store)
      → find_by_source_uri source_uri s.catalog ≡ none
      → Finds key row s
      → (source_uri == key) ≡ false
  different_source source_uri s absent h = elim (Bool-cases (source_uri == key)) [
    | inr other ↦ other
    | inl same ↦ absurd (
        ground (
          arith,
          sym absent
              ∙ ap (λ u. find_by_source_uri u s.catalog) ((text_beq_iff source_uri key).0 same)
              ∙ h,
        ))
  ]

  pub acquire_file-Finds :
      (file : RawFile) (source_uri : Text) (scan_time : Option Instant)
      → Keeps (Finds key row) (acquire_file sha256 run_id now file source_uri scan_time)
  unfolding acquire_file
  acquire_file-Finds file source_uri none = record { at = λ s h. h }
  acquire_file-Finds file source_uri (some time) = record {
    at = λ s h. elim (Option-cases (find_by_source_uri source_uri s.catalog)) [
      | inr absent ↦
          rw absent (
            (acquire_new-Finds file source_uri time (different_source source_uri s absent h)).at s
              h)
      | inl (r, e) ↦ rw e (
          (register_for-Finds r.fields.artifact_id r.fields.scan_id time
              r.fields.original_filename).at
            s h)
    ];
  }

module _ (sha256 : Bytes → Text) (run_id : Text) (now : Readings) (key : Text)
    (m : ScanMessage) where
  pub acquire_file-IsStored_later :
      (file : RawFile) (source_uri : Text) (scan_time : Option Instant) (s : Store)
      → IsStored key m s.catalog
      → IsStored key m (acquire_file sha256 run_id now file source_uri scan_time s).1.catalog
  acquire_file-IsStored_later file source_uri scan_time s (row, found, artifact_is, scan_is) = (
    row,
    (acquire_file-Finds sha256 run_id now key row file source_uri scan_time).at s found,
    artifact_is,
    scan_is,
  )

  pub acquire_existing-IsStored_later :
      (source_uri : Text) (scan_time : Option Instant) (s : Store)
      → IsStored key m s.catalog
      → IsStored key m (acquire_existing sha256 run_id now source_uri scan_time s).1.catalog
  acquire_existing-IsStored_later source_uri scan_time s (row, found, artifact_is, scan_is) = (
    row,
    (acquire_existing-Finds sha256 run_id now key row source_uri scan_time).at s found,
    artifact_is,
    scan_is,
  )

  -- A message for an object that is there names it, too.
  pub acquire_existing-IsStored :
      (time : Instant) (s : Store)
      → (acquire_existing sha256 run_id now key (some time) s).0 ≡ ok m
      → IsStored key m (acquire_existing sha256 run_id now key (some time) s).1.catalog
  unfolding acquire_existing
  acquire_existing-IsStored time s h = elim (Option-cases (find_by_source_uri key s.catalog)) [
    | inr absent ↦ absurd (ground (arith, absent))
    | inl (row, e) ↦
        let (artifact_is, scan_is) =
          register_for-names run_id now row.fields.artifact_id row.fields.scan_id time
            row.fields.original_filename s m (rw e at h) in
        rw e (
          row,
          (register_for-Finds sha256 run_id now key row row.fields.artifact_id row.fields.scan_id
                time row.fields.original_filename).at
              s e,
          artifact_is,
          scan_is,
        )
  ]
