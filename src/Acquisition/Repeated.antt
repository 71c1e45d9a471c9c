-- ===== src/Acquisition/Repeated.antt =====
-- Acquiring a source again (src/adapt/runtime/acquire.py).
use adapt.Prelude.{
  ◌≡◌, refl, sym, ap, ◌∙◌, Option, none, some, [], arith, Text, text_eq, beq_refl, keep, inl, inr,
  Option-cases,
}
use adapt.Dict.{Dict, values}
use adapt.Exec.{Result, ok, lift, >>=-returns}
use adapt.Persistence.Rows.{Instant, ArtifactRecord, ArtifactRow}
use adapt.Persistence.Catalog.{Catalog, equals, newest, find_by_source_uri}
use adapt.Persistence.Objects.{Bytes, Store, begin, stage, commit, record_of}
use adapt.Persistence.Objects.Returns.{commit_returned}
use adapt.Acquisition.{
  RawFile, ScanMessage, Readings, scan_id_from_bytes, raw_meta, acquire_new, acquire_file,
}
use adapt.Acquisition.Stored.{
  find_first_added, SameObjects, same_store, register_for-SameObjects, register_for-names,
}

-- The newest artifact of the source is the one that the message names, with its scan.
abbrev pub IsStored : (source_uri : Text) → ScanMessage → Catalog → Type 0
IsStored source_uri m c =
    (row : ArtifactRow) × (find_by_source_uri source_uri c ≡ some row)
    × (m.artifact_id ≡ row.fields.artifact_id)
    × (row.fields.scan_id ≡ some m.scan_id)

abbrev find_in : Text → Dict Text ArtifactRow → Option ArtifactRow
find_in source_uri d = newest (keep (λ a. equals a.fields.source_uri source_uri) (values d))

pub find_same :
    (source_uri : Text) (d d' : Dict Text ArtifactRow)
    → d' ≡ d
    → find_in source_uri d' ≡ find_in source_uri d
find_same source_uri d d' p = rw p refl

module _ (sha256 : Bytes → Text) (run_id : Text) where
  acquire_new-IsStored :
      (now : Readings) (file : RawFile) (source_uri : Text) (scan_time : Instant) (s : Store)
      (m : ScanMessage)
      → find_by_source_uri source_uri s.catalog ≡ none
      → (acquire_new sha256 run_id now file source_uri scan_time s).0 ≡ ok m
      → IsStored source_uri m (acquire_new sha256 run_id now file source_uri scan_time s).1.catalog
  unfolding acquire_new stage
  acquire_new-IsStored now file source_uri scan_time s m absent h =
      let (bytes, _, h', here) = >>=-returns (lift file.contents) _ s m h in
      let handle = begin now.fresh_id file.suffix in
      let meta = raw_meta sha256 run_id file source_uri scan_time bytes in
      let staged = (stage handle bytes s).1 in
      let (f, done, last, there) =
        >>=-returns (commit sha256 now.committed_at handle meta []) _ staged m h' in
      let (b, same, new, one) =
        commit_returned sha256 now.committed_at handle meta [] staged f done in
      let left = (commit sha256 now.committed_at handle meta [] staged).1 in
      let (names, scan) =
        register_for-names run_id now f.artifact_id (some (scan_id_from_bytes sha256 bytes))
          scan_time (some file.name) left m last in
      let row : ArtifactRow = record {
        fields = record_of sha256 handle meta b;
        created_at = now.committed_at;
      } in
      let kept =
        register_for-SameObjects run_id now f.artifact_id (some (scan_id_from_bytes sha256 bytes))
          scan_time (some file.name) left in
      (
        row,
        ap (λ (x : Result ScanMessage × Store). find_by_source_uri source_uri x.1.catalog)
              (here ∙ there)
            ∙ find_same source_uri left.catalog.artifacts _ kept.artifacts
            ∙ find_first_added source_uri now.fresh_id row s.catalog left.catalog absent new
                (ground (arith, beq_refl source_uri)) one,
        names ∙ ap (λ (x : ArtifactRecord). x.artifact_id) same,
        scan,
      )

  acquire_stored-SameObjects :
      (now : Readings) (file : RawFile) (source_uri : Text) (scan_time : Option Instant)
      (row : ArtifactRow) (s : Store)
      → find_by_source_uri source_uri s.catalog ≡ some row
      → SameObjects s (acquire_file sha256 run_id now file source_uri scan_time s).1
  unfolding acquire_file
  acquire_stored-SameObjects now file source_uri none row s e = same_store s
  acquire_stored-SameObjects now file source_uri (some time) row s e = rw e (
      register_for-SameObjects run_id now row.fields.artifact_id row.fields.scan_id time
        row.fields.original_filename s)

  acquire_stored-names :
      (now : Readings) (file : RawFile) (source_uri : Text) (scan_time : Option Instant)
      (row : ArtifactRow) (s : Store) (m : ScanMessage)
      → find_by_source_uri source_uri s.catalog ≡ some row
      → (acquire_file sha256 run_id now file source_uri scan_time s).0 ≡ ok m
      → (m.artifact_id ≡ row.fields.artifact_id) × (row.fields.scan_id ≡ some m.scan_id)
  unfolding acquire_file
  acquire_stored-names now file source_uri none row s m e h = absurd (ground arith)
  acquire_stored-names now file source_uri (some time) row s m e h =
      register_for-names run_id now row.fields.artifact_id row.fields.scan_id time
        row.fields.original_filename s m (rw e at h)

  -- A message of acquire_file names the artifact and the scan that the catalog has for the source.
  pub acquire_file-IsStored :
      (now : Readings) (file : RawFile) (source_uri : Text) (scan_time : Option Instant) (s : Store)
      (m : ScanMessage)
      → (acquire_file sha256 run_id now file source_uri scan_time s).0 ≡ ok m
      → IsStored source_uri m (acquire_file sha256 run_id now file source_uri scan_time s).1.catalog
  unfolding acquire_file
  acquire_file-IsStored now file source_uri none s m h = absurd (ground arith)
  acquire_file-IsStored now file source_uri (some time) s m h =
      elim (Option-cases (find_by_source_uri source_uri s.catalog)) [
        | inr absent ↦
            rw absent (acquire_new-IsStored now file source_uri time s m absent (rw absent at h))
        | inl (row, e) ↦
            let kept = acquire_stored-SameObjects now file source_uri (some time) row s e in
            let (artifact_is, scan_is) =
              acquire_stored-names now file source_uri (some time) row s m e h in
            (
              row,
              find_same source_uri s.catalog.artifacts _ kept.artifacts ∙ e,
              artifact_is,
              scan_is,
            )
      ]

-- Behind a call of acquire_file that returned a message for a source, another call for that source,
-- whatever its run, file and times, leaves the files, the artifacts and the lineage as they are, and
-- a message that it returns names the same artifact and the same scan.
pub acquire_file_again :
    (sha256 : Bytes → Text) (run_id other_run_id : Text) (now later : Readings)
    (file other_file : RawFile) (source_uri : Text) (scan_time other_time : Option Instant)
    (s : Store) (m : ScanMessage)
    → (acquire_file sha256 run_id now file source_uri scan_time s).0 ≡ ok m
    → SameObjects
        (acquire_file sha256 run_id now file source_uri scan_time s).1
        (acquire_file sha256 other_run_id later other_file source_uri other_time
          (acquire_file sha256 run_id now file source_uri scan_time s).1).1
      × ((m' : ScanMessage)
          → (acquire_file sha256 other_run_id later other_file source_uri other_time
              (acquire_file sha256 run_id now file source_uri scan_time s).1).0
            ≡ ok m'
          → (m'.artifact_id ≡ m.artifact_id) × (m'.scan_id ≡ m.scan_id))
acquire_file_again sha256 run_id other_run_id now later file other_file source_uri scan_time
      other_time s m h =
    let (row, e, artifact_is, scan_is) =
      acquire_file-IsStored sha256 run_id now file source_uri scan_time s m h in
    let behind = (acquire_file sha256 run_id now file source_uri scan_time s).1 in
    (
      acquire_stored-SameObjects sha256 other_run_id later other_file source_uri other_time row
          behind e,
      λ m' h'.
          let (artifact_is', scan_is') =
            acquire_stored-names sha256 other_run_id later other_file source_uri other_time row
              behind m' e h' in
          (artifact_is' ∙ sym artifact_is, ground (arith, sym scan_is' ∙ scan_is)),
    )
