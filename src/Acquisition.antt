-- ===== src/Acquisition.antt =====
-- StoreAcquirer of src/adapt/runtime/acquire.py: raw scans become objects of the store, once for each
-- source, and rows of scans for the acquiring run.
pub mod Stored
pub mod Repeated
pub mod Kept
pub mod Downloader
pub mod Directory
use adapt.Prelude.{ℕ, Bool, true, false, Option, none, some, List, [], ◌∷◌, Text, codes, take}
use adapt.Exec.{Exec, Result, ok, raise, pure, need, lift, gets, store_error, ◌>>=◌, ◌>>◌}
use adapt.Persistence.Rows.{Instant, ArtifactRow, ScanRecord}
use adapt.Persistence.Catalog.{find_by_source_uri, register_scan}
use adapt.Persistence.Objects.{Bytes, ArtifactMeta, Store, begin, stage, in_catalog, commit}

-- A local file, with what read_bytes returns or raises.
pub record RawFile : Type 0 where
  pub name : Text
  pub suffix : Text
  pub contents : Result Bytes

-- The message for the processor.
pub record ScanMessage : Type 0 where
  pub artifact_id : Text
  pub scan_id : Text
  pub scan_time : Instant
  pub queued_at : Instant

-- What the calls of the clock and of uuid4 return in one call of the acquirer.
pub record Readings : Type 0 where
  pub committed_at : Instant
  pub registered_at : Instant
  pub queued_at : Instant
  pub fresh_id : Text

-- src/adapt/utils/identity.py; hashlib is an argument.
abbrev pub scan_id_from_bytes : (sha256 : Bytes → Text) → Bytes → Text
scan_id_from_bytes sha256 bytes = take 16 (sha256 bytes)

-- A row without a scan or a file name fails the NOT NULL of scans.
abbrev pub register_for :
    (run_id : Text)
    → Readings
    → (artifact_id : Text) → (scan_id : Option Text) → (scan_time : Instant)
    → (source_file_name : Option Text) → Exec Store ScanMessage
register_for run_id now artifact_id scan_id scan_time source_file_name = do
  scan ← need store_error scan_id
  file_name ← need store_error source_file_name
  in_catalog (
      register_scan now.registered_at (record {
        run_id = run_id;
        scan_id = scan;
        scan_time = scan_time;
        source_file_name = file_name;
        start_time = none;
        end_time = none;
      }))
  pure (record {
    artifact_id = artifact_id;
    scan_id = scan;
    scan_time = scan_time;
    queued_at = now.queued_at;
  })

abbrev pub is_acquired : (source_uri : Text) → Store → Bool
is_acquired source_uri s = elim (find_by_source_uri source_uri s.catalog) [
  | none ↦ false
  | some row ↦ true
]

module _ (sha256 : Bytes → Text) (run_id : Text) where
  abbrev pub raw_meta :
      (file : RawFile) → (source_uri : Text) → (scan_time : Instant) → Bytes → ArtifactMeta
  raw_meta file source_uri scan_time bytes = record {
    artifact_type = codes "raw_volume";
    producer = codes "acquisition";
    run_id = run_id;
    scan_id = some (scan_id_from_bytes sha256 bytes);
    observation_time = some scan_time;
    original_filename = some file.name;
    source_uri = some source_uri;
  }

  -- acquire_file behind the lookup that found nothing
  unfoldable pub acquire_new :
      Readings → RawFile → (source_uri : Text) → (scan_time : Instant) → Exec Store ScanMessage
  acquire_new now file source_uri scan_time = do
    bytes ← lift file.contents
    let handle = begin now.fresh_id file.suffix
    stage handle bytes
    fields ← commit sha256 now.committed_at handle (raw_meta file source_uri scan_time bytes) []
    register_for run_id now fields.artifact_id (some (scan_id_from_bytes sha256 bytes)) scan_time
        (some file.name)

  -- The row of an artifact that is there, registered for this run.
  abbrev pub register_stored :
      Readings → ArtifactRow → (scan_time : Instant) → Exec Store ScanMessage
  register_stored now row scan_time =
      register_for run_id now row.fields.artifact_id row.fields.scan_id scan_time
        row.fields.original_filename

  unfoldable pub acquire_file :
      Readings
      → RawFile
      → (source_uri : Text) → (scan_time : Option Instant) → Exec Store ScanMessage
  acquire_file now file source_uri scan_time = do
    time ← need store_error scan_time
    existing ← gets (λ s. find_by_source_uri source_uri s.catalog)
    elim existing [
      | some row ↦ register_stored now row time
      | none ↦ acquire_new now file source_uri time
    ]

  unfoldable pub acquire_existing :
      Readings → (source_uri : Text) → (scan_time : Option Instant) → Exec Store ScanMessage
  acquire_existing now source_uri scan_time = do
    existing ← gets (λ s. find_by_source_uri source_uri s.catalog)
    row ← need store_error existing
    time ← need store_error scan_time
    register_stored now row time
