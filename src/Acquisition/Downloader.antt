-- ===== src/Acquisition/Downloader.antt =====
-- AwsNexradDownloader of src/adapt/modules/acquisition/module.py: one batch of listed scans, in
-- order. Each scan comes with what the outside does at its turn.
pub mod Turns
pub mod Batches
pub mod Attempts
pub mod Deliveries
use adapt.Prelude.{
  ℕ, ◌+◌, Bool, true, false, not, ◌&&◌, Option, none, some, List, [], ◌∷◌, ◌++◌, Text, text_eq, mem,
  length, ltb, leb, if◌then◌else◌,
}
use adapt.Exec.{Exec, Result, ok, raise, pure, gets, modify, ◌>>=◌, ◌>>◌}
use adapt.Persistence.Rows.{Instant}
use adapt.Persistence.Objects.{Bytes, Store}
use adapt.Acquisition.{RawFile, ScanMessage, Readings, is_acquired, acquire_file, acquire_existing}

-- ArchiveScan of src/adapt/downloaders/models.py
pub record ArchiveScan : Type 0 where
  pub key : Text
  pub scan_time : Instant

-- The stop event before the scan, the readings of the acquirer, and what conn.download leaves behind:
-- it may raise, or leave no file, or a file with its size.
pub record Turn : Type 0 where
  pub stopped : Bool
  pub readings : Readings
  pub download : Result (Option (RawFile × ℕ))

pub record Downloader : Type 0 where
  pub store : Store
  pub result_queue : Option (List ScanMessage)
  pub known_files : List Text
  pub processed_scans : ℕ
  pub historical_complete : Bool

-- The locals of _process_scans.
pub record Progress : Type 0 where
  pub acquired : List Text
  pub queued : ℕ
  pub processed : ℕ

abbrev pub in_store {ℓ} : {A : Type ℓ} → Exec Store A → Exec Downloader A
in_store m d = let (r, s) = m d.store in (r, record d { store = s })

-- Queue.put, if there is a queue
abbrev pub put_message : ScanMessage → Option (List ScanMessage) → Option (List ScanMessage)
put_message m none = none
put_message m (some queue) = some (queue ++ m ∷ [])

-- set.add
abbrev pub add_known : Text → List Text → List Text
add_known key known = if mem key known then known else known ++ key ∷ []

unfoldable pub enqueue : Text → ScanMessage → Exec Downloader (Unit {0})
enqueue key m = modify λ d. record d {
  result_queue = put_message m d.result_queue;
  known_files = add_known key d.known_files;
}

module _ (sha256 : Bytes → Text) (run_id : Text) (min_file_size : ℕ) where
  -- A small file is discarded, an exception is logged.
  abbrev pub download_scan : Result (Option (RawFile × ℕ)) → Option RawFile
  download_scan (raise e) = none
  download_scan (ok none) = none
  download_scan (ok (some (file, size))) = if ltb size min_file_size then none else some file

  abbrev pub obtain_stored : ArchiveScan → Turn → Exec Downloader (Option (ScanMessage × Bool))
  obtain_stored scan turn = do
    m ← in_store (acquire_existing sha256 run_id turn.readings scan.key (some scan.scan_time))
    pure (some (m, false))

  abbrev pub obtain_new :
      ArchiveScan → Turn → Option RawFile → Exec Downloader (Option (ScanMessage × Bool))
  obtain_new scan turn none = pure none
  obtain_new scan turn (some file) = do
    m ← in_store (acquire_file sha256 run_id turn.readings file scan.key (some scan.scan_time))
    pure (some (m, true))

  -- The message, and whether the file is new in the store; none if the download failed.
  unfoldable pub obtain : ArchiveScan → Turn → Exec Downloader (Option (ScanMessage × Bool))
  obtain scan turn = do
    stored ← gets (λ d. is_acquired scan.key d.store)
    if stored then obtain_stored scan turn else obtain_new scan turn (download_scan turn.download)

  abbrev pub attempted : Progress → Progress
  attempted p = record p { processed = p.processed + 1 }

  abbrev pub note_queued : Text → Option (ScanMessage × Bool) → Progress → Exec Downloader Progress
  note_queued key none p = pure p
  note_queued key (some (m, new)) p = do
    enqueue key m
    pure (record p {
      acquired = if new then p.acquired ++ key ∷ [] else p.acquired;
      queued = p.queued + 1;
    })

  unfoldable pub process_scan : ArchiveScan → Turn → Progress → Exec Downloader Progress
  process_scan scan turn p = do
    already_queued ← gets (λ d. mem scan.key d.known_files)
    if already_queued
        then pure (attempted p)
        else (obtain scan turn >>= λ got. note_queued scan.key got (attempted p))

  unfoldable pub process_each : List (ArchiveScan × Turn) → Progress → Exec Downloader Progress
  process_each [] p = pure p
  process_each ((scan, turn) ∷ scans) p =
      if turn.stopped then pure p else (process_scan scan turn p >>= λ q. process_each scans q)

  -- The end of _process_scans, in historical mode.
  abbrev pub finish_batch : (expected : ℕ) → Progress → Downloader → Downloader
  finish_batch expected p d = record d {
    processed_scans = p.queued;
    historical_complete = if leb expected p.processed then true else d.historical_complete;
  }

  unfoldable pub process_scans :
      (historical : Bool) → List (ArchiveScan × Turn) → Exec Downloader (List Text)
  process_scans historical scans = do
    p ← process_each scans (record { acquired = []; queued = 0; processed = 0 })
    modify (λ d. if historical then finish_batch (length scans) p d else d)
    pure p.acquired
