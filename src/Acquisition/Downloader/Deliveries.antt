-- ===== src/Acquisition/Downloader/Deliveries.antt =====
-- What a batch of the downloader (src/adapt/modules/acquisition/module.py) that returns has queued.
use mathlib.Core.List.{Memᴰ}
use adapt.Prelude.{◌≡◌, ◌⊎◌, true, none, some, List, Text, text_eq, mem, ℕ}
use adapt.Persistence.Catalog.{Catalog}
use adapt.Persistence.Objects.{Bytes}
use adapt.Acquisition.{ScanMessage}
use adapt.Acquisition.Repeated.{IsStored}
use adapt.Acquisition.Downloader.{ArchiveScan, Turn, Downloader, download_scan}

-- The queue has a message that names the artifact and the scan that the catalog has for the source.
pub record IsQueued (key : Text) (d : Downloader) : Type 0 where
  pub message : ScanMessage
  pub queue : List ScanMessage
  pub queue_is : d.result_queue ≡ some queue
  pub queued : Memᴰ message queue
  pub of_source : IsStored key message d.store.catalog

module _ (sha256 : Bytes → Text) (run_id : Text) (min_file_size : ℕ) where
  -- The source of the scan was known, or it has a message in the queue, or the download left no file of
  -- the least size.
  abbrev pub WasDelivered : (known : List Text) → Downloader → ArchiveScan × Turn → Type 0
  WasDelivered known d (scan, turn) =
      ((mem scan.key known ≡ true) ⊎ IsQueued scan.key d)
      ⊎ (download_scan sha256 run_id min_file_size turn.download ≡ none)
