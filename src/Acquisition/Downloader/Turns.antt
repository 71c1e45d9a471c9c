-- ===== src/Acquisition/Downloader/Turns.antt =====
-- What one turn of the downloader (src/adapt/modules/acquisition/module.py) gets for a scan, and what it
-- leaves alone.
use adapt.Prelude.{
  ℕ, ◌≡◌, refl, ap, ◌∙◌, inl, inr, Bool, Option, none, some, arith, sym, subst, Text, text_eq,
  Bool-cases,
}
use adapt.Exec.{Exec, Result, ok, pure, ◌>>=◌, >>=-pure, >>=-returns}
use adapt.Persistence.Objects.{Bytes, Store}
use adapt.Acquisition.{RawFile, ScanMessage, is_acquired, acquire_file, acquire_existing}
use adapt.Acquisition.Repeated.{IsStored, acquire_file-IsStored}
use adapt.Acquisition.Kept.{
  acquire_file-IsStored_later, acquire_existing-IsStored_later, acquire_existing-IsStored,
}
use adapt.Acquisition.Downloader.{
  ArchiveScan, Turn, Downloader, in_store, download_scan, obtain_new, obtain,
}

pub record SameQueue (d d' : Downloader) : Type 0 where
  pub queue : d'.result_queue ≡ d.result_queue
  pub known : d'.known_files ≡ d.known_files

-- A call of the acquirer and a return leave the downloader's own fields alone.
in_store-SameQueue {ℓ κ} :
    {A : Type ℓ} {B : Type κ} (m : Exec Store A) (g : A → B) (d : Downloader)
    → SameQueue d ((in_store m >>= λ a. pure (g a)) d).1
in_store-SameQueue m g d =
    let same = >>=-pure (in_store m) g d in
    record {
      queue = ap (λ (x : Downloader). x.result_queue) same;
      known = ap (λ (x : Downloader). x.known_files) same;
    }

module _ (sha256 : Bytes → Text) (run_id : Text) (min_file_size : ℕ) where
  obtain_new-SameQueue :
      (scan : ArchiveScan) (turn : Turn) (file : Option RawFile) (d : Downloader)
      → SameQueue d (obtain_new sha256 run_id min_file_size scan turn file d).1
  obtain_new-SameQueue scan turn none d = record { queue = refl; known = refl }
  obtain_new-SameQueue scan turn (some file) d =
      in_store-SameQueue
        (acquire_file sha256 run_id turn.readings file scan.key (some scan.scan_time)) _ d

  pub obtain-SameQueue :
      (scan : ArchiveScan) (turn : Turn) (d : Downloader)
      → SameQueue d (obtain sha256 run_id min_file_size scan turn d).1
  unfolding obtain
  obtain-SameQueue scan turn d = elim (Bool-cases (is_acquired scan.key d.store)) [
    | inl stored ↦ rw stored (
        in_store-SameQueue
          (acquire_existing sha256 run_id turn.readings scan.key (some scan.scan_time)) _ d)
    | inr new ↦
        rw new (
          obtain_new-SameQueue scan turn (download_scan sha256 run_id min_file_size turn.download)
            d)
  ]

  -- What was found for a source is found after the next turn, too.
  pub stored_later :
      (key : Text) (m : ScanMessage) (scan : ArchiveScan) (turn : Turn) (d : Downloader)
      → IsStored key m d.store.catalog
      → IsStored key m (obtain sha256 run_id min_file_size scan turn d).1.store.catalog
  unfolding obtain
  stored_later key m scan turn d h = elim (Bool-cases (is_acquired scan.key d.store)) [
    | inl stored ↦ rw stored (
        subst (λ (x : Downloader). IsStored key m x.store.catalog)
          (sym (
            >>=-pure
              (in_store
                (acquire_existing sha256 run_id turn.readings scan.key (some scan.scan_time)))
              _ d))
          (acquire_existing-IsStored_later sha256 run_id turn.readings key m scan.key
            (some scan.scan_time) d.store h))
    | inr new ↦ rw new (new_later (download_scan sha256 run_id min_file_size turn.download))
  ]
    where
      new_later :
          (file : Option RawFile)
          → IsStored key m (obtain_new sha256 run_id min_file_size scan turn file d).1.store.catalog
      new_later none = h
      new_later (some file) =
          subst (λ (x : Downloader). IsStored key m x.store.catalog)
            (sym (
              >>=-pure
                (in_store
                  (acquire_file sha256 run_id turn.readings file scan.key (some scan.scan_time)))
                _ d))
            (acquire_file-IsStored_later sha256 run_id turn.readings key m file scan.key
              (some scan.scan_time) d.store h)

  -- A message of a turn is for the source of its scan.
  pub obtained-IsStored :
      (scan : ArchiveScan) (turn : Turn) (d : Downloader) (m : ScanMessage) (fresh : Bool)
      → (obtain sha256 run_id min_file_size scan turn d).0 ≡ ok (some (m, fresh))
      → IsStored scan.key m (obtain sha256 run_id min_file_size scan turn d).1.store.catalog
  unfolding obtain
  obtained-IsStored scan turn d m fresh h = elim (Bool-cases (is_acquired scan.key d.store)) [
    | inl stored ↦
        let (n, one, last, there) =
          >>=-returns
            (in_store (acquire_existing sha256 run_id turn.readings scan.key (some scan.scan_time)))
            _ d (some (m, fresh)) (rw stored at h) in
        rw stored (
          subst
            (λ (x : Result (Option (ScanMessage × Bool)) × Downloader).
              IsStored scan.key m x.1.store.catalog)
            (sym there)
            (acquire_existing-IsStored sha256 run_id turn.readings scan.key m scan.scan_time d.store
              (one ∙ ground (arith, last))))
    | inr new ↦
        rw new (new_stored (download_scan sha256 run_id min_file_size turn.download) (rw new at h))
  ]
    where
      new_stored :
          (file : Option RawFile)
          → (obtain_new sha256 run_id min_file_size scan turn file d).0 ≡ ok (some (m, fresh))
          → IsStored scan.key m
              (obtain_new sha256 run_id min_file_size scan turn file d).1.store.catalog
      new_stored none e = absurd (ground (arith, e))
      new_stored (some file) e =
          let (n, one, last, there) =
            >>=-returns
              (in_store
                (acquire_file sha256 run_id turn.readings file scan.key (some scan.scan_time)))
              _ d (some (m, fresh)) e in
          subst
            (λ (x : Result (Option (ScanMessage × Bool)) × Downloader).
              IsStored scan.key m x.1.store.catalog)
            (sym there)
            (acquire_file-IsStored sha256 run_id turn.readings file scan.key (some scan.scan_time)
              d.store m (one ∙ ground (arith, last)))
