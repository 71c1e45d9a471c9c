-- ===== src/Examples/Acquisition.antt =====
-- Tests of the acquirer and the downloader.
use adapt.Prelude.{ℕ, ◌≡◌, refl, true, false, some, List, [], ◌∷◌, Text, codes, text_eq}
use adapt.Dict.{get, has, put, pop}
use adapt.Exec.{Result, ok, raise, store_error}
use adapt.Persistence.Catalog.{register_artifact, register_scan}
use adapt.Persistence.Objects.{Bytes, Store, stage, commit, add_parents}
use adapt.Persistence.Objects.Histories.{empty_store}
use adapt.Acquisition.{RawFile, ScanMessage, Readings, acquire_new, acquire_file, acquire_existing}
use adapt.Acquisition.Stored.{SameObjects}
use adapt.Acquisition.Repeated.{acquire_file_again}
use adapt.Acquisition.Downloader.{
  ArchiveScan, Turn, Downloader, enqueue, obtain, process_scan, process_each, process_scans,
}
use adapt.Acquisition.Downloader.Batches.{HandsOver, process_scans-HandsOver}
use adapt.Acquisition.Directory.{DirectoryEntry, DirectorySource, offer, offer_all, run_source}
use adapt.Acquisition.Directory.Runs.{TakesAll, run_source-TakesAll}
use adapt.Examples.Persistence.{toy_sha256}

abbrev file : RawFile
file = record { name = codes "KTLX.gz"; suffix = codes ".gz"; contents = ok (3 ∷ 4 ∷ []) }

abbrev lost_file : RawFile
lost_file = record { name = codes "KTLX"; suffix = []; contents = raise store_error }

abbrev readings : (start : ℕ) → Text → Readings
readings start id = record {
  committed_at = start;
  registered_at = start;
  queued_at = start;
  fresh_id = id;
}

abbrev first_message : ScanMessage
first_message = record {
  artifact_id = codes "a1";
  scan_id = 3 ∷ 4 ∷ [];
  scan_time = 60000000;
  queued_at = 1;
}

abbrev first_call : Result ScanMessage × Store
first_call =
    acquire_file toy_sha256 (codes "run") (readings 1 (codes "a1")) file (codes "uri")
      (some 60000000) empty_store

first_call_returns : first_call.0 ≡ ok first_message
unfolding acquire_file acquire_new stage commit register_artifact register_scan add_parents get has
    put pop
first_call_returns = refl

acquire_file_again_example :
    SameObjects first_call.1
      (acquire_file toy_sha256
        (codes "other")
        (readings 2 (codes "b2"))
        lost_file
        (codes "uri")
        (some 60000000)
        first_call.1).1
    × ((m' : ScanMessage)
        → (acquire_file toy_sha256
            (codes "other")
            (readings 2 (codes "b2"))
            lost_file
            (codes "uri")
            (some 60000000)
            first_call.1).0
          ≡ ok m'
        → (m'.artifact_id ≡ codes "a1") × (m'.scan_id ≡ 3 ∷ 4 ∷ []))
acquire_file_again_example =
    acquire_file_again toy_sha256 (codes "run") (codes "other") (readings 1 (codes "a1"))
      (readings 2 (codes "b2")) file lost_file (codes "uri") (some 60000000) (some 60000000)
      empty_store first_message first_call_returns

abbrev new_downloader : Downloader
new_downloader = record {
  store = empty_store;
  result_queue = some [];
  known_files = [];
  processed_scans = 0;
  historical_complete = false;
}

abbrev scan_of : (key : Text) → (time : ℕ) → ArchiveScan
scan_of key time = record { key = key; scan_time = time }

abbrev turn : (id : Text) → Bytes → (size : ℕ) → Turn
turn id bytes size = record {
  stopped = false;
  readings = readings 5 id;
  download = ok (some (record { name = id; suffix = []; contents = ok bytes }, size));
}

-- The second scan is listed again, and the third is too small.
abbrev batch : List (ArchiveScan × Turn)
batch =
    (scan_of (codes "k1") 60000000, turn (codes "a") (1 ∷ []) 2048)
    ∷ (scan_of (codes "k2") 120000000, turn (codes "b") (2 ∷ []) 2048)
    ∷ (scan_of (codes "k2") 120000000, turn (codes "c") (2 ∷ []) 2048)
    ∷ (scan_of (codes "k3") 180000000, turn (codes "d") (3 ∷ []) 10)
    ∷ []

-- Two scans in one second: the later one raises, now and at every retry, and the scan behind it is
-- not attempted.
abbrev colliding : List (ArchiveScan × Turn)
colliding =
    (scan_of (codes "k1") 60000000, turn (codes "a") (1 ∷ []) 2048)
    ∷ (scan_of (codes "k2") 60000001, turn (codes "b") (2 ∷ []) 2048)
    ∷ (scan_of (codes "k3") 180000000, turn (codes "c") (3 ∷ []) 2048)
    ∷ []

abbrev run_batch : List (ArchiveScan × Turn) → Downloader → Result (List Text) × Downloader
run_batch scans d = process_scans toy_sha256 (codes "run") 1024 true scans d

collision_repeats :
    (run_batch colliding (run_batch colliding new_downloader).1).1.known_files ≡ codes "k1" ∷ []
unfolding process_scans process_each process_scan obtain enqueue acquire_file acquire_existing
    acquire_new stage commit register_artifact register_scan add_parents get has put pop
collision_repeats = refl

collision_raises :
    (run_batch colliding (run_batch colliding new_downloader).1).0 ≡ raise store_error
unfolding process_scans process_each process_scan obtain enqueue acquire_file acquire_existing
    acquire_new stage commit register_artifact register_scan add_parents get has put pop
collision_raises = refl

process_scans-HandsOver_example : HandsOver [] [] (run_batch colliding new_downloader).1
process_scans-HandsOver_example =
    process_scans-HandsOver toy_sha256 (codes "run") 1024 true colliding [] new_downloader refl refl

abbrev new_source : DirectorySource
new_source = record {
  store = empty_store;
  result_queue = some [];
  total = 0;
  queued = 0;
  complete = false;
}

abbrev dir_entry : (path : Text) → (size time : ℕ) → DirectoryEntry
dir_entry path size time = record {
  path = path;
  is_file = true;
  size = size;
  file = record { name = path; suffix = []; contents = ok path };
  scan_time = ok time;
  stopped = false;
  readings = readings 7 path;
}

-- The files are taken by name, and the second is too small.
abbrev dir_entries : List DirectoryEntry
dir_entries =
    dir_entry (codes "f3") 2048 180000000
    ∷ dir_entry (codes "f2") 10 120000000
    ∷ dir_entry (codes "f1") 2048 60000000
    ∷ []

abbrev run_directory : Result (Unit {0}) × DirectorySource
run_directory = run_source toy_sha256 (codes "run") 1024 dir_entries new_source

directory_returns : run_directory.0 ≡ ok tt
unfolding run_source offer_all offer acquire_file acquire_new stage commit register_artifact
    register_scan add_parents get has put pop
directory_returns = refl

directory_counts : run_directory.1.queued ≡ 2
unfolding run_source offer_all offer acquire_file acquire_new stage commit register_artifact
    register_scan add_parents get has put pop
directory_counts = refl

run_source-TakesAll_example : TakesAll 1024 dir_entries [] new_source run_directory.1
run_source-TakesAll_example =
    run_source-TakesAll toy_sha256 (codes "run") 1024 dir_entries [] new_source refl
      (refl, (refl, tt)) directory_returns
