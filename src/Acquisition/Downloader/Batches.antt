-- ===== src/Acquisition/Downloader/Batches.antt =====
-- What a batch of the downloader (src/adapt/modules/acquisition/module.py) queues, however it ends.
use mathlib.Core.List.{map-append}
use adapt.Prelude.{
  ℕ, ◌≡◌, refl, ap, ◌∙◌, inl, inr, Bool, true, false, Option, none, some, List, [], ◌∷◌, ◌++◌, map,
  append_assoc, append-nil, arith, All, All-append, All-map, Text, text_eq, mem, distinct,
  distinct-snoc, length, Bool-cases, if◌then◌else◌,
}
use adapt.Exec.{ok, Result-cases}
use adapt.Persistence.Objects.{Bytes}
use adapt.Acquisition.{ScanMessage}
use adapt.Acquisition.Repeated.{IsStored}
use adapt.Acquisition.Downloader.{
  ArchiveScan, Turn, Downloader, Progress, put_message, enqueue, obtain, attempted, note_queued,
  process_scan, process_each, finish_batch, process_scans,
}
use adapt.Acquisition.Downloader.Turns.{obtain-SameQueue, stored_later, obtained-IsStored}

-- Behind the sources and the messages that there were, the downloader has noted new sources and has
-- queued one message for each of them, in the same order: each names the artifact and the scan that
-- the catalog has for its source. No source is noted twice.
pub record HandsOver (known : List Text) (queue : List ScanMessage) (d : Downloader) : Type 0 where
  pub handed : List (Text × ScanMessage)
  pub known_now : d.known_files ≡ known ++ map (λ x. x.0) handed
  pub queue_now : d.result_queue ≡ some (queue ++ map (λ x. x.1) handed)
  pub stored : All (λ x. IsStored x.0 x.1 d.store.catalog) handed
  pub different : distinct d.known_files ≡ true

enqueue-HandsOver :
    (known : List Text) (queue : List ScanMessage) (key : Text) (m : ScanMessage) (d : Downloader)
    → mem key d.known_files ≡ false
    → IsStored key m d.store.catalog
    → HandsOver known queue d
    → HandsOver known queue (enqueue key m d).1
unfolding enqueue
enqueue-HandsOver known queue key m d new at_hand h = rw new (record {
  handed = h.handed ++ (key, m) ∷ [];
  known_now = ap (λ ks. ks ++ key ∷ []) h.known_now ∙ rw (map-append, append_assoc) refl;
  queue_now = ap (put_message m) h.queue_now ∙ rw (map-append, append_assoc) refl;
  stored =
      All-append (λ x. IsStored x.0 x.1 d.store.catalog) h.handed ((key, m) ∷ []) h.stored
        (at_hand, tt);
  different = distinct-snoc d.known_files key ∙ ground (arith, h.different);
})

module _ (sha256 : Bytes → Text) (run_id : Text) (min_file_size : ℕ) where
  module _ (known : List Text) (queue : List ScanMessage) where
    obtain-HandsOver :
        (scan : ArchiveScan) (turn : Turn) (d : Downloader)
        → HandsOver known queue d
        → HandsOver known queue (obtain sha256 run_id min_file_size scan turn d).1
    obtain-HandsOver scan turn d h =
        let same = obtain-SameQueue sha256 run_id min_file_size scan turn d in
        record {
          handed = h.handed;
          known_now = same.known ∙ h.known_now;
          queue_now = same.queue ∙ h.queue_now;
          stored =
              All-map h.handed
                (λ x now. stored_later sha256 run_id min_file_size x.0 x.1 scan turn d now)
                h.stored;
          different = ap distinct same.known ∙ h.different;
        }

    note_queued-HandsOver :
        (key : Text) (got : Option (ScanMessage × Bool)) (p : Progress) (d : Downloader)
        → mem key d.known_files ≡ false
        → ((m : ScanMessage) (fresh : Bool)
            → got ≡ some (m, fresh)
            → IsStored key m d.store.catalog)
        → HandsOver known queue d
        → HandsOver known queue (note_queued sha256 run_id min_file_size key got p d).1
    unfolding enqueue
    note_queued-HandsOver key none p d new at_hand h = h
    note_queued-HandsOver key (some (m, fresh)) p d new at_hand h =
        enqueue-HandsOver known queue key m d new (at_hand m fresh refl) h

    process_scan-HandsOver :
        (scan : ArchiveScan) (turn : Turn) (p : Progress) (d : Downloader)
        → HandsOver known queue d
        → HandsOver known queue (process_scan sha256 run_id min_file_size scan turn p d).1
    unfolding process_scan
    process_scan-HandsOver scan turn p d h =
        let behind = (obtain sha256 run_id min_file_size scan turn d).1 in
        let kept = obtain-HandsOver scan turn d h in
        elim (Bool-cases (mem scan.key d.known_files)) [
          | inl old ↦ rw old h
          | inr new ↦ elim (Result-cases (obtain sha256 run_id min_file_size scan turn d).0) [
            | inr (x, e) ↦ rw (new, e) kept
            | inl (got, e) ↦
                rw (new, e)
                  (note_queued-HandsOver scan.key got (attempted sha256 run_id min_file_size p)
                    behind
                    (ap (mem scan.key)
                        (obtain-SameQueue sha256 run_id min_file_size scan turn d).known
                      ∙ new)
                    (λ m fresh is.
                      obtained-IsStored sha256 run_id min_file_size scan turn d m fresh
                        (e ∙ ap (λ g. ok g) is))
                    kept)
          ]
        ]

    process_each-HandsOver :
        (scans : List (ArchiveScan × Turn)) (p : Progress) (d : Downloader)
        → HandsOver known queue d
        → HandsOver known queue (process_each sha256 run_id min_file_size scans p d).1
    unfolding process_each process_scan obtain
    process_each-HandsOver [] p d h = h
    process_each-HandsOver ((scan, turn) ∷ scans) p d h = elim (Bool-cases turn.stopped) [
      | inl stopped ↦ rw stopped h
      | inr going ↦
          let kept = process_scan-HandsOver scan turn p d h in
          elim (Result-cases (process_scan sha256 run_id min_file_size scan turn p d).0) [
            | inr (x, e) ↦ rw (going, e) kept
            | inl (q, e) ↦ rw (going, e) (process_each-HandsOver scans q _ kept)
          ]
    ]

    finished-HandsOver :
        (historical : Bool) (n : ℕ) (q : Progress) (d : Downloader)
        → HandsOver known queue d
        → HandsOver known queue
            (if historical then finish_batch sha256 run_id min_file_size n q d else d)
    finished-HandsOver false n q d h = h
    finished-HandsOver true n q d h = record {
      handed = h.handed;
      known_now = h.known_now;
      queue_now = h.queue_now;
      stored = h.stored;
      different = h.different;
    }

  -- A batch on a downloader with a queue, whose known sources are different, notes new sources and
  -- queues one message for each of them, in the same order, whether it returns, stops or raises: each
  -- message names the artifact and the scan that the catalog then has for its source. No known source
  -- gets another message, and none is noted twice.
  pub process_scans-HandsOver :
      (historical : Bool) (scans : List (ArchiveScan × Turn)) (queue : List ScanMessage)
      (d : Downloader)
      → d.result_queue ≡ some queue
      → distinct d.known_files ≡ true
      → HandsOver d.known_files queue
          (process_scans sha256 run_id min_file_size historical scans d).1
  unfolding process_scans
  process_scans-HandsOver historical scans queue d has_queue different =
      let start : Progress = record { acquired = []; queued = 0; processed = 0 } in
      let kept = process_each-HandsOver d.known_files queue scans start d (record {
        handed = [];
        known_now = rw append-nil refl;
        queue_now = has_queue ∙ rw append-nil refl;
        stored = tt;
        different = different;
      }) in
      elim (Result-cases (process_each sha256 run_id min_file_size scans start d).0) [
        | inr (x, e) ↦ rw e kept
        | inl (q, e) ↦
            rw e (finished-HandsOver d.known_files queue historical (length scans) q _ kept)
      ]
