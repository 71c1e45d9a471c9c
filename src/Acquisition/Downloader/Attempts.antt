-- ===== src/Acquisition/Downloader/Attempts.antt =====
-- What a batch of the downloader (src/adapt/modules/acquisition/module.py) has done when it returns.
use adapt.Prelude.{
  ℕ, ◌+◌, ◌≡◌, refl, sym, ap, subst, ◌∙◌, ◌⊎◌, inl, inr, Bool, true, false, ◌||◌, Option, none,
  some, List, [], ◌∷◌, arith, Text, text_eq, text_beq, text_beq_iff, beq_refl, mem, mem-append,
  length, All, Bool-cases, if◌then◌else◌,
}
use adapt.Exec.{Result, ok, Result-cases, ◌>>=◌, >>=-returns}
use adapt.Persistence.Objects.{Bytes}
use adapt.Acquisition.{RawFile, ScanMessage, is_acquired, acquire_file, acquire_existing}
use adapt.Acquisition.Downloader.{
  ArchiveScan, Turn, Downloader, Progress, in_store, add_known, enqueue, download_scan, obtain_new,
  obtain, attempted, note_queued, process_scan, process_each, finish_batch, process_scans,
}
use adapt.Acquisition.Downloader.Turns.{obtain-SameQueue}

-- The sources known before are known after.
abbrev KnowsMore : Downloader → Downloader → Type 0
KnowsMore d d' = (key : Text) → mem key d.known_files ≡ true → mem key d'.known_files ≡ true

known_added :
    (key k : Text) (known : List Text)
    → mem k (add_known key known) ≡ (mem k known || text_beq k key)
known_added key k known = elim (Bool-cases (mem key known)) [
  | inl old ↦ rw old (ground (arith, text_beq_iff k key, again old))
  | inr new ↦ rw new (mem-append k known (key ∷ []) ∙ ground arith)
]
  where
    again : mem key known ≡ true → k ≡ key → mem k known ≡ true
    again old same = rw same old

module _ (sha256 : Bytes → Text) (run_id : Text) (min_file_size : ℕ) where
  -- The source of the scan has been handed over, or there was no file to hand over.
  abbrev pub WasAttempted : Downloader → ArchiveScan × Turn → Type 0
  WasAttempted d (scan, turn) =
      (mem scan.key d.known_files ≡ true)
      ⊎ (download_scan sha256 run_id min_file_size turn.download ≡ none)

  note_queued-KnowsMore :
      (key : Text) (got : Option (ScanMessage × Bool)) (p : Progress) (d : Downloader)
      → KnowsMore d (note_queued sha256 run_id min_file_size key got p d).1
  unfolding enqueue
  note_queued-KnowsMore key none p d k h = h
  note_queued-KnowsMore key (some (m, fresh)) p d k h =
      known_added key k d.known_files ∙ ground arith

  process_scan-KnowsMore :
      (scan : ArchiveScan) (turn : Turn) (p : Progress) (d : Downloader)
      → KnowsMore d (process_scan sha256 run_id min_file_size scan turn p d).1
  unfolding process_scan
  process_scan-KnowsMore scan turn p d k h =
      let behind = (obtain sha256 run_id min_file_size scan turn d).1 in
      let same : mem k behind.known_files ≡ true =
        ap (mem k) (obtain-SameQueue sha256 run_id min_file_size scan turn d).known ∙ h in
      elim (Bool-cases (mem scan.key d.known_files)) [
        | inl known ↦ rw known h
        | inr new ↦ elim (Result-cases (obtain sha256 run_id min_file_size scan turn d).0) [
          | inr (x, e) ↦ rw (new, e) same
          | inl (got, e) ↦
              rw (new, e)
                (note_queued-KnowsMore scan.key got (attempted sha256 run_id min_file_size p) behind
                  k same)
        ]
      ]

  process_each-KnowsMore :
      (scans : List (ArchiveScan × Turn)) (p : Progress) (d : Downloader)
      → KnowsMore d (process_each sha256 run_id min_file_size scans p d).1
  unfolding process_each process_scan obtain
  process_each-KnowsMore [] p d k h = h
  process_each-KnowsMore ((scan, turn) ∷ scans) p d k h = elim (Bool-cases turn.stopped) [
    | inl stopped ↦ rw stopped h
    | inr going ↦
        let kept = process_scan-KnowsMore scan turn p d k h in
        elim (Result-cases (process_scan sha256 run_id min_file_size scan turn p d).0) [
          | inr (x, e) ↦ rw (going, e) kept
          | inl (q, e) ↦ rw (going, e) (process_each-KnowsMore scans q _ k kept)
        ]
  ]

  -- Without a message there was no file.
  obtain_new-none :
      (scan : ArchiveScan) (turn : Turn) (file : Option RawFile) (d : Downloader)
      → (obtain_new sha256 run_id min_file_size scan turn file d).0 ≡ ok none
      → file ≡ none
  obtain_new-none scan turn none d h = refl
  obtain_new-none scan turn (some file) d h =
      let (m, _, last, _) =
        >>=-returns
          (in_store (acquire_file sha256 run_id turn.readings file scan.key (some scan.scan_time)))
          _ d none h in
      absurd (ground (arith, last))

  obtain-none :
      (scan : ArchiveScan) (turn : Turn) (d : Downloader)
      → (obtain sha256 run_id min_file_size scan turn d).0 ≡ ok none
      → download_scan sha256 run_id min_file_size turn.download ≡ none
  unfolding obtain
  obtain-none scan turn d h = elim (Bool-cases (is_acquired scan.key d.store)) [
    | inr new ↦
        obtain_new-none scan turn (download_scan sha256 run_id min_file_size turn.download) d
          (rw new at h)
    | inl stored ↦
        let (m, _, last, _) =
          >>=-returns
            (in_store (acquire_existing sha256 run_id turn.readings scan.key (some scan.scan_time)))
            _ d none (rw stored at h) in
        absurd (ground (arith, last))
  ]

  -- What a turn that returns has done.
  abbrev Turned : ArchiveScan → Turn → Progress → Result Progress × Downloader → Type 0
  Turned scan turn p out =
      (q : Progress)
      → out.0 ≡ ok q
      → WasAttempted out.1 (scan, turn) × (q.processed ≡ p.processed + 1)

  noted :
      (scan : ArchiveScan) (turn : Turn) (got : Option (ScanMessage × Bool)) (p : Progress)
      (d : Downloader)
      → (got ≡ none → download_scan sha256 run_id min_file_size turn.download ≡ none)
      → Turned scan turn p (
          note_queued sha256 run_id min_file_size scan.key got
            (attempted sha256 run_id min_file_size p)
            d)
  unfolding enqueue
  noted scan turn none p d h q e = (inr (h refl), ground (arith, e))
  noted scan turn (some (m, fresh)) p d h q e = (
    inl (known_added scan.key scan.key d.known_files ∙ ground (arith, beq_refl scan.key)),
    ground (arith, e),
  )

  process_scan-Turned :
      (scan : ArchiveScan) (turn : Turn) (p : Progress) (d : Downloader)
      → Turned scan turn p (process_scan sha256 run_id min_file_size scan turn p d)
  unfolding process_scan
  process_scan-Turned scan turn p d = elim (Bool-cases (mem scan.key d.known_files)) [
    | inl known ↦ rw known (λ q e. (inl known, ground (arith, e)))
    | inr new ↦ elim (Result-cases (obtain sha256 run_id min_file_size scan turn d).0) [
      | inr (x, e) ↦ rw (new, e) (λ q r. absurd (ground (arith, r)))
      | inl (got, e) ↦
          rw (new, e)
            (noted scan turn got p _
              (λ none_is. obtain-none scan turn d (e ∙ ap (λ x. ok x) none_is)))
    ]
  ]

  NoStop : List (ArchiveScan × Turn) → Type 0
  NoStop scans = All (λ x. x.1.stopped ≡ false) scans

  each_step :
      (scan : ArchiveScan) (turn : Turn) (scans : List (ArchiveScan × Turn)) (p : Progress)
      (d : Downloader)
      → turn.stopped ≡ false
      → process_each sha256 run_id min_file_size ((scan, turn) ∷ scans) p d
        ≡ (process_scan sha256 run_id min_file_size scan turn p
              >>= process_each sha256 run_id min_file_size scans)
            d
  unfolding process_each
  each_step scan turn scans p d go = rw go refl

  process_each-attempted :
      (scans : List (ArchiveScan × Turn)) (p q : Progress) (d : Downloader)
      → NoStop scans
      → (process_each sha256 run_id min_file_size scans p d).0 ≡ ok q
      → All (WasAttempted (process_each sha256 run_id min_file_size scans p d).1) scans
        × (q.processed ≡ p.processed + length scans)
  unfolding process_each NoStop
  process_each-attempted [] p q d going h = (tt, ground (arith, h))
  process_each-attempted ((scan, turn) ∷ scans) p q d (go, going) h =
      let same = each_step scan turn scans p d go in
      let (q', r, h', there) =
        >>=-returns (process_scan sha256 run_id min_file_size scan turn p)
          (process_each sha256 run_id min_file_size scans) d q
          (sym (ap (λ (x : Result Progress × Downloader). x.0) same) ∙ h) in
      let behind = (process_scan sha256 run_id min_file_size scan turn p d).1 in
      let (tried, one) = process_scan-Turned scan turn p d q' r in
      let (rest, others) = process_each-attempted scans q' q behind going h' in
      (
        subst
            (λ (out : Result Progress × Downloader).
              WasAttempted out.1 (scan, turn) × All (WasAttempted out.1) scans)
            (sym (same ∙ there))
            (
              elim tried [
                | inl known ↦ inl (process_each-KnowsMore scans q' behind scan.key known)
                | inr gone ↦ inr gone
              ],
              rest,
            ),
        omega (arith, one, others),
      )

  -- A batch that returns and was not told to stop knows the source of every scan, but those for which
  -- the download left no file of the least size; in historical mode it is then complete.
  pub process_scans-WasAttempted :
      (historical : Bool) (scans : List (ArchiveScan × Turn)) (d : Downloader)
      (acquired : List Text)
      → All (λ x. x.1.stopped ≡ false) scans
      → (process_scans sha256 run_id min_file_size historical scans d).0 ≡ ok acquired
      → All (WasAttempted (process_scans sha256 run_id min_file_size historical scans d).1) scans
        × (historical ≡ true
            → (process_scans sha256 run_id min_file_size historical scans d).1.historical_complete
              ≡ true)
  unfolding process_scans NoStop
  process_scans-WasAttempted historical scans d acquired going h =
      let start : Progress = record { acquired = []; queued = 0; processed = 0 } in
      let (q, r, _, there) =
        >>=-returns (process_each sha256 run_id min_file_size scans start) _ d acquired h in
      let (done, count) = process_each-attempted scans start q d going r in
      let behind = (process_each sha256 run_id min_file_size scans start d).1 in
      let (tried, complete) = finished historical q behind done (omega (arith, count)) in
      (
        subst (λ (out : Result (List Text) × Downloader). All (WasAttempted out.1) scans)
            (sym there) tried,
        λ mode.
            ap (λ (out : Result (List Text) × Downloader). out.1.historical_complete) there
            ∙ complete mode,
      )
    where
      finished :
          (mode : Bool) (q : Progress) (d' : Downloader)
          → All (WasAttempted d') scans
          → q.processed ≡ length scans
          → All
              (WasAttempted
                (if mode then finish_batch sha256 run_id min_file_size (length scans) q d' else d'))
              scans
            × (mode ≡ true
                → (if mode
                    then finish_batch sha256 run_id min_file_size (length scans) q d'
                    else d').historical_complete
                  ≡ true)
      finished true q d' a c = (a, λ _. ground (arith, c))
      finished false q d' a c = (a, λ e. absurd (ground (arith, e)))
