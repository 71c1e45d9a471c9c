-- ===== src/Acquisition/Directory.antt =====
-- LocalDirectorySource of src/adapt/runtime/sources.py: the files of one directory, acquired in the
-- order of their names. Each file comes with what the outside does at its turn.
pub mod Runs
use adapt.Prelude.{
  ℕ, ◌+◌, ◌≡◌, refl, sym, ap, subst, ◌∙◌, length-append, Bool, true, false, not, Option, none, some,
  List, [], ◌∷◌, ◌++◌, append_assoc, append-nil, arith, Text, text_ltb, ltb, length, keep,
  sorted_by, All, if◌then◌else◌,
}
use adapt.Exec.{Exec, Result, ok, lift, modify, ◌>>=◌, ◌>>◌, >>=-returns}
use adapt.Persistence.Rows.{Instant}
use adapt.Persistence.Objects.{Bytes, Store}
use adapt.Acquisition.{RawFile, ScanMessage, Readings, acquire_file}

-- An entry of the directory: its path, st_size, what parse_scan_time returns or raises for its name,
-- and at its turn the stop event and the readings of the acquirer.
pub record DirectoryEntry : Type 0 where
  pub path : Text
  pub is_file : Bool
  pub size : ℕ
  pub file : RawFile
  pub scan_time : Result Instant
  pub stopped : Bool
  pub readings : Readings

pub record DirectorySource : Type 0 where
  pub store : Store
  pub result_queue : Option (List ScanMessage)
  pub total : ℕ
  pub queued : ℕ
  pub complete : Bool

abbrev pub from_store {ℓ} : {A : Type ℓ} → Exec Store A → Exec DirectorySource A
from_store m d = let (r, s) = m d.store in (r, record d { store = s })

-- sorted(p for p in iterdir() if p.is_file()), without the files that are too small
abbrev pub files_of : (min_file_size : ℕ) → List DirectoryEntry → List DirectoryEntry
files_of min_file_size entries =
    keep (λ e. not (ltb e.size min_file_size))
      (sorted_by (λ a b. text_ltb a.path b.path) (keep (λ e. e.is_file) entries))

module _ (sha256 : Bytes → Text) (run_id : Text) where
  -- The body of the loop; without a queue it only counts.
  unfoldable pub offer :
      DirectoryEntry → Option (List ScanMessage) → Exec DirectorySource (Unit {0})
  offer e none = modify (λ d. record d { queued = d.queued + 1 })
  offer e (some queue) = do
    time ← lift e.scan_time
    m ← from_store (acquire_file sha256 run_id e.readings e.file e.path (some time))
    modify λ d. record d { result_queue = some (queue ++ m ∷ []); queued = d.queued + 1 }

  unfoldable pub offer_all : List DirectoryEntry → Exec DirectorySource (Unit {0})
  offer_all [] d = (ok tt, d)
  offer_all (e ∷ entries) d =
      let next = (offer e d.result_queue >> offer_all entries) d in
      if e.stopped then (ok tt, d) else next

  unfoldable pub run_source :
      (min_file_size : ℕ) → List DirectoryEntry → Exec DirectorySource (Unit {0})
  run_source min_file_size entries = do
    modify λ d. record d { total = length (files_of min_file_size entries) }
    offer_all (files_of min_file_size entries)
    modify λ d. record d { complete = true }
