-- ===== src/Runtime/Setup.antt =====
-- What RadarProcessor of src/adapt/runtime/processor.py is set up with, the state that it keeps, and
-- the arithmetic on its history.
use adapt.Prelude.{
  ℕ, ◌+◌, ◌-◌, ◌*◌, Bool, false, Option, none, some, List, [], ◌∷◌, Text, length, leb,
  if◌then◌else◌,
}
use adapt.Dict.{Dict}
use adapt.Exec.{Exec}
use adapt.Execution.Node.{Node}
use adapt.Persistence.Rows.{Instant}
use adapt.Persistence.Objects.{Store}

-- A message of the queue, as far as it has its entries.
pub record QueueMessage : Type 0 where
  pub artifact_id : Option Text
  pub scan_id : Option Text
  pub scan_time : Option Instant

-- PersistenceMeta of src/adapt/contracts/persistence.py
pub record PersistenceMeta : Type 0 where
  pub scan_time : Option Instant
  pub scan_id : Text
  pub run_id : Text
  pub source_file : Text
  pub collection_id : Text

-- The modules that the router persists: those of the pipeline, or those behind it.
pub data Phase : Type 0 where
  pipeline post : Phase

-- What the constructor sets up. V are the values of a context, W the state of the modules, R the
-- registry and the tables of the products. The router, and what is read off the frames and datasets
-- of pandas and xarray, are arguments.
pub record Setup (V W R : Type 0) : Type 0 where
  pub run_id : Text
  pub radar : Text
  pub objects_dir : Text
  -- Sorted by required history.
  pub executors : List (ℕ × List (Node V W))
  pub post_executor : Option (List (Node V W))
  pub module_configs : Dict Text V
  pub max_history : ℕ
  pub max_time_gap_minutes : ℕ
  pub of_text : Text → V
  pub of_time : Option Instant → V
  pub of_history : List (Dict Text V) → V
  pub time_of : V → Option Instant
  pub has_cell_uids : V → Bool
  pub record_location : Dict Text V → Exec R (Unit {0})
  pub persist : Phase → Dict Text V → PersistenceMeta → Exec (Store × R) (Unit {0})

pub record Processor (V W R : Type 0) : Type 0 where
  pub world : W
  pub store : Store
  pub registry : R
  pub scan_history : List (Dict Text V)
  pub last_skipped : Bool
  pub stopped : Bool

-- xs[-n:] for a positive n, and [] for none
abbrev pub last_entries {ℓ} : {A : Type ℓ} → ℕ → List A → List A
last_entries n [] = []
last_entries n (x ∷ xs) =
    let rest = last_entries n xs in if leb (length (x ∷ xs)) n then x ∷ xs else rest

-- The newest entry, xs[-1].
abbrev pub last_entry {ℓ} : {A : Type ℓ} → List A → Option A
last_entry [] = none
last_entry (x ∷ []) = some x
last_entry (x ∷ y ∷ xs) = last_entry (y ∷ xs)

-- abs((time2 - time1).total_seconds() / 60.0) <= minutes
abbrev pub is_within : (minutes : ℕ) → Instant → Instant → Bool
is_within minutes s t = leb ((s - t) + (t - s)) (minutes * 60000000)

abbrev pub gap_valid : (minutes : ℕ) → Option Instant → Option Instant → Bool
gap_valid minutes (some s) (some t) = is_within minutes s t
gap_valid minutes _ _ = false
