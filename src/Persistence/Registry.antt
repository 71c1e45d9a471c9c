-- ===== src/Persistence/Registry.antt =====
-- StoreRegistry of src/adapt/persistence/store_registry.py over the tables of
-- src/adapt/configuration/schemas/store_registry.sql. A method takes the time at which it asks the
-- clock; each runs under the lock of its connection, as one transaction.
pub mod Lifecycle
pub mod Histories
pub mod Consistency
pub mod Machine
pub mod Refinement
pub mod Queries
use adapt.Prelude.{
  ℕ, ◌+◌, ◌≡◌, ◌↔◌, Bool, true, false, not, ◌&&◌, ◌||◌, Option, none, some, List, [], ◌∷◌, ◌++◌,
  map, arith, Text, text_eq, text_beq, text_beq_iff, text_ltb, Eq, ◌==◌, codes, if◌then◌else◌, keep,
  sorted_by, leb, length,
}
use adapt.Dict.{Dict, get, put, has, values}
use adapt.Exec.{
  Exec, Result, ok, raise, pure, need, require, gets, modify, store_error, value_error,
  integrity_error, ◌>>=◌, ◌>>◌,
}
use adapt.Persistence.Rows.{Instant}

-- A row of collections, with the coordinates in F.
pub record Collection (F : Type 0) : Type 0 where
  pub source_kind : Text
  pub location_lat : Option F
  pub location_lon : Option F
  pub metadata_json : Option Text
  pub created_at : Instant

-- The CHECK of runs.status.
pub data RunStatus : Type 0 where
  running completed cancelled failed : RunStatus

abbrev pub is_running : RunStatus → Bool
is_running running = true
is_running _ = false

pub record RunStart : Type 0 where
  pub run_id : Text
  pub collection_id : Text
  pub config_hash : Text
  pub config_json : Text
  pub pipeline_version : Text
  pub environment_json : Text

-- A row of runs.
pub record RunRow : Type 0 where
  pub start : RunStart
  pub status : RunStatus
  pub started_at : Instant
  pub ended_at : Option Instant
  pub scans_processed : ℕ
  pub scans_failed : ℕ

-- The primary key of run_modules.
pub record ModuleKey : Type 0 where
  pub run_id : Text
  pub module_name : Text

abbrev module_key_beq : ModuleKey → ModuleKey → Bool
module_key_beq a b = text_beq a.run_id b.run_id && text_beq a.module_name b.module_name

pub module_key_beq_iff : (a b : ModuleKey) → (module_key_beq a b ≡ true) ↔ (a ≡ b)
module_key_beq_iff a b =
    ground (arith, text_beq_iff a.run_id b.run_id, text_beq_iff a.module_name b.module_name)

instance abbrev pub module_key_eq : Eq ModuleKey
module_key_eq = record { beq = module_key_beq; beq_iff = module_key_beq_iff }

pub record ModuleRow (F : Type 0) : Type 0 where
  pub status : Text
  pub duration_seconds : F
  pub detail_json : Text

pub record RunEvent : Type 0 where
  pub run_id : Text
  pub severity : Text
  pub module_name : Text
  pub message : Text
  pub context_json : Text
  pub created_at : Instant

-- The tables. run_events are in the order of their ids.
pub record Registry (F : Type 0) : Type 0 where
  pub collections : Dict Text (Collection F)
  pub runs : Dict Text RunRow
  pub run_modules : Dict ModuleKey (ModuleRow F)
  pub run_events : List RunEvent

abbrev pub or_else {ℓ} : {A : Type ℓ} → Option A → A → A
or_else none a = a
or_else (some b) a = b

-- _TERMINAL_STATUSES
abbrev pub terminal_status : Text → Option RunStatus
terminal_status status =
    if status == codes "completed"
    then some completed
    else (if status == codes "cancelled"
        then some cancelled
        else (if status == codes "failed" then some failed else none))

abbrev pub started : (now : Instant) → RunStart → RunRow
started now start = record {
  start = start;
  status = running;
  started_at = now;
  ended_at = none;
  scans_processed = 0;
  scans_failed = 0;
}

-- The CHECK of run_events.severity.
abbrev pub is_severity : Text → Bool
is_severity severity = severity == codes "warning" || severity == codes "error"

abbrev pub reopened : RunRow → RunRow
reopened row = record row { status = running; ended_at = none }

abbrev pub finalized :
    (now : Instant) → RunStatus → (scans_processed scans_failed : Option ℕ) → RunRow → RunRow
finalized now status scans_processed scans_failed row = record row {
  status = status;
  ended_at = some now;
  scans_processed = or_else scans_processed row.scans_processed;
  scans_failed = or_else scans_failed row.scans_failed;
}

module _ {F : Type 0} where
  -- INSERT OR IGNORE
  unfoldable pub register_collection :
      (now : Instant)
      → (collection_id source_kind : Text) → (lat lon : Option F) → (metadata_json : Option Text)
      → Exec (Registry F) (Unit {0})
  register_collection now collection_id source_kind lat lon metadata_json = do
    known ← gets (λ r. has collection_id r.collections)
    modify λ r. if known then r else record r {
      collections =
          put collection_id
            (record {
              source_kind = source_kind;
              location_lat = lat;
              location_lon = lon;
              metadata_json = metadata_json;
              created_at = now;
            })
            r.collections;
    }

  abbrev pub get_collection : (collection_id : Text) → Exec (Registry F) (Collection F)
  get_collection collection_id = gets (λ r. get collection_id r.collections) >>= need store_error

  -- A location that is there is kept.
  abbrev pub located : (lat lon : F) → Collection F → Collection F
  located lat lon c = elim c.location_lat [
    | none ↦ record c { location_lat = some lat; location_lon = some lon }
    | some old_lat ↦ elim c.location_lon [
      | none ↦ record c { location_lat = some lat; location_lon = some lon }
      | some old_lon ↦ c
    ]
  ]

  unfoldable pub ensure_collection_location :
      (collection_id : Text) → (lat lon : F) → Exec (Registry F) (Unit {0})
  ensure_collection_location collection_id lat lon = do
    c ← get_collection collection_id
    modify λ r. record r { collections = put collection_id (located lat lon c) r.collections }

  unfoldable pub begin_run : (now : Instant) → RunStart → Exec (Registry F) (Unit {0})
  begin_run now start = do
    known ← gets (λ r. has start.collection_id r.collections)
    require known store_error
    taken ← gets (λ r. has start.run_id r.runs)
    require (not taken) store_error
    modify λ r. record r { runs = put start.run_id (started now start) r.runs }

  abbrev pub get_run : (run_id : Text) → Exec (Registry F) RunRow
  get_run run_id = gets (λ r. get run_id r.runs) >>= need store_error

  unfoldable pub resume_run : (run_id : Text) → Exec (Registry F) (Unit {0})
  resume_run run_id = do
    row ← get_run run_id
    modify λ r. record r { runs = put run_id (reopened row) r.runs }

  unfoldable pub finalize_run :
      (now : Instant)
      → (run_id status : Text) → (scans_processed scans_failed : Option ℕ)
      → Exec (Registry F) (Unit {0})
  finalize_run now run_id status scans_processed scans_failed = do
    terminal ← need value_error (terminal_status status)
    row ← get_run run_id
    require (is_running row.status) store_error
    modify λ r. record r {
      runs = put run_id (finalized now terminal scans_processed scans_failed row) r.runs;
    }

  -- REFERENCES runs(run_id), then the upsert
  unfoldable pub record_module_execution : ModuleKey → ModuleRow F → Exec (Registry F) (Unit {0})
  record_module_execution key row = do
    known ← gets (λ r. has key.run_id r.runs)
    require known integrity_error
    modify λ r. record r { run_modules = put key row r.run_modules }

  unfoldable pub record_run_event : RunEvent → Exec (Registry F) (Unit {0})
  record_run_event event = do
    known ← gets (λ r. has event.run_id r.runs)
    require (known && is_severity event.severity) integrity_error
    modify λ r. record r { run_events = r.run_events ++ event ∷ [] }
