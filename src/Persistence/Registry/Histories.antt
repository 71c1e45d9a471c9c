-- ===== src/Persistence/Registry/Histories.antt =====
-- Sequences of calls of the registry's methods (src/adapt/persistence/store_registry.py).
use adapt.Prelude.{
  ◌≡◌, refl, inl, inr, ◌&&◌, Option, List, [], ◌∷◌, Text, text_eq, Bool-cases, Option-cases, ℕ,
}
use adapt.Dict.{get, has}
use adapt.Persistence.Rows.{Instant}
use adapt.Persistence.Registry.{
  RunStart, ModuleKey, ModuleRow, RunEvent, is_severity, Registry, register_collection,
  ensure_collection_location, begin_run, resume_run, finalize_run, record_module_execution,
  record_run_event,
}
use adapt.Persistence.Registry.Lifecycle.{
  same, Moves, begin_run-Moves, resume_run-Moves, finalize_run-Moves,
}

-- The methods that write, with their arguments.
pub data RegistryOperation (F : Type 0) : Type 0 where
  add_collection :
      (now : Instant)
      → (collection_id source_kind : Text) → (lat lon : Option F) → (metadata_json : Option Text)
      → RegistryOperation F
  locate : (collection_id : Text) → (lat lon : F) → RegistryOperation F
  begin_one : (now : Instant) → RunStart → RegistryOperation F
  resume_one : (run_id : Text) → RegistryOperation F
  finalize_one :
      (now : Instant)
      → (run_id status : Text) → (scans_processed scans_failed : Option ℕ) → RegistryOperation F
  note_module : ModuleKey → ModuleRow F → RegistryOperation F
  note_event : RunEvent → RegistryOperation F

module _ {F : Type 0} where
  unfoldable pub registry_after : RegistryOperation F → Registry F → Registry F
  registry_after (add_collection now collection_id source_kind lat lon metadata_json) r =
      (register_collection now collection_id source_kind lat lon metadata_json r).1
  registry_after (locate collection_id lat lon) r =
      (ensure_collection_location collection_id lat lon r).1
  registry_after (begin_one now start) r = (begin_run now start r).1
  registry_after (resume_one run_id) r = (resume_run run_id r).1
  registry_after (finalize_one now run_id status processed failures) r =
      (finalize_run now run_id status processed failures r).1
  registry_after (note_module key row) r = (record_module_execution key row r).1
  registry_after (note_event event) r = (record_run_event event r).1

  unfoldable pub registry_after_all : List (RegistryOperation F) → Registry F → Registry F
  unfolding registry_after
  registry_after_all [] r = r
  registry_after_all (o ∷ operations) r = registry_after_all operations (registry_after o r)

  pub located-runs :
      (collection_id : Text) (lat lon : F) (r : Registry F)
      → (ensure_collection_location collection_id lat lon r).1.runs ≡ r.runs
  unfolding ensure_collection_location
  located-runs collection_id lat lon r = elim (Option-cases (get collection_id r.collections)) [
    | inr missing ↦ rw missing refl
    | inl (c, e) ↦ rw e refl
  ]

  pub registered-runs :
      (now : Instant) (collection_id source_kind : Text) (lat lon : Option F)
      (metadata_json : Option Text) (r : Registry F)
      → (register_collection now collection_id source_kind lat lon metadata_json r).1.runs ≡ r.runs
  unfolding register_collection
  registered-runs now collection_id source_kind lat lon metadata_json r =
      elim (Bool-cases (has collection_id r.collections)) [
        | inl known ↦ rw known refl
        | inr new ↦ rw new refl
      ]

  noted_module-runs :
      (key : ModuleKey) (row : ModuleRow F) (r : Registry F)
      → (record_module_execution key row r).1.runs ≡ r.runs
  unfolding record_module_execution
  noted_module-runs key row r = elim (Bool-cases (has key.run_id r.runs)) [
    | inl known ↦ rw known refl
    | inr unknown ↦ rw unknown refl
  ]

  noted_event-runs :
      (event : RunEvent) (r : Registry F) → (record_run_event event r).1.runs ≡ r.runs
  unfolding record_run_event
  noted_event-runs event r =
      elim (Bool-cases (has event.run_id r.runs && is_severity event.severity)) [
        | inl fine ↦ rw fine refl
        | inr refused ↦ rw refused refl
      ]

  pub registry_after-Moves :
      (o : RegistryOperation F) (r : Registry F) → Moves r (registry_after o r)
  unfolding registry_after
  registry_after-Moves (add_collection now collection_id source_kind lat lon metadata_json) r =
      same (registered-runs now collection_id source_kind lat lon metadata_json r)
  registry_after-Moves (locate collection_id lat lon) r =
      same (located-runs collection_id lat lon r)
  registry_after-Moves (begin_one now start) r = begin_run-Moves now start r
  registry_after-Moves (resume_one run_id) r = resume_run-Moves run_id r
  registry_after-Moves (finalize_one now run_id status processed failures) r =
      finalize_run-Moves now run_id status processed failures r
  registry_after-Moves (note_module key row) r = same (noted_module-runs key row r)
  registry_after-Moves (note_event event) r = same (noted_event-runs event r)
