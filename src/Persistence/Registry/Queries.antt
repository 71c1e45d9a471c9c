-- ===== src/Persistence/Registry/Queries.antt =====
-- The listing methods of StoreRegistry (src/adapt/persistence/store_registry.py).
use adapt.Prelude.{
  Bool, true, Option, none, some, List, [], ◌∷◌, Text, text_eq, text_ltb, leb, ◌==◌, if◌then◌else◌,
  keep, sorted_by,
}
use adapt.Dict.{Dict, values}
use adapt.Persistence.Registry.{Collection, RunRow, ModuleKey, ModuleRow, RunEvent, Registry}

-- ORDER BY started_at DESC, rowid DESC LIMIT 1, over the rows in the order of their insertion
abbrev pub latest_from : RunRow → List RunRow → RunRow
latest_from best [] = best
latest_from best (r ∷ rows) =
    latest_from (if leb best.started_at r.started_at then r else best) rows

abbrev pub latest : List RunRow → Option RunRow
latest [] = none
latest (r ∷ rows) = some (latest_from r rows)

abbrev pub in_collection : Option Text → RunRow → Bool
in_collection none r = true
in_collection (some collection_id) r = r.start.collection_id == collection_id

-- The modules of a run, by name.
abbrev pub modules_of {ℓ} : {M : Type ℓ} → Text → Dict ModuleKey M → Dict Text M
modules_of run_id [] = []
modules_of run_id ((k, m) ∷ modules) =
    let others = modules_of run_id modules in
    if k.run_id == run_id then (k.module_name, m) ∷ others else others

module _ {F : Type 0} where
  abbrev pub list_collections : Registry F → List (Text × Collection F)
  list_collections r = sorted_by (λ a b. text_ltb a.0 b.0) r.collections

  abbrev pub run_modules_of : (run_id : Text) → Registry F → List (Text × ModuleRow F)
  run_modules_of run_id r = sorted_by (λ a b. text_ltb a.0 b.0) (modules_of run_id r.run_modules)

  abbrev pub run_events_of : (run_id : Text) → Registry F → List RunEvent
  run_events_of run_id r = keep (λ e. e.run_id == run_id) r.run_events

  abbrev pub latest_run : (collection_id : Option Text) → Registry F → Option RunRow
  latest_run collection_id r = latest (keep (in_collection collection_id) (values r.runs))
