-- ===== src/Runtime/Processor.antt =====
-- RadarProcessor of src/adapt/runtime/processor.py: the graphs that a scan runs through, the rolling
-- history, and what a failure does. Telemetry and progress lines are left out.
pub mod Steps
pub mod History
pub mod Failures
use adapt.Prelude.{
  ℕ, ◌+◌, ◌-◌, ◌*◌, Bool, true, false, not, ◌&&◌, ◌||◌, Option, none, some, List, [], ◌∷◌, ◌++◌,
  Text, text_eq, codes, mem, any_of, length, ltb, leb, if◌then◌else◌,
}
use adapt.Dict.{Dict, get, put, update}
use adapt.Exec.{
  Exec, Result, ok, raise, Error, value_error, store_error, runtime_error, contract_violation, pure,
  throw, need, require, gets, modify, ◌>>=◌, ◌>>◌,
}
use adapt.Execution.Node.{Node}
use adapt.Execution.Executor.{run}
use adapt.Persistence.Rows.{Instant, ScanKey}
use adapt.Persistence.Catalog.{get_artifact, mark_scan_failed, scan_is_complete}
use adapt.Persistence.Objects.{Store}
use adapt.Runtime.Setup.{
  QueueMessage, PersistenceMeta, Phase, pipeline, post, Setup, Processor, last_entries, last_entry,
  is_within, gap_valid,
}

-- An id that is neither missing nor empty.
abbrev pub given : Option Text → Option Text
given none = none
given (some []) = none
given (some (c ∷ cs)) = some (c ∷ cs)

module _ {V W R : Type 0} (setup : Setup V W R) where
  abbrev pub entry_time : Dict Text V → Option Instant
  entry_time entry = elim (get (codes "scan_time") entry) [
    | none ↦ none
    | some value ↦ setup.time_of value
  ]

  abbrev pub validate_time_gap : (current : Option Instant) → List (Dict Text V) → Bool
  validate_time_gap current history = elim (last_entry history) [
    | none ↦ false
    | some entry ↦ gap_valid setup.max_time_gap_minutes (entry_time entry) current
  ]

  abbrev pub base_context : (file_path scan_id : Text) → (scan_time : Option Instant) → Dict Text V
  base_context file_path scan_id scan_time =
      update
        ((codes "nexrad_file", setup.of_text file_path)
          ∷ (codes "scan_id", setup.of_text scan_id)
          ∷ (codes "scan_time", setup.of_time scan_time)
          ∷ [])
        setup.module_configs

  -- GraphExecutor.run, whose result is the last context
  abbrev pub run_graph : List (Node V W) → Dict Text V → Exec (Processor V W R) (Dict Text V)
  run_graph nodes context p =
      let (result, last) = run nodes context p.world in
      (elim result [ ok t ↦ ok last.context | raise e ↦ raise e ], record p { world = last.world })

  abbrev pub group_context :
      (base : Dict Text V)
      → (required : ℕ) → (history : List (Dict Text V)) → (result : Dict Text V) → Dict Text V
  group_context base required history result =
      let context = update base result in
      if ltb 1 required
      then put (codes "scan_history")
          (setup.of_history (last_entries (required - 1) history ++ update result base ∷ []))
          context
      else context

  abbrev pub may_run : (scan_time : Option Instant) → (required : ℕ) → List (Dict Text V) → Bool
  may_run scan_time required history =
      leb (required - 1) (length history)
      && (not (ltb 1 required) || validate_time_gap scan_time history)

  unfoldable pub run_groups :
      (base : Dict Text V)
      → (scan_time : Option Instant) → List (ℕ × List (Node V W))
      → (result : Dict Text V) → Exec (Processor V W R) (Dict Text V)
  run_groups base scan_time [] result = pure result
  run_groups base scan_time ((required, nodes) ∷ executors) result = do
    history ← gets (λ p. p.scan_history)
    let skipped = run_groups base scan_time executors result
    if may_run scan_time required history
        then (run_graph nodes (group_context base required history result) >>= λ group.
            run_groups base scan_time executors (update result group))
        else skipped

  -- append, and pop(0) beyond the maximum
  abbrev pub pop_oldest : List (Dict Text V) → List (Dict Text V)
  pop_oldest [] = []
  pop_oldest (x ∷ xs) = if ltb setup.max_history (length (x ∷ xs)) then xs else x ∷ xs

  abbrev pub remember : Dict Text V → Processor V W R → Processor V W R
  remember entry p = record p { scan_history = pop_oldest (p.scan_history ++ entry ∷ []) }

  abbrev pub in_registry : Exec R (Unit {0}) → Exec (Processor V W R) (Unit {0})
  in_registry m p = let (r, registry) = m p.registry in (r, record p { registry = registry })

  abbrev pub persist_outputs :
      Phase → Dict Text V → PersistenceMeta → Exec (Processor V W R) (Unit {0})
  persist_outputs phase result meta p =
      let (r, (store, registry)) = setup.persist phase result meta (p.store, p.registry) in
      (r, record p { store = store; registry = registry })

  abbrev pub should_run_enrichment : (result : Dict Text V) → Bool
  should_run_enrichment result = elim (get (codes "tracked_cells") result) [
    | none ↦ false
    | some cells ↦ setup.has_cell_uids cells
  ]

  -- The context for the modules behind persistence; those that want the 3D grid get the scan's own.
  unfoldable pub build_enrich_context :
      List (Node V W)
      → (result : Dict Text V) → (scan_id : Text) → (scan_time : Option Instant)
      → Exec (Processor V W R) (Dict Text V)
  build_enrich_context nodes result scan_id scan_time = do
    let context = put (codes "scan_time") (setup.of_time scan_time) (
        put (codes "scan_id") (setup.of_text scan_id)
          (put (codes "run_id") (setup.of_text setup.run_id) result))
    if any_of (λ n. mem (codes "grid_ds_3d") n.module_.inputs) nodes
        then (need runtime_error (get (codes "grid_ds") result) >>= λ grid.
            pure (put (codes "grid_ds_3d") grid context))
        else pure context

  unfoldable pub enrich :
      Option (List (Node V W))
      → (result : Dict Text V) → PersistenceMeta
      → Exec (Processor V W R) (Unit {0})
  enrich none result meta = pure tt
  enrich (some nodes) result meta =
      if should_run_enrichment result
      then (build_enrich_context nodes result meta.scan_id meta.scan_time >>= λ context.
          run_graph nodes context >>= λ outputs. persist_outputs post outputs meta)
      else pure tt

  -- `if result:`
  abbrev pub persist_pipeline :
      (result : Dict Text V) → PersistenceMeta → Exec (Processor V W R) (Unit {0})
  persist_pipeline [] meta = pure tt
  persist_pipeline (x ∷ result) meta = persist_outputs pipeline (x ∷ result) meta

  abbrev pub meta_of : (file_path scan_id : Text) → (scan_time : Option Instant) → PersistenceMeta
  meta_of file_path scan_id scan_time = record {
    scan_time = scan_time;
    scan_id = scan_id;
    run_id = setup.run_id;
    source_file = file_path;
    collection_id = setup.radar;
  }

  -- The try block of _run_scan.
  unfoldable pub scan_steps :
      (file_path scan_id : Text) → (scan_time : Option Instant) → Exec (Processor V W R) (Unit {0})
  scan_steps file_path scan_id scan_time = do
    let base = base_context file_path scan_id scan_time
    result ← run_groups base scan_time setup.executors []
    in_registry (setup.record_location result)
    modify (remember (update result base))
    persist_pipeline result (meta_of file_path scan_id scan_time)
    enrich setup.post_executor result (meta_of file_path scan_id scan_time)

  abbrev pub key_for : (scan_id : Text) → ScanKey
  key_for scan_id = record { run_id = setup.run_id; scan_id = scan_id }

  -- A StoreError of mark_scan_failed is logged.
  abbrev pub record_scan_failure :
      (now : Instant) → (scan_id : Text) → Processor V W R → Processor V W R
  record_scan_failure now scan_id p = record p {
    store = record p.store { catalog = (mark_scan_failed now (key_for scan_id) p.store.catalog).1 };
  }

  -- The except clauses.
  abbrev pub settle :
      (now : Instant)
      → (scan_id : Text) → Result (Unit {0})
      → Processor V W R
      → Result Bool × Processor V W R
  settle now scan_id (ok t) p = (ok true, p)
  settle now scan_id (raise contract_violation) p =
      (ok false, record_scan_failure now scan_id (record p { stopped = true }))
  settle now scan_id (raise e) p = (ok false, record_scan_failure now scan_id p)

  unfoldable pub run_scan :
      (now : Instant)
      → (file_path scan_id : Text) → (scan_time : Option Instant) → Exec (Processor V W R) Bool
  run_scan now file_path scan_id scan_time p =
      let (result, last) = scan_steps file_path scan_id scan_time p in
      settle now scan_id result last

  unfoldable pub process_file : (now : Instant) → QueueMessage → Exec (Processor V W R) Bool
  process_file now message = do
    scan_id ← need value_error (given message.scan_id)
    artifact_id ← need value_error (given message.artifact_id)
    complete ← gets (λ p. scan_is_complete (key_for scan_id) p.store.catalog)
    modify (λ p. record p { last_skipped = complete })
    if complete
        then pure true
        else (gets (λ p. get_artifact artifact_id p.store.catalog) >>= λ row.
            need store_error row >>= λ raw.
            run_scan now (setup.objects_dir ++ codes "/" ++ raw.fields.object_name) scan_id
              message.scan_time)

  -- The messages that _run_loop takes from the queue until it is stopped; an exception is logged.
  unfoldable pub run_loop : (now : Instant) → List QueueMessage → Processor V W R → Processor V W R
  run_loop now [] p = p
  run_loop now (message ∷ messages) p =
      let next = run_loop now messages (process_file now message p).1 in
      if p.stopped then p else next
