-- ===== src/Examples/Runtime.antt =====
-- Tests of the processor, with contexts whose values are texts, times and histories.
use adapt.Prelude.{
  ℕ, suc, ◌≡◌, ◌≤◌, refl, true, false, Option, none, some, List, [], ◌∷◌, Text, codes, text_eq,
  length, ltb, if◌then◌else◌, arith, ◌*◌,
}
use adapt.Dict.{Dict, get, has, put, update}
use adapt.Exec.{pure, throw, contract_violation}
use adapt.Execution.Node.{Node, new_node}
use adapt.Execution.Executor.{run, run_node}
use adapt.Persistence.Rows.{Instant, scan_key_eq, ScanRecord, ArtifactRecord}
use adapt.Persistence.Catalog.{empty_catalog, register_artifact, register_scan, mark_scan_failed}
use adapt.Persistence.Catalog.Histories.{add_artifact, add_scan, perform, perform_all}
use adapt.Persistence.Objects.{Store}
use adapt.Runtime.Processor.{run_groups, enrich, scan_steps, run_scan, process_file, run_loop}
use adapt.Runtime.Setup.{QueueMessage, Setup, Processor}
use adapt.Runtime.Processor.History.{run_loop-IsBounded}
use adapt.Runtime.Processor.Failures.{KeepsScans, Ends, run_scan-Ends}

mutual
  data Value : Type 0 where
    text : Text → Value
    time : Option Instant → Value
    history : Contexts → Value

  data Entries : Type 0 where
    no_entry : Entries
    entry : Text → Value → Entries → Entries

  data Contexts : Type 0 where
    no_context : Contexts
    context : Entries → Contexts → Contexts

to_entries : Dict Text Value → Entries
to_entries [] = no_entry
to_entries ((k, v) ∷ d) = entry k v (to_entries d)

to_contexts : List (Dict Text Value) → Contexts
to_contexts [] = no_context
to_contexts (d ∷ ds) = context (to_entries d) (to_contexts ds)

larger : ℕ → ℕ → ℕ
larger m n = if ltb m n then n else m

-- How deep histories stand in histories.
mutual
  depth : Value → ℕ
  depth (text t) = 0
  depth (time t) = 0
  depth (history cs) = suc (contexts_depth cs)

  entries_depth : Entries → ℕ
  entries_depth no_entry = 0
  entries_depth (entry k v es) = larger (depth v) (entries_depth es)

  contexts_depth : Contexts → ℕ
  contexts_depth no_context = 0
  contexts_depth (context es cs) = larger (entries_depth es) (contexts_depth cs)

abbrev time_in : Value → Option Instant
time_in (text t) = none
time_in (time t) = t
time_in (history cs) = none

abbrev setup : List (ℕ × List (Node Value Unit)) → Setup Value Unit Unit
setup executors = record {
  run_id = codes "run";
  radar = codes "KTLX";
  objects_dir = codes "objects";
  executors = executors;
  post_executor = none;
  module_configs = [];
  max_history = 2;
  max_time_gap_minutes = 30;
  of_text = text;
  of_time = time;
  of_history = λ ds. history (to_contexts ds);
  time_of = time_in;
  has_cell_uids = λ v. false;
  record_location = λ result. pure tt;
  persist = λ phase result meta. pure tt;
}

abbrev scan_at : (id : Text) → (minute : ℕ) → ScanRecord
scan_at id minute = record {
  run_id = codes "run";
  scan_id = id;
  scan_time = minute * 60000000;
  source_file_name = codes "KTLX";
  start_time = none;
  end_time = none;
}

abbrev raw : ArtifactRecord
raw = record {
  artifact_id = codes "a";
  artifact_type = codes "raw_volume";
  producer = codes "acquisition";
  run_id = codes "run";
  scan_id = some (codes "s1");
  observation_time = none;
  original_filename = none;
  source_uri = none;
  object_name = codes "a";
  checksum_sha256 = [];
  size_bytes = 0;
}

abbrev store : Store
store = record {
  staging = [];
  objects = [];
  catalog =
      perform_all
        (add_artifact 0 raw
          ∷ add_scan 0 (scan_at (codes "s1") 1)
          ∷ add_scan 0 (scan_at (codes "s2") 2)
          ∷ add_scan 0 (scan_at (codes "s3") 3)
          ∷ add_scan 0 (scan_at (codes "s4") 4)
          ∷ [])
        empty_catalog;
}

abbrev processor : Processor Value Unit Unit
processor = record {
  world = tt;
  store = store;
  registry = tt;
  scan_history = [];
  last_skipped = false;
  stopped = false;
}

abbrev message : (id : Text) → (minute : ℕ) → QueueMessage
message id minute = record {
  artifact_id = some (codes "a");
  scan_id = some id;
  scan_time = some (minute * 60000000);
}

abbrev messages : List QueueMessage
messages =
    message (codes "s1") 1
    ∷ message (codes "s2") 2
    ∷ message (codes "s3") 3
    ∷ message (codes "s4") 4
    ∷ []

-- One group for single scans and one for pairs, both without modules.
abbrev pairs : List (ℕ × List (Node Value Unit))
pairs = (1, []) ∷ (2, []) ∷ []

abbrev depths : List (Dict Text Value) → List ℕ
depths [] = []
depths (d ∷ ds) = entries_depth (to_entries d) ∷ depths ds

-- The history has two entries, but each holds the history that its pair was run with, so that every
-- scan is still reachable from it.
entries_nest : depths (run_loop (setup pairs) 9 messages processor).scan_history ≡ 2 ∷ 3 ∷ []
unfolding entries_depth contexts_depth depth larger to_entries to_contexts run_loop process_file
    run_scan scan_steps run_groups enrich run run_node perform_all perform register_artifact
    register_scan get has put update
entries_nest = refl

run_loop-IsBounded_example : length (run_loop (setup pairs) 9 messages processor).scan_history ≤ 2
run_loop-IsBounded_example = run_loop-IsBounded (setup pairs) 9 messages processor (ground arith)

abbrev violating : List (ℕ × List (Node Value Unit))
violating =
    (
      1,
      new_node (record {
        name = codes "detection";
        inputs = [];
        outputs = [];
        input_contracts = [];
        output_contracts = [];
        run = λ c. throw contract_violation;
      })
          ∷ [],
    )
    ∷ []

violation_stops : (run_loop (setup violating) 9 messages processor).stopped ≡ true
unfolding run_loop process_file run_scan scan_steps run_groups enrich run run_node perform_all
    perform register_artifact register_scan mark_scan_failed get has put update
violation_stops = refl

router_keeps : KeepsScans (setup violating)
router_keeps = record { persist = λ phase result meta key p h. h }

first_is_known :
    has (record { run_id = codes "run"; scan_id = codes "s1" }) processor.store.catalog.scans ≡ true
unfolding perform_all perform register_artifact register_scan get has put
first_is_known = refl

run_scan-Ends_example :
    Ends
      (setup violating)
      (codes "s1")
      processor
      (scan_steps (setup violating) (codes "objects/a") (codes "s1") (some 60000000) processor).0
      (run_scan (setup violating) 9 (codes "objects/a") (codes "s1") (some 60000000) processor)
run_scan-Ends_example =
    run_scan-Ends (setup violating) 9 (codes "objects/a") (codes "s1") (some 60000000) processor
      router_keeps first_is_known
