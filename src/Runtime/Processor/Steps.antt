-- ===== src/Runtime/Processor/Steps.antt =====
-- What every step of a scan keeps (src/adapt/runtime/processor.py), the scan keeps.
use adapt.Prelude.{ℕ, Option, none, some, List, [], ◌∷◌, Text, text_eq, codes, any_of, mem}
use adapt.Dict.{Dict, get, update}
use adapt.Exec.{runtime_error, gets, modify, Keeps, Keeps->>=, Keeps-if, Keeps-need}
use adapt.Execution.Node.{Node}
use adapt.Persistence.Rows.{Instant}
use adapt.Runtime.Processor.{
  base_context, run_graph, group_context, may_run, run_groups, remember, in_registry,
  persist_outputs, should_run_enrichment, build_enrich_context, enrich, persist_pipeline, meta_of,
  scan_steps,
}
use adapt.Runtime.Setup.{PersistenceMeta, Phase, pipeline, post, Setup, Processor}

-- A predicate that the state of the modules and the registry do not matter to, and that the router
-- and the history keep.
module _ {V W R : Type 0} (setup : Setup V W R) (P : Processor V W R → Type 0)
    (on_world : (world : W) (p : Processor V W R) → P p → P (record p { world = world }))
    (on_registry : (registry : R) (p : Processor V W R)
      → P p
      → P (record p { registry = registry }))
    (on_persist : (phase : Phase) (result : Dict Text V) (meta : PersistenceMeta)
        (p : Processor V W R)
      → P p
      → P (persist_outputs setup phase result meta p).1)
    (on_remember : (entry : Dict Text V) (p : Processor V W R)
      → P p
      → P (remember setup entry p)) where
  run_graph-Keeps :
      (nodes : List (Node V W)) (context : Dict Text V) → Keeps P (run_graph setup nodes context)
  run_graph-Keeps nodes context = record { at = λ p h. on_world _ p h }

  run_groups-Keeps :
      (base : Dict Text V) (scan_time : Option Instant) (executors : List (ℕ × List (Node V W)))
      (result : Dict Text V)
      → Keeps P (run_groups setup base scan_time executors result)
  unfolding run_groups
  run_groups-Keeps base scan_time [] result = record { at = λ p h. h }
  run_groups-Keeps base scan_time ((required, nodes) ∷ executors) result =
      Keeps->>= {m = gets (λ p. p.scan_history)} (record { at = λ p h. h })
        λ (history : List (Dict Text V)).
          Keeps-if (may_run setup scan_time required history)
            (Keeps->>= (run_graph-Keeps nodes (group_context setup base required history result))
              λ (group : Dict Text V).
                run_groups-Keeps base scan_time executors (update result group))
            (run_groups-Keeps base scan_time executors result)

  persist-Keeps :
      (phase : Phase) (result : Dict Text V) (meta : PersistenceMeta)
      → Keeps P (persist_outputs setup phase result meta)
  persist-Keeps phase result meta = record { at = on_persist phase result meta }

  persist_pipeline-Keeps :
      (result : Dict Text V) (meta : PersistenceMeta) → Keeps P (persist_pipeline setup result meta)
  persist_pipeline-Keeps [] meta = record { at = λ p h. h }
  persist_pipeline-Keeps (x ∷ result) meta = persist-Keeps pipeline (x ∷ result) meta

  build_enrich_context-Keeps :
      (nodes : List (Node V W)) (result : Dict Text V) (scan_id : Text) (scan_time : Option Instant)
      → Keeps P (build_enrich_context setup nodes result scan_id scan_time)
  unfolding build_enrich_context
  build_enrich_context-Keeps nodes result scan_id scan_time =
      Keeps-if (any_of (λ n. mem (codes "grid_ds_3d") n.module_.inputs) nodes)
        (Keeps->>= (Keeps-need runtime_error (get (codes "grid_ds") result))
          λ (grid : V). record { at = λ p h. h })
        (record { at = λ p h. h })

  enrich-Keeps :
      (nodes : Option (List (Node V W))) (result : Dict Text V) (meta : PersistenceMeta)
      → Keeps P (enrich setup nodes result meta)
  unfolding enrich
  enrich-Keeps none result meta = record { at = λ p h. h }
  enrich-Keeps (some nodes) result meta =
      Keeps-if (should_run_enrichment setup result)
        (Keeps->>= (build_enrich_context-Keeps nodes result meta.scan_id meta.scan_time)
          λ (context : Dict Text V).
            Keeps->>= (run_graph-Keeps nodes context)
              λ (outputs : Dict Text V). persist-Keeps post outputs meta)
        (record { at = λ p h. h })

  pub scan_steps-Keeps :
      (file_path scan_id : Text) (scan_time : Option Instant)
      → Keeps P (scan_steps setup file_path scan_id scan_time)
  unfolding scan_steps
  scan_steps-Keeps file_path scan_id scan_time =
      let base = base_context setup file_path scan_id scan_time in
      let meta = meta_of setup file_path scan_id scan_time in
      Keeps->>= (run_groups-Keeps base scan_time setup.executors []) λ (result : Dict Text V).
        Keeps->>= {m = in_registry setup (setup.record_location result)}
          (record { at = λ p h. on_registry _ p h })
          λ (t : Unit {0}).
            Keeps->>= {m = modify (remember setup (update result base))}
              (record { at = λ p h. on_remember (update result base) p h })
              λ (u : Unit {0}).
                Keeps->>= (persist_pipeline-Keeps result meta)
                  λ (v : Unit {0}). enrich-Keeps setup.post_executor result meta
