-- ===== src/Tracking/History/Events.antt =====
-- The events and continued tracks of CellTracker (src/adapt/modules/tracking/events.py and module.py)
-- keep the invariant, and only add to the record.
use adapt.Prelude.{ℕ, Option, none, some, nat_eq}
use adapt.Tracking.Models.{Cell, Config, EdgeCost, MatchMethod, MatchDiagnostics, continue_edge}
use adapt.Tracking.Graph.{DiGraphLaws}
use adapt.Tracking.Env.{Env}
use adapt.Tracking.Events.{event_continue}
use adapt.Tracking.Tracker.{diagnostics_of, match_diagnostics, record_continue}
use adapt.Tracking.History.{Evolves, Evolves-pure, Evolves-gets, Evolves-lift, Evolves->>=}
use adapt.Dict.{get}
use adapt.Floats.{divide}
use adapt.Tracking.History.Nodes.{
  node-Evolves, uid-Evolves, add_cell_node-Evolves, add_edge-Evolves, update_motion-Evolves,
}
use adapt.Tracking.Events.{
  event_split, event_merge, event_initiation, event_termination, target_uid_of, target_label_of,
}

module _ {G F : Type 0} (env : Env G F) (config : Config F) (laws : DiGraphLaws env.dg) where
  pub event_continue-Evolves :
      (time p c : ℕ) (cost : F) (d : MatchDiagnostics F)
      → Evolves env (event_continue env time p c cost d)
  unfolding event_continue
  event_continue-Evolves time p c cost d = Evolves->>= env (uid-Evolves env config laws c) λ target.
      Evolves->>= env (uid-Evolves env config laws p) λ source.
        Evolves->>= env (node-Evolves env config laws p)
          λ prev. Evolves->>= env (node-Evolves env config laws c) λ curr. Evolves-pure env _

  match_diagnostics-Evolves :
      (prev_node : ℕ) (cell : Cell F) (dt_s : F) (edge : EdgeCost F) (method : MatchMethod)
      → Evolves env (match_diagnostics env config prev_node cell dt_s edge method)
  unfolding match_diagnostics
  match_diagnostics-Evolves prev_node cell dt_s edge method =
      Evolves->>= env (node-Evolves env config laws prev_node) λ prev.
        Evolves->>= env (Evolves-gets env λ s. get prev.track_index s.track_motion) λ motion.
          Evolves->>= env (Evolves-lift env (divide env.fl edge.displacement dt_s))
            λ speed. Evolves-pure env (diagnostics_of env config prev cell edge method motion speed)

  pub record_continue-Evolves :
      (prev_node : ℕ) (cell : Cell F) (curr_time : ℕ) (dt_s : F) (edge : EdgeCost F)
      (method : MatchMethod)
      → Evolves env (record_continue env config prev_node cell curr_time dt_s edge method)
  unfolding record_continue
  record_continue-Evolves prev_node cell curr_time dt_s edge method =
      Evolves->>= env (node-Evolves env config laws prev_node) λ prev.
        Evolves->>= env (match_diagnostics-Evolves prev_node cell dt_s edge method) λ diagnostics.
          Evolves->>= env (add_cell_node-Evolves env config laws curr_time cell prev.track_index)
            λ curr_node.
              Evolves->>= env
                (add_edge-Evolves env config laws prev_node curr_node continue_edge edge.cost)
                λ u.
                  Evolves->>= env
                    (update_motion-Evolves env config laws prev_node cell prev.track_index dt_s)
                    λ v.
                      Evolves->>= env
                        (event_continue-Evolves curr_time prev_node curr_node edge.cost diagnostics)
                        λ event. Evolves-pure env (curr_node, event)

  pub event_split-Evolves : (time p c : ℕ) → Evolves env (event_split env time p c)
  unfolding event_split
  event_split-Evolves time p c = Evolves->>= env (uid-Evolves env config laws p) λ _.
      Evolves->>= env (uid-Evolves env config laws c) λ _.
        Evolves->>= env (node-Evolves env config laws p)
          λ _. Evolves->>= env (node-Evolves env config laws c) λ _. Evolves-pure env _

  pub event_merge-Evolves : (time p c : ℕ) → Evolves env (event_merge env time p c)
  unfolding event_merge
  event_merge-Evolves time p c = Evolves->>= env (uid-Evolves env config laws c) λ _.
      Evolves->>= env (uid-Evolves env config laws p) λ _.
        Evolves->>= env (node-Evolves env config laws p)
          λ _. Evolves->>= env (node-Evolves env config laws c) λ _. Evolves-pure env _

  pub event_initiation-Evolves : (time n : ℕ) → Evolves env (event_initiation env time n)
  unfolding event_initiation
  event_initiation-Evolves time n =
      Evolves->>= env (uid-Evolves env config laws n)
        λ _. Evolves->>= env (node-Evolves env config laws n) λ _. Evolves-pure env _

  target_uid_of-Evolves : (n : Option ℕ) → Evolves env (target_uid_of env n)
  target_uid_of-Evolves none = Evolves-pure env none
  target_uid_of-Evolves (some n) =
      Evolves->>= env (uid-Evolves env config laws n) λ u. Evolves-pure env (some u)

  target_label_of-Evolves : (n : Option ℕ) → Evolves env (target_label_of env n)
  target_label_of-Evolves none = Evolves-pure env none
  target_label_of-Evolves (some n) =
      Evolves->>= env (node-Evolves env config laws n) λ o. Evolves-pure env (some o.cell_id)

  pub event_termination-Evolves :
      (time n : ℕ) (target : Option ℕ) → Evolves env (event_termination env time n target)
  unfolding event_termination
  event_termination-Evolves time n target = Evolves->>= env (uid-Evolves env config laws n) λ _.
      Evolves->>= env (target_uid_of-Evolves target) λ _.
        Evolves->>= env (node-Evolves env config laws n)
          λ _. Evolves->>= env (target_label_of-Evolves target) λ _. Evolves-pure env _
