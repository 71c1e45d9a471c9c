-- ===== src/Tracking/History/Scans.antt =====
-- CellTracker over scans (src/adapt/modules/tracking/module.py): what `track` keeps of the record,
-- and what holds after any sequence of scans.
use adapt.Prelude.{ℕ, Option, none, some, List, [], ◌∷◌, ◌++◌, Text, nat_eq, length}
use adapt.Exec.{value_error, modify}
use adapt.Tracking.Models.{Cell, Config, Projected}
use adapt.Tracking.Graph
use adapt.Tracking.Graph.{DiGraphLaws, get_node}
use adapt.Tracking.Assignment.{edge_eq}
use adapt.Tracking.Env.{Env}
use adapt.Tracking.Candidates.{select_registration_labels}
use adapt.Tracking.Frame.{unmatched_from, dissipated_from}
use adapt.Tracking.Track.{
  get_nodes_at_time, reset_tracks, match_frame, track_frame_pair, tracked_row,
  build_tracked_cells_current, first_scan, next_scan, choose_scan, require_scan_id, track,
  projections_missing, gap_forces_reset,
}
use adapt.Tracking.History.{
  Grows-refl, Evolves, Evolves-pure, Evolves-gets, Evolves-lift, Evolves-if, Evolves-throw,
  Evolves->>=, Evolves-for_each,
}
use adapt.Tracking.History.Nodes.{node-Evolves, initialize_tracks-Evolves}
use adapt.Tracking.History.Events.{event_initiation-Evolves, event_termination-Evolves}
use adapt.Tracking.History.Candidates.{build_edges-Evolves}
use adapt.Tracking.History.Frames.{
  resolve_matches-Evolves, detect_splits-Evolves, detect_merges-Evolves, emit_births-Evolves,
  emit_terminations-Evolves,
}

module _ {G F : Type 0} (env : Env G F) (config : Config F) (laws : DiGraphLaws env.dg) where
  open env use {fl, dg}

  get_nodes_at_time-Evolves : (time : ℕ) → Evolves env (get_nodes_at_time env config time)
  unfolding get_nodes_at_time
  get_nodes_at_time-Evolves time =
      Evolves-gets env (λ s. Graph.get_nodes_at_time dg s.tracking time)

  -- The statements that record the last scan and the last interval.
  scan_recorded :
      (time : ℕ) (ns : List ℕ)
      → Evolves env (modify (λ s. record s { previous_scan = some (time, ns) }))
  scan_recorded time ns = record { step = λ s h. (h, Grows-refl env s) }

  interval_recorded : (dt_s : F) → Evolves env (modify (λ s. record s { prev_dt_s = some dt_s }))
  interval_recorded dt_s = record { step = λ s h. (h, Grows-refl env s) }

  reset_tracks-Evolves :
      (prev_ids : List ℕ) (curr_time : ℕ) (cells : List (Cell F))
      → Evolves env (reset_tracks env config prev_ids curr_time cells)
  unfolding reset_tracks
  reset_tracks-Evolves prev_ids curr_time cells =
      Evolves->>= env
        (Evolves-for_each env (λ n. event_termination-Evolves env config laws curr_time n none)
          prev_ids)
        λ ended. Evolves->>= env (initialize_tracks-Evolves env config laws curr_time cells) λ made.
          Evolves->>= env (get_nodes_at_time-Evolves curr_time) λ current.
            Evolves->>= env
              (Evolves-for_each env (event_initiation-Evolves env config laws curr_time) current)
              λ started. Evolves-pure env (ended ++ started)

  match_frame-Evolves :
      (prev_ids : List ℕ) (curr_time : ℕ) (ds : Projected F) (cells : List (Cell F)) (dt_s : F)
      → Evolves env (match_frame env config prev_ids curr_time ds cells dt_s)
  unfolding match_frame
  match_frame-Evolves prev_ids curr_time ds cells dt_s =
      Evolves->>= env (Evolves-lift env (select_registration_labels fl ds dt_s)) λ proj_labels.
        Evolves->>= env (build_edges-Evolves env config laws prev_ids cells proj_labels ds dt_s)
          λ edge_costs.
            Evolves->>= env
              (resolve_matches-Evolves env config laws edge_costs prev_ids cells curr_time dt_s)
              λ resolved.
                let matched = resolved.1 in
                let dissipated = dissipated_from 0 prev_ids matched.by_prev in
                let born = unmatched_from 0 (length cells) matched.by_curr in
                Evolves->>= env
                  (detect_splits-Evolves env config laws prev_ids cells proj_labels matched.by_prev
                    born curr_time)
                  λ split.
                    Evolves->>= env
                      (detect_merges-Evolves env config laws dissipated cells proj_labels
                        matched.by_curr curr_time)
                      λ merged.
                        Evolves->>= env
                          (emit_births-Evolves env config laws cells born split.0 curr_time)
                          λ births.
                            Evolves->>= env
                              (emit_terminations-Evolves env config laws dissipated merged.0
                                curr_time)
                              λ ends.
                                Evolves-pure env
                                  (resolved.0 ++ (split.1 ++ merged.1) ++ births ++ ends)

  track_frame_pair-Evolves :
      (prev_ids : List ℕ) (curr_time : ℕ) (ds : Projected F) (cells : List (Cell F)) (dt_s : F)
      → Evolves env (track_frame_pair env config prev_ids curr_time ds cells dt_s)
  unfolding track_frame_pair
  track_frame_pair-Evolves prev_ids curr_time ds cells dt_s =
      Evolves-if env (projections_missing env config ds)
        (reset_tracks-Evolves prev_ids curr_time cells)
        (match_frame-Evolves prev_ids curr_time ds cells dt_s)

  tracked_row-Evolves : (n : ℕ) → Evolves env (tracked_row env config n)
  unfolding tracked_row
  tracked_row-Evolves n = Evolves->>= env (node-Evolves env config laws n) λ o. Evolves-pure env _

  build_tracked_cells_current-Evolves :
      (ns : List ℕ) → Evolves env (build_tracked_cells_current env config ns)
  unfolding build_tracked_cells_current
  build_tracked_cells_current-Evolves ns =
      Evolves->>= env (Evolves-for_each env tracked_row-Evolves ns) λ rows. Evolves-pure env _

  first_scan-Evolves :
      (curr_time : ℕ) (cells : List (Cell F)) → Evolves env (first_scan env config curr_time cells)
  unfolding first_scan
  first_scan-Evolves curr_time cells =
      Evolves->>= env (initialize_tracks-Evolves env config laws curr_time cells) λ ns.
        Evolves->>= env (scan_recorded curr_time ns)
          λ u. Evolves-for_each env (event_initiation-Evolves env config laws curr_time) ns

  next_scan-Evolves :
      (prev_time : ℕ) (prev_ids : List ℕ) (curr_time : ℕ) (ds : Projected F) (cells : List (Cell F))
      → Evolves env (next_scan env config prev_time prev_ids curr_time ds cells)
  unfolding next_scan
  next_scan-Evolves prev_time prev_ids curr_time ds cells =
      let dt_s = fl.minus (env.epoch_seconds curr_time) (env.epoch_seconds prev_time) in
      Evolves->>= env
        (Evolves-if env (gap_forces_reset env config dt_s)
          (reset_tracks-Evolves prev_ids curr_time cells)
          (Evolves->>= env (interval_recorded dt_s)
            λ u. track_frame_pair-Evolves prev_ids curr_time ds cells dt_s))
        λ events.
          Evolves->>= env (get_nodes_at_time-Evolves curr_time) λ current.
            Evolves->>= env (scan_recorded curr_time current) λ u. Evolves-pure env events

  choose_scan-Evolves :
      (previous : Option (ℕ × List ℕ)) (curr_time : ℕ) (ds : Projected F) (cells : List (Cell F))
      → Evolves env (choose_scan env config previous curr_time ds cells)
  unfolding choose_scan
  choose_scan-Evolves none curr_time ds cells = first_scan-Evolves curr_time cells
  choose_scan-Evolves (some (prev_time, prev_ids)) curr_time ds cells =
      next_scan-Evolves prev_time prev_ids curr_time ds cells

  require_scan_id-Evolves : (scan_id : Text) → Evolves env (require_scan_id env config scan_id)
  require_scan_id-Evolves [] = Evolves-throw env value_error
  require_scan_id-Evolves (c ∷ scan_id) = record { step = λ s h. (h, Grows-refl env s) }

  pub track-Evolves :
      (scan_id : Text) (curr_time : ℕ) (ds : Projected F) (cells : List (Cell F))
      → Evolves env (track env config scan_id curr_time ds cells)
  unfolding track
  track-Evolves scan_id curr_time ds cells = Evolves->>= env (require_scan_id-Evolves scan_id) λ u.
      Evolves->>= env (Evolves-gets env (λ s. s.previous_scan)) λ previous.
        Evolves->>= env (choose_scan-Evolves previous curr_time ds cells) λ events.
          Evolves->>= env (get_nodes_at_time-Evolves curr_time) λ current.
            Evolves->>= env (build_tracked_cells_current-Evolves current)
              λ rows. Evolves-pure env (rows, events)
