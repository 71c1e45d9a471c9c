-- ===== src/Tracking/History/Frames.antt =====
-- The steps of CellTracker on a pair of scans (src/adapt/modules/tracking/module.py): matching,
-- splits, merges, births and terminations keep the invariant, and only add to the record.
use adapt.Prelude.{ℕ, not, Option, none, some, List, [], ◌∷◌, nat_eq, get_elem?, mem, keep}
use adapt.Dict.{Dict, get, put}
use adapt.Exec.{index_error, key_error}
use adapt.Tracking.Models.{
  Cell, Config, EdgeCost, MatchMethod, Raster, Mask, split_edge, merge_edge,
}
use adapt.Tracking.Graph.{DiGraphLaws}
use adapt.Tracking.Assignment.{Edge, edge_eq}
use adapt.Tracking.Env.{Env}
use adapt.Tracking.Hungarian.{decide_matches}
use adapt.Tracking.Tracker.{Matched}
use adapt.Tracking.Frame.{
  best_overlap, with_split, with_merge, hull_overlap_fraction, record_all, resolve_matches,
  parent_overlaps, split_child, detect_splits, target_overlaps, merge_into, detect_merges,
  emit_births, emit_terminations,
}
use adapt.Tracking.History.{
  Evolves, Evolves-pure, Evolves-lift, Evolves-need, Evolves->>=, Evolves-for_each,
}
use adapt.Tracking.History.Nodes.{node-Evolves, add_edge-Evolves, new_track_node-Evolves}
use adapt.Tracking.History.Events.{
  record_continue-Evolves, event_split-Evolves, event_merge-Evolves, event_initiation-Evolves,
  event_termination-Evolves,
}

module _ {G F : Type 0} (env : Env G F) (config : Config F) (laws : DiGraphLaws env.dg) where
  open env use {fl}

  record_all-Evolves :
      (prev_ids : List ℕ) (cells : List (Cell F)) (curr_time : ℕ) (dt_s : F)
      (edge_costs : Dict Edge (EdgeCost F)) (decided : List (Edge × MatchMethod))
      (matched : Matched)
      → Evolves env (record_all env config prev_ids cells curr_time dt_s edge_costs decided matched)
  unfolding record_all
  record_all-Evolves prev_ids cells curr_time dt_s edge_costs [] matched =
      Evolves-pure env ([], matched)
  record_all-Evolves prev_ids cells curr_time dt_s edge_costs ((e, method) ∷ rest) matched =
      Evolves->>= env (Evolves-need env key_error (get e edge_costs)) λ cost.
        Evolves->>= env (Evolves-need env index_error (get_elem? prev_ids e.prev)) λ prev_node.
          Evolves->>= env (Evolves-need env index_error (get_elem? cells e.curr)) λ cell.
            Evolves->>= env
              (record_continue-Evolves env config laws prev_node cell curr_time dt_s cost method)
              λ made.
                Evolves->>= env
                  (record_all-Evolves prev_ids cells curr_time dt_s edge_costs rest (record {
                    by_prev = put e.prev made.0 matched.by_prev;
                    by_curr = put e.curr made.0 matched.by_curr;
                  }))
                  λ later. Evolves-pure env (made.1 ∷ later.0, later.1)

  pub resolve_matches-Evolves :
      (edge_costs : Dict Edge (EdgeCost F)) (prev_ids : List ℕ) (cells : List (Cell F))
      (curr_time : ℕ) (dt_s : F)
      → Evolves env (resolve_matches env config edge_costs prev_ids cells curr_time dt_s)
  unfolding resolve_matches
  resolve_matches-Evolves edge_costs prev_ids cells curr_time dt_s =
      Evolves->>= env (Evolves-lift env (decide_matches env edge_costs)) λ decided.
        record_all-Evolves prev_ids cells curr_time dt_s edge_costs decided
          (record { by_prev = []; by_curr = [] })

  split_child-Evolves :
      (curr_time : ℕ) (cell : Cell F) (parent : Option ℕ)
      → Evolves env (split_child env config curr_time cell parent)
  unfolding split_child
  split_child-Evolves curr_time cell none = Evolves-pure env none
  split_child-Evolves curr_time cell (some parent) =
      Evolves->>= env (new_track_node-Evolves env config laws curr_time cell) λ child.
        Evolves->>= env (add_edge-Evolves env config laws parent child split_edge (fl.of_nat 0))
          λ u.
            Evolves->>= env (event_split-Evolves env config laws curr_time parent child)
              λ event. Evolves-pure env (some event)

  parent_overlaps-Evolves :
      (prev_ids : List ℕ) (proj_labels : Raster ℕ) (mask : Mask) (matched : Dict ℕ ℕ)
      → Evolves env (parent_overlaps env config prev_ids proj_labels mask matched)
  unfolding parent_overlaps
  parent_overlaps-Evolves prev_ids proj_labels mask = Evolves-for_each env λ entry.
      Evolves->>= env (Evolves-need env index_error (get_elem? prev_ids entry.0)) λ prev_node.
        Evolves->>= env (node-Evolves env config laws prev_node)
          λ o. Evolves-pure env (entry.1, hull_overlap_fraction fl proj_labels o.cell_id mask)

  pub detect_splits-Evolves :
      (prev_ids : List ℕ) (cells : List (Cell F)) (proj_labels : Raster ℕ) (matched_prev : Dict ℕ ℕ)
      (born : List ℕ) (curr_time : ℕ)
      → Evolves env
          (detect_splits env config prev_ids cells proj_labels matched_prev born curr_time)
  unfolding detect_splits
  detect_splits-Evolves prev_ids cells proj_labels matched_prev [] curr_time =
      Evolves-pure env ([], [])
  detect_splits-Evolves prev_ids cells proj_labels matched_prev (b ∷ born) curr_time =
      Evolves->>= env (Evolves-need env index_error (get_elem? cells b)) λ cell.
        Evolves->>= env (parent_overlaps-Evolves prev_ids proj_labels cell.mask matched_prev)
          λ overlaps.
            Evolves->>= env
              (split_child-Evolves curr_time cell
                (best_overlap fl config.split_overlap (none, fl.of_nat 0) overlaps))
              λ found.
                Evolves->>= env
                  (detect_splits-Evolves prev_ids cells proj_labels matched_prev born curr_time)
                  λ later. Evolves-pure env (with_split env config b found later)

  merge_into-Evolves :
      (curr_time d_node : ℕ) (target : Option ℕ)
      → Evolves env (merge_into env config curr_time d_node target)
  unfolding merge_into
  merge_into-Evolves curr_time d_node none = Evolves-pure env none
  merge_into-Evolves curr_time d_node (some target) =
      Evolves->>= env (add_edge-Evolves env config laws d_node target merge_edge (fl.of_nat 0)) λ u.
        Evolves->>= env (event_merge-Evolves env config laws curr_time d_node target)
          λ event. Evolves-pure env (some (target, event))

  target_overlaps-Evolves :
      (cells : List (Cell F)) (proj_labels : Raster ℕ) (cell_id : ℕ) (matched : Dict ℕ ℕ)
      → Evolves env (target_overlaps env config cells proj_labels cell_id matched)
  unfolding target_overlaps
  target_overlaps-Evolves cells proj_labels cell_id = Evolves-for_each env λ entry.
      Evolves->>= env (Evolves-need env index_error (get_elem? cells entry.0))
        λ cell. Evolves-pure env (entry.1, hull_overlap_fraction fl proj_labels cell_id cell.mask)

  pub detect_merges-Evolves :
      (dissipated : List ℕ) (cells : List (Cell F)) (proj_labels : Raster ℕ)
      (matched_curr : Dict ℕ ℕ) (curr_time : ℕ)
      → Evolves env (detect_merges env config dissipated cells proj_labels matched_curr curr_time)
  unfolding detect_merges
  detect_merges-Evolves [] cells proj_labels matched_curr curr_time = Evolves-pure env ([], [])
  detect_merges-Evolves (d ∷ dissipated) cells proj_labels matched_curr curr_time =
      Evolves->>= env (node-Evolves env config laws d) λ o.
        Evolves->>= env (target_overlaps-Evolves cells proj_labels o.cell_id matched_curr)
          λ overlaps.
            Evolves->>= env
              (merge_into-Evolves curr_time d
                (best_overlap fl config.split_overlap (none, fl.of_nat 0) overlaps))
              λ found.
                Evolves->>= env
                  (detect_merges-Evolves dissipated cells proj_labels matched_curr curr_time)
                  λ later. Evolves-pure env (with_merge env config d found later)

  pub emit_births-Evolves :
      (cells : List (Cell F)) (born split_born : List ℕ) (curr_time : ℕ)
      → Evolves env (emit_births env config cells born split_born curr_time)
  unfolding emit_births
  emit_births-Evolves cells born split_born curr_time =
      Evolves-for_each env
        (λ b. Evolves->>= env (Evolves-need env index_error (get_elem? cells b)) λ cell.
          Evolves->>= env (new_track_node-Evolves env config laws curr_time cell)
            λ n. event_initiation-Evolves env config laws curr_time n)
        (keep (λ b. not (mem b split_born)) born)

  pub emit_terminations-Evolves :
      (dissipated : List ℕ) (merged : Dict ℕ ℕ) (curr_time : ℕ)
      → Evolves env (emit_terminations env config dissipated merged curr_time)
  unfolding emit_terminations
  emit_terminations-Evolves dissipated merged curr_time =
      Evolves-for_each env
        (λ d. event_termination-Evolves env config laws curr_time d (get d merged)) dissipated
