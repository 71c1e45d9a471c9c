-- ===== src/Tracking/History/Candidates.antt =====
-- The candidate edges of CellTracker._build_edges (src/adapt/modules/tracking/module.py) are found
-- without a change to the record.
use adapt.Prelude.{ℕ, none, some, List, [], ◌∷◌, nat_eq, if◌then◌else◌, get_elem?}
use adapt.Dict.{Dict, get}
use adapt.Exec.{index_error}
use adapt.Tracking.Models.{Cell, Config, EdgeCost, Raster, Mask, Projected}
use adapt.Tracking.Graph.{DiGraphLaws}
use adapt.Tracking.Geometry.{mask_where}
use adapt.Tracking.Assignment.{Edge, edge_eq}
use adapt.Tracking.Env.{Env}
use adapt.Tracking.Candidates.{try_edge, try_edges, build_edges}
use adapt.Tracking.History.{
  Evolves, Evolves-pure, Evolves-gets, Evolves-lift, Evolves-need, Evolves-if, Evolves->>=,
  Evolves-for_each,
}
use adapt.Tracking.History.Nodes.{node-Evolves}
use adapt.Tracking.Candidates.{add_found, previous_speed_of, edge_cost}
use adapt.Tracking.Geometry.{validate, check_motion}

module _ {G F : Type 0} (env : Env G F) (config : Config F) (laws : DiGraphLaws env.dg) where
  open env use {fl}

  try_edge-Evolves :
      (ds : Projected F) (dt_s : F) (hull : Mask) (prev_node : ℕ) (cell : Cell F)
      → Evolves env (try_edge env config ds dt_s hull prev_node cell)
  unfolding try_edge
  try_edge-Evolves ds dt_s hull prev_node cell =
      let result =
        validate fl config.minimum_candidate_overlap config.minimum_projected_overlap hull
          cell.mask in
      Evolves-if env result.passed
        (Evolves->>= env (node-Evolves env config laws prev_node) λ prev.
          Evolves->>= env (Evolves-gets env (λ s. get prev.track_index s.track_motion)) λ motion.
            Evolves->>= env
              (Evolves-lift env (
                check_motion fl config.max_speed_ms config.max_speed_multiplier prev.centroid_x
                  prev.centroid_y cell.centroid_x cell.centroid_y dt_s
                  (previous_speed_of env config motion)))
              λ decision. Evolves-pure env (
                if decision.accepted
                then some (edge_cost env config ds hull prev cell result motion)
                else none))
        (Evolves-pure env none)

  try_edges-Evolves :
      (ds : Projected F) (dt_s : F) (hulls : List Mask) (prev_ids : List ℕ) (cells : List (Cell F))
      (pairs : List Edge) (edges : Dict Edge (EdgeCost F))
      → Evolves env (try_edges env config ds dt_s hulls prev_ids cells pairs edges)
  unfolding try_edges
  try_edges-Evolves ds dt_s hulls prev_ids cells [] edges = Evolves-pure env edges
  try_edges-Evolves ds dt_s hulls prev_ids cells (e ∷ pairs) edges =
      Evolves->>= env (Evolves-need env index_error (get_elem? hulls e.prev)) λ hull.
        Evolves->>= env (Evolves-need env index_error (get_elem? prev_ids e.prev)) λ prev_node.
          Evolves->>= env (Evolves-need env index_error (get_elem? cells e.curr)) λ cell.
            Evolves->>= env (try_edge-Evolves ds dt_s hull prev_node cell) λ found.
              try_edges-Evolves ds dt_s hulls prev_ids cells pairs
                (add_found env config e found edges)

  pub build_edges-Evolves :
      (prev_ids : List ℕ) (cells : List (Cell F)) (proj_labels : Raster ℕ) (ds : Projected F)
      (dt_s : F)
      → Evolves env (build_edges env config prev_ids cells proj_labels ds dt_s)
  unfolding build_edges
  build_edges-Evolves prev_ids cells proj_labels ds dt_s =
      Evolves->>= env (Evolves-lift env _) λ buffer_pixels.
        Evolves->>= env
          (Evolves-for_each env
            (λ n.
              Evolves->>= env (node-Evolves env config laws n)
                λ o. Evolves-pure env (mask_where proj_labels o.cell_id))
            prev_ids)
          λ hulls. try_edges-Evolves ds dt_s hulls prev_ids cells _ []
