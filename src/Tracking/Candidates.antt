-- ===== src/Tracking/Candidates.antt =====
-- CellTracker._build_edges of src/adapt/modules/tracking/module.py, and the registration hulls of
-- projection.py.
use adapt.Prelude.{
  ℕ, Option, none, some, List, [], ◌∷◌, map, nat_eq, ◌&&◌, if◌then◌else◌, get_elem?,
}
use adapt.Dict.{Dict, get, put}
use adapt.Exec.{Result, ok, raise, pure, gets, lift, need, index_error, ◌>>=◌, for_each}
use adapt.Floats.{FloatOps}
use adapt.Tracking.Models.{
  Mask, Raster, Observation, TrackMotionState, Cell, Config, EdgeCost, Projected,
}
use adapt.Tracking.Geometry.{
  mask_where, count_nonzero, has_any, generate, validate, check_motion, length_scale, pair_cost,
  mask_centroid, buffer_pixels_from_km, heading_change_radians, ValidationResult,
}
use adapt.Tracking.Assignment.{Edge, edge_eq}
use adapt.Tracking.Env.{Env, Action}
use adapt.Tracking.Events.{node}

module _ {F : Type 0} (fl : FloatOps F) where
  -- np.argmin(np.abs(minutes - dt_s / 60.0)) over the frames: the first of the nearest ones
  abbrev pub nearest_frame : F → F × Raster ℕ → List (F × Raster ℕ) → Raster ℕ
  nearest_frame target (minute, best) [] = best
  nearest_frame target (minute, best) ((m, frame) ∷ frames) =
      nearest_frame target
        (if fl.less (fl.fabs (fl.minus m target)) (fl.fabs (fl.minus minute target))
          then (m, frame)
          else (minute, best))
        frames

  -- values[0] of cell_projections, which the caller found not empty
  abbrev pub first_projection : Option (List (Raster ℕ)) → Result (Raster ℕ)
  first_projection (some (frame ∷ frames)) = ok frame
  first_projection _ = raise index_error

  -- select_registration_labels
  unfoldable pub select_registration_labels : Projected F → (dt_s : F) → Result (Raster ℕ)
  select_registration_labels ds dt_s = elim ds.registration_minutes [
    | [] ↦ first_projection ds.cell_projections
    | frame ∷ frames ↦ ok (nearest_frame (fl.over dt_s (fl.of_nat 60)) frame frames)
  ]

module _ {G F : Type 0} (env : Env G F) (config : Config F) where
  open env use {fl}

  abbrev pub previous_speed_of : Option (TrackMotionState F) → Option F
  previous_speed_of none = none
  previous_speed_of (some state) = if state.has_velocity then some state.speed else none

  -- the heading penalty on top of the cost
  abbrev penalised : (cost : F) → Observation F → Cell F → Option (TrackMotionState F) → F
  penalised cost prev cell none = cost
  penalised cost prev cell (some state) =
      if fl.less (fl.of_nat 0) config.heading_change_penalty_weight && state.has_velocity
      then fl.plus cost (
          fl.times config.heading_change_penalty_weight (
            heading_change_radians fl state.heading (
              fl.atan2 (fl.minus cell.centroid_y prev.centroid_y)
                (fl.minus cell.centroid_x prev.centroid_x))))
      else cost

  -- the distance of the cell's centroid from the hull's, 0 for an empty hull
  abbrev displacement_of : Projected F → Mask → Cell F → F
  displacement_of ds hull cell =
      if has_any hull
      then (let (row_c, col_c) = mask_centroid fl hull in
          fl.hypot (fl.minus cell.centroid_x (fl.plus ds.x0 (fl.times col_c ds.sx)))
            (fl.minus cell.centroid_y (fl.plus ds.y0 (fl.times row_c ds.sy))))
      else fl.of_nat 0

  abbrev pub edge_cost :
      Projected F
      → Mask
      → Observation F
      → Cell F
      → ValidationResult F
      → Option (TrackMotionState F)
      → EdgeCost F
  edge_cost ds hull prev cell result motion =
      let displacement = displacement_of ds hull cell in
      let length_m =
        length_scale fl env.pi config.length_scale (fl.of_nat (count_nonzero hull)) cell.area_px
          (fl.fabs (fl.times ds.sx ds.sy)) config.geometry_length_scale_km in
      record {
        opc = result.opc;
        ocp = result.ocp;
        displacement = displacement;
        cost =
            penalised (pair_cost fl result.opc result.ocp displacement length_m) prev cell motion;
      }

  -- The body of the loop over the candidate pairs: none where a gate rejects the pair.
  unfoldable pub try_edge :
      Projected F → (dt_s : F) → Mask → (prev_node : ℕ) → Cell F → Action G F (Option (EdgeCost F))
  try_edge ds dt_s hull prev_node cell =
      let result =
        validate fl config.minimum_candidate_overlap config.minimum_projected_overlap hull
          cell.mask in
      if result.passed
      then (do
        prev ← node env prev_node
        motion ← gets (λ s. get prev.track_index s.track_motion)
        decision ← lift (
            check_motion fl config.max_speed_ms config.max_speed_multiplier prev.centroid_x
              prev.centroid_y cell.centroid_x cell.centroid_y dt_s (previous_speed_of motion))
        pure (if decision.accepted then some (edge_cost ds hull prev cell result motion) else none))
      else pure none

  abbrev pub add_found :
      Edge → Option (EdgeCost F) → Dict Edge (EdgeCost F) → Dict Edge (EdgeCost F)
  add_found e none edges = edges
  add_found e (some cost) edges = put e cost edges

  -- The loop, with the edges found so far.
  unfoldable pub try_edges :
      Projected F
      → (dt_s : F) → (prev_hulls : List Mask) → (prev_ids : List ℕ) → List (Cell F)
      → List Edge
      → Dict Edge (EdgeCost F)
      → Action G F (Dict Edge (EdgeCost F))
  unfolding try_edge
  try_edges ds dt_s hulls prev_ids cells [] edges = pure edges
  try_edges ds dt_s hulls prev_ids cells (e ∷ pairs) edges = do
    hull ← need index_error (get_elem? hulls e.prev)
    prev_node ← need index_error (get_elem? prev_ids e.prev)
    cell ← need index_error (get_elem? cells e.curr)
    found ← try_edge ds dt_s hull prev_node cell
    try_edges ds dt_s hulls prev_ids cells pairs (add_found e found edges)

  -- _build_edges
  unfoldable pub build_edges :
      (prev_ids : List ℕ)
      → List (Cell F)
      → (proj_labels : Raster ℕ) → Projected F
      → (dt_s : F) → Action G F (Dict Edge (EdgeCost F))
  unfolding try_edges generate
  build_edges prev_ids cells proj_labels ds dt_s = do
    buffer_pixels ← lift (
        buffer_pixels_from_km fl config.projected_hull_buffer_km
          (let (dx, dy) = pixel_sides in if fl.less dy dx then dy else dx))
    hulls ← for_each (λ n. do o ← node env n; pure (mask_where proj_labels o.cell_id)) prev_ids
    try_edges ds dt_s hulls prev_ids cells
        ((generate env.binary_dilation buffer_pixels hulls (map (λ cell. cell.mask) cells)).1) []
    where
      pixel_sides : F × F
      pixel_sides = (fl.fabs ds.sx, fl.fabs ds.sy)
