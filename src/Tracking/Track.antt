-- ===== src/Tracking/Track.antt =====
-- CellTracker.track and the steps that it chooses between (src/adapt/modules/tracking/module.py).
use adapt.Prelude.{
  ℕ, Bool, true, false, ◌&&◌, ◌||◌, Option, none, some, List, [], ◌∷◌, ◌++◌, Text, text_ltb,
  text_beq, ltb, if◌then◌else◌, length, sorted_by,
}
use adapt.Exec.{pure, gets, modify, lift, throw, value_error, ◌>>=◌, ◌>>◌, for_each}
use adapt.Tracking.Models.{Cell, Config, Projected, Event}
use adapt.Tracking.Graph
use adapt.Tracking.Env.{Env, Action}
use adapt.Tracking.Events.{node, event_initiation, event_termination}
use adapt.Tracking.Tracker.{initialize_tracks}
use adapt.Tracking.Candidates.{select_registration_labels, build_edges}
use adapt.Tracking.Frame.{
  unmatched_from, dissipated_from, resolve_matches, detect_splits, detect_merges, emit_births,
  emit_terminations,
}

-- A row of the tracked_cells table.
pub record TrackedCell (F : Type 0) : Type 0 where
  pub time : ℕ
  pub cell_label : ℕ
  pub cell_uid : Text
  pub area : F
  pub centroid_x : F
  pub centroid_y : F
  pub mean_reflectivity : F
  pub max_reflectivity : F
  pub core_area : F

-- sort_values(["cell_uid", "cell_label"])
abbrev pub row_before : {F : Type 0} → TrackedCell F → TrackedCell F → Bool
row_before a b =
    text_ltb a.cell_uid b.cell_uid
    || (text_beq a.cell_uid b.cell_uid && ltb a.cell_label b.cell_label)

module _ {G F : Type 0} (env : Env G F) (config : Config F) where
  open env use {fl, dg}

  unfoldable pub get_nodes_at_time : (time : ℕ) → Action G F (List ℕ)
  get_nodes_at_time time = gets (λ s. Graph.get_nodes_at_time dg s.tracking time)

  -- _reset_tracks
  unfoldable pub reset_tracks :
      (prev_ids : List ℕ) → (curr_time : ℕ) → List (Cell F) → Action G F (List (Event F))
  unfolding get_nodes_at_time
  reset_tracks prev_ids curr_time cells = do
    ended ← for_each (λ n. event_termination env curr_time n none) prev_ids
    made ← initialize_tracks env config curr_time cells
    current ← get_nodes_at_time curr_time
    started ← for_each (event_initiation env curr_time) current
    pure (ended ++ started)

  -- _gap_forces_reset, whose warning on an irregular cadence changes nothing
  abbrev pub gap_forces_reset : (dt_s : F) → Bool
  gap_forces_reset dt_s =
      fl.less_eq dt_s (fl.of_nat 0)
      || fl.less (fl.times config.max_tracking_gap_minutes (fl.of_nat 60)) dt_s

  -- The part of _track_frame_pair behind the check for projections.
  unfoldable pub match_frame :
      (prev_ids : List ℕ)
      → (curr_time : ℕ) → Projected F
      → List (Cell F)
      → (dt_s : F) → Action G F (List (Event F))
  match_frame prev_ids curr_time ds cells dt_s = do
    proj_labels ← lift (select_registration_labels fl ds dt_s)
    edge_costs ← build_edges env config prev_ids cells proj_labels ds dt_s
    resolved ← resolve_matches env config edge_costs prev_ids cells curr_time dt_s
    let matched = resolved.1
    let dissipated = dissipated_from 0 prev_ids matched.by_prev
    let born = unmatched_from 0 (length cells) matched.by_curr
    split ← detect_splits env config prev_ids cells proj_labels matched.by_prev born curr_time
    merged ← detect_merges env config dissipated cells proj_labels matched.by_curr curr_time
    births ← emit_births env config cells born split.0 curr_time
    ends ← emit_terminations env config dissipated merged.0 curr_time
    pure (resolved.0 ++ (split.1 ++ merged.1) ++ births ++ ends)

  abbrev pub projections_missing : Projected F → Bool
  projections_missing ds = elim ds.cell_projections [
    | none ↦ true
    | some frames ↦ elim frames [ [] ↦ true | frame ∷ rest ↦ false ]
  ]

  -- _track_frame_pair
  unfoldable pub track_frame_pair :
      (prev_ids : List ℕ)
      → (curr_time : ℕ) → Projected F
      → List (Cell F)
      → (dt_s : F) → Action G F (List (Event F))
  unfolding match_frame reset_tracks
  track_frame_pair prev_ids curr_time ds cells dt_s =
      if projections_missing ds
      then reset_tracks prev_ids curr_time cells
      else match_frame prev_ids curr_time ds cells dt_s

  -- A row of _build_tracked_cells_current.
  unfoldable pub tracked_row : ℕ → Action G F (TrackedCell F)
  tracked_row n = do
    o ← node env n
    pure (record {
      time = o.time;
      cell_label = o.cell_id;
      cell_uid = o.cell_uid;
      area = o.area;
      centroid_x = o.centroid_x;
      centroid_y = o.centroid_y;
      mean_reflectivity = o.mean_reflectivity;
      max_reflectivity = o.max_reflectivity;
      core_area = o.core_area;
    })

  -- _build_tracked_cells_current
  unfoldable pub build_tracked_cells_current : List ℕ → Action G F (List (TrackedCell F))
  unfolding tracked_row
  build_tracked_cells_current node_ids = do
    rows ← for_each tracked_row node_ids
    pure (sorted_by row_before rows)

  -- The branch of `track` without a previous scan.
  unfoldable pub first_scan : (curr_time : ℕ) → List (Cell F) → Action G F (List (Event F))
  first_scan curr_time cells = do
    node_ids ← initialize_tracks env config curr_time cells
    modify (λ s. record s { previous_scan = some (curr_time, node_ids) })
    for_each (event_initiation env curr_time) node_ids

  -- The branch with one.
  unfoldable pub next_scan :
      (prev_time : ℕ)
      → (prev_ids : List ℕ) → (curr_time : ℕ) → Projected F
      → List (Cell F)
      → Action G F (List (Event F))
  unfolding track_frame_pair reset_tracks get_nodes_at_time
  next_scan prev_time prev_ids curr_time ds cells =
      let dt_s = fl.minus (env.epoch_seconds curr_time) (env.epoch_seconds prev_time) in
      do
        events ←
            (if gap_forces_reset dt_s then reset_tracks prev_ids curr_time cells else (do
              modify (λ s. record s { prev_dt_s = some dt_s })
              track_frame_pair prev_ids curr_time ds cells dt_s))
        current ← get_nodes_at_time curr_time
        modify (λ s. record s { previous_scan = some (curr_time, current) })
        pure events

  unfoldable pub choose_scan :
      Option (ℕ × List ℕ)
      → (curr_time : ℕ) → Projected F
      → List (Cell F)
      → Action G F (List (Event F))
  unfolding first_scan next_scan
  choose_scan none curr_time ds cells = first_scan curr_time cells
  choose_scan (some (prev_time, prev_ids)) curr_time ds cells =
      next_scan prev_time prev_ids curr_time ds cells

  abbrev pub require_scan_id : Text → Action G F (Unit {0})
  require_scan_id [] = throw value_error
  require_scan_id (c ∷ scan_id) = modify (λ s. record s { scan_id = c ∷ scan_id })

  -- track, on the time and the cells that it extracts from its arguments
  unfoldable pub track :
      (scan_id : Text)
      → (curr_time : ℕ) → Projected F
      → List (Cell F)
      → Action G F (List (TrackedCell F) × List (Event F))
  unfolding choose_scan build_tracked_cells_current get_nodes_at_time
  track scan_id curr_time ds cells = do
    require_scan_id scan_id
    previous ← gets (λ s. s.previous_scan)
    events ← choose_scan previous curr_time ds cells
    current ← get_nodes_at_time curr_time
    rows ← build_tracked_cells_current current
    pure (rows, events)
