-- ===== src/Tracking/Tracker.antt =====
-- src/adapt/modules/tracking/module.py: the state of CellTracker and the methods that add nodes,
-- identities, edges and motion to it.
use adapt.Prelude.{ℕ, true, Option, none, some, List, [], Text, nat_eq, if◌then◌else◌}
use adapt.Dict.{Dict, get, put}
use adapt.Floats.{divide}
use adapt.Exec.{ok, pure, gets, modify, lift, ◌>>=◌, ◌>>◌, for_each}
use adapt.Tracking.Models.{
  Observation, MatchDiagnostics, TrackMotionState, Cell, Config, Event, EdgeCost, EdgeType,
  continue_edge, Tracker, MatchMethod,
}
use adapt.Tracking.Graph
use adapt.Tracking.Geometry.{heading_change_degrees}
use adapt.Tracking.Identity.{track_signature_v2, cell_uid_from_signature}
use adapt.Tracking.Env.{Env, Action}
use adapt.Tracking.Events.{node, get_cell_identity, event_continue}

-- The state after CellTracker.__init__.
abbrev pub new_tracker : {G F : Type 0} → Env G F → Tracker F G
new_tracker env = record {
  tracking = Graph.new_graph env.dg;
  previous_scan = none;
  cell_identity = [];
  track_motion = [];
  prev_dt_s = none;
  scan_id = [];
}

-- matched_prev and matched_curr: indices to the new nodes
pub record Matched : Type 0 where
  pub by_prev : Dict ℕ ℕ
  pub by_curr : Dict ℕ ℕ

module _ {G F : Type 0} (env : Env G F) (config : Config F) where
  open env use {fl, dg}

  unfoldable pub add_observation : Observation F → Action G F ℕ
  add_observation o s =
      let (n, t) = Graph.add_observation dg o s.tracking in (ok n, record s { tracking = t })

  unfoldable pub add_edge : ℕ → ℕ → EdgeType → F → Action G F (Unit {0})
  add_edge from to kind cost =
      modify (λ s. record s { tracking = Graph.add_edge dg from to kind cost s.tracking })

  unfoldable pub get_new_track_index : Action G F ℕ
  get_new_track_index s =
      let (k, t) = Graph.get_new_track_index dg s.tracking in (ok k, record s { tracking = t })

  -- _new_cell_identity
  unfoldable pub new_cell_identity : Cell F → Action G F (Text × Text)
  new_cell_identity cell = do
    scan_id ← gets (λ s. s.scan_id)
    signature ← lift (track_signature_v2 scan_id cell.cell_id)
    pure (cell_uid_from_signature env.value64 signature config.uid_width, signature)

  -- _add_cell_node with the identity given
  unfoldable pub add_node_as : (time : ℕ) → Cell F → (track_index : ℕ) → Text × Text → Action G F ℕ
  unfolding add_observation
  add_node_as time cell track_index identity = add_observation (record {
    time = time;
    cell_id = cell.cell_id;
    track_index = track_index;
    area = cell.area;
    centroid_x = cell.centroid_x;
    centroid_y = cell.centroid_y;
    mean_reflectivity = cell.mean_reflectivity;
    max_reflectivity = cell.max_reflectivity;
    core_area = cell.core_area;
    cell_uid = identity.0;
    track_signature = identity.1;
  })

  -- _add_cell_node without it: the identity of the track index
  unfoldable pub add_cell_node : (time : ℕ) → Cell F → (track_index : ℕ) → Action G F ℕ
  add_cell_node time cell track_index = do
    identity ← get_cell_identity env track_index
    add_node_as time cell track_index identity

  -- _new_track_node, and the body of the loop of _initialize_tracks
  unfoldable pub new_track_node : (time : ℕ) → Cell F → Action G F ℕ
  new_track_node time cell = do
    track_index ← get_new_track_index
    identity ← new_cell_identity cell
    modify (λ s. record s { cell_identity = put track_index identity s.cell_identity })
    add_node_as time cell track_index identity

  -- _initialize_tracks
  unfoldable pub initialize_tracks : (time : ℕ) → List (Cell F) → Action G F (List ℕ)
  initialize_tracks time = for_each (new_track_node time)

  -- _update_motion
  unfoldable pub update_motion :
      (prev_node : ℕ) → Cell F → (track_index : ℕ) → (dt_s : F) → Action G F (Unit {0})
  update_motion prev_node cell track_index dt_s = do
    prev ← node env prev_node
    vx ← lift (divide fl (fl.minus cell.centroid_x prev.centroid_x) dt_s)
    vy ← lift (divide fl (fl.minus cell.centroid_y prev.centroid_y) dt_s)
    modify λ s. record s {
      track_motion =
          put track_index
            (record { speed = fl.hypot vx vy; heading = fl.atan2 vy vx; has_velocity = true })
            s.track_motion;
    }

  -- The heading change of a candidate against the track's motion, if it has a velocity.
  abbrev heading_change_of : Observation F → Cell F → Option (TrackMotionState F) → Option F
  heading_change_of prev cell none = none
  heading_change_of prev cell (some state) =
      if state.has_velocity
      then some (
          heading_change_degrees fl state.heading (
            fl.atan2 (fl.minus cell.centroid_y prev.centroid_y)
              (fl.minus cell.centroid_x prev.centroid_x)))
      else none

  abbrev pub diagnostics_of :
      Observation F
      → Cell F
      → EdgeCost F
      → MatchMethod
      → Option (TrackMotionState F)
      → (speed : F) → MatchDiagnostics F
  diagnostics_of prev cell edge method motion speed = record {
    opc = some edge.opc;
    ocp = some edge.ocp;
    centroid_distance_m = some edge.displacement;
    speed_ms = some speed;
    heading_change_deg = heading_change_of prev cell motion;
    area_ratio =
        (if fl.less (fl.of_nat 0) prev.area then some (fl.over cell.area prev.area) else none);
    final_cost = some edge.cost;
    match_method = some method;
  }

  -- _match_diagnostics
  unfoldable pub match_diagnostics :
      (prev_node : ℕ)
      → Cell F
      → (dt_s : F) → EdgeCost F
      → MatchMethod
      → Action G F (MatchDiagnostics F)
  match_diagnostics prev_node cell dt_s edge method = do
    prev ← node env prev_node
    motion ← gets (λ s. get prev.track_index s.track_motion)
    speed ← lift (divide fl edge.displacement dt_s)
    pure (diagnostics_of prev cell edge method motion speed)

  -- _record_continue: the new node for the pair, and its event
  unfoldable pub record_continue :
      (prev_node : ℕ)
      → Cell F
      → (curr_time : ℕ) → (dt_s : F) → EdgeCost F
      → MatchMethod
      → Action G F (ℕ × Event F)
  record_continue prev_node cell curr_time dt_s edge method = do
    prev ← node env prev_node
    diagnostics ← match_diagnostics prev_node cell dt_s edge method
    curr_node ← add_cell_node curr_time cell prev.track_index
    add_edge prev_node curr_node continue_edge edge.cost
    update_motion prev_node cell prev.track_index dt_s
    event ← event_continue env curr_time prev_node curr_node edge.cost diagnostics
    pure (curr_node, event)
