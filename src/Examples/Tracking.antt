-- ===== src/Examples/Tracking.antt =====
-- The tracker on two scans with one cell, over integers in the place of floats and a graph that is
-- a dictionary of nodes with a list of edges.
use adapt.Prelude.{
  true, false, ◌⊎◌, ℕ, ◌≡◌, refl, true, some, List, [], ◌∷◌, map, codes, length, nat_eq,
}
use adapt.Dict.{Dict, has, get, put, get-put}
use adapt.Exec.{Result, ok, raise, for_each, Ensures, zero_division}
use adapt.Tracking.Models.{
  Observation, EdgeType, EdgeCost, Event, EventType, initiation, termination, MatchMethod, Cell,
  Config, Projected, Tracker, LengthScale,
}
use adapt.Tracking.Graph.{DiGraph, DiGraphLaws, get_node}
use adapt.Tracking.Identity.{track_signature_v2, cell_uid_from_signature}
use adapt.Tracking.Events.{event_initiation, event_continue, event_termination}
use adapt.Tracking.Candidates.{select_registration_labels, build_edges}
use adapt.Tracking.Frame.{
  resolve_matches, detect_splits, detect_merges, emit_births, emit_terminations,
}
use adapt.Tracking.Hungarian.{decide_matches}
use adapt.Tracking.Assignment.{resolve}
use adapt.Tracking.Env.{Env}
use adapt.Tracking.Tracker.{
  initialize_tracks, new_track_node, get_new_track_index, new_cell_identity, add_node_as,
  add_cell_node, add_edge, update_motion, match_diagnostics, new_tracker, record_continue,
}
use adapt.Tracking.Track.{track}
use adapt.Tracking.History.{IsTracked, Grows}
use adapt.Tracking.History.Reachable.{
  Reachable, track-Grows, Reachable-IsTracked, Reachable-same_identity,
}
use adapt.Tracking.History.Continuation.{ContinuesTrack, record_continue-ContinuesTrack}
use adapt.Examples.Integers.{ℤ, pos, integers}

record Edges : Type 0 where
  nodes : Dict ℕ (Observation ℤ)
  edges : List (ℕ × ℕ × EdgeType × ℤ)

abbrev digraph : DiGraph Edges (Observation ℤ) (EdgeType × ℤ)
digraph = record {
  empty = record { nodes = []; edges = [] };
  add_node = λ n o g. record g { nodes = put n o g.nodes };
  add_edge = λ n m e g. record g { edges = (n, m, e.0, e.1) ∷ g.edges };
  attrs = λ g n. get n g.nodes;
  nodes = λ g. g.nodes;
}

laws_digraph : DiGraphLaws digraph
unfolding get
laws_digraph = record {
  attrs-empty = λ n. refl;
  attrs-add_node = λ n m o g free. get-put n m o g.nodes;
  attrs-add_edge = λ n m k e g. refl;
}

abbrev env : Env Edges ℤ
env = record {
  fl = integers;
  dg = digraph;
  pi = pos 3;
  binary_dilation = λ n mask. mask;
  linear_sum_assignment = λ costs. [];
  connected_components = λ edges. [];
  value64 = length;
  isoformat = λ time. [];
  epoch_seconds = pos;
}

abbrev config : Config ℤ
config = record {
  split_overlap = pos 1;
  uid_width = 4;
  projected_hull_buffer_km = pos 0;
  length_scale = LengthScale.fixed_km;
  geometry_length_scale_km = pos 1;
  max_tracking_gap_minutes = pos 30;
  minimum_candidate_overlap = pos 0;
  minimum_projected_overlap = pos 0;
  max_speed_ms = pos 100;
  max_speed_multiplier = pos 3;
  heading_change_penalty_weight = pos 0;
}

abbrev cell : ℕ → Cell ℤ
cell label = record {
  cell_id = label;
  mask = (true ∷ []) ∷ [];
  area = pos 4;
  area_px = pos 1;
  centroid_x = pos 0;
  centroid_y = pos 0;
  mean_reflectivity = pos 40;
  max_reflectivity = pos 50;
  core_area = pos 2;
}

abbrev projected : Projected ℤ
projected = record {
  x0 = pos 0;
  y0 = pos 0;
  sx = pos 1000;
  sy = pos 1000;
  cell_projections = some (((7 ∷ []) ∷ []) ∷ []);
  registration_minutes = [];
}

abbrev first : Tracker ℤ Edges
first = (track env config (codes "a") 100 projected (cell 7 ∷ []) (new_tracker env)).1

abbrev second : Tracker ℤ Edges
second = (track env config (codes "b") 400 projected (cell 9 ∷ []) first).1

first-Reachable : Reachable env config first
first-Reachable = Reachable.scan Reachable.start (codes "a") 100 projected (cell 7 ∷ [])

second-Reachable : Reachable env config second
second-Reachable = Reachable.scan first-Reachable (codes "b") 400 projected (cell 9 ∷ [])

abbrev observation : (time label : ℕ) → Observation ℤ
observation time label = record {
  time = time;
  cell_id = label;
  track_index = 1;
  area = pos 4;
  centroid_x = pos 0;
  centroid_y = pos 0;
  mean_reflectivity = pos 40;
  max_reflectivity = pos 50;
  core_area = pos 2;
  cell_uid = codes "0006";
  track_signature = codes "v2|a|7";
}

first_0 : get_node digraph first.tracking 0 ≡ some (observation 100 7)
unfolding track get put initialize_tracks for_each new_track_node get_new_track_index
    new_cell_identity track_signature_v2 add_node_as event_initiation cell_uid_from_signature
first_0 = refl

track-Grows_example : IsTracked env second × Grows env first second
track-Grows_example =
    track-Grows env config laws_digraph (codes "b") 400 projected (cell 9 ∷ []) first
      (Reachable-IsTracked env config laws_digraph first-Reachable)

second_0 : get_node digraph second.tracking 0 ≡ some (observation 100 7)
second_0 =
    let grows =
      (track-Grows env config laws_digraph (codes "b") 400 projected (cell 9 ∷ []) first
        (Reachable-IsTracked env config laws_digraph first-Reachable)).1 in
    grows.nodes_kept 0 (observation 100 7) first_0

second_1 : get_node digraph second.tracking 1 ≡ some (observation 400 9)
unfolding track get put initialize_tracks for_each new_track_node get_new_track_index
    new_cell_identity track_signature_v2 add_node_as event_initiation cell_uid_from_signature
    add_cell_node add_edge update_motion match_diagnostics record_continue event_continue
    event_termination select_registration_labels build_edges resolve_matches detect_splits
    detect_merges emit_births emit_terminations decide_matches resolve has
second_1 = refl

Reachable-same_identity_example : (codes "0006" ≡ codes "0006") × (codes "v2|a|7" ≡ codes "v2|a|7")
Reachable-same_identity_example =
    Reachable-same_identity env config laws_digraph second 0 1 (observation 100 7)
      (observation 400 9) second-Reachable second_0 second_1 refl

abbrev edge_cost : EdgeCost ℤ
edge_cost = record { opc = pos 1; ocp = pos 1; displacement = pos 0; cost = pos 0 }

record_continue-ContinuesTrack_example :
    ((env.fl.same (pos 300) (pos 0) ≡ false)
      × Ensures (ContinuesTrack env (observation 100 7) (cell 9)) (
          record_continue env config 0
            (cell 9)
            400
            (pos 300)
            edge_cost
            MatchMethod.propagated
            first))
    ⊎ ((env.fl.same (pos 300) (pos 0) ≡ true)
        × (record_continue env config 0
              (cell 9)
              400
              (pos 300)
              edge_cost
              MatchMethod.propagated
              first
            ≡ (raise zero_division, first)))
record_continue-ContinuesTrack_example =
    record_continue-ContinuesTrack env config laws_digraph 0 (observation 100 7) (cell 9) 400
      (pos 300) edge_cost MatchMethod.propagated first
      (Reachable-IsTracked env config laws_digraph first-Reachable) first_0

abbrev kinds : {A : Type 0} → Result (A × List (Event ℤ)) → List EventType
kinds (ok (rows, events)) = map (λ e. e.event_type) events
kinds (raise e) = []

-- A second scan at the time of the first, with one cell: the track that ended is initiated again.
repeated_scan :
    kinds (track env config (codes "b") 100 projected (cell 9 ∷ []) first).0
    ≡ termination ∷ initiation ∷ initiation ∷ []
unfolding track get put initialize_tracks for_each new_track_node get_new_track_index
    new_cell_identity track_signature_v2 add_node_as event_initiation cell_uid_from_signature
    event_termination
repeated_scan = refl
