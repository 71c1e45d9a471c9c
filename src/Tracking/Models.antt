-- ===== src/Tracking/Models.antt =====
-- The value types of src/adapt/modules/tracking: models.py, config.py, the node and edge attributes
-- of graph.py, the cell dicts of module.py, and the state of CellTracker.
use adapt.Prelude.{ℕ, Bool, Option, none, List, Text}
use adapt.Dict.{Dict}

pub data MatchMethod : Type 0 where
  propagated hungarian split merge : MatchMethod

pub data TrackingError : Type 0 where
  non_monotonic_time track_gap_exceeded irregular_scan_cadence : TrackingError
  velocity_exceeded acceleration_exceeded : TrackingError

pub data EdgeType : Type 0 where
  continue_edge split_edge merge_edge : EdgeType

pub data EventType : Type 0 where
  continue_event split_event merge_event initiation termination : EventType

pub data LengthScale : Type 0 where
  hull_equiv_diameter sum_radii fixed_km : LengthScale

-- A 2D array by its rows.
abbrev pub Raster : Type 0 → Type 0
Raster A = List (List A)

abbrev pub Mask : Type 0
Mask = Raster Bool

module _ (F : Type 0) where
  pub record MatchDiagnostics : Type 0 where
    pub opc : Option F
    pub ocp : Option F
    pub centroid_distance_m : Option F
    pub speed_ms : Option F
    pub heading_change_deg : Option F
    pub area_ratio : Option F
    pub final_cost : Option F
    pub match_method : Option MatchMethod

  pub record TrackMotionState : Type 0 where
    pub speed : F
    pub heading : F
    pub has_velocity : Bool

  -- The attributes of a node of the tracking graph. A time is a count of nanoseconds.
  pub record Observation : Type 0 where
    pub time : ℕ
    pub cell_id : ℕ
    pub track_index : ℕ
    pub area : F
    pub centroid_x : F
    pub centroid_y : F
    pub mean_reflectivity : F
    pub max_reflectivity : F
    pub core_area : F
    pub cell_uid : Text
    pub track_signature : Text

  -- A cell of the current scan, as the analyzer's extraction hands it over.
  pub record Cell : Type 0 where
    pub cell_id : ℕ
    pub mask : Mask
    pub area : F
    pub area_px : F
    pub centroid_x : F
    pub centroid_y : F
    pub mean_reflectivity : F
    pub max_reflectivity : F
    pub core_area : F

  pub record Config : Type 0 where
    pub split_overlap : F
    pub uid_width : ℕ
    pub projected_hull_buffer_km : F
    pub length_scale : LengthScale
    pub geometry_length_scale_km : F
    pub max_tracking_gap_minutes : F
    pub minimum_candidate_overlap : F
    pub minimum_projected_overlap : F
    pub max_speed_ms : F
    pub max_speed_multiplier : F
    pub heading_change_penalty_weight : F

  -- A row of the cell_events table.
  pub record Event : Type 0 where
    pub time : ℕ
    pub event_type : EventType
    pub source_cell_uid : Option Text
    pub target_cell_uid : Option Text
    pub source_cell_label : Option ℕ
    pub target_cell_label : Option ℕ
    pub cost : Option F
    pub is_dominant : Bool
    pub event_group_id : Text
    pub diagnostics : MatchDiagnostics

  -- _EdgeCost
  pub record EdgeCost : Type 0 where
    pub opc : F
    pub ocp : F
    pub displacement : F
    pub cost : F

  -- What the tracker reads of the projected dataset: the coordinates' spacing and origin, the
  -- whole-step projections, and the minute frames if there are any.
  pub record Projected : Type 0 where
    pub x0 : F
    pub y0 : F
    pub sx : F
    pub sy : F
    pub cell_projections : Option (List (Raster ℕ))
    pub registration_minutes : List (F × Raster ℕ)

  abbrev pub no_diagnostics : MatchDiagnostics
  no_diagnostics = record {
    opc = none;
    ocp = none;
    centroid_distance_m = none;
    speed_ms = none;
    heading_change_deg = none;
    area_ratio = none;
    final_cost = none;
    match_method = none;
  }

  -- TrackingGraph over a graph value of type G, with its two counters.
  module _ (G : Type 0) where
    pub record TrackingGraph : Type 0 where
      pub graph : G
      pub node_counter : ℕ
      pub track_counter : ℕ

    -- The fields of CellTracker that its methods change.
    pub record Tracker : Type 0 where
      pub tracking : TrackingGraph
      pub previous_scan : Option (ℕ × List ℕ)
      pub cell_identity : Dict ℕ (Text × Text)
      pub track_motion : Dict ℕ TrackMotionState
      pub prev_dt_s : Option F
      pub scan_id : Text
