-- ===== src/Targets/Models.antt =====
-- config.py, snapshot.py and selection.py of src/adapt/consumers/target_selection. A time is a
-- number; how pandas and datetime measure it is a parameter of the engine.
use adapt.Prelude.{ℕ, List, Text}
use adapt.Dict.{Dict}

pub data GateOp : Type 0 where
  gt ge lt le : GateOp

pub data SelectionReason : Type 0 where
  new_target continuation switch : SelectionReason

pub data StopReason : Type 0 where
  target_lost quality_dropped max_duration : StopReason

module _ (F : Type 0) where
  pub record QualityGate : Type 0 where
    pub field : Text
    pub op : GateOp
    pub value : F

  pub record SiteConfig : Type 0 where
    pub lat : F
    pub lon : F
    pub radius_km : F
    pub bonus : F

  -- TSEConfig: its sections' fields that the engine reads.
  pub record TseConfig : Type 0 where
    pub gates : List QualityGate
    pub min_age_seconds : F
    pub weight_field : F
    pub weight_area : F
    pub weight_growth_rate : F
    pub projection_steps : ℕ
    pub sites : List SiteConfig
    pub switch_margin : F
    pub max_observation_seconds : F

  pub record TrajectoryPoint : Type 0 where
    pub lat : F
    pub lon : F
    pub lead_seconds : F

  pub record CellSnapshot : Type 0 where
    pub uid : Text
    pub lat : F
    pub lon : F
    pub area_sqkm : F
    pub field_max : F
    pub age_seconds : F
    pub growth_rate_sqkm_per_min : F
    pub trajectory : List TrajectoryPoint
    pub values : Dict Text F

  pub record Snapshot : Type 0 where
    pub scan_time : ℕ
    pub cells : List CellSnapshot

  pub record TargetSelection : Type 0 where
    pub cell_uid : Text
    pub reason : SelectionReason
    pub score : F
    pub selection_time : ℕ
    pub trajectory : List TrajectoryPoint
    pub observation_window : ℕ × ℕ

-- The engine's only state.
pub record CurrentTarget : Type 0 where
  pub cell_uid : Text
  pub started_at : ℕ
