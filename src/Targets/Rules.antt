-- ===== src/Targets/Rules.antt =====
-- rules.py and _geo.py of src/adapt/consumers/target_selection.
pub mod Best
pub mod Margin
use adapt.Prelude.{
  ℕ, zero, suc, ◌+◌, ◌^◌, Bool, true, false, not, ◌&&◌, ◌||◌, Option, none, some, List, [], ◌∷◌,
  Text, text_eq, text_beq, text_ltb, ◌==◌, if◌then◌else◌, any_of,
}
use adapt.Dict.{Dict, get, has, keys}
use adapt.Exec.{Result, ok, raise, value_error, key_error}
use adapt.Floats.{FloatOps}
use adapt.Targets.Models.{
  GateOp, gt, ge, lt, le, SelectionReason, continuation, switch, StopReason, target_lost,
  quality_dropped, max_duration, QualityGate, SiteConfig, TseConfig, TrajectoryPoint, CellSnapshot,
}

-- points[:n]
abbrev pub first : {A : Type 0} → ℕ → List A → List A
first zero xs = []
first (suc n) [] = []
first (suc n) (x ∷ xs) = x ∷ first n xs

module _ {F : Type 0} (fl : FloatOps F) where
  open fl use {
    of_nat, plus, minus, times, over, neg, less, less_eq, same, is_nan, sqrt, sin, cos, radians,
    asin,
  }

  -- _GATE_OPS[op]
  abbrev pub passes_gate : GateOp → F → F → Bool
  passes_gate gt a b = less b a
  passes_gate ge a b = less_eq b a
  passes_gate lt a b = less a b
  passes_gate le a b = less_eq a b

  -- The gates of is_candidate, in order: the first that fails decides, a missing column raises.
  unfoldable pub check_gates : CellSnapshot F → List (QualityGate F) → Result Bool
  check_gates cell [] = ok true
  check_gates cell (gate ∷ gates) =
      let rest = check_gates cell gates in
      elim (get gate.field cell.values) [
        | none ↦ raise value_error
        | some value ↦
            if is_nan value || not (passes_gate gate.op value gate.value) then ok false else rest
      ]

  unfoldable pub is_candidate : CellSnapshot F → TseConfig F → Result Bool
  unfolding check_gates
  is_candidate cell cfg = elim (check_gates cell cfg.gates) [
    | ok passed ↦ ok (passed && less_eq cfg.min_age_seconds cell.age_seconds)
    | raise e ↦ raise e
  ]

  unfoldable pub priority_score : CellSnapshot F → TseConfig F → Result F
  priority_score cell cfg =
      if is_nan cell.field_max || is_nan cell.area_sqkm || is_nan cell.growth_rate_sqkm_per_min
      then raise value_error
      else ok (
          plus (plus (times cfg.weight_field cell.field_max) (times cfg.weight_area cell.area_sqkm))
            (times cfg.weight_growth_rate cell.growth_rate_sqkm_per_min))

  abbrev square : F → F
  square a = times a a

  -- haversine_km, with 6371.0 for the earth's radius
  abbrev pub haversine_km : (lat1 lon1 lat2 lon2 : F) → F
  haversine_km lat1 lon1 lat2 lon2 =
      let d_phi = radians (minus lat2 lat1) in
      let d_lam = radians (minus lon2 lon1) in
      let a = plus (square (sin (over d_phi (of_nat 2)))) (
        times (times (cos (radians lat1)) (cos (radians lat2)))
          (square (sin (over d_lam (of_nat 2))))) in
      times (times (of_nat 2) (of_nat 6371)) (asin (sqrt a))

  abbrev add_bonuses : List (TrajectoryPoint F) → F → List (SiteConfig F) → F
  add_bonuses points bonus [] = bonus
  add_bonuses points bonus (site ∷ sites) =
      add_bonuses points
        (if any_of (λ p. less_eq (haversine_km p.lat p.lon site.lat site.lon) site.radius_km) points
          then plus bonus site.bonus
          else bonus)
        sites

  abbrev pub site_bonus : List (TrajectoryPoint F) → TseConfig F → F
  site_bonus trajectory cfg =
      add_bonuses (first cfg.projection_steps trajectory) (of_nat 0) cfg.sites

  unfoldable pub total_score : CellSnapshot F → TseConfig F → Result F
  unfolding priority_score
  total_score cell cfg = elim (priority_score cell cfg) [
    | ok priority ↦ ok (plus priority (site_bonus cell.trajectory cfg))
    | raise e ↦ raise e
  ]

  -- The order of the keys (-score, uid), as Python compares tuples.
  abbrev pub key_before : Text × F → Text × F → Bool
  key_before (u, s) (v, t) = if same (neg s) (neg t) then text_ltb u v else less (neg s) (neg t)

  -- The loop of min(scored, key=...), over the entries.
  unfoldable pub min_from : Text × F → List (Text × F) → Text × F
  min_from best [] = best
  min_from best (entry ∷ rest) = min_from (if key_before entry best then entry else best) rest

  -- select_best, with the score of the uid that it returns
  unfoldable pub select_best : Dict Text F → Option (Text × F)
  unfolding min_from
  select_best [] = none
  select_best (entry ∷ rest) = some (min_from entry rest)

  -- {uid: s for uid, s in scored.items() if uid != excluded}
  abbrev pub without : Text → Dict Text F → Dict Text F
  without excluded [] = []
  without excluded ((uid, s) ∷ scored) =
      let rest = without excluded scored in if uid == excluded then rest else (uid, s) ∷ rest

  unfoldable pub continue_or_switch :
      Text → Dict Text F → (margin : F) → Result (Text × SelectionReason)
  unfolding select_best
  continue_or_switch current_uid scored margin = elim (select_best (without current_uid scored)) [
    | none ↦ ok (current_uid, continuation)
    | some (best, score) ↦ elim (get current_uid scored) [
      | none ↦ raise key_error
      | some current_score ↦ ok (
          if less (plus current_score margin) score
          then (best, switch)
          else (current_uid, continuation))
    ]
  ]

  unfoldable pub should_stop :
      Option (CellSnapshot F) → TseConfig F → (observed_seconds : F) → Result (Option StopReason)
  unfolding is_candidate
  should_stop none cfg observed_seconds = ok (some target_lost)
  should_stop (some cell) cfg observed_seconds = elim (is_candidate cell cfg) [
    | raise e ↦ raise e
    | ok candidate ↦ ok (
        if not candidate
        then some quality_dropped
        else if less_eq cfg.max_observation_seconds observed_seconds
        then some max_duration
        else none)
  ]
