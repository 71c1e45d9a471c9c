-- ===== src/Tracking/Geometry.antt =====
-- src/adapt/modules/tracking/matching/geometry.py, validation.py, candidate.py and motion.py: masks,
-- overlaps, the pair cost and the gates. `scipy.ndimage.binary_dilation` is a parameter.
pub mod Overlap
use adapt.Prelude.{
  ℕ, zero, suc, ◌+◌, ◌≡◌, Bool, true, false, not, ◌&&◌, ◌||◌, Option, none, some, List, [], ◌∷◌,
  ◌++◌, nat_eq, ◌==◌, if◌then◌else◌, ◌*◌, map,
}
use adapt.Tracking.Assignment.{Edge}
use adapt.Floats.{FloatOps}
use adapt.Exec.{Result, ok, raise, value_error}
use adapt.Tracking.Models.{
  Mask, Raster, LengthScale, hull_equiv_diameter, sum_radii, fixed_km, TrackingError,
  velocity_exceeded, acceleration_exceeded,
}

abbrev pub bit : Bool → ℕ
bit b = if b then 1 else 0

abbrev pub count_row : List Bool → ℕ
count_row [] = 0
count_row (b ∷ bs) = bit b + count_row bs

-- np.count_nonzero(mask), np.sum(mask)
abbrev pub count_nonzero : Mask → ℕ
count_nonzero [] = 0
count_nonzero (row ∷ rows) = count_row row + count_nonzero rows

abbrev pub row_and : List Bool → List Bool → List Bool
row_and (a ∷ as') (b ∷ bs) = (a && b) ∷ row_and as' bs
row_and _ _ = []

-- a & b, of masks of one shape
abbrev pub mask_and : Mask → Mask → Mask
mask_and (a ∷ as') (b ∷ bs) = row_and a b ∷ mask_and as' bs
mask_and _ _ = []

abbrev pub row_where : ℕ → List ℕ → List Bool
row_where label [] = []
row_where label (l ∷ ls) = (l == label) ∷ row_where label ls

-- labels == label
abbrev pub mask_where : Raster ℕ → ℕ → Mask
mask_where [] label = []
mask_where (row ∷ rows) label = row_where label row ∷ mask_where rows label

-- mask.any()
abbrev pub has_any : Mask → Bool
has_any mask = not (count_nonzero mask == 0)

-- The sums of the row and of the column indices of the pixels that are set (np.nonzero).
abbrev pub sum_cols : ℕ → List Bool → ℕ
sum_cols col [] = 0
sum_cols col (b ∷ bs) = (if b then col else 0) + sum_cols (col + 1) bs

abbrev pub sum_xs : Mask → ℕ
sum_xs [] = 0
sum_xs (row ∷ rows) = sum_cols 0 row + sum_xs rows

abbrev pub sum_ys : ℕ → Mask → ℕ
sum_ys y [] = 0
sum_ys y (row ∷ rows) = y * count_row row + sum_ys (y + 1) rows

-- The inner loop of CandidateGenerator.generate, over the cells from index j on.
pub pairs_of_hull : Mask → (i j : ℕ) → List Mask → List Edge
pairs_of_hull hull i j [] = []
pairs_of_hull hull i j (cell ∷ cells) =
    let rest = pairs_of_hull hull i (j + 1) cells in
    if has_any (mask_and hull cell) then record { prev = i; curr = j } ∷ rest else rest

-- The outer loop, over the buffered hulls from index i on.
pub pairs_from : ℕ → List Mask → List Mask → List Edge
unfolding pairs_of_hull
pairs_from i [] cells = []
pairs_from i (hull ∷ hulls) cells =
    (if has_any hull then pairs_of_hull hull i 0 cells else []) ++ pairs_from (i + 1) hulls cells

-- dilate_hull, with scipy's dilation by the 3 × 3 square, repeated, as a parameter
abbrev pub dilate_hull : (binary_dilation : ℕ → Mask → Mask) → Mask → ℕ → Mask
dilate_hull binary_dilation hull buffer_pixels =
    if buffer_pixels == 0 then hull else binary_dilation buffer_pixels hull

-- CandidateGenerator(buffer_pixels).generate(prev_hulls, curr_masks)
unfoldable pub generate :
    (binary_dilation : ℕ → Mask → Mask) (buffer_pixels : ℕ) (prev_hulls curr_masks : List Mask)
    → List Mask × List Edge
unfolding pairs_from
generate binary_dilation buffer_pixels prev_hulls curr_masks =
    let buffered = map (λ h. dilate_hull binary_dilation h buffer_pixels) prev_hulls in
    (buffered, pairs_from 0 buffered curr_masks)

pub record ValidationResult (F : Type 0) : Type 0 where
  pub opc : F
  pub ocp : F
  pub passed : Bool

pub record MotionDecision (F : Type 0) : Type 0 where
  pub accepted : Bool
  pub speed_ms : F
  pub code : Option TrackingError

module _ {F : Type 0} (fl : FloatOps F) where
  open fl use {
    of_nat, plus, minus, times, over, less, less_eq, fabs, sqrt, sin, cos, hypot, atan2, degrees,
    ceil,
  }

  abbrev pub buffer_pixels_from_km : (buffer_km pixel_size_m : F) → Result ℕ
  buffer_pixels_from_km buffer_km pixel_size_m =
      if less_eq pixel_size_m (of_nat 0)
      then raise value_error
      else ok (ceil (over (times buffer_km (of_nat 1000)) pixel_size_m))

  abbrev pub bidirectional_overlap : (hull cell : Mask) → F × F
  bidirectional_overlap hull cell =
      let intersection = count_nonzero (mask_and hull cell) in
      if intersection == 0 then (of_nat 0, of_nat 0) else (
        (if count_nonzero cell == 0
            then of_nat 0
            else over (of_nat intersection) (of_nat (count_nonzero cell))),
        (if count_nonzero hull == 0
            then of_nat 0
            else over (of_nat intersection) (of_nat (count_nonzero hull))),
      )

  abbrev pub mask_centroid : Mask → F × F
  mask_centroid mask = (
    over (of_nat (sum_ys 0 mask)) (of_nat (count_nonzero mask)),
    over (of_nat (sum_xs mask)) (of_nat (count_nonzero mask)),
  )

  -- math.pi is a parameter
  abbrev pub length_scale :
      (pi : F) (name : LengthScale) (hull_area_px cell_area_px pixel_area_m2 geometry_km : F) → F
  length_scale pi hull_equiv_diameter hull_area_px cell_area_px pixel_area_m2 geometry_km =
      let area_m2 = times hull_area_px pixel_area_m2 in
      if less (of_nat 0) area_m2 then times (of_nat 2) (sqrt (over area_m2 pi)) else of_nat 0
  length_scale pi sum_radii hull_area_px cell_area_px pixel_area_m2 geometry_km =
      let hull_r =
        (if less (of_nat 0) hull_area_px
          then sqrt (over (times hull_area_px pixel_area_m2) pi)
          else of_nat 0) in
      let cell_r =
        (if less (of_nat 0) cell_area_px
          then sqrt (over (times cell_area_px pixel_area_m2) pi)
          else of_nat 0) in
      plus hull_r cell_r
  length_scale pi fixed_km hull_area_px cell_area_px pixel_area_m2 geometry_km =
      times geometry_km (of_nat 1000)

  abbrev pub geometric_mismatch : (opc ocp : F) → F
  geometric_mismatch opc ocp = minus (of_nat 1) (times (sqrt opc) (sqrt ocp))

  abbrev pub pair_cost : (opc ocp displacement_m length_m : F) → F
  pair_cost opc ocp displacement_m length_m =
      let m = geometric_mismatch opc ocp in
      if less_eq length_m (of_nat 0) then m else plus m (over displacement_m length_m)

  -- GeometricValidator(min_candidate_overlap, min_projected_overlap).validate(hull, cell)
  abbrev pub validate :
      (min_candidate_overlap min_projected_overlap : F) (hull cell : Mask) → ValidationResult F
  validate min_candidate_overlap min_projected_overlap hull cell =
      let overlaps = bidirectional_overlap hull cell in
      record {
        opc = overlaps.0;
        ocp = overlaps.1;
        passed =
            less_eq min_candidate_overlap overlaps.0 && less_eq min_projected_overlap overlaps.1;
      }

  abbrev pub heading_change_radians : (prev_heading curr_heading : F) → F
  heading_change_radians prev_heading curr_heading =
      let delta = minus curr_heading prev_heading in fabs (atan2 (sin delta) (cos delta))

  abbrev pub heading_change_degrees : (prev_heading curr_heading : F) → F
  heading_change_degrees prev_heading curr_heading =
      degrees (heading_change_radians prev_heading curr_heading)

  -- MotionValidator.speed_ms
  abbrev pub speed_ms : (prev_x prev_y curr_x curr_y dt_s : F) → Result F
  speed_ms prev_x prev_y curr_x curr_y dt_s =
      if less_eq dt_s (of_nat 0)
      then raise value_error
      else ok (over (hypot (minus curr_x prev_x) (minus curr_y prev_y)) dt_s)

  abbrev pub exceeds_acceleration : (max_speed_multiplier speed : F) → Option F → Bool
  exceeds_acceleration max_speed_multiplier speed none = false
  exceeds_acceleration max_speed_multiplier speed (some previous_speed) =
      less (of_nat 0) previous_speed && less (times max_speed_multiplier previous_speed) speed

  abbrev pub decide_motion :
      (max_speed_ms max_speed_multiplier speed : F) → Option F → MotionDecision F
  decide_motion max_speed_ms max_speed_multiplier speed previous_speed =
      if less max_speed_ms speed
      then record { accepted = false; speed_ms = speed; code = some velocity_exceeded }
      else if exceeds_acceleration max_speed_multiplier speed previous_speed
      then record { accepted = false; speed_ms = speed; code = some acceleration_exceeded }
      else record { accepted = true; speed_ms = speed; code = none }

  -- MotionValidator(max_speed_ms, max_speed_multiplier).check
  abbrev pub check_motion :
      (max_speed_ms max_speed_multiplier prev_x prev_y curr_x curr_y dt_s : F)
      → Option F
      → Result (MotionDecision F)
  check_motion max_speed_ms max_speed_multiplier prev_x prev_y curr_x curr_y dt_s previous_speed =
      elim (speed_ms prev_x prev_y curr_x curr_y dt_s) [
        | ok speed ↦ ok (decide_motion max_speed_ms max_speed_multiplier speed previous_speed)
        | raise e ↦ raise e
      ]
