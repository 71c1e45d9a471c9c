-- ===== src/Tracking/Geometry/Overlap.antt =====
-- Bounds of the overlaps of two masks, and the candidate pairs.
use adapt.Prelude.{ℕ, ◌≤◌, ◌<◌, Bool, List, [], ◌∷◌, arith, nat_eq}
use adapt.Tracking.Models.{Mask}
use adapt.Tracking.Assignment.{Edge, edge_eq}
use adapt.Tracking.Geometry.{count_row, count_nonzero, row_and, mask_and}

count_row-row_and-le :
    (as' bs : List Bool)
    → (count_row (row_and as' bs) ≤ count_row as') × (count_row (row_and as' bs) ≤ count_row bs)
count_row-row_and-le [] bs = ground arith
count_row-row_and-le (a ∷ as') [] = ground arith
count_row-row_and-le (a ∷ as') (b ∷ bs) = ground (arith, count_row-row_and-le as' bs)

-- The overlap of two masks has at most the area of each.
pub count_nonzero-mask_and-le :
    (a b : Mask)
    → (count_nonzero (mask_and a b) ≤ count_nonzero a)
      × (count_nonzero (mask_and a b) ≤ count_nonzero b)
count_nonzero-mask_and-le [] b = ground arith
count_nonzero-mask_and-le (r ∷ a) [] = ground arith
count_nonzero-mask_and-le (r ∷ a) (s ∷ b) =
    ground (arith, count_nonzero-mask_and-le a b, count_row-row_and-le r s)

abbrev InRange : ℕ → ℕ → ℕ → Edge → Type 0
InRange lo hi cols e = (lo ≤ e.prev) × (e.prev < hi) × (e.curr < cols)
