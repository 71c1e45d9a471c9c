-- ===== src/Tracking/Frame.antt =====
-- The frame-pair step of CellTracker (src/adapt/modules/tracking/module.py): matches, splits,
-- merges, births and terminations.
use adapt.Prelude.{
  ℕ, zero, suc, ◌+◌, not, ◌&&◌, Option, none, some, List, [], ◌∷◌, nat_eq, ◌==◌, if◌then◌else◌,
  get_elem?, mem, keep,
}
use adapt.Dict.{Dict, get, put, has}
use adapt.Exec.{pure, lift, need, index_error, key_error, ◌>>=◌, ◌>>◌, for_each}
use adapt.Floats.{FloatOps}
use adapt.Tracking.Models.{
  Mask, Raster, Cell, Config, EdgeCost, Event, MatchMethod, split_edge, merge_edge,
}
use adapt.Tracking.Geometry.{mask_where, mask_and, count_nonzero}
use adapt.Tracking.Assignment.{Edge, edge_eq}
use adapt.Tracking.Env.{Env, Action}
use adapt.Tracking.Events.{node, event_split, event_merge, event_initiation, event_termination}
use adapt.Tracking.Hungarian.{decide_matches}
use adapt.Tracking.Tracker.{Matched, new_track_node, add_edge, record_continue}

module _ {F : Type 0} (fl : FloatOps F) where
  -- _hull_overlap_fraction
  abbrev pub hull_overlap_fraction : Raster ℕ → (cell_id : ℕ) → Mask → F
  hull_overlap_fraction proj_labels cell_id mask =
      let proj_mask = mask_where proj_labels cell_id in
      if count_nonzero proj_mask == 0
      then fl.of_nat 0
      else fl.over (fl.of_nat (count_nonzero (mask_and mask proj_mask)))
          (fl.of_nat (count_nonzero proj_mask))

  -- The search loop of _detect_splits and _detect_merges over nodes with their overlaps: the first
  -- of the greatest that reach the threshold.
  abbrev pub best_overlap : (split_overlap : F) → Option ℕ × F → List (ℕ × F) → Option ℕ
  best_overlap split_overlap (best, greatest) [] = best
  best_overlap split_overlap (best, greatest) ((n, overlap) ∷ rest) =
      best_overlap split_overlap
        (if fl.less_eq split_overlap overlap && fl.less greatest overlap
          then (some n, overlap)
          else (best, greatest))
        rest

-- [i for i in range(n) if i not in matched], from the index i on
abbrev pub unmatched_from : (i n : ℕ) → Dict ℕ ℕ → List ℕ
unmatched_from i zero matched = []
unmatched_from i (suc n) matched =
    let rest = unmatched_from (i + 1) n matched in if has i matched then rest else i ∷ rest

-- The previous nodes from the index i on whose index is not matched.
abbrev pub dissipated_from : (i : ℕ) → List ℕ → Dict ℕ ℕ → List ℕ
dissipated_from i [] matched = []
dissipated_from i (n ∷ ns) matched =
    let rest = dissipated_from (i + 1) ns matched in if has i matched then rest else n ∷ rest

module _ {G F : Type 0} (env : Env G F) (config : Config F) where
  open env use {fl}

  -- The records of _resolve_matches in turn.
  unfoldable pub record_all :
      (prev_ids : List ℕ)
      → List (Cell F)
      → (curr_time : ℕ) → (dt_s : F) → Dict Edge (EdgeCost F)
      → List (Edge × MatchMethod)
      → Matched
      → Action G F (List (Event F) × Matched)
  record_all prev_ids cells curr_time dt_s edge_costs [] matched = pure ([], matched)
  record_all prev_ids cells curr_time dt_s edge_costs ((e, method) ∷ rest) matched = do
    cost ← need key_error (get e edge_costs)
    prev_node ← need index_error (get_elem? prev_ids e.prev)
    cell ← need index_error (get_elem? cells e.curr)
    made ← record_continue env config prev_node cell curr_time dt_s cost method
    later ← record_all prev_ids cells curr_time dt_s edge_costs rest (record {
      by_prev = put e.prev made.0 matched.by_prev;
      by_curr = put e.curr made.0 matched.by_curr;
    })
    pure (made.1 ∷ later.0, later.1)

  -- _resolve_matches, with the matched maps that it fills
  unfoldable pub resolve_matches :
      Dict Edge (EdgeCost F)
      → (prev_ids : List ℕ) → List (Cell F)
      → (curr_time : ℕ) → (dt_s : F) → Action G F (List (Event F) × Matched)
  unfolding record_all decide_matches
  resolve_matches edge_costs prev_ids cells curr_time dt_s = do
    decided ← lift (decide_matches env edge_costs)
    record_all prev_ids cells curr_time dt_s edge_costs decided
        (record { by_prev = []; by_curr = [] })

  -- The overlaps of a born cell's mask with the hulls of the matched previous cells.
  unfoldable pub parent_overlaps :
      (prev_ids : List ℕ) → Raster ℕ → Mask → Dict ℕ ℕ → Action G F (List (ℕ × F))
  parent_overlaps prev_ids proj_labels mask = for_each λ entry. do
    prev_node ← need index_error (get_elem? prev_ids entry.0)
    o ← node env prev_node
    pure (entry.1, hull_overlap_fraction fl proj_labels o.cell_id mask)

  unfoldable pub split_child : (curr_time : ℕ) → Cell F → Option ℕ → Action G F (Option (Event F))
  split_child curr_time cell none = pure none
  split_child curr_time cell (some parent) = do
    child ← new_track_node env config curr_time cell
    add_edge env config parent child split_edge (fl.of_nat 0)
    event ← event_split env curr_time parent child
    pure (some event)

  abbrev pub with_split : ℕ → Option (Event F) → List ℕ × List (Event F) → List ℕ × List (Event F)
  with_split b none found = found
  with_split b (some event) (split_born, events) = (b ∷ split_born, event ∷ events)

  -- _detect_splits: the born indices that are split children, and the events
  unfoldable pub detect_splits :
      (prev_ids : List ℕ)
      → List (Cell F)
      → Raster ℕ
      → Dict ℕ ℕ
      → (born : List ℕ) → (curr_time : ℕ) → Action G F (List ℕ × List (Event F))
  unfolding parent_overlaps split_child
  detect_splits prev_ids cells proj_labels matched_prev [] curr_time = pure ([], [])
  detect_splits prev_ids cells proj_labels matched_prev (b ∷ born) curr_time = do
    cell ← need index_error (get_elem? cells b)
    overlaps ← parent_overlaps prev_ids proj_labels cell.mask matched_prev
    found ←
        split_child curr_time cell
          (best_overlap fl config.split_overlap (none, fl.of_nat 0) overlaps)
    later ← detect_splits prev_ids cells proj_labels matched_prev born curr_time
    pure (with_split b found later)

  -- The overlaps of a dissipated cell's hull with the masks of the matched current cells.
  unfoldable pub target_overlaps :
      List (Cell F) → Raster ℕ → (cell_id : ℕ) → Dict ℕ ℕ → Action G F (List (ℕ × F))
  target_overlaps cells proj_labels cell_id = for_each λ entry. do
    cell ← need index_error (get_elem? cells entry.0)
    pure (entry.1, hull_overlap_fraction fl proj_labels cell_id cell.mask)

  unfoldable pub merge_into : (curr_time d_node : ℕ) → Option ℕ → Action G F (Option (ℕ × Event F))
  merge_into curr_time d_node none = pure none
  merge_into curr_time d_node (some target) = do
    add_edge env config d_node target merge_edge (fl.of_nat 0)
    event ← event_merge env curr_time d_node target
    pure (some (target, event))

  abbrev pub with_merge :
      ℕ → Option (ℕ × Event F) → Dict ℕ ℕ × List (Event F) → Dict ℕ ℕ × List (Event F)
  with_merge d none found = found
  with_merge d (some (target, event)) (merged, events) = ((d, target) ∷ merged, event ∷ events)

  -- _detect_merges: the merge targets of the dissipated nodes, and the events
  unfoldable pub detect_merges :
      (dissipated : List ℕ)
      → List (Cell F)
      → Raster ℕ
      → Dict ℕ ℕ
      → (curr_time : ℕ) → Action G F (Dict ℕ ℕ × List (Event F))
  unfolding target_overlaps merge_into
  detect_merges [] cells proj_labels matched_curr curr_time = pure ([], [])
  detect_merges (d ∷ dissipated) cells proj_labels matched_curr curr_time = do
    o ← node env d
    overlaps ← target_overlaps cells proj_labels o.cell_id matched_curr
    found ←
        merge_into curr_time d (best_overlap fl config.split_overlap (none, fl.of_nat 0) overlaps)
    later ← detect_merges dissipated cells proj_labels matched_curr curr_time
    pure (with_merge d found later)

  -- _emit_births, over the born indices that are no split children
  unfoldable pub emit_births :
      List (Cell F) → (born split_born : List ℕ) → (curr_time : ℕ) → Action G F (List (Event F))
  emit_births cells born split_born curr_time =
      for_each
        (λ b. do
          cell ← need index_error (get_elem? cells b)
          n ← new_track_node env config curr_time cell
          event_initiation env curr_time n)
        (keep (λ b. not (mem b split_born)) born)

  -- _emit_terminations
  unfoldable pub emit_terminations :
      (dissipated : List ℕ) → Dict ℕ ℕ → (curr_time : ℕ) → Action G F (List (Event F))
  emit_terminations dissipated merged curr_time =
      for_each (λ d. event_termination env curr_time d (get d merged)) dissipated
