-- ===== src/Tracking/History/Continuation.antt =====
-- CellTracker._record_continue (src/adapt/modules/tracking/module.py) continues the track.
use adapt.Prelude.{
  ℕ, ◌≡◌, refl, ◌∙◌, ◌⊎◌, inl, inr, true, false, Bool-cases, none, some, arith, nat_eq, nat_beq_iff,
}
use adapt.Exec.{Ensures, raise, zero_division}
use adapt.Tracking.Models.{
  Observation, Tracker, Cell, Config, EdgeCost, EdgeType, MatchMethod, Event, continue_edge,
}
use adapt.Tracking.Graph.{DiGraphLaws, get_node}
use adapt.Tracking.Env.{Env}
use adapt.Tracking.Events.{event_continue}
use adapt.Tracking.Tracker.{
  add_edge, add_observation, add_node_as, add_cell_node, update_motion, match_diagnostics,
  record_continue,
}
use adapt.Tracking.History.{IsTracked}

-- The new node stands in the track of p, with its identity, and the event names that identity at
-- both ends.
pub record ContinuesTrack {G F : Type 0} (env : Env G F) (p : Observation F) (cell : Cell F)
    (made : ℕ × Event F) (s : Tracker F G) : Type 0 where
  pub observed : Observation F
  pub stored : get_node env.dg s.tracking made.0 ≡ some observed
  pub of_cell : observed.cell_id ≡ cell.cell_id
  pub same_track : observed.track_index ≡ p.track_index
  pub same_uid : observed.cell_uid ≡ p.cell_uid
  pub same_signature : observed.track_signature ≡ p.track_signature
  pub event_source : made.1.source_cell_uid ≡ some p.cell_uid
  pub event_target : made.1.target_cell_uid ≡ some p.cell_uid

module _ {G F : Type 0} (env : Env G F) (config : Config F) (laws : DiGraphLaws env.dg) where
  open env use {dg, fl}

  -- An edge to a new node leaves both nodes as they are.
  linked_new :
      (n m : ℕ) (o : Observation F) (kind : EdgeType × F) (g : G)
      → dg.attrs g m ≡ none
      → dg.attrs (dg.add_edge n m kind (dg.add_node m o g)) m ≡ some o
  linked_new n m o kind g free =
      laws.attrs-add_edge n m m kind (dg.add_node m o g)
      ∙ ground (arith, laws.attrs-add_node m m o g free, nat_beq_iff m m)

  linked_old :
      (n m : ℕ) (p o : Observation F) (kind : EdgeType × F) (g : G)
      → dg.attrs g m ≡ none
      → dg.attrs g n ≡ some p
      → dg.attrs (dg.add_edge n m kind (dg.add_node m o g)) n ≡ some p
  linked_old n m p o kind g free e =
      laws.attrs-add_edge n m n kind (dg.add_node m o g)
      ∙ ground (arith, laws.attrs-add_node m n o g free, nat_beq_iff m n, free, e)

  -- Over a graph with the laws of networkx, on a tracker whose nodes carry the identities of their
  -- tracks, and for a node of its graph: `_record_continue` returns if the time step is not zero, with
  -- a new node of the cell in the same track with the same uid and signature, and an event with that
  -- uid as source and target; for a time step of zero it raises ZeroDivisionError and changes nothing.
  pub record_continue-ContinuesTrack :
      (prev_node : ℕ) (p : Observation F) (cell : Cell F) (curr_time : ℕ) (dt_s : F)
      (edge : EdgeCost F) (method : MatchMethod) (s : Tracker F G)
      → IsTracked env s
      → get_node env.dg s.tracking prev_node ≡ some p
      → ((fl.same dt_s (fl.of_nat 0) ≡ false)
          × Ensures
              (ContinuesTrack env p cell)
              (record_continue env config prev_node cell curr_time dt_s edge method s))
        ⊎ ((fl.same dt_s (fl.of_nat 0) ≡ true)
            × (record_continue env config prev_node cell curr_time dt_s edge method s
                ≡ (raise zero_division, s)))
  unfolding record_continue match_diagnostics add_cell_node add_node_as add_observation add_edge
      update_motion event_continue
  record_continue-ContinuesTrack prev_node p cell curr_time dt_s edge method s h e =
      let c = s.tracking.node_counter in
      let free = h.unused_nodes c (omega arith) in
      let identity = h.identified prev_node p e in
      let o : Observation F = record {
        time = curr_time;
        cell_id = cell.cell_id;
        track_index = p.track_index;
        area = cell.area;
        centroid_x = cell.centroid_x;
        centroid_y = cell.centroid_y;
        mean_reflectivity = cell.mean_reflectivity;
        max_reflectivity = cell.max_reflectivity;
        core_area = cell.core_area;
        cell_uid = p.cell_uid;
        track_signature = p.track_signature;
      } in
      let kind : EdgeType × F = (continue_edge, edge.cost) in
      let old = linked_old prev_node c p o kind s.tracking.graph free e in
      let new = linked_new prev_node c o kind s.tracking.graph free in
      elim (Bool-cases (fl.same dt_s (fl.of_nat 0))) [
        | inl zero_step ↦ inr (zero_step, rw (e, e, zero_step) refl)
        | inr nonzero ↦ inl (
          nonzero,
          rw (e, e, nonzero, identity, old, new, identity, old, identity, old, new)
              (
                _,
                _,
                refl,
                record {
                  observed = o;
                  stored = new;
                  of_cell = refl;
                  same_track = refl;
                  same_uid = refl;
                  same_signature = refl;
                  event_source = refl;
                  event_target = refl;
                },
              ),
        )
      ]
