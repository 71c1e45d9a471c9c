-- ===== src/Tracking/Events.antt =====
-- src/adapt/modules/tracking/events.py: the builders of event rows. They read the graph and the
-- identity map of the tracker, and change nothing.
use adapt.Prelude.{ℕ, true, false, Option, none, some, ◌++◌, Text, codes, nat_eq}
use adapt.Dict.{get}
use adapt.Exec.{pure, need, key_error, value_error, ◌>>=◌}
use adapt.Tracking.Models.{
  Observation, MatchDiagnostics, no_diagnostics, Event, continue_event, split_event, merge_event,
  initiation, termination, MatchMethod,
}
use adapt.Tracking.Graph.{get_node}
use adapt.Tracking.Env.{Env, Action}

module _ {G F : Type 0} (env : Env G F) where
  -- graph.nodes[node_id]
  abbrev pub node : ℕ → Action G F (Observation F)
  node n s = need key_error (get_node env.dg s.tracking n) s

  -- The identity of a track index; events.py and get_cell_identity raise alike if it is missing.
  abbrev pub get_cell_identity : ℕ → Action G F (Text × Text)
  get_cell_identity track_index s = need value_error (get track_index s.cell_identity) s

  abbrev pub uid : ℕ → Action G F Text
  uid n = do o ← node n; i ← get_cell_identity o.track_index; pure i.0

  abbrev group : ℕ → Text → Text → Text
  group time kind cell_uid = env.isoformat time ++ kind ++ cell_uid

  unfoldable pub event_continue :
      (time prev_node_id curr_node_id : ℕ) → F → MatchDiagnostics F → Action G F (Event F)
  event_continue time prev_node_id curr_node_id cost diagnostics = do
    target ← uid curr_node_id
    source ← uid prev_node_id
    prev ← node prev_node_id
    curr ← node curr_node_id
    pure (record {
      time = time;
      event_type = continue_event;
      source_cell_uid = some source;
      target_cell_uid = some target;
      source_cell_label = some prev.cell_id;
      target_cell_label = some curr.cell_id;
      cost = some cost;
      is_dominant = true;
      event_group_id = group time (codes ":CONTINUE:") target;
      diagnostics = diagnostics;
    })

  unfoldable pub event_split : (time parent_node_id child_node_id : ℕ) → Action G F (Event F)
  event_split time parent_node_id child_node_id = do
    parent_uid ← uid parent_node_id
    target ← uid child_node_id
    parent ← node parent_node_id
    child ← node child_node_id
    pure (record {
      time = time;
      event_type = split_event;
      source_cell_uid = some parent_uid;
      target_cell_uid = some target;
      source_cell_label = some parent.cell_id;
      target_cell_label = some child.cell_id;
      cost = none;
      is_dominant = false;
      event_group_id = group time (codes ":SPLIT:") parent_uid;
      diagnostics = record (no_diagnostics F) { match_method = some MatchMethod.split };
    })

  unfoldable pub event_merge : (time source_node_id target_node_id : ℕ) → Action G F (Event F)
  event_merge time source_node_id target_node_id = do
    target_uid ← uid target_node_id
    source_uid ← uid source_node_id
    source ← node source_node_id
    target ← node target_node_id
    pure (record {
      time = time;
      event_type = merge_event;
      source_cell_uid = some source_uid;
      target_cell_uid = some target_uid;
      source_cell_label = some source.cell_id;
      target_cell_label = some target.cell_id;
      cost = none;
      is_dominant = false;
      event_group_id = group time (codes ":MERGE:") target_uid;
      diagnostics = record (no_diagnostics F) { match_method = some MatchMethod.merge };
    })

  unfoldable pub event_initiation : (time node_id : ℕ) → Action G F (Event F)
  event_initiation time node_id = do
    target_uid ← uid node_id
    target ← node node_id
    pure (record {
      time = time;
      event_type = initiation;
      source_cell_uid = none;
      target_cell_uid = some target_uid;
      source_cell_label = none;
      target_cell_label = some target.cell_id;
      cost = none;
      is_dominant = false;
      event_group_id = group time (codes ":INITIATION:") target_uid;
      diagnostics = no_diagnostics F;
    })

  -- uid and label of the merge target, where there is one
  abbrev pub target_uid_of : Option ℕ → Action G F (Option Text)
  target_uid_of none = pure none
  target_uid_of (some n) = do u ← uid n; pure (some u)

  abbrev pub target_label_of : Option ℕ → Action G F (Option ℕ)
  target_label_of none = pure none
  target_label_of (some n) = do o ← node n; pure (some o.cell_id)

  unfoldable pub event_termination : (time source_node_id : ℕ) → Option ℕ → Action G F (Event F)
  event_termination time source_node_id target_node_id = do
    source_uid ← uid source_node_id
    target_uid ← target_uid_of target_node_id
    source ← node source_node_id
    target_label ← target_label_of target_node_id
    pure (record {
      time = time;
      event_type = termination;
      source_cell_uid = some source_uid;
      target_cell_uid = target_uid;
      source_cell_label = some source.cell_id;
      target_cell_label = target_label;
      cost = none;
      is_dominant = false;
      event_group_id = group time (codes ":TERMINATION:") source_uid;
      diagnostics = no_diagnostics F;
    })
