-- ===== src/Tracking/Graph.antt =====
-- src/adapt/modules/tracking/graph.py. The networkx digraph under it is a parameter: its operations
-- with the documented laws that the tracker relies on.
use adapt.Prelude.{ℕ, ◌+◌, ◌≡◌, Option, none, some, List, [], ◌∷◌, nat_eq, nat_beq, if◌then◌else◌}
use adapt.Tracking.Models.{Observation, EdgeType, TrackingGraph}

-- networkx.DiGraph with attributes A on the nodes and E on the edges.
pub record DiGraph (G A E : Type 0) : Type 0 where
  pub empty : G
  pub add_node : ℕ → A → G → G
  pub add_edge : ℕ → ℕ → E → G → G
  -- graph.nodes[n]; none if there is no such node or it has no attributes, since reading one of them
  -- is a KeyError either way
  pub attrs : G → ℕ → Option A
  -- list(graph.nodes(data=True))
  pub nodes : G → List (ℕ × A)

-- An empty graph has no attributes, a node without attributes takes the given ones and the others
-- keep theirs, and an edge leaves the attributes of all nodes as they are.
pub record DiGraphLaws {G A E : Type 0} (dg : DiGraph G A E) : Type 0 where
  pub attrs-empty : (n : ℕ) → dg.attrs dg.empty n ≡ none
  pub attrs-add_node :
      (n m : ℕ) (a : A) (g : G)
      → dg.attrs g n ≡ none
      → dg.attrs (dg.add_node n a g) m ≡ (if nat_beq n m then some a else dg.attrs g m)
  pub attrs-add_edge : (n m k : ℕ) (e : E) (g : G) → dg.attrs (dg.add_edge n m e g) k ≡ dg.attrs g k

module _ {G F : Type 0} (dg : DiGraph G (Observation F) (EdgeType × F)) where
  -- __init__
  abbrev pub new_graph : TrackingGraph F G
  new_graph = record { graph = dg.empty; node_counter = 0; track_counter = 0 }

  abbrev pub add_observation : Observation F → TrackingGraph F G → ℕ × TrackingGraph F G
  add_observation o t = (
    t.node_counter,
    record t { graph = dg.add_node t.node_counter o t.graph; node_counter = t.node_counter + 1 },
  )

  abbrev pub add_edge : ℕ → ℕ → EdgeType → F → TrackingGraph F G → TrackingGraph F G
  add_edge from to kind cost t = record t { graph = dg.add_edge from to (kind, cost) t.graph }

  abbrev pub get_new_track_index : TrackingGraph F G → ℕ × TrackingGraph F G
  get_new_track_index t = (t.track_counter + 1, record t { track_counter = t.track_counter + 1 })

  -- graph.nodes[node_id], of which get_node_attr reads one attribute; none is the KeyError
  abbrev pub get_node : TrackingGraph F G → ℕ → Option (Observation F)
  get_node t n = dg.attrs t.graph n

  abbrev pub at_time : ℕ → List (ℕ × Observation F) → List ℕ
  at_time time [] = []
  at_time time ((n, o) ∷ rest) =
      let others = at_time time rest in if nat_beq o.time time then n ∷ others else others

  abbrev pub get_nodes_at_time : TrackingGraph F G → ℕ → List ℕ
  get_nodes_at_time t time = at_time time (dg.nodes t.graph)
