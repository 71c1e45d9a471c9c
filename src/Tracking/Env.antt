-- ===== src/Tracking/Env.antt =====
-- What the tracker calls and does not implement: floats, networkx, scipy, hashlib, pandas times.
use adapt.Prelude.{ℕ, List, Text}
use adapt.Exec.{Exec}
use adapt.Floats.{FloatOps}
use adapt.Tracking.Models.{Mask, Observation, EdgeType, Tracker}
use adapt.Tracking.Graph.{DiGraph}

-- The two kinds of nodes in the bipartite graph of assignment.py.
pub data Vertex : Type 0 where
  prev_vertex curr_vertex : ℕ → Vertex

pub record Env (G F : Type 0) : Type 0 where
  pub fl : FloatOps F
  pub dg : DiGraph G (Observation F) (EdgeType × F)
  -- math.pi
  pub pi : F
  -- scipy.ndimage.binary_dilation with the 3 × 3 square, iterated
  pub binary_dilation : ℕ → Mask → Mask
  -- scipy.optimize.linear_sum_assignment: zip(rows, cols)
  pub linear_sum_assignment : List (List F) → List (ℕ × ℕ)
  -- networkx.connected_components of the graph with these edges
  pub connected_components : List (Vertex × Vertex) → List (List Vertex)
  -- blake2b with an 8-byte digest, read as a number
  pub value64 : Text → ℕ
  -- pd.Timestamp(time).isoformat() and the seconds since the epoch
  pub isoformat : ℕ → Text
  pub epoch_seconds : ℕ → F

-- An action of CellTracker.
abbrev pub Action : (G F A : Type 0) → Type 0
Action G F A = Exec (Tracker F G) A
