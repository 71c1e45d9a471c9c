-- ===== src/Execution/Builder.antt =====
-- GraphBuilder of src/adapt/execution/graph/builder.py.
pub mod Wiring
pub mod Outputs
use adapt.Prelude.{
  ℕ, Bool, true, false, Option, none, some, List, [], ◌∷◌, ◌++◌, Text, text_eq, if◌then◌else◌, mem,
}
use adapt.Dict.{Dict, get, put, has, keys, values}
use adapt.Exec.{Result, ok, raise, value_error}
use adapt.Execution.Node.{BaseModule, Node, new_node, name_of}

-- The inner loop over the outputs of a node.
abbrev pub add_outputs : Text → List Text → Dict Text Text → Result (Dict Text Text)
add_outputs name [] output_map = ok output_map
add_outputs name (output ∷ outputs) output_map =
    let rest = add_outputs name outputs (put output name output_map) in
    if has output output_map then raise value_error else rest

module _ {V W : Type 0} where
  -- {m.name: Node(m) for m in modules}, on top of the entries so far
  abbrev pub nodes_of : List (BaseModule V W) → Dict Text (Node V W) → Dict Text (Node V W)
  nodes_of [] nodes = nodes
  nodes_of (m ∷ ms) nodes = nodes_of ms (put m.name (new_node m) nodes)

  -- The map from each output key to the name of the node that produces it.
  abbrev pub collect_outputs : List (Node V W) → Dict Text Text → Result (Dict Text Text)
  collect_outputs [] output_map = ok output_map
  collect_outputs (n ∷ ns) output_map =
      elim (add_outputs (name_of n) n.module_.outputs output_map) [
        | ok extended ↦ collect_outputs ns extended
        | raise e ↦ raise e
      ]

  abbrev pub add_dependency : Text → Node V W → Node V W
  add_dependency parent n =
      if mem parent n.dependencies
      then n
      else record n { dependencies = n.dependencies ++ parent ∷ [] }

  abbrev pub add_dependent : Text → Node V W → Node V W
  add_dependent child n =
      if mem child n.dependents then n else record n { dependents = n.dependents ++ child ∷ [] }

  -- An update of the node object that the name refers to.
  abbrev pub update_node :
      Text → (Node V W → Node V W) → Dict Text (Node V W) → Dict Text (Node V W)
  update_node name f nodes = elim (get name nodes) [ none ↦ nodes | some n ↦ put name (f n) nodes ]

  abbrev pub link : (child parent : Text) → Dict Text (Node V W) → Dict Text (Node V W)
  link child parent nodes =
      update_node parent (add_dependent child) (update_node child (add_dependency parent) nodes)

  -- The loop over the inputs of one node.
  pub wire_inputs : Text → List Text → Dict Text Text → Dict Text (Node V W) → Dict Text (Node V W)
  wire_inputs child [] output_map nodes = nodes
  wire_inputs child (inp ∷ inputs) output_map nodes =
      wire_inputs child inputs output_map
        (elim (get inp output_map) [ none ↦ nodes | some parent ↦ link child parent nodes ])

  -- The wiring loop over the nodes.
  pub wire : List (Node V W) → Dict Text Text → Dict Text (Node V W) → Dict Text (Node V W)
  unfolding wire_inputs
  wire [] output_map nodes = nodes
  wire (n ∷ ns) output_map nodes =
      wire ns output_map (wire_inputs (name_of n) n.module_.inputs output_map nodes)

  -- GraphBuilder(modules).build(), with the nodes by their names
  unfoldable pub build_nodes : List (BaseModule V W) → Result (Dict Text (Node V W))
  unfolding wire
  build_nodes modules =
      let nodes = nodes_of modules [] in
      elim (collect_outputs (values nodes) []) [
        | ok output_map ↦ ok (wire (values nodes) output_map nodes)
        | raise e ↦ raise e
      ]

  unfoldable pub build : List (BaseModule V W) → Result (List (Node V W))
  unfolding build_nodes
  build modules = elim (build_nodes modules) [ ok nodes ↦ ok (values nodes) | raise e ↦ raise e ]
