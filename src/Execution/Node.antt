-- ===== src/Execution/Node.antt =====
-- Node of src/adapt/execution/graph/node.py over the declarations of BaseModule
-- (src/adapt/modules/base.py). V is the type of the context's values, W the state of the outside
-- world and of the modules. What a module's methods do is its own: they are fields.
use adapt.Prelude.{List, [], Text}
use adapt.Dict.{Dict}
use adapt.Exec.{Exec, Result}

pub record BaseModule (V W : Type 0) : Type 0 where
  pub name : Text
  pub inputs : List Text
  pub outputs : List Text
  -- Validators, which return or raise. No contracts and None are alike.
  pub input_contracts : Dict Text (V → Result (Unit {0}))
  pub output_contracts : Dict Text (V → Result (Unit {0}))
  -- The outputs, where an empty dict and None are alike.
  pub run : Dict Text V → Exec W (Dict Text V)

-- References to other nodes are by name: the builder keeps one node for each name.
pub record Node (V W : Type 0) : Type 0 where
  pub module_ : BaseModule V W
  pub dependencies : List Text
  pub dependents : List Text

abbrev pub new_node : {V W : Type 0} → BaseModule V W → Node V W
new_node m = record { module_ = m; dependencies = []; dependents = [] }

abbrev pub name_of : {V W : Type 0} → Node V W → Text
name_of n = n.module_.name
