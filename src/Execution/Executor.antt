-- ===== src/Execution/Executor.antt =====
-- GraphExecutor of src/adapt/execution/graph/executor.py. The spans of the optional telemetry record
-- what happens and change nothing here.
pub mod Order
pub mod Rounds
pub mod Passes
pub mod Progress
use adapt.Prelude.{
  ℕ, zero, suc, ◌+◌, ◌*◌, ◌^◌, Bool, true, false, not, ◌&&◌, ◌||◌, Option, none, some, List, [],
  ◌∷◌, ◌++◌, Text, text_eq, if◌then◌else◌, ltb, length, mem, all_of,
}
use adapt.Dict.{Dict, get, put, has, update}
use adapt.Exec.{
  Exec, Result, ok, raise, runtime_error, contract_violation, pure, throw, gets, modify, lift,
  ◌>>=◌, ◌>>◌,
}
use adapt.Execution.Node.{BaseModule, Node, name_of}

-- The local variables of `run`. The set `completed` is a list without repetitions, in the order in
-- which the nodes completed.
pub record Run (V W : Type 0) : Type 0 where
  pub context : Dict Text V
  pub completed : List Text
  pub world : W

-- validator(context[key]) behind `require(key in context)`
abbrev check_input : {V : Type 0} → (V → Result (Unit {0})) → Option V → Result (Unit {0})
check_input validator none = raise contract_violation
check_input validator (some v) = validator v

abbrev check_output : {V : Type 0} → (V → Result (Unit {0})) → Option V → Result (Unit {0})
check_output validator none = ok tt
check_output validator (some v) = validator v

module _ {V W : Type 0} where
  abbrev pub is_completed : Run V W → Text → Bool
  is_completed s name = mem name s.completed

  abbrev pub is_ready : Run V W → Node V W → Bool
  is_ready s n = all_of (is_completed s) n.dependencies

  pub check_inputs : Dict Text (V → Result (Unit {0})) → Exec (Run V W) (Unit {0})
  check_inputs [] = pure tt
  check_inputs ((key, validator) ∷ rest) = do
    value ← gets (λ s. get key s.context)
    lift (check_input validator value)
    check_inputs rest

  pub check_outputs : Dict Text V → Dict Text (V → Result (Unit {0})) → Exec (Run V W) (Unit {0})
  check_outputs outputs [] = pure tt
  check_outputs outputs ((key, validator) ∷ rest) = do
    lift (check_output validator (get key outputs))
    check_outputs outputs rest

  -- node.module.run(context)
  pub run_module : Node V W → Exec (Run V W) (Dict Text V)
  run_module n s =
      let (result, world) = n.module_.run s.context s.world in (result, record s { world = world })

  -- The rest of the loop body after the module has run.
  finish_node : Node V W → Dict Text V → Exec (Run V W) (Unit {0})
  unfolding check_outputs
  finish_node n [] = modify (λ s. record s { completed = s.completed ++ name_of n ∷ [] })
  finish_node n (o ∷ outputs) = do
    check_outputs (o ∷ outputs) n.module_.output_contracts
    modify (λ s. record s {
      context = update s.context (o ∷ outputs);
      completed = s.completed ++ name_of n ∷ [];
    })

  -- The loop body for a node that is ready.
  unfoldable pub run_node : Node V W → Exec (Run V W) (Unit {0})
  unfolding check_inputs run_module finish_node
  run_node n = do
    check_inputs n.module_.input_contracts
    outputs ← run_module n
    finish_node n outputs

  -- One run through the nodes; the result is progress_made.
  pub pass : List (Node V W) → Bool → Exec (Run V W) Bool
  pass [] progress s = (ok progress, s)
  pass (n ∷ ns) progress s =
      let rest = pass ns progress s in
      let go = (run_node n >>= λ _. pass ns true) s in
      if is_completed s (name_of n) then rest else if is_ready s n then go else rest

  -- The `while` loop with the iterations that max_iterations leaves.
  pub run_loop : ℕ → List (Node V W) → Exec (Run V W) (Unit {0})
  unfolding pass
  run_loop zero nodes s =
      if ltb (length s.completed) (length nodes) then (raise runtime_error, s) else (ok tt, s)
  run_loop (suc iterations) nodes s =
      let next =
        (pass nodes false >>= λ progress s'.
        let again = run_loop iterations nodes s' in
        if not progress && ltb (length s'.completed) (length nodes)
        then (raise runtime_error, s')
        else again)
          s in
      if ltb (length s.completed) (length nodes) then next else (ok tt, s)

  -- GraphExecutor(nodes).run(context)
  unfoldable pub run : List (Node V W) → Dict Text V → W → Result (Unit {0}) × Run V W
  unfolding run_loop
  run nodes context world =
      run_loop (length nodes ^ 2 + length nodes + 1) nodes
        (record { context = context; completed = []; world = world })
