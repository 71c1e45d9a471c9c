-- ===== src/Execution/Executor/Order.antt =====
-- In which order GraphExecutor.run completes the nodes, and what it has done when it returns.
use mathlib.Core.List.{Memᴰ}
use adapt.Prelude.{
  ◌+◌, ◌^◌, ◌≡◌, refl, ap, ◌∙◌, true, false, List, [], ◌∷◌, ◌++◌, map, append_assoc, append-nil,
  beq_refl, arith, Text, text_eq, length, length-map, mem, all_of, distinct, subset, pigeonhole,
  distinct-snoc, subset-snoc,
}
use adapt.Dict.{Dict}
use adapt.Exec.{ok}
use adapt.Execution.Node.{Node, name_of}
use adapt.Execution.Executor.{run}
use adapt.Execution.Executor.Rounds.{run_loop_ind, run_loop-ok-length}

module _ {V W : Type 0} where
  -- The name belongs to a node whose dependencies are all among the names before it, and which is
  -- not among them itself.
  pub record IsPlaced (nodes : List (Node V W)) (before : List Text) (name : Text) : Type 0 where
    pub node : Node V W
    pub listed : Memᴰ node nodes
    pub named : name_of node ≡ name
    pub first_time : mem name before ≡ false
    pub after_dependencies : all_of (λ d. mem d before) node.dependencies ≡ true

  abbrev pub RunsInOrder : List (Node V W) → List Text → List Text → Type 0
  RunsInOrder nodes before [] = Unit
  RunsInOrder nodes before (name ∷ names) =
      IsPlaced nodes before name × RunsInOrder nodes (before ++ name ∷ []) names

  RunsInOrder-snoc :
      (nodes : List (Node V W)) (before names : List Text) (name : Text)
      → RunsInOrder nodes before names
      → IsPlaced nodes (before ++ names) name
      → RunsInOrder nodes before (names ++ name ∷ [])
  RunsInOrder-snoc nodes before [] name r p = (rw append-nil at p, tt)
  RunsInOrder-snoc nodes before (x ∷ names) name (first, rest) p = (
    first,
    RunsInOrder-snoc nodes (before ++ x ∷ []) names name rest
        (rw (← append_assoc before (x ∷ []) names) at p),
  )

  -- However a run ends, the nodes completed so far were completed once each, and each behind all of
  -- its dependencies.
  pub run-RunsInOrder :
      (nodes : List (Node V W)) (context : Dict Text V) (world : W)
      → RunsInOrder nodes [] (run nodes context world).1.completed
  unfolding run
  run-RunsInOrder nodes context world =
      run_loop_ind nodes (RunsInOrder nodes [])
        (λ n cs listed new ready r. RunsInOrder-snoc nodes [] cs (name_of n) r (record {
          node = n;
          listed = listed;
          named = refl;
          first_time = new;
          after_dependencies = ready;
        }))
        (length nodes ^ 2 + length nodes + 1) _ tt

  mem-names_of :
      (n : Node V W) (ns : List (Node V W)) → Memᴰ n ns → mem (name_of n) (map name_of ns) ≡ true
  mem-names_of n [] h = elim h [ ]
  mem-names_of n (m ∷ ns) (Memᴰ.head e) = ground (arith, ap name_of e, beq_refl (name_of m))
  mem-names_of n (m ∷ ns) (Memᴰ.tail h) = ground (arith, mem-names_of n ns h)

  -- A run that returns has completed every node: the names of the nodes are exactly the completed
  -- ones, each once.
  pub run-completes :
      (nodes : List (Node V W)) (context : Dict Text V) (world : W)
      → (run nodes context world).0 ≡ ok tt
      → (distinct (run nodes context world).1.completed ≡ true)
        × (subset (map name_of nodes) (run nodes context world).1.completed ≡ true)
        × (subset (run nodes context world).1.completed (map name_of nodes) ≡ true)
  unfolding run
  run-completes nodes context world h =
      let (once, inside) =
        run_loop_ind nodes (λ cs. (distinct cs ≡ true) × (subset cs (map name_of nodes) ≡ true))
          (λ n cs listed new ready p. (
            distinct-snoc cs (name_of n) ∙ ground (arith, p.0),
            subset-snoc cs (map name_of nodes) (name_of n)
                ∙ ground (arith, mem-names_of n nodes listed, p.1),
          ))
          (length nodes ^ 2 + length nodes + 1)
          (record { context = context; completed = []; world = world }) (refl, refl) in
      let enough =
        run_loop-ok-length nodes (length nodes ^ 2 + length nodes + 1)
          (record { context = context; completed = []; world = world }) h in
      (
        once,
        pigeonhole _ (map name_of nodes) once inside (omega (arith, length-map name_of nodes)),
        inside,
      )
