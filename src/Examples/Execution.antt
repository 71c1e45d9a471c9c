-- ===== src/Examples/Execution.antt =====
-- Graphs of two and three modules.
use mathlib.Core.List.{Memᴰ}
use adapt.Prelude.{
  ℕ, zero, suc, ◌≡◌, refl, true, false, some, List, [], ◌∷◌, map, arith, Text, text_eq, codes, mem,
  distinct, subset, ◌==◌, if◌then◌else◌,
}
use adapt.Dict.{Dict, get, put, has, update}
use adapt.Exec.{ok, raise, runtime_error, contract_violation}
use adapt.Execution.Node.{BaseModule, Node, name_of}
use adapt.Execution.Builder.{build_nodes}
use adapt.Execution.Builder.Wiring.{build_linked}
use adapt.Execution.Executor.{run, run_node}
use adapt.Execution.Executor.Order.{RunsInOrder, run-RunsInOrder, run-completes}
use adapt.Execution.Executor.Passes.{ReturnsUnlessRaised}
use adapt.Execution.Executor.Progress.{run-ok, IsRanked}
use adapt.Execution.Registry.{register, create_modules}
use adapt.Execution.Registry.Laws.{register_lem}

-- A module that adds one to the world's counter and puts it under its output.
abbrev counting : (name input output : Text) → BaseModule ℕ ℕ
counting name input output = record {
  name = name;
  inputs = input ∷ [];
  outputs = output ∷ [];
  input_contracts = [];
  output_contracts = [];
  run = λ context world. (ok ((output, world) ∷ []), suc world);
}

-- It needs a grid that is not zero.
abbrev detect : BaseModule ℕ ℕ
detect = record (counting (codes "detect") (codes "grid") (codes "cells")) {
  input_contracts =
      (codes "grid", λ v. elim v [ zero ↦ raise contract_violation | suc n ↦ ok tt ]) ∷ [];
}

abbrev ingest : BaseModule ℕ ℕ
ingest = counting (codes "ingest") (codes "path") (codes "grid")

abbrev modules : List (BaseModule ℕ ℕ)
modules = detect ∷ ingest ∷ []

abbrev detect_node : Node ℕ ℕ
detect_node = record { module_ = detect; dependencies = codes "ingest" ∷ []; dependents = [] }

abbrev ingest_node : Node ℕ ℕ
ingest_node = record { module_ = ingest; dependencies = []; dependents = codes "detect" ∷ [] }

abbrev nodes : List (Node ℕ ℕ)
nodes = detect_node ∷ ingest_node ∷ []

build_modules :
    build_nodes modules ≡ ok ((codes "detect", detect_node) ∷ (codes "ingest", ingest_node) ∷ [])
unfolding build_nodes get put has
build_modules = refl

get_detect :
    get (codes "detect") ((codes "detect", detect_node) ∷ (codes "ingest", ingest_node) ∷ [])
    ≡ some detect_node
unfolding get
get_detect = refl

get_ingest :
    get (codes "ingest") ((codes "detect", detect_node) ∷ (codes "ingest", ingest_node) ∷ [])
    ≡ some ingest_node
unfolding get
get_ingest = refl

build_linked_example :
    mem (codes "ingest") (codes "ingest" ∷ []) ≡ mem (codes "detect") (codes "detect" ∷ [])
build_linked_example =
    build_linked modules ((codes "detect", detect_node) ∷ (codes "ingest", ingest_node) ∷ [])
      (codes "detect") (codes "ingest") detect_node ingest_node build_modules get_detect get_ingest

-- The second module runs first, since the first waits for it.
run_nodes : (run nodes [] 7).1.completed ≡ codes "ingest" ∷ codes "detect" ∷ []
unfolding run run_node get put update
run_nodes = refl

run_nodes-ok : (run nodes [] 7).0 ≡ ok tt
unfolding run run_node get put update
run_nodes-ok = refl

run-RunsInOrder_example : RunsInOrder nodes [] (run nodes [] 7).1.completed
run-RunsInOrder_example = run-RunsInOrder nodes [] 7

run-completes_example :
    (distinct (run nodes [] 7).1.completed ≡ true)
    × (subset (map name_of nodes) (run nodes [] 7).1.completed ≡ true)
    × (subset (run nodes [] 7).1.completed (map name_of nodes) ≡ true)
run-completes_example = run-completes nodes [] 7 run_nodes-ok

abbrev rank : Text → ℕ
rank name = if name == codes "detect" then 1 else 0

nodes-IsRanked : IsRanked rank nodes
nodes-IsRanked n (Memᴰ.head e) =
    rw e ((ingest_node, Memᴰ.tail (Memᴰ.head refl), refl, omega arith), tt)
nodes-IsRanked n (Memᴰ.tail (Memᴰ.head e)) = rw e tt
nodes-IsRanked n (Memᴰ.tail (Memᴰ.tail h)) = elim h [ ]

run-ok_example :
    ReturnsUnlessRaised nodes
      (record { context = []; completed = []; world = 0 })
      (run nodes [] 0).0
run-ok_example = run-ok rank nodes nodes-IsRanked refl [] 0

-- The grid is the first value of the counter.
zero_grid : (run nodes [] 0).0 ≡ raise contract_violation
unfolding run run_node get put update
zero_grid = refl

no_detect : has {V = ℕ} (codes "detect") [] ≡ false
unfolding has
no_detect = refl

abbrev empty : Dict Text ℕ
empty = []

register_lem_example :
    (get (codes "detect") (register (codes "detect") 4 empty).1 ≡ some 4)
    × (create_modules suc (register (codes "detect") 4 empty).1 ≡ 5 ∷ [])
    × (register (codes "detect") 9 (register (codes "detect") 4 empty).1
        ≡ (raise runtime_error, (register (codes "detect") 4 empty).1))
register_lem_example =
    register_lem suc (codes "detect") (codes "detect") 4 9 empty (λ e. cc) no_detect
