-- ===== src/Execution/Executor/Progress.antt =====
-- How GraphExecutor.run (src/adapt/execution/graph/executor.py) ends on an acyclic graph.
use mathlib.Core.List.{Memᴰ}
use adapt.Prelude.{
  ℕ, zero, suc, ◌+◌, ◌≤◌, ◌<◌, ◌^◌, ◌≡◌, refl, sym, inl, inr, true, false, List, [], ◌∷◌, map,
  arith, Text, text_eq, length, length-map, all_of, All, distinct, subset, length-subset-le,
  Bool-cases, ltb, subst,
}
use adapt.Dict.{Dict}
use adapt.Execution.Node.{Node, name_of}
use adapt.Execution.Executor.{Run, run_loop, run, is_completed}
use adapt.Execution.Executor.Rounds.{All-self}
use adapt.Execution.Executor.Passes.{
  Reached, at_start, ReturnsUnlessRaised, Waits, PassEnds, pass_ends,
}

module _ {V W : Type 0} where
  -- Each dependency is a node of the list that stands lower.
  abbrev pub IsRanked : (Text → ℕ) → List (Node V W) → Type 0
  IsRanked rank nodes =
      (n : Node V W)
      → Memᴰ n nodes
      → All (λ d. (m : Node V W) × Memᴰ m nodes × (name_of m ≡ d) × (rank d < rank (name_of n)))
          n.dependencies

  -- If no node can go on, all are completed: by induction on the rank.
  module _ (rank : Text → ℕ) (nodes : List (Node V W)) (ranked : IsRanked rank nodes) (s : Run V W)
      (stuck : (n : Node V W) → Memᴰ n nodes → Waits s n) where
    below :
        (k : ℕ) (n : Node V W)
        → Memᴰ n nodes
        → rank (name_of n) < k
        → is_completed s (name_of n) ≡ true
    below zero n here h = elim h [ ]
    below (suc k) n here h = elim (stuck n here) [
      | inl done ↦ done
      | inr waits ↦ absurd (
          ground (
            arith,
            ready_all n.dependencies (ranked n here)
                (λ m there lower. below k m there (omega arith)),
          ))
    ]
      where
        ready_all :
            (ds : List Text)
            → All
                (λ d. (m : Node V W) × Memᴰ m nodes × (name_of m ≡ d) × (rank d < rank (name_of n)))
                ds
            → ((m : Node V W)
                → Memᴰ m nodes
                → rank (name_of m) < rank (name_of n)
                → is_completed s (name_of m) ≡ true)
            → all_of (is_completed s) ds ≡ true
        ready_all [] t rec = refl
        ready_all (d ∷ ds) ((m, there, e, lower), rest) rec =
            let done = rw e at (rec m there (rw e lower)) in
            ground (arith, done, ready_all ds rest rec)

    completed_so_far :
        (ns : List (Node V W))
        → All (λ n. Memᴰ n nodes) ns
        → subset (map name_of ns) s.completed ≡ true
    completed_so_far [] t = refl
    completed_so_far (n ∷ ns) (here, t) =
        ground (arith, below (suc (rank (name_of n))) n here (omega arith), completed_so_far ns t)

  All-at :
      (P : Node V W → Type 0) (n : Node V W) (ns : List (Node V W)) → Memᴰ n ns → All P ns → P n
  All-at P n [] h a = elim h [ ]
  All-at P n (m ∷ ns) (Memᴰ.head e) (p, ps) = subst P (sym e) p
  All-at P n (m ∷ ns) (Memᴰ.tail h) (p, ps) = All-at P n ns h ps

  module _ (rank : Text → ℕ) (nodes : List (Node V W)) (ranked : IsRanked rank nodes)
      (once : distinct (map name_of nodes) ≡ true) where
    run_loop-ends :
        (start : Run V W) (k : ℕ) (s : Run V W)
        → Reached nodes start s
        → length nodes ≤ k + length s.completed
        → ReturnsUnlessRaised nodes start (run_loop k nodes s).0
    unfolding run_loop
    run_loop-ends start zero s r enough = inl (ground (arith, enough))
    run_loop-ends start (suc k) s r enough =
        elim (Bool-cases (ltb (length s.completed) (length nodes))) [
          | inr done ↦ inl (rw done refl)
          | inl more ↦
              round more (pass_ends nodes start nodes false s (All-self nodes) r)
                (λ s' there h. run_loop-ends start k s' there h)
        ]
      where
        round :
            ltb (length s.completed) (length nodes) ≡ true
            → PassEnds nodes start nodes false s
            → ((s' : Run V W)
                → Reached nodes start s'
                → length nodes ≤ k + length s'.completed
                → ReturnsUnlessRaised nodes start (run_loop k nodes s').0)
            → ReturnsUnlessRaised nodes start (run_loop (suc k) nodes s).0
        round more (inr (e, raised, culprit)) rec = inr (e, rw (more, raised) refl, culprit)
        round more (inl (f, there)) rec = elim (Bool-cases f.made) [
          | inl made ↦
              rw (more, f.returns, made) (rec f.next there (omega (arith, f.strictly made refl)))
          | inr none_made ↦
              let (same, stuck) = f.idle none_made in
              let covered =
                completed_so_far rank nodes ranked s (λ n h. All-at (Waits s) n nodes h stuck) nodes
                  (All-self nodes) in
              absurd (
                ground (
                  arith,
                  length-subset-le (map name_of nodes) s.completed once covered,
                  length-map name_of nodes,
                  more,
                ))
        ]

    -- On a graph of nodes with different names, each with lower-ranked nodes of the graph as its
    -- dependencies, `run` returns, or it raises what a node raises that is run when its dependencies
    -- are completed, in a state that the execution reaches from the given context: neither the check
    -- for progress nor the bound on the iterations stops it.
    pub run-ok :
        (context : Dict Text V) (world : W)
        → ReturnsUnlessRaised nodes
            (record { context = context; completed = []; world = world })
            (run nodes context world).0
    unfolding run
    run-ok context world =
        let start : Run V W = record { context = context; completed = []; world = world } in
        run_loop-ends start (length nodes ^ 2 + length nodes + 1) start at_start (omega arith)
