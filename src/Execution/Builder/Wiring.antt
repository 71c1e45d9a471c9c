-- ===== src/Execution/Builder/Wiring.antt =====
-- The links that GraphBuilder.build makes.
use adapt.Prelude.{
  ◌≡◌, refl, sym, ap, ◌∙◌, inl, inr, Bool, true, false, ◌&&◌, ◌||◌, Option, none, some, List, [],
  ◌∷◌, arith, Text, text_eq, ◌==◌, text_beq_iff, if◌then◌else◌, mem, mem-append, Bool-cases,
  Option-cases, text_beq_sym, subst,
}
use adapt.Dict.{Dict, get, get-put, values}
use adapt.Exec.{ok, Result-cases}
use adapt.Execution.Node.{BaseModule, Node, new_node, name_of}
use adapt.Execution.Builder.{
  nodes_of, collect_outputs, add_dependency, add_dependent, update_node, link, wire_inputs, wire,
  build_nodes,
}

module _ {V W : Type 0} where
  -- A node depends on another exactly if it is one of that node's dependents.
  abbrev pub IsLinked : Dict Text (Node V W) → Type 0
  IsLinked nodes =
      (a b : Text) (x y : Node V W)
      → get a nodes ≡ some x
      → get b nodes ≡ some y
      → mem b x.dependencies ≡ mem a y.dependents

  mem-add_dependency :
      (b p : Text) (n : Node V W)
      → mem b (add_dependency p n).dependencies ≡ (mem b n.dependencies || b == p)
  mem-add_dependency b p n = elim (Bool-cases (mem p n.dependencies)) [
    | inl old ↦ rw old (ground (arith, text_beq_iff b p))
    | inr new ↦ rw (new, mem-append) (ground arith)
  ]

  mem-add_dependent :
      (a c : Text) (n : Node V W)
      → mem a (add_dependent c n).dependents ≡ (mem a n.dependents || a == c)
  mem-add_dependent a c n = elim (Bool-cases (mem c n.dependents)) [
    | inl old ↦ rw old (ground (arith, text_beq_iff a c))
    | inr new ↦ rw (new, mem-append) (ground arith)
  ]

  get-update_node :
      (k a : Text) (f : Node V W → Node V W) (nodes : Dict Text (Node V W)) (x : Node V W)
      → get a (update_node k f nodes) ≡ some x
      → (x' : Node V W) × (get a nodes ≡ some x') × (x ≡ (if k == a then f x' else x'))
  get-update_node k a f nodes x h = elim (Option-cases (get k nodes)) [
    | inl (n, found) ↦ elim (Bool-cases (k == a)) [
      | inl same ↦ (
        n,
        ground (arith, text_beq_iff k a),
        ground (arith, found, same, get-put k a (f n) nodes),
      )
      | inr other ↦ (x, ground (arith, found, other, get-put k a (f n) nodes), rw other)
    ]
    | inr absent ↦ elim (Bool-cases (k == a)) [
      | inl same ↦ absurd (ground (arith, text_beq_iff k a))
      | inr other ↦ (x, ground arith, rw other)
    ]
  ]

  mem-dependencies_after :
      (b p : Text) (test : Bool) (x n : Node V W)
      → x ≡ (if test then add_dependency p n else n)
      → (mem b x.dependencies ≡ (mem b n.dependencies || (test && b == p)))
        × (x.dependents ≡ n.dependents)
  mem-dependencies_after b p true x n e = (rw e (mem-add_dependency b p n), rw e (ground arith))
  mem-dependencies_after b p false x n e = (rw e (ground arith), rw e refl)

  mem-dependents_after :
      (a c : Text) (test : Bool) (x n : Node V W)
      → x ≡ (if test then add_dependent c n else n)
      → (mem a x.dependents ≡ (mem a n.dependents || (test && a == c)))
        × (x.dependencies ≡ n.dependencies)
  mem-dependents_after a c true x n e = (rw e (mem-add_dependent a c n), rw e (ground arith))
  mem-dependents_after a c false x n e = (rw e (ground arith), rw e refl)

  -- Linking a child and a parent keeps the two sides of all links together.
  link-IsLinked :
      (c p : Text) (nodes : Dict Text (Node V W)) → IsLinked nodes → IsLinked (link c p nodes)
  link-IsLinked c p nodes l a b x y hx hy =
      let middle = update_node c (add_dependency p) nodes in
      let (x1, gx1, ex1) = get-update_node p a (add_dependent c) middle x hx in
      let (x0, gx0, ex0) = get-update_node c a (add_dependency p) nodes x1 gx1 in
      let (y1, gy1, ey1) = get-update_node p b (add_dependent c) middle y hy in
      let (y0, gy0, ey0) = get-update_node c b (add_dependency p) nodes y1 gy1 in
      let (deps, _x) = mem-dependencies_after b p (c == a) x1 x0 ex0 in
      let (_d, same_deps) = mem-dependents_after a c (p == a) x x1 ex1 in
      let (dependents, _y) = mem-dependents_after a c (p == b) y y1 ey1 in
      let (_e, same_dependents) = mem-dependencies_after b p (c == b) y1 y0 ey0 in
      ap (mem b) same_deps
      ∙ deps
      ∙ ends (c == a) (b == p) (p == b) (a == c) (text_beq_sym c a) (text_beq_sym b p)
          (l a b x0 y0 gx0 gy0)
      ∙ sym (dependents ∙ ap (λ ds. mem a ds || (p == b && a == c)) same_dependents)
    where
      ends :
          {m n : Bool} (u v v' u' : Bool)
          → u ≡ u'
          → v ≡ v'
          → m ≡ n
          → (m || (u && v)) ≡ (n || (v' && u'))
      ends u v v' u' e f g = ground arith

  wire_inputs-IsLinked :
      (child : Text) (inputs : List Text) (output_map : Dict Text Text)
      (nodes : Dict Text (Node V W))
      → IsLinked nodes
      → IsLinked (wire_inputs child inputs output_map nodes)
  unfolding wire_inputs
  wire_inputs-IsLinked child [] output_map nodes l = l
  wire_inputs-IsLinked child (inp ∷ inputs) output_map nodes l =
      wire_inputs-IsLinked child inputs output_map _ (step (get inp output_map))
    where
      step :
          (o : Option Text)
          → IsLinked (elim o [ none ↦ nodes | some parent ↦ link child parent nodes ])
      step none = l
      step (some parent) = link-IsLinked child parent nodes l

  wire-IsLinked :
      (ns : List (Node V W)) (output_map : Dict Text Text) (nodes : Dict Text (Node V W))
      → IsLinked nodes
      → IsLinked (wire ns output_map nodes)
  unfolding wire
  wire-IsLinked [] output_map nodes l = l
  wire-IsLinked (n ∷ ns) output_map nodes l =
      wire-IsLinked ns output_map _
        (wire_inputs-IsLinked (name_of n) n.module_.inputs output_map nodes l)

  -- Before the wiring no node has a link.
  IsFresh : Dict Text (Node V W) → Type 0
  IsFresh nodes =
      (a : Text) (x : Node V W) → get a nodes ≡ some x → (x.dependencies ≡ []) × (x.dependents ≡ [])

  nil-IsFresh : List (BaseModule V W) → IsFresh []
  unfolding IsFresh get
  nil-IsFresh modules a x h = ground arith

  nodes_of-IsFresh :
      (ms : List (BaseModule V W)) (nodes : Dict Text (Node V W))
      → IsFresh nodes
      → IsFresh (nodes_of ms nodes)
  unfolding IsFresh
  nodes_of-IsFresh [] nodes f = f
  nodes_of-IsFresh (m ∷ ms) nodes f = nodes_of-IsFresh ms _ λ a x h.
      elim (Bool-cases (m.name == a)) [
        | inl same ↦ ground (arith, get-put m.name a (new_node m) nodes)
        | inr other ↦ f a x (ground (arith, get-put m.name a (new_node m) nodes))
      ]

  pub build-IsLinked :
      (modules : List (BaseModule V W)) (nodes : Dict Text (Node V W))
      → build_nodes modules ≡ ok nodes
      → IsLinked nodes
  unfolding build_nodes IsFresh
  build-IsLinked modules nodes h =
      elim (Result-cases (collect_outputs (values (nodes_of modules [])) [])) [
        | inl (output_map, e) ↦ subst IsLinked (wired output_map e) (
            wire-IsLinked (values (nodes_of modules [])) output_map (nodes_of modules [])
              λ a b x y hx hy.
                let (no_deps, _d) = fresh a x hx in
                let (_e, no_dependents) = fresh b y hy in
                ap (mem b) no_deps ∙ sym (ap (mem a) no_dependents))
        | inr (err, e) ↦ absurd (ground arith)
      ]
    where
      fresh :
          (a : Text) (x : Node V W)
          → get a (nodes_of modules []) ≡ some x
          → (x.dependencies ≡ []) × (x.dependents ≡ [])
      fresh = nodes_of-IsFresh modules [] (nil-IsFresh modules)

      wired :
          (output_map : Dict Text Text)
          → collect_outputs (values (nodes_of modules [])) [] ≡ ok output_map
          → wire (values (nodes_of modules [])) output_map (nodes_of modules []) ≡ nodes
      wired output_map e = ground arith

  -- In the graph that `build` returns, a node b is a dependency of a node a exactly if a is one of
  -- the dependents of b.
  pub build_linked :
      (modules : List (BaseModule V W)) (nodes : Dict Text (Node V W)) (a b : Text) (x y : Node V W)
      → build_nodes modules ≡ ok nodes
      → get a nodes ≡ some x
      → get b nodes ≡ some y
      → mem b x.dependencies ≡ mem a y.dependents
  build_linked modules nodes a b x y built = build-IsLinked modules nodes built a b x y
