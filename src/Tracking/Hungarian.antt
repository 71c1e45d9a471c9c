-- ===== src/Tracking/Hungarian.antt =====
-- src/adapt/modules/tracking/matching/hungarian.py and AssignmentGraph of assignment.py, and the
-- order in which CellTracker._resolve_matches decides the matches.
use adapt.Prelude.{
  ℕ, ◌^◌, Bool, true, false, Option, none, some, List, [], ◌∷◌, ◌++◌, map, nat_eq, ltb,
  if◌then◌else◌, sorted_by, get_elem?,
}
use adapt.Dict.{Dict, get, has, keys}
use adapt.Exec.{Result, ok, raise, index_error, key_error}
use adapt.Tracking.Models.{MatchMethod, EdgeCost}
use adapt.Tracking.Assignment.{Edge, edge_eq, resolve}
use adapt.Tracking.Env.{Env, Vertex, prev_vertex, curr_vertex}

abbrev prevs_of : List Vertex → List ℕ
prevs_of [] = []
prevs_of (prev_vertex i ∷ vs) = i ∷ prevs_of vs
prevs_of (curr_vertex j ∷ vs) = prevs_of vs

abbrev currs_of : List Vertex → List ℕ
currs_of [] = []
currs_of (prev_vertex i ∷ vs) = currs_of vs
currs_of (curr_vertex j ∷ vs) = j ∷ currs_of vs

-- A value for each element, or the first exception.
abbrev pub and_also {ℓ κ} : {A : Type ℓ} {B : Type κ} → Result A → (A → Result B) → Result B
and_also (ok a) f = f a
and_also (raise e) f = raise e

module _ {G F : Type 0} (env : Env G F) where
  -- AssignmentGraph(edges).components()
  unfoldable pub components : List Edge → List (List ℕ × List ℕ)
  components edges =
      map (λ vs. (sorted_by ltb (prevs_of vs), sorted_by ltb (currs_of vs)))
        (env.connected_components (map (λ e. (prev_vertex e.prev, curr_vertex e.curr)) edges))

  -- _SENTINEL
  abbrev pub sentinel : F
  sentinel = env.fl.of_nat (10 ^ 9)

  abbrev pub cost_or_sentinel : Option F → F
  cost_or_sentinel none = sentinel
  cost_or_sentinel (some cost) = cost

  abbrev pub matrix : Dict Edge F → List ℕ → List ℕ → List (List F)
  matrix costs prevs currs =
      map (λ i. map (λ j. cost_or_sentinel (get (record { prev = i; curr = j }) costs)) currs) prevs

  abbrev pub pair_at : Option ℕ → Option ℕ → Result Edge
  pair_at (some i) (some j) = ok (record { prev = i; curr = j })
  pair_at _ _ = raise index_error

  -- The loop over zip(rows, cols): a pair that is no edge is padding, and is dropped.
  abbrev pub real_pairs : Dict Edge F → List ℕ → List ℕ → List (ℕ × ℕ) → Result (List Edge)
  real_pairs costs prevs currs [] = ok []
  real_pairs costs prevs currs ((a, b) ∷ assigned) =
      let rest = real_pairs costs prevs currs assigned in
      and_also (pair_at (get_elem? prevs a) (get_elem? currs b))
        λ pair. and_also rest λ matched. ok (if has pair costs then pair ∷ matched else matched)

  abbrev is_empty : List ℕ → Bool
  is_empty [] = true
  is_empty (_ ∷ _) = false

  -- HungarianMatcher.match
  unfoldable pub hungarian_match : List ℕ → List ℕ → Dict Edge F → Result (List Edge)
  hungarian_match prevs currs costs =
      if is_empty prevs
      then ok []
      else if is_empty currs
      then ok []
      else real_pairs costs prevs currs (env.linear_sum_assignment (matrix costs prevs currs))

  -- {edge: edge_costs[edge].cost for edge in remaining}
  abbrev pub component_costs : Dict Edge (EdgeCost F) → List Edge → Result (Dict Edge F)
  component_costs edge_costs [] = ok []
  component_costs edge_costs (e ∷ es) =
      let rest = component_costs edge_costs es in
      elim (get e edge_costs) [
        | none ↦ raise key_error
        | some ec ↦ and_also rest λ costs. ok ((e, ec.cost) ∷ costs)
      ]

  abbrev pub match_components : Dict Edge F → List (List ℕ × List ℕ) → Result (List Edge)
  match_components costs [] = ok []
  match_components costs ((prevs, currs) ∷ rest) =
      let later = match_components costs rest in
      and_also (hungarian_match prevs currs costs)
        λ matched. and_also later λ more. ok (matched ++ more)

  -- The pairs that _resolve_matches records, in order, with the way each was decided. Recording a
  -- pair changes nothing that deciding the later ones reads.
  unfoldable pub decide_matches : Dict Edge (EdgeCost F) → Result (List (Edge × MatchMethod))
  unfolding components hungarian_match
  decide_matches edge_costs =
      let (forced, remaining) = resolve (keys edge_costs) in
      and_also (component_costs edge_costs remaining) λ costs.
        and_also (match_components costs (components remaining)) λ optimal. ok (
          map (λ e. (e, MatchMethod.propagated)) forced
          ++ map (λ e. (e, MatchMethod.hungarian)) optimal)
