-- ===== src/Tracking/Assignment/Propagation.antt =====
-- What ConstraintPropagator.resolve returns (matching/assignment.py).
use adapt.Prelude.{
  ◌<◌, ◌≡◌, sym, ap, ◌∙◌, true, false, not, ◌||◌, List, [], ◌∷◌, arith, nat_eq, ◌==◌, length, mem,
  mem-keep, to_set, mem-to_set, mem-sorted_by, count_if-sorted_by, sorted_by,
}
use adapt.Tracking.Assignment.{
  Edge, edge_eq, edge_beq_iff, edge_ltb, prev_deg, curr_deg, mutually_unique, new_matches, is_free,
  resolve, peel,
}
use adapt.Tracking.Assignment.Peel.{IsPeeled, IsAccounted, peel-IsPeeled, is_free_of_count}

module _ (edges : List Edge) where
  abbrev loop_result : List Edge × List Edge
  loop_result = peel (length (to_set edges)) (to_set edges) []

  loop_lem :
      IsPeeled loop_result.0 loop_result.1
      × IsAccounted edges loop_result.0 loop_result.1
      × (new_matches loop_result.1 ≡ [])
  loop_lem =
      peel-IsPeeled edges (length (to_set edges)) (to_set edges) [] (omega arith)
        (record {
          prev_once = λ i. omega arith;
          curr_once = λ j. omega arith;
          prev_free = λ i h. absurd (omega arith);
          curr_free = λ j h. absurd (omega arith);
        })
        (record {
          forced_given = λ e h. ground arith;
          remaining_given = λ e h. ground (arith, mem-to_set e edges);
          covered = λ e h. ground (arith, mem-to_set e edges);
        })

  pub resolve-IsPeeled : IsPeeled (resolve edges).0 (resolve edges).1
  unfolding resolve
  resolve-IsPeeled =
      let (p, a, stop) = loop_lem in
      record {
        prev_once = λ i.
            omega
              (arith, p.prev_once i, count_if-sorted_by edge_ltb (λ e. e.prev == i) loop_result.0);
        curr_once = λ j.
            omega
              (arith, p.curr_once j, count_if-sorted_by edge_ltb (λ e. e.curr == j) loop_result.0);
        prev_free = λ i h. omega (
          arith,
          p.prev_free i,
          count_if-sorted_by edge_ltb (λ e. e.prev == i) loop_result.0,
          count_if-sorted_by edge_ltb (λ e. e.prev == i) loop_result.1,
        );
        curr_free = λ j h. omega (
          arith,
          p.curr_free j,
          count_if-sorted_by edge_ltb (λ e. e.curr == j) loop_result.0,
          count_if-sorted_by edge_ltb (λ e. e.curr == j) loop_result.1,
        );
      }

  pub resolve-IsAccounted : IsAccounted edges (resolve edges).0 (resolve edges).1
  unfolding resolve
  resolve-IsAccounted =
      let (p, a, stop) = loop_lem in
      record {
        forced_given = λ e h. a.forced_given e (sym (mem-sorted_by edge_ltb e loop_result.0) ∙ h);
        remaining_given =
            λ e h. a.remaining_given e (sym (mem-sorted_by edge_ltb e loop_result.1) ∙ h);
        covered = λ e h. ground (
          arith,
          a.covered e,
          mem-sorted_by edge_ltb e loop_result.1,
          is_free_of_count (sorted_by edge_ltb loop_result.0) e,
          is_free_of_count loop_result.0 e,
          count_if-sorted_by edge_ltb (λ (n : Edge). n.prev == e.prev) loop_result.0,
          count_if-sorted_by edge_ltb (λ (n : Edge). n.curr == e.curr) loop_result.0,
        );
      }

  -- The peeling has converged: no remaining edge is unique at both of its ends.
  pub resolve_converged :
      (e : Edge) → mem e (resolve edges).1 ≡ true → mutually_unique (resolve edges).1 e ≡ false
  unfolding resolve
  resolve_converged e h =
      let (p, a, stop) = loop_lem in
      ground (
        arith,
        mem-sorted_by edge_ltb e loop_result.1,
        mem-keep (mutually_unique loop_result.1) e loop_result.1,
        ap (mem e) stop,
        count_if-sorted_by edge_ltb (λ (n : Edge). n.prev == e.prev) loop_result.1,
        count_if-sorted_by edge_ltb (λ (n : Edge). n.curr == e.curr) loop_result.1,
      )

prev_deg-pos : (e : Edge) (es : List Edge) → mem e es ≡ true → 0 < prev_deg e.prev es
prev_deg-pos e [] h = ground arith
prev_deg-pos e (x ∷ es) h = ground (arith, prev_deg-pos e es, edge_beq_iff e x)

curr_deg-pos : (e : Edge) (es : List Edge) → mem e es ≡ true → 0 < curr_deg e.curr es
curr_deg-pos e [] h = ground arith
curr_deg-pos e (x ∷ es) h = ground (arith, curr_deg-pos e es, edge_beq_iff e x)

-- The forced edges are a matching: a forced edge is the only forced edge of its previous object and
-- of its current cell, and no remaining edge touches either.
pub resolve_matching :
    (edges : List Edge) (e : Edge)
    → mem e (resolve edges).0 ≡ true
    → (prev_deg e.prev (resolve edges).0 ≡ 1)
      × (curr_deg e.curr (resolve edges).0 ≡ 1)
      × (prev_deg e.prev (resolve edges).1 ≡ 0)
      × (curr_deg e.curr (resolve edges).1 ≡ 0)
resolve_matching edges e h =
    let p = resolve-IsPeeled edges in
    let i = prev_deg-pos e (resolve edges).0 h in
    let j = curr_deg-pos e (resolve edges).0 h in
    (
      omega (arith, p.prev_once e.prev),
      omega (arith, p.curr_once e.curr),
      p.prev_free e.prev i,
      p.curr_free e.curr j,
    )

-- Every given edge remains, or shares its previous object or its current cell with a forced edge.
pub resolve_covers :
    (edges : List Edge) (e : Edge)
    → mem e edges ≡ true
    → (mem e (resolve edges).1 || not (is_free (resolve edges).0 e)) ≡ true
resolve_covers edges e h = (resolve-IsAccounted edges).covered e h

-- Every forced edge and every remaining edge is one of the given edges.
pub resolve_subset :
    (edges : List Edge) (e : Edge)
    → (mem e (resolve edges).0 || mem e (resolve edges).1) ≡ true
    → mem e edges ≡ true
resolve_subset edges e h =
    let a = resolve-IsAccounted edges in ground (arith, a.forced_given e, a.remaining_given e)
