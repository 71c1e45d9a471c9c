-- ===== src/Tracking/Assignment.antt =====
-- src/adapt/modules/tracking/matching/assignment.py: constraint propagation over the candidate
-- edges. A set of edges is a list without repetitions; the order in which Python iterates over the
-- set does not show, since the results are sorted.
pub mod Peel
pub mod Propagation
use adapt.Prelude.{
  ℕ, zero, suc, ◌+◌, ◌≤◌, ◌<◌, ◌≡◌, refl, ◌↔◌, Bool, true, false, not, ◌&&◌, ◌||◌, List, [], ◌∷◌,
  ◌++◌, map, arith, Eq, nat_eq, ◌==◌, ltb, nat_beq, if◌then◌else◌, length, keep, mem, count_if,
  to_set, sorted_by,
}

-- Edge = tuple[int, int]: (prev_idx, curr_idx).
pub record Edge : Type 0 where
  pub prev : ℕ
  pub curr : ℕ

abbrev edge_beq : Edge → Edge → Bool
edge_beq a b = nat_beq a.prev b.prev && nat_beq a.curr b.curr

pub edge_beq_iff : (a b : Edge) → (edge_beq a b ≡ true) ↔ (a ≡ b)
edge_beq_iff a b = ground arith

instance abbrev pub edge_eq : Eq Edge
edge_eq = record { beq = edge_beq; beq_iff = edge_beq_iff }

-- Python's order on pairs.
abbrev pub edge_ltb : Edge → Edge → Bool
edge_ltb a b = ltb a.prev b.prev || (nat_beq a.prev b.prev && ltb a.curr b.curr)

-- prev_deg[i] and curr_deg[j], the counts that the first loop of a round collects.
abbrev pub prev_deg : ℕ → List Edge → ℕ
prev_deg i = count_if (λ e. e.prev == i)

abbrev pub curr_deg : ℕ → List Edge → ℕ
curr_deg j = count_if (λ e. e.curr == j)

-- The test of the comprehension `new`.
abbrev pub mutually_unique : List Edge → Edge → Bool
mutually_unique remaining e = prev_deg e.prev remaining == 1 && curr_deg e.curr remaining == 1

abbrev pub new_matches : List Edge → List Edge
new_matches remaining = keep (mutually_unique remaining) remaining

-- The test of the comprehension that rebuilds `remaining`.
abbrev pub is_free : List Edge → Edge → Bool
is_free new e = not (mem e.prev (map (λ n. n.prev) new)) && not (mem e.curr (map (λ n. n.curr) new))

abbrev pub unmatched : List Edge → List Edge → List Edge
unmatched new remaining = keep (is_free new) remaining

-- The `while True` loop of `resolve`; each round but the last removes an edge, so the number of
-- edges is fuel enough.
pub peel : ℕ → List Edge → List Edge → List Edge × List Edge
peel zero remaining forced = (forced, remaining)
peel (suc rounds) remaining forced = elim (new_matches remaining) [
  | [] ↦ (forced, remaining)
  | e ∷ new ↦ peel rounds (unmatched (e ∷ new) remaining) (forced ++ e ∷ new)
]

-- ConstraintPropagator.resolve
unfoldable pub resolve : List Edge → List Edge × List Edge
unfolding peel
resolve edges =
    let remaining = to_set edges in
    let (forced, left) = peel (length remaining) remaining [] in
    (sorted_by edge_ltb forced, sorted_by edge_ltb left)
