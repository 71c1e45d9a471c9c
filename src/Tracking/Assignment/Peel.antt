-- ===== src/Tracking/Assignment/Peel.antt =====
-- One round of the peeling loop, and the loop by its invariant.
use adapt.Prelude.{
  ap, ℕ, zero, suc, ◌≤◌, ◌<◌, ◌≡◌, refl, ◌⊎◌, inl, inr, true, false, not, ◌&&◌, ◌||◌, List, [], ◌∷◌,
  ◌++◌, map, arith, nat_eq, ◌==◌, ltb, if◌then◌else◌, length, keep, mem, mem-keep, mem-append,
  length-keep-lt, count_if-append, count_if-keep-le, beq_refl, nat_beq_iff,
}
use adapt.Tracking.Assignment.{
  Edge, edge_eq, prev_deg, curr_deg, mutually_unique, new_matches, is_free, unmatched, peel,
}

-- A previous object has at most one forced edge, and then its degree was one.
prev_deg-new_from :
    (i : ℕ) (whole es : List Edge)
    → prev_deg i (keep (mutually_unique whole) es)
      ≤ (if prev_deg i whole == 1 then prev_deg i es else 0)
prev_deg-new_from i whole [] = ground arith
prev_deg-new_from i whole (e ∷ es) = ground (arith, prev_deg-new_from i whole es)

curr_deg-new_from :
    (j : ℕ) (whole es : List Edge)
    → curr_deg j (keep (mutually_unique whole) es)
      ≤ (if curr_deg j whole == 1 then curr_deg j es else 0)
curr_deg-new_from j whole [] = ground arith
curr_deg-new_from j whole (e ∷ es) = ground (arith, curr_deg-new_from j whole es)

mem-prevs : (i : ℕ) (es : List Edge) → mem i (map (λ e. e.prev) es) ≡ ltb 0 (prev_deg i es)
mem-prevs i [] = refl
mem-prevs i (e ∷ es) = ground (arith, mem-prevs i es)

mem-currs : (j : ℕ) (es : List Edge) → mem j (map (λ e. e.curr) es) ≡ ltb 0 (curr_deg j es)
mem-currs j [] = refl
mem-currs j (e ∷ es) = ground (arith, mem-currs j es)

prev_deg-unmatched :
    (i : ℕ) (new es : List Edge) → 0 < prev_deg i new → prev_deg i (unmatched new es) ≡ 0
prev_deg-unmatched i new [] h = refl
prev_deg-unmatched i new (e ∷ es) h =
    ground (arith, prev_deg-unmatched i new es, mem-prevs i new, nat_beq_iff e.prev i)

curr_deg-unmatched :
    (j : ℕ) (new es : List Edge) → 0 < curr_deg j new → curr_deg j (unmatched new es) ≡ 0
curr_deg-unmatched j new [] h = refl
curr_deg-unmatched j new (e ∷ es) h =
    ground (arith, curr_deg-unmatched j new es, mem-currs j new, nat_beq_iff e.curr j)

pub is_free_of_count :
    (es : List Edge) (e : Edge)
    → is_free es e ≡ (not (ltb 0 (prev_deg e.prev es)) && not (ltb 0 (curr_deg e.curr es)))
is_free_of_count es e = ground (arith, mem-prevs e.prev es, mem-currs e.curr es)

is_free-append :
    (as' bs : List Edge) (e : Edge) → is_free (as' ++ bs) e ≡ (is_free as' e && is_free bs e)
is_free-append as' bs e = ground (
  arith,
  mem-prevs e.prev (as' ++ bs),
  mem-prevs e.prev as',
  mem-prevs e.prev bs,
  mem-currs e.curr (as' ++ bs),
  mem-currs e.curr as',
  mem-currs e.curr bs,
  count_if-append (λ (n : Edge). n.prev == e.prev) as' bs,
  count_if-append (λ (n : Edge). n.curr == e.curr) as' bs,
)

-- What the loop keeps: the forced edges are a matching, and no remaining edge touches it.
pub record IsPeeled (forced remaining : List Edge) : Type 0 where
  pub prev_once : (i : ℕ) → prev_deg i forced ≤ 1
  pub curr_once : (j : ℕ) → curr_deg j forced ≤ 1
  pub prev_free : (i : ℕ) → 0 < prev_deg i forced → prev_deg i remaining ≡ 0
  pub curr_free : (j : ℕ) → 0 < curr_deg j forced → curr_deg j remaining ≡ 0

round-IsPeeled :
    (forced remaining : List Edge)
    → IsPeeled forced remaining
    → IsPeeled (forced ++ new_matches remaining) (unmatched (new_matches remaining) remaining)
round-IsPeeled forced remaining p =
    let new = new_matches remaining in
    record {
      prev_once = λ i. ground (
        arith,
        count_if-append (λ e. e.prev == i) forced new,
        prev_deg-new_from i remaining remaining,
        p.prev_once i,
        p.prev_free i,
      );
      curr_once = λ j. ground (
        arith,
        count_if-append (λ e. e.curr == j) forced new,
        curr_deg-new_from j remaining remaining,
        p.curr_once j,
        p.curr_free j,
      );
      prev_free = λ i. ground (
        arith,
        count_if-append (λ e. e.prev == i) forced new,
        prev_deg-unmatched i new remaining,
        p.prev_free i,
        count_if-keep-le (λ e. e.prev == i) (is_free new) remaining,
      );
      curr_free = λ j. ground (
        arith,
        count_if-append (λ e. e.curr == j) forced new,
        curr_deg-unmatched j new remaining,
        p.curr_free j,
        count_if-keep-le (λ e. e.curr == j) (is_free new) remaining,
      );
    }

-- Relative to the edges at the start: nothing is invented, and an edge is dropped only for a
-- forced edge that shares an end with it.
pub record IsAccounted (edges forced remaining : List Edge) : Type 0 where
  pub forced_given : (e : Edge) → mem e forced ≡ true → mem e edges ≡ true
  pub remaining_given : (e : Edge) → mem e remaining ≡ true → mem e edges ≡ true
  pub covered : (e : Edge) → mem e edges ≡ true → (mem e remaining || not (is_free forced e)) ≡ true

round-IsAccounted :
    (edges forced remaining : List Edge)
    → IsAccounted edges forced remaining
    → IsAccounted edges
        (forced ++ new_matches remaining)
        (unmatched (new_matches remaining) remaining)
round-IsAccounted edges forced remaining a =
    let new = new_matches remaining in
    record {
      forced_given = λ e h. ground (
        arith,
        mem-append e forced new,
        mem-keep (mutually_unique remaining) e remaining,
        a.forced_given e,
        a.remaining_given e,
      );
      remaining_given =
          λ e h. ground (arith, mem-keep (is_free new) e remaining, a.remaining_given e);
      covered = λ e h.
          ground
            (arith, mem-keep (is_free new) e remaining, is_free-append forced new e, a.covered e);
    }

peel-stop :
    (n : ℕ) (remaining forced : List Edge)
    → new_matches remaining ≡ []
    → peel (suc n) remaining forced ≡ (forced, remaining)
unfolding peel
peel-stop n remaining forced h = rw (h, peel)

peel-round :
    (n : ℕ) (remaining forced : List Edge) (e : Edge) (new : List Edge)
    → new_matches remaining ≡ e ∷ new
    → peel (suc n) remaining forced
      ≡ peel n (unmatched (new_matches remaining) remaining) (forced ++ new_matches remaining)
unfolding peel
peel-round n remaining forced e new h = rw (h, peel)

length-unmatched-lt :
    (remaining : List Edge) (e : Edge) (new : List Edge)
    → new_matches remaining ≡ e ∷ new
    → length (unmatched (new_matches remaining) remaining) < length remaining
length-unmatched-lt remaining e new h =
    length-keep-lt (is_free (new_matches remaining)) e remaining held taken
  where
    held : mem e remaining ≡ true
    held =
        ground (arith, mem-keep (mutually_unique remaining) e remaining, ap (mem e) h, beq_refl e)

    taken : is_free (new_matches remaining) e ≡ false
    taken = rw h (ground arith)

List-cases : (es : List Edge) → (es ≡ []) ⊎ ((e : Edge) × (new : List Edge) × (es ≡ e ∷ new))
List-cases [] = inl refl
List-cases (e ∷ new) = inr (e, new, refl)

-- The loop keeps the invariant and stops by its own test.
pub peel-IsPeeled :
    (edges : List Edge) (n : ℕ) (remaining forced : List Edge)
    → length remaining ≤ n
    → IsPeeled forced remaining
    → IsAccounted edges forced remaining
    → IsPeeled (peel n remaining forced).0 (peel n remaining forced).1
      × IsAccounted edges (peel n remaining forced).0 (peel n remaining forced).1
      × (new_matches (peel n remaining forced).1 ≡ [])
unfolding peel
peel-IsPeeled edges zero [] forced h p a = (p, a, refl)
peel-IsPeeled edges zero (e ∷ es) forced h p a = absurd (omega arith)
peel-IsPeeled edges (suc n) remaining forced h p a = elim (List-cases (new_matches remaining)) [
  | inl stop ↦ rw (peel-stop n remaining forced stop) (p, a, stop)
  | inr (e, new, go) ↦ rw (peel-round n remaining forced e new go) (
      peel-IsPeeled edges n _ _ (omega (arith, length-unmatched-lt remaining e new go))
        (round-IsPeeled forced remaining p) (round-IsAccounted edges forced remaining a))
]
