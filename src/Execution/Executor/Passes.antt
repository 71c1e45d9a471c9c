-- ===== src/Execution/Executor/Passes.antt =====
-- One pass of GraphExecutor.run (src/adapt/execution/graph/executor.py) from a state that the execution
-- reaches.
use mathlib.Core.List.{Memᴰ}
use adapt.Prelude.{
  ◌≤◌, ◌<◌, ◌≡◌, refl, ap, ◌∙◌, ◌⊎◌, inl, inr, Bool, true, false, List, [], ◌∷◌, arith, text_eq,
  length, length-append, All, Bool-cases, subst,
}
use adapt.Exec.{Error, Result, ok, raise, Result-cases}
use adapt.Execution.Node.{Node, name_of}
use adapt.Execution.Executor.{Run, run_node, pass, is_completed, is_ready}
use adapt.Execution.Executor.Rounds.{Completes, run_node-Completes}

module _ {V W : Type 0} where
  -- The states between two runs of nodes: each node that has run was ready and not completed.
  pub data Reached (nodes : List (Node V W)) (start : Run V W) : Run V W → Type 0 where
    at_start : Reached nodes start start
    behind :
        (n : Node V W) (s s' : Run V W)
        → Reached nodes start s
        → Memᴰ n nodes
        → is_completed s (name_of n) ≡ false
        → is_ready s n ≡ true
        → run_node n s ≡ (ok tt, s')
        → Reached nodes start s'

  -- A node that is ready raises e in a state that the execution reaches: one of its contracts does
  -- not hold there, or its module raises.
  pub record NodeRaises (nodes : List (Node V W)) (start : Run V W) (e : Error) : Type 0 where
    pub culprit : Node V W
    pub before : Run V W
    pub member : Memᴰ culprit nodes
    pub reached : Reached nodes start before
    pub waiting : is_completed before (name_of culprit) ≡ false
    pub ready : is_ready before culprit ≡ true
    pub raises : (run_node culprit before).0 ≡ raise e

  -- The call returns, or raises what a node has raised.
  abbrev pub ReturnsUnlessRaised : List (Node V W) → Run V W → Result (Unit {0}) → Type 0
  ReturnsUnlessRaised nodes start result =
      (result ≡ ok tt) ⊎ ((e : Error) × (result ≡ raise e) × NodeRaises nodes start e)

  abbrev pub Waits : Run V W → Node V W → Type 0
  Waits s n = (is_completed s (name_of n) ≡ true) ⊎ (is_ready s n ≡ false)

  -- What a pass without exceptions has done.
  pub record PassEffect (ns : List (Node V W)) (progress : Bool) (s : Run V W) : Type 0 where
    pub made : Bool
    pub next : Run V W
    pub returns : pass ns progress s ≡ (ok made, next)
    pub grows : length s.completed ≤ length next.completed
    pub strictly : made ≡ true → progress ≡ false → length s.completed < length next.completed
    pub kept : progress ≡ true → made ≡ true
    pub idle : made ≡ false → (next ≡ s) × All (Waits s) ns

  abbrev pub PassRaises : List (Node V W) → Run V W → List (Node V W) → Bool → Run V W → Type 0
  PassRaises whole start ns progress s =
      (e : Error) × ((pass ns progress s).0 ≡ raise e) × NodeRaises whole start e

  module _ (whole : List (Node V W)) (start : Run V W) where
    abbrev pub PassEnds : List (Node V W) → Bool → Run V W → Type 0
    PassEnds ns progress s =
        ((f : PassEffect ns progress s) × Reached whole start f.next)
        ⊎ PassRaises whole start ns progress s

    pass_skips :
        (n : Node V W) (ns : List (Node V W)) (progress : Bool) (s : Run V W)
        → Waits s n
        → pass (n ∷ ns) progress s ≡ pass ns progress s
        → PassEnds ns progress s
        → PassEnds (n ∷ ns) progress s
    pass_skips n ns progress s w same (inr (e, raised, culprit)) =
        inr (e, ap (λ (x : Result Bool × Run V W). x.0) same ∙ raised, culprit)
    pass_skips n ns progress s w same (inl (f, r)) = inl (
      record {
        made = f.made;
        next = f.next;
        returns = same ∙ f.returns;
        grows = f.grows;
        strictly = f.strictly;
        kept = f.kept;
        idle = λ m. ((f.idle m).0, (w, (f.idle m).1));
      },
      r,
    )

    pass_goes :
        (n : Node V W) (ns : List (Node V W)) (progress : Bool) (s s' : Run V W)
        → is_completed s (name_of n) ≡ false
        → is_ready s n ≡ true
        → run_node n s ≡ (ok tt, s')
        → PassEnds ns true s'
        → PassEnds (n ∷ ns) progress s
    unfolding pass
    pass_goes n ns progress s s' new ready e (inr (x, raised, culprit)) =
        inr (x, rw (new, ready, e) raised, culprit)
    pass_goes n ns progress s s' new ready e (inl (f, r)) =
        let c = subst (Completes n s) e (run_node-Completes n s) in
        let longer = ap length c ∙ length-append s.completed (name_of n ∷ []) in
        inl (
          record {
            made = f.made;
            next = f.next;
            returns = rw (new, ready, e) f.returns;
            grows = omega (arith, f.grows, longer);
            strictly = λ p q. omega (arith, f.grows, longer);
            kept = λ p. f.kept refl;
            idle = λ m. absurd (ground (arith, f.kept refl));
          },
          r,
        )

    pass_raises :
        (n : Node V W) (ns : List (Node V W)) (progress : Bool) (s : Run V W) (e : Error)
        → NodeRaises whole start e
        → is_completed s (name_of n) ≡ false
        → is_ready s n ≡ true
        → (run_node n s).0 ≡ raise e
        → PassEnds (n ∷ ns) progress s
    unfolding pass
    pass_raises n ns progress s e culprit new ready raised =
        inr (e, rw (new, ready, raised) refl, culprit)

    pub pass_ends :
        (ns : List (Node V W)) (progress : Bool) (s : Run V W)
        → All (λ n. Memᴰ n whole) ns
        → Reached whole start s
        → PassEnds ns progress s
    unfolding pass
    pass_ends [] progress s inside r = inl (
      record {
        made = progress;
        next = s;
        returns = refl;
        grows = omega arith;
        strictly = λ p q. absurd (ground arith);
        kept = λ p. p;
        idle = λ e. (refl, tt);
      },
      r,
    )
    pass_ends (n ∷ ns) progress s (here, inside) r =
        elim (Bool-cases (is_completed s (name_of n))) [
          | inl old ↦
              pass_skips n ns progress s (inl old) (rw old refl) (pass_ends ns progress s inside r)
          | inr new ↦ elim (Bool-cases (is_ready s n)) [
            | inr waits ↦
                pass_skips n ns progress s (inr waits) (rw (new, waits) refl)
                  (pass_ends ns progress s inside r)
            | inl ready ↦ elim (Result-cases (run_node n s).0) [
              | inr (e, raised) ↦
                  pass_raises n ns progress s e
                    (record {
                      culprit = n;
                      before = s;
                      member = here;
                      reached = r;
                      waiting = new;
                      ready = ready;
                      raises = raised;
                    })
                    new ready raised
              | inl (done, e) ↦
                  let returned = run_result (run_node n s) e in
                  let s' = (run_node n s).1 in
                  pass_goes n ns progress s s' new ready returned
                    (pass_ends ns true s' inside (behind n s s' r here new ready returned))
            ]
          ]
        ]
      where
        run_result : (out : Result (Unit {0}) × Run V W) → out.0 ≡ ok tt → out ≡ (ok tt, out.1)
        run_result out e = ap (λ r. (r, out.1)) e
