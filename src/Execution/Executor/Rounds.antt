-- ===== src/Execution/Executor/Rounds.antt =====
-- What one node and one pass of GraphExecutor.run do to the set of completed nodes.
use mathlib.Core.List.{Memᴰ}
use adapt.Prelude.{
  ℕ, zero, suc, ◌≤◌, ◌≡◌, refl, sym, ap, ◌∙◌, inl, inr, Bool, true, false, not, ◌&&◌, List, [], ◌∷◌,
  ◌++◌, arith, Text, text_eq, if◌then◌else◌, ltb, length, mem, all_of, All, Bool-cases, subst,
}
use adapt.Dict.{Dict, get}
use adapt.Exec.{Exec, Result, ok, raise, Result-cases, ◌>>=◌, and_then, lift}
use adapt.Execution.Node.{Node, name_of}
use adapt.Execution.Executor.{
  Run, is_completed, is_ready, check_input, check_inputs, check_output, check_outputs, run_module,
  finish_node, run_node, pass, run_loop,
}

module _ {V W : Type 0} where
  check_inputs-state :
      (cs : Dict Text (V → Result (Unit {0}))) (s : Run V W) → (check_inputs cs s).1 ≡ s
  unfolding check_inputs
  check_inputs-state [] s = refl
  check_inputs-state ((key, validator) ∷ cs) s =
      elim (Result-cases (check_input validator (get key s.context))) [
        | inl (a, e) ↦ rw e (check_inputs-state cs s)
        | inr (err, e) ↦ rw e
      ]

  check_outputs-state :
      (os : Dict Text V) (cs : Dict Text (V → Result (Unit {0}))) (s : Run V W)
      → (check_outputs os cs s).1 ≡ s
  unfolding check_outputs
  check_outputs-state os [] s = refl
  check_outputs-state os ((key, validator) ∷ cs) s =
      elim (Result-cases (check_output validator (get key os))) [
        | inl (a, e) ↦ rw e (check_outputs-state os cs s)
        | inr (err, e) ↦ rw e
      ]

  -- The completed nodes after a call: one more if it returned, the same if it raised.
  abbrev pub Completes : Node V W → Run V W → Result (Unit {0}) × Run V W → Type 0
  Completes n s (ok a, s') = s'.completed ≡ s.completed ++ name_of n ∷ []
  Completes n s (raise e, s') = s'.completed ≡ s.completed

  finish_node-Completes :
      (n : Node V W) (os : Dict Text V) (s : Run V W) → Completes n s (finish_node n os s)
  unfolding finish_node
  finish_node-Completes n [] s = refl
  finish_node-Completes n (o ∷ os) s =
      step (check_outputs (o ∷ os) n.module_.output_contracts s)
        (check_outputs-state (o ∷ os) n.module_.output_contracts s)
    where
      step :
          (out : Result (Unit {0}) × Run V W)
          → out.1 ≡ s
          → Completes n s (
              and_then out.0 out.1 λ _ s'. (
                ok tt,
                record s' {
                  context = adapt.Dict.update s'.context (o ∷ os);
                  completed = s'.completed ++ name_of n ∷ [];
                },
              ))
      step (ok a, s') e = ap (λ r. r.completed ++ name_of n ∷ []) e
      step (raise err, s') e = ap (λ r. r.completed) e

  pub run_node-Completes : (n : Node V W) (s : Run V W) → Completes n s (run_node n s)
  unfolding run_node run_module
  run_node-Completes n s =
      inputs (check_inputs n.module_.input_contracts s)
        (check_inputs-state n.module_.input_contracts s)
    where
      module_result :
          (out : Result (Dict Text V) × Run V W)
          → out.1.completed ≡ s.completed
          → Completes n s (and_then out.0 out.1 (finish_node n))
      module_result (ok os, s') e = from (finish_node n os s') (finish_node-Completes n os s')
        where
          from : (out : Result (Unit {0}) × Run V W) → Completes n s' out → Completes n s out
          from (ok a, t) c = c ∙ ap (λ cs. cs ++ name_of n ∷ []) e
          from (raise err, t) c = c ∙ e
      module_result (raise err, s') e = e

      inputs :
          (out : Result (Unit {0}) × Run V W)
          → out.1 ≡ s
          → Completes n s (and_then out.0 out.1 λ _. (run_module n >>= finish_node n))
      inputs (ok a, s') e = module_result (run_module n s') (ap (λ r. r.completed) e)
      inputs (raise err, s') e = ap (λ r. r.completed) e

  -- The rule for a pass: what holds of the completed nodes and survives each node that is run when
  -- its dependencies are completed holds after the pass, however it ends.
  module _ (whole : List (Node V W)) (P : List Text → Type 0)
      (step : (n : Node V W) (cs : List Text)
        → Memᴰ n whole
        → mem (name_of n) cs ≡ false
        → all_of (λ d. mem d cs) n.dependencies ≡ true
        → P cs
        → P (cs ++ name_of n ∷ [])) where
    pass_ind :
        (ns : List (Node V W)) (progress : Bool) (s : Run V W)
        → All (λ n. Memᴰ n whole) ns
        → P s.completed
        → P (pass ns progress s).1.completed
    unfolding pass
    pass_ind [] progress s inside h = h
    pass_ind (n ∷ ns) progress s (here, inside) h = elim (Bool-cases (is_completed s (name_of n))) [
      | inl old ↦ rw old (pass_ind ns progress s inside h)
      | inr new ↦ elim (Bool-cases (is_ready s n)) [
        | inl ready ↦
            rw (new, ready)
              (after (run_node n s) (run_node-Completes n s) (step n s.completed here new ready h)
                (λ s' h'. pass_ind ns true s' inside h'))
        | inr waits ↦ rw (new, waits) (pass_ind ns progress s inside h)
      ]
    ]
      where
        after :
            (out : Result (Unit {0}) × Run V W)
            → Completes n s out
            → P (s.completed ++ name_of n ∷ [])
            → ((s' : Run V W) → P s'.completed → P (pass ns true s').1.completed)
            → P (and_then out.0 out.1 (λ _. pass ns true)).1.completed
        after (ok a, s') c p rec = rec s' (subst P (sym c) p)
        after (raise e, s') c p rec = subst P (sym c) h

  All-widen :
      (n : Node V W) (ms ns : List (Node V W))
      → All (λ m. Memᴰ m ns) ms
      → All (λ m. Memᴰ m (n ∷ ns)) ms
  All-widen n [] ns h = tt
  All-widen n (m ∷ ms) ns (h, hs) = (Memᴰ.tail h, All-widen n ms ns hs)

  pub All-self : (ns : List (Node V W)) → All (λ n. Memᴰ n ns) ns
  All-self [] = tt
  All-self (n ∷ ns) = (Memᴰ.head refl, All-widen n ns ns (All-self ns))

  -- The same for the whole loop.
  pub run_loop_ind :
      (whole : List (Node V W)) (P : List Text → Type 0)
      → ((n : Node V W) (cs : List Text)
          → Memᴰ n whole
          → mem (name_of n) cs ≡ false
          → all_of (λ d. mem d cs) n.dependencies ≡ true
          → P cs
          → P (cs ++ name_of n ∷ []))
      → (iterations : ℕ) (s : Run V W) → P s.completed
      → P (run_loop iterations whole s).1.completed
  unfolding run_loop
  run_loop_ind whole P step zero s h = elim (Bool-cases (ltb (length s.completed) (length whole))) [
    | inl more ↦ rw more h
    | inr done ↦ rw done h
  ]
  run_loop_ind whole P step (suc k) s h =
      elim (Bool-cases (ltb (length s.completed) (length whole))) [
        | inl more ↦ rw more (
            after (pass whole false s) (pass_ind whole P step whole false s (All-self whole) h)
              (λ s' h'. run_loop_ind whole P step k s' h'))
        | inr done ↦ rw done h
      ]
    where
      after :
          (out : Result Bool × Run V W)
          → P out.1.completed
          → ((s' : Run V W) → P s'.completed → P (run_loop k whole s').1.completed)
          → P
              (and_then out.0 out.1 (λ progress s'.
                if not progress && ltb (length s'.completed) (length whole)
                then (raise adapt.Exec.runtime_error, s')
                else run_loop k whole s')).1.completed
      after (ok progress, s') p rec =
          elim (Bool-cases (not progress && ltb (length s'.completed) (length whole))) [
            | inl stuck ↦ rw stuck p
            | inr going ↦ rw going (rec s' p)
          ]
      after (raise e, s') p rec = p

  -- When the loop returns, it is because all the nodes are completed.
  pub run_loop-ok-length :
      (whole : List (Node V W)) (iterations : ℕ) (s : Run V W)
      → (run_loop iterations whole s).0 ≡ ok tt
      → length whole ≤ length (run_loop iterations whole s).1.completed
  unfolding run_loop
  run_loop-ok-length whole zero s h = elim (Bool-cases (ltb (length s.completed) (length whole))) [
    | inl more ↦ absurd (ground arith)
    | inr done ↦ rw done (ground arith)
  ]
  run_loop-ok-length whole (suc k) s h =
      elim (Bool-cases (ltb (length s.completed) (length whole))) [
        | inl more ↦
            rw more (
              after (pass whole false s) (rw more at h) (λ s' h'. run_loop-ok-length whole k s' h'))
        | inr done ↦ rw done (ground arith)
      ]
    where
      after :
          (out : Result Bool × Run V W)
          → (and_then out.0 out.1 (λ progress s'.
              if not progress && ltb (length s'.completed) (length whole)
              then (raise adapt.Exec.runtime_error, s')
              else run_loop k whole s')).0
            ≡ ok tt
          → ((s' : Run V W)
              → (run_loop k whole s').0 ≡ ok tt
              → length whole ≤ length (run_loop k whole s').1.completed)
          → length whole
            ≤ length
                (and_then out.0 out.1 (λ progress s'.
                  if not progress && ltb (length s'.completed) (length whole)
                  then (raise adapt.Exec.runtime_error, s')
                  else run_loop k whole s')).1.completed
      after (ok progress, s') p rec =
          elim (Bool-cases (not progress && ltb (length s'.completed) (length whole))) [
            | inl stuck ↦ absurd (ground arith)
            | inr going ↦ rw going (rec s' (rw going at p))
          ]
      after (raise e, s') p rec = absurd (ground arith)
