-- ===== src/Targets/Engine/Decisions.antt =====
-- TargetSelectionEngine.select (src/adapt/consumers/target_selection/engine.py): its result and
-- the target that it keeps.
use adapt.Prelude.{
  ◌≡◌, refl, sym, ap, ◌∙◌, ◌⊎◌, inl, inr, All-map, true, false, Option, none, some, [], ◌∷◌, arith,
  Text, text_eq, All, Bool-cases, Option-cases,
}
use adapt.Dict.{Dict, get, has, has→get}
use adapt.Exec.{Result, ok, raise, Result-cases}
use adapt.Floats.{FloatOps}
use adapt.Targets.Models.{
  TseConfig, CellSnapshot, Snapshot, TargetSelection, CurrentTarget, StopReason, quality_dropped,
  target_lost, max_duration, SelectionReason, new_target, continuation, switch,
}
use adapt.Targets.Rules.{select_best, without, continue_or_switch, should_stop}
use adapt.Targets.Engine.{
  Calendar, candidates_from, scores_of, find, eligible, start_best, start_new, follow, select_for,
  select, selection, excluded_by, after_switch,
}
use adapt.Targets.Engine.Candidates.{
  select_best-All, without-All, eligible-All, IsKeyed, empty-IsKeyed, Collects,
  candidates_from-Collects, has-scores_of,
}

abbrev pub current_uid : Option CurrentTarget → Option Text
current_uid none = none
current_uid (some target) = some target.cell_uid

module _ {F : Type 0} where
  abbrev pub selected_uid : Option (TargetSelection F) → Option Text
  selected_uid none = none
  selected_uid (some selection) = some selection.cell_uid

  -- The outcome of a call: the selection, if there is one, is of the cell that the engine keeps as its
  -- target; or the end of the window of the target that the engine keeps has raised.
  abbrev pub Agrees :
      Calendar F → TseConfig F → Result (Option (TargetSelection F)) × Option CurrentTarget → Type 0
  Agrees calendar config (ok out, state) = selected_uid out ≡ current_uid state
  Agrees calendar config (raise e, state) =
      (target : CurrentTarget) × (state ≡ some target)
      × (calendar.add_seconds target.started_at config.max_observation_seconds ≡ raise e)

module _ {F : Type 0} (fl : FloatOps F) (calendar : Calendar F) (config : TseConfig F)
    (snapshot : Snapshot F) (candidates : Dict Text (CellSnapshot F)) (scored : Dict Text F)
    (keyed : IsKeyed fl calendar config candidates)
    (same_keys : (uid : Text) → has uid scored ≡ has uid candidates) where
  All-has : (d : Dict Text F) → All (λ x. has x.0 d ≡ true) d
  unfolding has
  All-has [] = tt
  All-has ((u, s) ∷ d) =
      (ground (arith, text_eq.beq_iff u u), All-map d (λ x h. ground (arith, h)) (All-has d))

  listed : All (λ x. has x.0 candidates ≡ true) scored
  listed = All-map scored (λ x h. sym (same_keys x.0) ∙ h) (All-has scored)

  selection-Agrees :
      (cell : CellSnapshot F) (score : F) (reason : SelectionReason) (target : CurrentTarget)
      → cell.uid ≡ target.cell_uid
      → Agrees calendar config
          (selection fl calendar config snapshot cell score reason target.started_at (some target))
  selection-Agrees cell score reason target same =
      elim (Result-cases (calendar.add_seconds target.started_at config.max_observation_seconds)) [
        | inl (t, e) ↦ rw e (ap some same)
        | inr (x, e) ↦ rw e (target, refl, e)
      ]

  start_best-Agrees :
      (best : Option (Text × F)) (state : Option CurrentTarget)
      → ((b : Text × F) → best ≡ some b → has b.0 candidates ≡ true)
      → (best ≡ none → state ≡ none)
      → Agrees calendar config (start_best fl calendar config snapshot candidates best state)
  unfolding start_best
  start_best-Agrees none state inside idle = rw (idle refl) refl
  start_best-Agrees (some (uid, score)) state inside idle =
      let (cell, e) = has→get uid candidates (inside (uid, score) refl) in
      rw e (
        selection-Agrees cell score new_target
          (record { cell_uid = uid; started_at = snapshot.scan_time }) (keyed uid cell e))

  start_new-Agrees :
      (exclude : Option Text)
      → Agrees calendar config
          (start_new fl calendar config snapshot candidates scored exclude none)
  unfolding start_new
  start_new-Agrees exclude =
      start_best-Agrees (select_best fl (eligible fl calendar config exclude scored)) none
        (λ b e.
          select_best-All fl calendar config (λ x. has x.0 candidates ≡ true)
            (eligible fl calendar config exclude scored) b e
            (eligible-All fl calendar config (λ x. has x.0 candidates ≡ true) exclude scored
              listed))
        (λ _. refl)

  -- Acting on a decision for a candidate.
  follow-step :
      (current : CurrentTarget) (uid : Text) (reason : SelectionReason)
      → continue_or_switch fl current.cell_uid scored config.switch_margin ≡ ok (uid, reason)
      → has uid candidates ≡ true
      → (after_switch fl calendar config snapshot current uid reason).cell_uid ≡ uid
      → Agrees calendar config
          (follow fl calendar config snapshot candidates scored current none (some current))
  unfolding follow
  follow-step current uid reason e h same =
      let (cell, c) = has→get uid candidates h in
      let (score, s) = has→get uid scored (same_keys uid ∙ h) in
      rw (e, c, s)
        (selection-Agrees cell score reason
          (after_switch fl calendar config snapshot current uid reason)
          (keyed uid cell c ∙ sym same))

  moves :
      (current : CurrentTarget) (score : F)
      → get current.cell_uid scored ≡ some score
      → (best : Text) (top : F)
      → select_best fl (without fl current.cell_uid scored) ≡ some (best, top)
      → fl.less (fl.plus score config.switch_margin) top ≡ true
      → continue_or_switch fl current.cell_uid scored config.switch_margin ≡ ok (best, switch)
  unfolding continue_or_switch
  moves current score s best top e more = rw (continue_or_switch, e, s, more) refl

  stays :
      (current : CurrentTarget) (score : F)
      → get current.cell_uid scored ≡ some score
      → (select_best fl (without fl current.cell_uid scored) ≡ none)
        ⊎ ((best : Text) × (top : F) × (select_best fl (without fl current.cell_uid scored)
              ≡ some (best, top))
            × (fl.less (fl.plus score config.switch_margin) top ≡ false))
      → continue_or_switch fl current.cell_uid scored config.switch_margin
        ≡ ok (current.cell_uid, continuation)
  unfolding continue_or_switch
  stays current score s (inl nothing) = rw (continue_or_switch, nothing) refl
  stays current score s (inr (best, top, e, less)) = rw (continue_or_switch, e, s, less) refl

  -- With a target that is still a candidate.
  follow-Agrees :
      (current : CurrentTarget)
      → has current.cell_uid candidates ≡ true
      → Agrees calendar config
          (follow fl calendar config snapshot candidates scored current none (some current))
  follow-Agrees current h =
      let (score, s) = has→get current.cell_uid scored (same_keys current.cell_uid ∙ h) in
      elim (Option-cases (select_best fl (without fl current.cell_uid scored))) [
        | inr nothing ↦
            follow-step current current.cell_uid continuation (stays current score s (inl nothing))
              h refl
        | inl ((best, top), e) ↦
            let found =
              select_best-All fl calendar config (λ x. has x.0 candidates ≡ true)
                (without fl current.cell_uid scored) (best, top) e
                (without-All fl calendar config (λ x. has x.0 candidates ≡ true) current.cell_uid
                  scored listed) in
            elim (Bool-cases (fl.less (fl.plus score config.switch_margin) top)) [
              | inl more ↦
                  follow-step current best switch (moves current score s best top e more) found refl
              | inr less ↦
                  follow-step current current.cell_uid continuation
                    (stays current score s (inr (best, top, e, less))) h refl
            ]
      ]

  stop-Agrees :
      (current : CurrentTarget) (stop : StopReason)
      → Agrees calendar config
          (follow fl calendar config snapshot candidates scored current (some stop) (some current))
  unfolding follow
  stop-Agrees current stop = start_new-Agrees (excluded_by fl calendar config stop current.cell_uid)

  select_for-Agrees :
      (state : Option CurrentTarget)
      → Collects fl calendar config snapshot.cells [] candidates
      → Agrees calendar config
          (select_for fl calendar config snapshot candidates scored state state)
  unfolding select_for should_stop
  select_for-Agrees none c = start_new-Agrees none
  select_for-Agrees (some current) c =
      elim (Option-cases (find fl calendar config snapshot.cells current.cell_uid)) [
        | inr lost ↦ rw (lost, should_stop) (stop-Agrees current target_lost)
        | inl (cell, f) ↦
            let (b, i) = c.checked current.cell_uid cell f in
            elim (Bool-cases b) [
              | inr dropped ↦ rw (f, should_stop, i, dropped) (stop-Agrees current quality_dropped)
              | inl passed ↦
                  elim (Bool-cases (
                    fl.less_eq config.max_observation_seconds
                      (calendar.seconds_between current.started_at snapshot.scan_time))) [
                        | inl long ↦
                            rw (f, should_stop, i, passed, long) (stop-Agrees current max_duration)
                        | inr short ↦
                            rw (f, should_stop, i, passed, short)
                              (follow-Agrees current (c.passes current.cell_uid cell b f i passed))
                      ]
            ]
      ]

module _ {F : Type 0} (fl : FloatOps F) (calendar : Calendar F) (config : TseConfig F) where
  -- If the gates and the scores of the snapshot's cells raise nothing: `select` returns, and its
  -- selection and the target that the engine keeps name the same cell, or there is neither; or it
  -- raises what adding the longest observation to the start of the target that it keeps raises.
  pub select-Agrees :
      (snapshot : Snapshot F) (candidates : Dict Text (CellSnapshot F)) (scored : Dict Text F)
      (state : Option CurrentTarget)
      → candidates_from fl calendar config snapshot.cells [] ≡ ok candidates
      → scores_of fl calendar config candidates ≡ ok scored
      → Agrees calendar config (select fl calendar config snapshot state)
  unfolding select
  select-Agrees snapshot candidates scored state p q =
      let c = candidates_from-Collects fl calendar config snapshot.cells [] candidates p in
      rw (p, q)
        (select_for-Agrees fl calendar config snapshot candidates scored
          (c.keyed (empty-IsKeyed fl calendar config))
          (λ uid. has-scores_of fl calendar config candidates scored uid q) state c)
