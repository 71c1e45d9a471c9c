-- ===== src/Targets/Engine.antt =====
-- engine.py of src/adapt/consumers/target_selection: the engine's state is the current target.
pub mod Candidates
pub mod Decisions
use adapt.Prelude.{ℕ, Option, none, some, List, [], ◌∷◌, Text, text_eq, ◌==◌, if◌then◌else◌}
use adapt.Dict.{Dict, get, put}
use adapt.Exec.{Exec, Result, ok, raise, key_error, pure, gets, modify, lift, need, ◌>>=◌, ◌>>◌}
use adapt.Floats.{FloatOps}
use adapt.Targets.Models.{
  SelectionReason, new_target, switch, StopReason, max_duration, TseConfig, CellSnapshot, Snapshot,
  TargetSelection, CurrentTarget,
}
use adapt.Targets.Rules.{
  is_candidate, total_score, select_best, continue_or_switch, should_stop, without,
}

-- datetime: the seconds from one time to another, and a time some seconds later, where adding a
-- timedelta may raise OverflowError or ValueError.
pub record Calendar (F : Type 0) : Type 0 where
  pub seconds_between : ℕ → ℕ → F
  pub add_seconds : ℕ → F → Result ℕ

module _ {F : Type 0} (fl : FloatOps F) (calendar : Calendar F) (config : TseConfig F) where
  -- The dicts `candidates` and `scored`: the candidates of the snapshot by uid, each with its score.
  unfoldable pub candidates_from :
      List (CellSnapshot F) → Dict Text (CellSnapshot F) → Result (Dict Text (CellSnapshot F))
  candidates_from [] found = ok found
  candidates_from (c ∷ cells) found = elim (is_candidate fl c config) [
    | raise e ↦ raise e
    | ok candidate ↦ candidates_from cells (if candidate then put c.uid c found else found)
  ]

  unfoldable pub scores_of : Dict Text (CellSnapshot F) → Result (Dict Text F)
  scores_of [] = ok []
  scores_of ((uid, c) ∷ candidates) =
      let rest = scores_of candidates in
      elim (total_score fl c config) [
        | raise e ↦ raise e
        | ok score ↦ elim rest [ raise e ↦ raise e | ok scores ↦ ok ((uid, score) ∷ scores) ]
      ]

  -- _find
  abbrev pub find : List (CellSnapshot F) → Text → Option (CellSnapshot F)
  find [] uid = none
  find (c ∷ cells) uid = if c.uid == uid then some c else find cells uid

  -- _selection
  abbrev pub selection :
      Snapshot F
      → CellSnapshot F
      → F
      → SelectionReason
      → (started_at : ℕ) → Exec (Option CurrentTarget) (Option (TargetSelection F))
  selection snapshot cell score reason started_at = do
    window_end ← lift (calendar.add_seconds started_at config.max_observation_seconds)
    pure (
        some (record {
          cell_uid = cell.uid;
          reason = reason;
          score = score;
          selection_time = snapshot.scan_time;
          trajectory = cell.trajectory;
          observation_window = (snapshot.scan_time, window_end);
        }))

  abbrev pub Engine : Type 0 → Type 0
  Engine A = Exec (Option CurrentTarget) A

  -- {uid: s for uid, s in scored.items() if uid not in exclude}, of at most one excluded uid
  abbrev eligible : Option Text → Dict Text F → Dict Text F
  eligible none scored = scored
  eligible (some uid) scored = without fl uid scored

  pub start_best :
      Snapshot F
      → Dict Text (CellSnapshot F)
      → Option (Text × F)
      → Engine (Option (TargetSelection F))
  start_best snapshot candidates none = pure none
  start_best snapshot candidates (some (uid, score)) = do
    modify (λ s. some (record { cell_uid = uid; started_at = snapshot.scan_time }))
    cell ← need key_error (get uid candidates)
    selection snapshot cell score new_target snapshot.scan_time

  -- _start_new
  pub start_new :
      Snapshot F
      → Dict Text (CellSnapshot F)
      → Dict Text F
      → Option Text
      → Engine (Option (TargetSelection F))
  unfolding start_best
  start_new snapshot candidates scored exclude =
      start_best snapshot candidates (select_best fl (eligible exclude scored))

  abbrev excluded_by : StopReason → Text → Option Text
  excluded_by max_duration uid = some uid
  excluded_by _ uid = none

  abbrev after_switch : Snapshot F → CurrentTarget → Text → SelectionReason → CurrentTarget
  after_switch snapshot current uid switch = record {
    cell_uid = uid;
    started_at = snapshot.scan_time;
  }
  after_switch snapshot current uid _ = current

  -- The part of `select` for a current target: stop it, or continue or switch.
  pub follow :
      Snapshot F
      → Dict Text (CellSnapshot F)
      → Dict Text F
      → CurrentTarget
      → Option StopReason
      → Engine (Option (TargetSelection F))
  unfolding start_new
  follow snapshot candidates scored current (some stop) = do
    modify (λ s. none)
    start_new snapshot candidates scored (excluded_by stop current.cell_uid)
  follow snapshot candidates scored current none = do
    decision ← lift (continue_or_switch fl current.cell_uid scored config.switch_margin)
    let target = after_switch snapshot current decision.0 decision.1
    modify (λ s. some target)
    cell ← need key_error (get decision.0 candidates)
    score ← need key_error (get decision.0 scored)
    selection snapshot cell score decision.1 target.started_at

  pub select_for :
      Snapshot F
      → Dict Text (CellSnapshot F)
      → Dict Text F
      → Option CurrentTarget
      → Engine (Option (TargetSelection F))
  unfolding follow start_new
  select_for snapshot candidates scored none = start_new snapshot candidates scored none
  select_for snapshot candidates scored (some current) = do
    stop ← lift (
        should_stop fl (find snapshot.cells current.cell_uid) config
          (calendar.seconds_between current.started_at snapshot.scan_time))
    follow snapshot candidates scored current stop

  -- TargetSelectionEngine.select
  unfoldable pub select : Snapshot F → Engine (Option (TargetSelection F))
  unfolding candidates_from scores_of select_for
  select snapshot = do
    candidates ← lift (candidates_from snapshot.cells [])
    scored ← lift (scores_of candidates)
    current ← gets (λ s. s)
    select_for snapshot candidates scored current
