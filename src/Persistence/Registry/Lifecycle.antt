-- ===== src/Persistence/Registry/Lifecycle.antt =====
-- The life of a run in the registry (src/adapt/persistence/store_registry.py) as a state machine.
use adapt.Prelude.{
  ◌≡◌, refl, sym, ◌⊎◌, inl, inr, Bool, true, false, not, Option, none, some, arith, Text, text_eq,
  Bool-cases, Option-cases, ℕ, subst,
}
use adapt.Dict.{Dict, get, has, put, has_false→get}
use adapt.Persistence.Rows.{Instant}
use adapt.Persistence.Registry.{
  RunStatus, running, completed, cancelled, failed, is_running, RunStart, RunRow, Registry,
  terminal_status, started, reopened, finalized, begin_run, resume_run, finalize_run,
}

-- Where a run stands: not begun, underway, or closed with a status.
pub data Lifecycle : Type 0 where
  absent underway : Lifecycle
  closed : RunStatus → Lifecycle

abbrev pub stage_of : RunStatus → Lifecycle
stage_of running = underway
stage_of status = closed status

abbrev pub lifecycle_of : Option RunRow → Lifecycle
lifecycle_of none = absent
lifecycle_of (some row) = stage_of row.status

-- What may happen to a run.
pub data Step : Lifecycle → Lifecycle → Type 0 where
  begins : Step absent underway
  finishes : (status : RunStatus) → is_running status ≡ false → Step underway (closed status)
  resumes : (status : RunStatus) → Step (closed status) underway
  stays : (stage : Lifecycle) → Step stage stage

-- A row has an end time exactly if its run is not running.
abbrev pub ends : Option Instant → Bool
ends none = false
ends (some t) = true

abbrev pub HasEnd : RunRow → Type 0
HasEnd row = is_running row.status ≡ not (ends row.ended_at)

-- The runs are as they were, or one has a row whose stage is one step from the last.
pub data Change (runs runs' : Dict Text RunRow) (known : Text → Bool) : Type 0 where
  same : runs' ≡ runs → Change runs runs' known
  moved :
      (run_id : Text) (row : RunRow)
      → runs' ≡ put run_id row runs
      → Step (lifecycle_of (get run_id runs)) (stage_of row.status)
      → HasEnd row
      → ((known row.start.collection_id ≡ true)
          ⊎ ((old : RunRow) × (get run_id runs ≡ some old) × (old.start ≡ row.start)))
      → Change runs runs' known

resumed-Step : (status : RunStatus) → Step (stage_of status) underway
resumed-Step running = stays underway
resumed-Step completed = resumes completed
resumed-Step cancelled = resumes cancelled
resumed-Step failed = resumes failed

running_stage : (status : RunStatus) → is_running status ≡ true → stage_of status ≡ underway
running_stage running h = refl
running_stage completed h = absurd (ground arith)
running_stage cancelled h = absurd (ground arith)
running_stage failed h = absurd (ground arith)

finished-Step : (status : RunStatus) → is_running status ≡ false → Step underway (stage_of status)
finished-Step running h = absurd (ground arith)
finished-Step completed h = finishes completed refl
finished-Step cancelled h = finishes cancelled refl
finished-Step failed h = finishes failed refl

pub terminal_closes :
    (word : Text) (status : RunStatus)
    → terminal_status word ≡ some status
    → is_running status ≡ false
terminal_closes word status h = ground arith

module _ {F : Type 0} where
  -- What a method does to the runs.
  abbrev pub Moves : Registry F → Registry F → Type 0
  Moves r r' = Change r.runs r'.runs (λ c. has c r'.collections)

  pub begin_run-Moves :
      (now : Instant) (start : RunStart) (r : Registry F) → Moves r (begin_run now start r).1
  unfolding begin_run
  begin_run-Moves now start r = elim (Bool-cases (has start.collection_id r.collections)) [
    | inr unknown ↦ rw unknown (same refl)
    | inl known ↦ elim (Bool-cases (has start.run_id r.runs)) [
      | inl taken ↦ rw (known, taken) (same refl)
      | inr new ↦
          rw (known, new)
            (moved start.run_id (started now start) refl
              (subst (λ x. Step (lifecycle_of x) underway)
                (sym (has_false→get start.run_id r.runs new)) begins)
              refl (inl known))
    ]
  ]

  pub resume_run-Moves : (run_id : Text) (r : Registry F) → Moves r (resume_run run_id r).1
  unfolding resume_run
  resume_run-Moves run_id r = elim (Option-cases (get run_id r.runs)) [
    | inr missing ↦ rw missing (same refl)
    | inl (row, e) ↦ rw e (
        moved run_id (reopened row) refl
          (subst (λ x. Step (lifecycle_of x) underway) (sym e) (resumed-Step row.status)) refl
          (inr (row, e, refl)))
  ]

  finalized-Moves :
      (now : Instant) (run_id : Text) (status : RunStatus) (processed failures : Option ℕ)
      (row : RunRow) (r : Registry F)
      → get run_id r.runs ≡ some row
      → is_running row.status ≡ true
      → is_running status ≡ false
      → Moves r
          (record r { runs = put run_id (finalized now status processed failures row) r.runs })
  finalized-Moves now run_id status processed failures row r e open_run closes =
      moved run_id (finalized now status processed failures row) refl
        (subst (λ x. Step (lifecycle_of x) (stage_of status)) (sym e)
          (subst (λ x. Step x (stage_of status)) (sym (running_stage row.status open_run))
            (finished-Step status closes)))
        (ground (arith, closes)) (inr (row, e, refl))

  pub finalize_run-Moves :
      (now : Instant) (run_id word : Text) (processed failures : Option ℕ) (r : Registry F)
      → Moves r (finalize_run now run_id word processed failures r).1
  unfolding finalize_run
  finalize_run-Moves now run_id word processed failures r =
      elim (Option-cases (terminal_status word)) [
        | inr other ↦ rw other (same refl)
        | inl (status, w) ↦ elim (Option-cases (get run_id r.runs)) [
          | inr missing ↦ rw (w, missing) (same refl)
          | inl (row, e) ↦ elim (Bool-cases (is_running row.status)) [
            | inr done ↦ rw (w, e, done) (same refl)
            | inl open_run ↦
                rw (w, e, open_run)
                  (finalized-Moves now run_id status processed failures row r e open_run
                    (terminal_closes word status w))
          ]
        ]
      ]
