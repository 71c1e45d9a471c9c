-- ===== src/Persistence/Registry/Refinement.antt =====
-- The registry (src/adapt/persistence/store_registry.py) and the machine on the stages of its runs.
use adapt.Prelude.{
  ◌≡◌, refl, sym, ap, ◌∙◌, inl, inr, true, false, ◌&&◌, Option, none, some, List, [], ◌∷◌, arith,
  Text, text_eq, text_beq_iff, ◌==◌, Bool-cases, Option-cases, ℕ,
}
use adapt.Dict.{get, put, has, get-put, has-put, get→has, has→get, has_false→get}
use adapt.Persistence.Rows.{Instant}
use adapt.Persistence.Registry.{
  RunStatus, running, completed, cancelled, failed, is_running, RunStart, RunRow, ModuleKey,
  ModuleRow, RunEvent, Registry, terminal_status, started, reopened, finalized, is_severity,
  register_collection, ensure_collection_location, begin_run, resume_run, finalize_run,
  record_module_execution, record_run_event,
}
use adapt.Persistence.Registry.Lifecycle.{
  Lifecycle, absent, underway, closed, stage_of, lifecycle_of, terminal_closes,
}
use adapt.Persistence.Registry.Histories.{
  RegistryOperation, add_collection, locate, begin_one, resume_one, finalize_one, note_module,
  note_event, registry_after, registry_after_all, located-runs,
}
use adapt.Persistence.Registry.Consistency.{empty_registry}
use adapt.Persistence.Registry.Machine.{
  Lives, move, set, is_begun, is_underway, nothing_yet, lives_after, lives_after_all,
}

stage_begun : (status : RunStatus) → is_begun (stage_of status) ≡ true
stage_begun status = ground arith

stage_underway : (status : RunStatus) → is_underway (stage_of status) ≡ is_running status
stage_underway status = ground arith

stage_closed : (status : RunStatus) → is_running status ≡ false → stage_of status ≡ closed status
stage_closed running h = absurd (ground arith)
stage_closed completed h = refl
stage_closed cancelled h = refl
stage_closed failed h = refl

module _ {F : Type 0} where
  pub record Refines (r : Registry F) (l : Lives) : Type 0 where
    pub collections : (c : Text) → has c r.collections ≡ l.known c
    pub stages : (i : Text) → lifecycle_of (get i r.runs) ≡ l.stands i

  same_runs :
      (r r' : Registry F) (l : Lives)
      → r'.collections ≡ r.collections
      → r'.runs ≡ r.runs
      → Refines r l
      → Refines r' l
  same_runs r r' l same_collections same h = record {
    collections = λ c. ap (has c) same_collections ∙ h.collections c;
    stages = λ i. ap (λ d. lifecycle_of (get i d)) same ∙ h.stages i;
  }

  moved-Refines :
      (run_id : Text) (row : RunRow) (stage : Lifecycle) (r : Registry F) (l : Lives)
      → stage_of row.status ≡ stage
      → Refines r l
      → Refines (record r { runs = put run_id row r.runs }) (move run_id stage l)
  moved-Refines run_id row stage r l now h = record {
    collections = h.collections;
    stages = λ i. ap lifecycle_of (get-put run_id i row r.runs) ∙ elim (Bool-cases (run_id == i)) [
      | inl here ↦ rw here now
      | inr other ↦ rw other (h.stages i)
    ];
  }

  -- What the machine sees of a run that is there, and of one that is not.
  stage_found :
      (run_id : Text) (row : RunRow) (r : Registry F) (l : Lives)
      → Refines r l
      → get run_id r.runs ≡ some row
      → l.stands run_id ≡ stage_of row.status
  stage_found run_id row r l h e = sym (h.stages run_id) ∙ ap lifecycle_of e

  stage_missing :
      (run_id : Text) (r : Registry F) (l : Lives)
      → Refines r l
      → get run_id r.runs ≡ none
      → l.stands run_id ≡ absent
  stage_missing run_id r l h e = sym (h.stages run_id) ∙ ap lifecycle_of e

  begin_run-Refines :
      (now : Instant) (start : RunStart) (r : Registry F) (l : Lives)
      → Refines r l
      → Refines (begin_run now start r).1 (lives_after {F = F} (begin_one now start) l)
  unfolding begin_run lives_after
  begin_run-Refines now start r l h = elim (Bool-cases (has start.collection_id r.collections)) [
    | inr unknown ↦ rw (unknown, sym (h.collections start.collection_id) ∙ unknown) h
    | inl known ↦
        let known' = sym (h.collections start.collection_id) ∙ known in
        elim (Bool-cases (has start.run_id r.runs)) [
          | inl taken ↦
              let (row, e) = has→get start.run_id r.runs taken in
              rw
                (known, taken, known', stage_found start.run_id row r l h e, stage_begun row.status)
                h
          | inr new ↦
              rw
                (
                  known,
                  new,
                  known',
                  stage_missing start.run_id r l h (has_false→get start.run_id r.runs new),
                )
                (moved-Refines start.run_id (started now start) underway r l refl h)
        ]
  ]

  resume_run-Refines :
      (run_id : Text) (r : Registry F) (l : Lives)
      → Refines r l
      → Refines (resume_run run_id r).1 (lives_after {F = F} (resume_one run_id) l)
  unfolding resume_run lives_after
  resume_run-Refines run_id r l h = elim (Option-cases (get run_id r.runs)) [
    | inr missing ↦ rw (missing, stage_missing run_id r l h missing) h
    | inl (row, e) ↦
        rw (e, stage_found run_id row r l h e, stage_begun row.status)
          (moved-Refines run_id (reopened row) underway r l refl h)
  ]

  finalize_run-Refines :
      (now : Instant) (run_id word : Text) (processed failures : Option ℕ) (r : Registry F)
      (l : Lives)
      → Refines r l
      → Refines
          (finalize_run now run_id word processed failures r).1
          (lives_after {F = F} (finalize_one now run_id word processed failures) l)
  unfolding finalize_run lives_after
  finalize_run-Refines now run_id word processed failures r l h =
      elim (Option-cases (terminal_status word)) [
        | inr other ↦ rw other h
        | inl (status, w) ↦ elim (Option-cases (get run_id r.runs)) [
          | inr missing ↦ rw (w, missing, stage_missing run_id r l h missing) h
          | inl (row, e) ↦
              let seen = stage_found run_id row r l h e in
              elim (Bool-cases (is_running row.status)) [
                | inr done ↦ rw (w, e, done, seen, stage_underway row.status ∙ done) h
                | inl open_run ↦
                    rw (w, e, open_run, seen, stage_underway row.status ∙ open_run)
                      (moved-Refines run_id (finalized now status processed failures row)
                        (closed status) r l (stage_closed status (terminal_closes word status w)) h)
              ]
        ]
      ]

  registered-Refines :
      (now : Instant) (collection_id source_kind : Text) (lat lon : Option F)
      (metadata_json : Option Text) (r : Registry F) (l : Lives)
      → Refines r l
      → Refines
          (register_collection now collection_id source_kind lat lon metadata_json r).1
          (record l { known = set collection_id true l.known })
  unfolding register_collection
  registered-Refines now collection_id source_kind lat lon metadata_json r l h =
      elim (Bool-cases (has collection_id r.collections)) [
        | inl old ↦ rw old (record {
          collections = λ c. elim (Bool-cases (collection_id == c)) [
            | inl here ↦
                rw here (
                  ap (λ x. has x r.collections) (sym ((text_beq_iff collection_id c).0 here)) ∙ old)
            | inr other ↦ rw other (h.collections c)
          ];
          stages = h.stages;
        })
        | inr new ↦ rw new (record {
          collections = λ c.
              has-put collection_id c _ r.collections ∙ elim (Bool-cases (collection_id == c)) [
                | inl here ↦ rw here refl
                | inr other ↦ rw other (h.collections c)
              ];
          stages = h.stages;
        })
      ]

  located-collections :
      (collection_id : Text) (lat lon : F) (r : Registry F) (c : Text)
      → has c (ensure_collection_location collection_id lat lon r).1.collections
        ≡ has c r.collections
  unfolding ensure_collection_location
  located-collections collection_id lat lon r c =
      elim (Option-cases (get collection_id r.collections)) [
        | inr missing ↦ rw missing refl
        | inl (old, e) ↦ rw e (
            has-put collection_id c _ r.collections ∙ elim (Bool-cases (collection_id == c)) [
              | inl here ↦ rw here (
                  sym (
                    ap (λ x. has x r.collections) (sym ((text_beq_iff collection_id c).0 here))
                    ∙ get→has collection_id old r.collections e))
              | inr other ↦ rw other refl
            ])
      ]

  noted_module-Refines :
      (key : ModuleKey) (row : ModuleRow F) (r : Registry F) (l : Lives)
      → Refines r l
      → Refines (record_module_execution key row r).1 l
  unfolding record_module_execution
  noted_module-Refines key row r l h = elim (Bool-cases (has key.run_id r.runs)) [
    | inl known ↦ rw known (same_runs r _ l refl refl h)
    | inr unknown ↦ rw unknown h
  ]

  noted_event-Refines :
      (event : RunEvent) (r : Registry F) (l : Lives)
      → Refines r l
      → Refines (record_run_event event r).1 l
  unfolding record_run_event
  noted_event-Refines event r l h =
      elim (Bool-cases (has event.run_id r.runs && is_severity event.severity)) [
        | inl fine ↦ rw fine (same_runs r _ l refl refl h)
        | inr refused ↦ rw refused h
      ]

  registry_after-Refines :
      (o : RegistryOperation F) (r : Registry F) (l : Lives)
      → Refines r l
      → Refines (registry_after o r) (lives_after o l)
  unfolding registry_after lives_after
  registry_after-Refines (add_collection now collection_id source_kind lat lon metadata_json) r l
        h =
      registered-Refines now collection_id source_kind lat lon metadata_json r l h
  registry_after-Refines (locate collection_id lat lon) r l h = record {
    collections = λ c. located-collections collection_id lat lon r c ∙ h.collections c;
    stages =
        λ i. ap (λ d. lifecycle_of (get i d)) (located-runs collection_id lat lon r) ∙ h.stages i;
  }
  registry_after-Refines (begin_one now start) r l h = begin_run-Refines now start r l h
  registry_after-Refines (resume_one run_id) r l h = resume_run-Refines run_id r l h
  registry_after-Refines (finalize_one now run_id status processed failures) r l h =
      finalize_run-Refines now run_id status processed failures r l h
  registry_after-Refines (note_module key row) r l h = noted_module-Refines key row r l h
  registry_after-Refines (note_event event) r l h = noted_event-Refines event r l h

  all_after-Refines :
      (operations : List (RegistryOperation F)) (r : Registry F) (l : Lives)
      → Refines r l
      → Refines (registry_after_all operations r) (lives_after_all operations l)
  unfolding registry_after_all lives_after_all
  all_after-Refines [] r l h = h
  all_after-Refines (o ∷ operations) r l h =
      all_after-Refines operations (registry_after o r) (lives_after o l)
        (registry_after-Refines o r l h)

  -- Over any calls of the registry's methods on an empty registry, of which any may have raised, the
  -- registered collections and the stage of every run are, call by call, those of the machine: a run
  -- begins if its collection is registered and it has not begun, goes on if it is resumed, and takes a
  -- terminal status if it is finalized while it is underway, and nothing else moves it.
  pub registry_after_all-Refines :
      (operations : List (RegistryOperation F))
      → Refines
          (registry_after_all operations empty_registry)
          (lives_after_all operations nothing_yet)
  unfolding get has
  registry_after_all-Refines operations =
      all_after-Refines operations empty_registry nothing_yet
        (record { collections = λ c. refl; stages = λ i. refl })
