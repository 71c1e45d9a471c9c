-- ===== src/Persistence/Registry/Consistency.antt =====
-- The invariant of the registry's tables (src/adapt/persistence/store_registry.py), and that a run is
-- finalized once.
use adapt.Prelude.{
  ◌≡◌, refl, sym, ap, subst, ◌∙◌, inl, inr, true, false, Option, some, List, [], ◌∷◌, arith, Text,
  text_eq, beq_refl, Bool-cases, Option-cases, ℕ,
}
use adapt.Dict.{get, has, get-put, get-put_cases, has-put}
use adapt.Exec.{Result, ok, raise, Error, store_error, value_error}
use adapt.Persistence.Rows.{Instant}
use adapt.Persistence.Registry.{
  is_running, RunStart, RunRow, Registry, terminal_status, finalized, register_collection,
  ensure_collection_location, begin_run, resume_run, finalize_run, record_module_execution,
  record_run_event,
}
use adapt.Persistence.Registry.Lifecycle.{HasEnd, Change, same, moved, terminal_closes}
use adapt.Persistence.Registry.Histories.{
  RegistryOperation, add_collection, locate, begin_one, resume_one, finalize_one, note_module,
  note_event, registry_after, registry_after_all, registry_after-Moves,
}

module _ {F : Type 0} where
  abbrev pub empty_registry : Registry F
  empty_registry = record { collections = []; runs = []; run_modules = []; run_events = [] }

  -- A run has an end time exactly if it is not running, and its collection is registered.
  pub record IsOrderly (r : Registry F) : Type 0 where
    pub ended : (i : Text) (row : RunRow) → get i r.runs ≡ some row → HasEnd row
    pub collected :
        (i : Text) (row : RunRow)
        → get i r.runs ≡ some row
        → has row.start.collection_id r.collections ≡ true

  located_known :
      (collection_id : Text) (lat lon : F) (r : Registry F) (c : Text)
      → has c r.collections ≡ true
      → has c (ensure_collection_location collection_id lat lon r).1.collections ≡ true
  unfolding ensure_collection_location
  located_known collection_id lat lon r c h =
      elim (Option-cases (get collection_id r.collections)) [
        | inr missing ↦ rw missing h
        | inl (old, e) ↦ rw e (has-put collection_id c _ r.collections ∙ ground arith)
      ]

  -- No method removes a collection.
  registry_after-collections :
      (o : RegistryOperation F) (r : Registry F) (c : Text)
      → has c r.collections ≡ true
      → has c (registry_after o r).collections ≡ true
  unfolding registry_after register_collection begin_run resume_run finalize_run
      record_module_execution record_run_event
  registry_after-collections (add_collection now collection_id source_kind lat lon metadata_json) r
        c h =
      elim (Bool-cases (has collection_id r.collections)) [
        | inl known ↦ rw known h
        | inr new ↦ rw new (has-put collection_id c _ r.collections ∙ ground arith)
      ]
  registry_after-collections (locate collection_id lat lon) r c h =
      located_known collection_id lat lon r c h
  registry_after-collections (begin_one now start) r c h = ground arith
  registry_after-collections (resume_one run_id) r c h = ground arith
  registry_after-collections (finalize_one now run_id status processed failures) r c h =
      ground arith
  registry_after-collections (note_module key row) r c h = ground arith
  registry_after-collections (note_event event) r c h = ground arith

  changed-IsOrderly :
      (r r' : Registry F)
      → ((c : Text) → has c r.collections ≡ true → has c r'.collections ≡ true)
      → Change r.runs r'.runs (λ c. has c r'.collections)
      → IsOrderly r
      → IsOrderly r'
  changed-IsOrderly r r' grown (same p) h = record {
    ended = λ i row e. h.ended i row (sym (ap (get i) p) ∙ e);
    collected =
        λ i row e. grown row.start.collection_id (h.collected i row (sym (ap (get i) p) ∙ e));
  }
  changed-IsOrderly r r' grown (moved run_id new p step end known) h = record {
    ended = λ i row e. elim (get-put_cases run_id i new row r.runs (sym (ap (get i) p) ∙ e)) [
      | inl (here, last) ↦ subst HasEnd last end
      | inr (other, old) ↦ h.ended i row old
    ];
    collected = λ i row e. elim (get-put_cases run_id i new row r.runs (sym (ap (get i) p) ∙ e)) [
      | inr (other, old) ↦ grown row.start.collection_id (h.collected i row old)
      | inl (here, last) ↦
          subst (λ (x : RunRow). has x.start.collection_id r'.collections ≡ true) last
            (elim known [
              | inl there ↦ there
              | inr (old, q, start) ↦
                  subst (λ (x : RunStart). has x.collection_id r'.collections ≡ true) start
                    (grown old.start.collection_id (h.collected run_id old q))
            ])
    ];
  }

  after-IsOrderly :
      (operations : List (RegistryOperation F)) (r : Registry F)
      → IsOrderly r
      → IsOrderly (registry_after_all operations r)
  unfolding registry_after_all
  after-IsOrderly [] r h = h
  after-IsOrderly (o ∷ operations) r h = after-IsOrderly operations (registry_after o r) (
      changed-IsOrderly r (registry_after o r) (registry_after-collections o r)
        (registry_after-Moves o r) h)

  -- After any calls of the registry's methods on an empty registry, of which any may have raised, a run
  -- has an end time exactly if it is not running, and its collection is registered.
  pub registry_after_all-IsOrderly :
      (operations : List (RegistryOperation F))
      → IsOrderly (registry_after_all operations empty_registry)
  unfolding get
  registry_after_all-IsOrderly operations = after-IsOrderly operations empty_registry (record {
    ended = λ i row e. absurd (ground arith);
    collected = λ i row e. absurd (ground arith);
  })

  -- A refused call: it raises, and changes nothing.
  abbrev pub Refused : Registry F → Result (Unit {0}) × Registry F → Type 0
  Refused r out = (e : Error) × (out ≡ (raise e, r))

  closed-Refused :
      (now : Instant) (run_id word : Text) (processed failures : Option ℕ) (row : RunRow)
      (r : Registry F)
      → get run_id r.runs ≡ some row
      → is_running row.status ≡ false
      → Refused r (finalize_run now run_id word processed failures r)
  unfolding finalize_run
  closed-Refused now run_id word processed failures row r e closes =
      elim (Option-cases (terminal_status word)) [
        | inr other ↦ (value_error, rw other refl)
        | inl (status, w) ↦ (store_error, rw (w, e, closes) refl)
      ]

  closed_row :
      (now : Instant) (run_id word : Text) (processed failures : Option ℕ) (r : Registry F)
      → (finalize_run now run_id word processed failures r).0 ≡ ok tt
      → (row : RunRow) × (get run_id (finalize_run now run_id word processed failures r).1.runs
          ≡ some row)
        × (is_running row.status ≡ false)
  unfolding finalize_run
  closed_row now run_id word processed failures r h = elim (Option-cases (terminal_status word)) [
    | inr other ↦ absurd (ground (arith, other))
    | inl (status, w) ↦ elim (Option-cases (get run_id r.runs)) [
      | inr missing ↦ absurd (ground (arith, w, missing))
      | inl (row, e) ↦ elim (Bool-cases (is_running row.status)) [
        | inr done ↦ absurd (ground (arith, w, e, done))
        | inl open_run ↦
            rw (w, e, open_run)
              (
                finalized now status processed failures row,
                get-put run_id run_id _ r.runs ∙ ground (arith, beq_refl run_id),
                terminal_closes word status w,
              )
      ]
    ]
  ]

  -- Behind a call of finalize_run that returned, another one for the same run raises and changes
  -- nothing, whatever its status and its counts.
  pub finalize_run_again :
      (now later : Instant) (run_id word other_word : Text)
      (processed failures other_processed other_failures : Option ℕ) (r : Registry F)
      → (finalize_run now run_id word processed failures r).0 ≡ ok tt
      → Refused (finalize_run now run_id word processed failures r).1 (
          finalize_run later run_id other_word other_processed other_failures
            (finalize_run now run_id word processed failures r).1)
  finalize_run_again now later run_id word other_word processed failures other_processed
        other_failures r h =
      let (row, e, closes) = closed_row now run_id word processed failures r h in
      closed-Refused later run_id other_word other_processed other_failures row _ e closes
