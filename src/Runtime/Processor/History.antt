-- ===== src/Runtime/Processor/History.antt =====
-- The rolling history of the processor (src/adapt/runtime/processor.py) stays within its maximum.
use adapt.Prelude.{
  ◌≤◌, Bool, true, false, Option, List, [], ◌∷◌, ◌++◌, arith, Text, text_eq, codes, length,
  length-append, if◌then◌else◌,
}
use adapt.Dict.{Dict}
use adapt.Exec.{
  Result, ok, raise, value_error, key_error, index_error, runtime_error, store_error,
  contract_violation, integrity_error, type_error, zero_division, gets, modify, pure, Keeps,
  Keeps->>=, Keeps-if, Keeps-need,
}
use adapt.Persistence.Rows.{Instant, ArtifactRow}
use adapt.Persistence.Catalog.{get_artifact, scan_is_complete}
use adapt.Runtime.Processor.{pop_oldest, key_for, settle, run_scan, given, process_file, run_loop}
use adapt.Runtime.Setup.{QueueMessage, Setup, Processor}
use adapt.Runtime.Processor.Steps.{scan_steps-Keeps}

module _ {V W R : Type 0} (setup : Setup V W R) where
  abbrev pub IsBounded : Processor V W R → Type 0
  IsBounded p = length p.scan_history ≤ setup.max_history

  pop_oldest-le :
      (entry : Dict Text V) (history : List (Dict Text V))
      → length history ≤ setup.max_history
      → length (pop_oldest setup (history ++ entry ∷ [])) ≤ setup.max_history
  pop_oldest-le entry [] h = ground arith
  pop_oldest-le entry (x ∷ history) h = ground (arith, length-append history (entry ∷ []))

  settle-IsBounded :
      (now : Instant) (scan_id : Text) (r : Result (Unit {0})) (p : Processor V W R)
      → IsBounded p
      → IsBounded (settle setup now scan_id r p).1
  settle-IsBounded now scan_id (ok t) p h = h
  settle-IsBounded now scan_id (raise contract_violation) p h = h
  settle-IsBounded now scan_id (raise value_error) p h = h
  settle-IsBounded now scan_id (raise key_error) p h = h
  settle-IsBounded now scan_id (raise index_error) p h = h
  settle-IsBounded now scan_id (raise runtime_error) p h = h
  settle-IsBounded now scan_id (raise store_error) p h = h
  settle-IsBounded now scan_id (raise integrity_error) p h = h
  settle-IsBounded now scan_id (raise type_error) p h = h
  settle-IsBounded now scan_id (raise zero_division) p h = h

  run_scan-Keeps :
      (now : Instant) (file_path scan_id : Text) (scan_time : Option Instant)
      → Keeps IsBounded (run_scan setup now file_path scan_id scan_time)
  unfolding run_scan
  run_scan-Keeps now file_path scan_id scan_time = record {
    at = λ p h. settle-IsBounded now scan_id _ _ (
        (scan_steps-Keeps setup IsBounded (λ w q k. k) (λ r q k. k) (λ phase result meta q k. k)
            (λ entry q k. pop_oldest-le entry q.scan_history k) file_path scan_id scan_time).at
          p h);
  }

  process_file-Keeps :
      (now : Instant) (message : QueueMessage) → Keeps IsBounded (process_file setup now message)
  unfolding process_file
  process_file-Keeps now message =
      Keeps->>= (Keeps-need value_error (given message.scan_id)) λ (scan_id : Text).
        Keeps->>= (Keeps-need value_error (given message.artifact_id)) λ (artifact_id : Text).
          Keeps->>= {m = gets (λ p. scan_is_complete (key_for setup scan_id) p.store.catalog)}
            (record { at = λ p h. h })
            λ (complete : Bool).
              Keeps->>= {m = modify (λ p. record p { last_skipped = complete })}
                (record { at = λ p h. h })
                λ (t : Unit {0}).
                  Keeps-if {m = pure true} complete (record { at = λ p h. h })
                    (Keeps->>= {m = gets (λ p. get_artifact artifact_id p.store.catalog)}
                      (record { at = λ p h. h })
                      λ (row : Option ArtifactRow).
                        Keeps->>= (Keeps-need store_error row) λ (raw : ArtifactRow).
                          run_scan-Keeps now
                            (setup.objects_dir ++ codes "/" ++ raw.fields.object_name) scan_id
                            message.scan_time)

  either :
      (b : Bool) (p q : Processor V W R)
      → IsBounded p
      → IsBounded q
      → IsBounded (if b then p else q)
  either true p q h k = h
  either false p q h k = k

  -- A history within its maximum stays within it, whatever messages the loop takes from the queue and
  -- however their scans end.
  pub run_loop-IsBounded :
      (now : Instant) (messages : List QueueMessage) (p : Processor V W R)
      → length p.scan_history ≤ setup.max_history
      → length (run_loop setup now messages p).scan_history ≤ setup.max_history
  unfolding run_loop
  run_loop-IsBounded now [] p h = h
  run_loop-IsBounded now (message ∷ messages) p h =
      either p.stopped p _ h
        (run_loop-IsBounded now messages _ ((process_file-Keeps now message).at p h))
