-- ===== src/Runtime/Processor/Failures.antt =====
-- How a scan ends (src/adapt/runtime/processor.py): what is raised in it goes no further, and is
-- written to the catalog.
use adapt.Prelude.{
  ◌≡◌, refl, ap, ◌∙◌, ◌⊎◌, inl, inr, Bool, true, false, ◌||◌, Option, some, arith, Text, beq_refl,
}
use adapt.Dict.{Dict, get, has, has→get}
use adapt.Exec.{
  Result, ok, raise, Error, value_error, key_error, index_error, runtime_error, store_error,
  contract_violation, integrity_error, type_error, zero_division, Keeps,
}
use adapt.Persistence.Rows.{Instant, ScanKey, scan_key_eq, ScanRow, failed}
use adapt.Persistence.Catalog.{Catalog, mark_scan_failed}
use adapt.Persistence.Catalog.Tables.{get-set_status}
use adapt.Runtime.Processor.{
  persist_outputs, scan_steps, key_for, record_scan_failure, settle, run_scan,
}
use adapt.Runtime.Setup.{PersistenceMeta, Phase, Setup, Processor}
use adapt.Runtime.Processor.Steps.{scan_steps-Keeps}

abbrev pub is_violation : Error → Bool
is_violation contract_violation = true
is_violation _ = false

-- The catalog has the scan as failed.
abbrev pub IsFailed : ScanKey → Catalog → Type 0
IsFailed key c = (row : ScanRow) × (get key c.scans ≡ some row) × (row.status ≡ failed)

mark_scan_failed-IsFailed :
    (now : Instant) (key : ScanKey) (c : Catalog)
    → has key c.scans ≡ true
    → IsFailed key (mark_scan_failed now key c).1
unfolding mark_scan_failed
mark_scan_failed-IsFailed now key c known =
    let (row, e) = has→get key c.scans known in
    rw known (
      record row { status = failed; updated_at = now },
      get-set_status failed now key key c.scans ∙ rw (beq_refl key, e) refl,
      refl,
    )

module _ {V W R : Type 0} (setup : Setup V W R) where
  -- The router takes no scan out of the catalog.
  pub record KeepsScans : Type 0 where
    pub persist :
        (phase : Phase) (result : Dict Text V) (meta : PersistenceMeta) (key : ScanKey)
        (p : Processor V W R)
        → has key p.store.catalog.scans ≡ true
        → has key (persist_outputs setup phase result meta p).1.store.catalog.scans ≡ true

  -- The ways in which a scan ends.
  abbrev pub Ends :
      (scan_id : Text)
      → Processor V W R
      → (steps : Result (Unit {0})) → Result Bool × Processor V W R
      → Type 0
  Ends scan_id p steps out =
      ((steps ≡ ok tt) × (out.0 ≡ ok true) × (out.1.stopped ≡ p.stopped))
      ⊎ ((e : Error) × (steps ≡ raise e)
          × (out.0 ≡ ok false)
          × (out.1.stopped ≡ (p.stopped || is_violation e))
          × IsFailed (key_for setup scan_id) out.1.store.catalog)

  module _ (now : Instant) (scan_id : Text) (p : Processor V W R)
      (known : has (key_for setup scan_id) p.store.catalog.scans ≡ true) where
    marked :
        IsFailed (key_for setup scan_id) (record_scan_failure setup now scan_id p).store.catalog
    marked = mark_scan_failed-IsFailed now (key_for setup scan_id) p.store.catalog known

    settle-Ends :
        (steps : Result (Unit {0})) → Ends scan_id p steps (settle setup now scan_id steps p)
    settle-Ends (ok t) = inl (refl, refl, refl)
    settle-Ends (raise contract_violation) =
        inr (contract_violation, refl, refl, ground arith, marked)
    settle-Ends (raise value_error) = inr (value_error, refl, refl, ground arith, marked)
    settle-Ends (raise key_error) = inr (key_error, refl, refl, ground arith, marked)
    settle-Ends (raise index_error) = inr (index_error, refl, refl, ground arith, marked)
    settle-Ends (raise runtime_error) = inr (runtime_error, refl, refl, ground arith, marked)
    settle-Ends (raise store_error) = inr (store_error, refl, refl, ground arith, marked)
    settle-Ends (raise integrity_error) = inr (integrity_error, refl, refl, ground arith, marked)
    settle-Ends (raise type_error) = inr (type_error, refl, refl, ground arith, marked)
    settle-Ends (raise zero_division) = inr (zero_division, refl, refl, ground arith, marked)

  steps-known :
      (file_path scan_id : Text) (scan_time : Option Instant) (key : ScanKey)
      → KeepsScans
      → Keeps
          (λ p. has key p.store.catalog.scans ≡ true)
          (scan_steps setup file_path scan_id scan_time)
  steps-known file_path scan_id scan_time key laws =
      scan_steps-Keeps setup (λ p. has key p.store.catalog.scans ≡ true) (λ w p h. h) (λ r p h. h)
        (λ phase result meta p h. laws.persist phase result meta key p h) (λ entry p h. h) file_path
        scan_id scan_time

  steps-stopped :
      (file_path scan_id : Text) (scan_time : Option Instant) (b : Bool)
      → Keeps (λ p. p.stopped ≡ b) (scan_steps setup file_path scan_id scan_time)
  steps-stopped file_path scan_id scan_time b =
      scan_steps-Keeps setup (λ p. p.stopped ≡ b) (λ w p h. h) (λ r p h. h)
        (λ phase result meta p h. h) (λ entry p h. h) file_path scan_id scan_time

  -- If the router takes no scan out of the catalog, run_scan on a registered scan returns: True
  -- exactly if nothing was raised in it, and False otherwise, and then the scan is failed in the
  -- catalog; the stop flag is then set if a contract was violated, and is as it was in all other
  -- cases.
  pub run_scan-Ends :
      (now : Instant) (file_path scan_id : Text) (scan_time : Option Instant) (p : Processor V W R)
      → KeepsScans
      → has (key_for setup scan_id) p.store.catalog.scans ≡ true
      → Ends scan_id p
          (scan_steps setup file_path scan_id scan_time p).0
          (run_scan setup now file_path scan_id scan_time p)
  unfolding run_scan
  run_scan-Ends now file_path scan_id scan_time p laws known =
      let last = (scan_steps setup file_path scan_id scan_time p).1 in
      let same = (steps-stopped file_path scan_id scan_time p.stopped).at p refl in
      let still =
        (steps-known file_path scan_id scan_time (key_for setup scan_id) laws).at p known in
      elim (settle-Ends now scan_id last still (scan_steps setup file_path scan_id scan_time p).0) [
        | inl (done, returns, stays) ↦ inl (done, returns, stays ∙ same)
        | inr (e, raised, returns, stops, is_failed) ↦
            inr (e, raised, returns, stops ∙ ap (λ b. b || is_violation e) same, is_failed)
      ]
