-- ===== src/Examples/Registry.antt =====
-- Tests of the registry of runs, with whole numbers for coordinates and durations.
use adapt.Prelude.{ℕ, ◌≡◌, refl, none, some, List, [], ◌∷◌, codes, text_eq}
use adapt.Dict.{get, has, put}
use adapt.Exec.{Result, ok}
use adapt.Persistence.Registry.{
  completed, RunStart, Registry, register_collection, begin_run, resume_run, finalize_run,
}
use adapt.Persistence.Registry.Queries.{latest_run}
use adapt.Persistence.Registry.Lifecycle.{underway}
use adapt.Persistence.Registry.Machine.{nothing_yet, lives_after, lives_after_all}
use adapt.Persistence.Registry.Refinement.{Refines, registry_after_all-Refines}
use adapt.Persistence.Registry.Histories.{
  RegistryOperation, add_collection, begin_one, resume_one, finalize_one, registry_after,
  registry_after_all,
}
use adapt.Persistence.Registry.Consistency.{
  empty_registry, IsOrderly, Refused, registry_after_all-IsOrderly, finalize_run_again,
}

abbrev start : RunStart
start = record {
  run_id = codes "r1";
  collection_id = codes "KTLX";
  config_hash = [];
  config_json = [];
  pipeline_version = [];
  environment_json = [];
}

abbrev calls : List (RegistryOperation ℕ)
calls =
    add_collection 1 (codes "KTLX") (codes "nexrad") none none none
    ∷ begin_one 2 start
    ∷ finalize_one 3 (codes "r1") (codes "failed") (some 4) none
    ∷ begin_one 4 start
    ∷ resume_one (codes "r1")
    ∷ []

abbrev resumed : Registry ℕ
resumed = registry_after_all calls empty_registry

done : Result (Unit {0}) × Registry ℕ
done = finalize_run 9 (codes "r1") (codes "completed") none none resumed

done_returns : done.0 ≡ ok tt
unfolding done registry_after_all registry_after register_collection begin_run resume_run
    finalize_run get has put
done_returns = refl

-- The counts of the first part of the run stay when no new ones are given.
counts_stay :
    latest_run (some (codes "KTLX")) done.1
    ≡ some (record {
      start = start;
      status = completed;
      started_at = 2;
      ended_at = some 9;
      scans_processed = 4;
      scans_failed = 0;
    })
unfolding done registry_after_all registry_after register_collection begin_run resume_run
    finalize_run get has put
counts_stay = refl

registry_after_all-Refines_example : Refines resumed (lives_after_all calls nothing_yet)
registry_after_all-Refines_example = registry_after_all-Refines calls

-- The second call to begin the run has changed nothing, and the run is underway again.
run_resumed : (lives_after_all calls nothing_yet).stands (codes "r1") ≡ underway
unfolding lives_after_all lives_after
run_resumed = refl

registry_after_all-IsOrderly_example : IsOrderly resumed
registry_after_all-IsOrderly_example = registry_after_all-IsOrderly calls

finalized_returns : (finalize_run 9 (codes "r1") (codes "completed") none none resumed).0 ≡ ok tt
unfolding registry_after_all registry_after register_collection begin_run resume_run finalize_run
    get has put
finalized_returns = refl

finalize_run_again_example :
    Refused (finalize_run 9 (codes "r1") (codes "completed") none none resumed).1 (
      finalize_run 10
        (codes "r1")
        (codes "failed")
        (some 1)
        none
        (finalize_run 9 (codes "r1") (codes "completed") none none resumed).1)
finalize_run_again_example =
    finalize_run_again 9 10 (codes "r1") (codes "completed") (codes "failed") none none (some 1)
      none resumed finalized_returns
