-- ===== src/Examples/Persistence.antt =====
-- Tests of the catalog and the object store.
use adapt.Prelude.{◌≡◌, refl, true, false, none, some, List, [], ◌∷◌, Text, codes, text_eq, subset}
use adapt.Dict.{get, has, put, pop}
use adapt.Exec.{Result, ok, raise, store_error}
use adapt.Persistence.Rows.{ScanKey, ScanRecord, ArtifactRecord}
use adapt.Persistence.Catalog.{
  Catalog, empty_catalog, register_artifact, mark_scan_failed, register_scan, link_scan_product,
  scan_is_complete, linked_products, required_scan_products, names_object, add_lineage,
}
use adapt.Persistence.Catalog.Consistency.{IsConsistent}
use adapt.Persistence.Catalog.Histories.{
  Operation, add_artifact, add_scan, link_product, fail_scan, perform, perform_all,
  perform_all-IsConsistent, link_scan_product-scan_is_complete,
}
use adapt.Persistence.Objects.{
  Bytes, ArtifactMeta, ObjectWriteHandle, Store, begin, stage, commit, abort, add_parents,
  object_name_of, record_of,
}
use adapt.Persistence.Objects.Commits.{committed, commit_outcome, commit_lem}
use adapt.Persistence.Objects.Soundness.{IsSound, Preserves}
use adapt.Persistence.Objects.Histories.{
  StoreOperation, write_bytes, commit_staged, abort_staged, annotate, store_after, store_after_all,
  empty_store, store_after_all-IsSound, store_after_all-Preserves,
}

-- A hash for the tests.
abbrev pub toy_sha256 : Bytes → Text
toy_sha256 bytes = bytes

abbrev volume : ArtifactRecord
volume = record {
  artifact_id = codes "a1";
  artifact_type = codes "raw_volume";
  producer = codes "acquisition";
  run_id = codes "run";
  scan_id = some (codes "s1");
  observation_time = some 60;
  original_filename = some (codes "KTLX");
  source_uri = some (codes "uri");
  object_name = codes "a1.gz";
  checksum_sha256 = 1 ∷ 2 ∷ [];
  size_bytes = 2;
}

abbrev scan : ScanRecord
scan = record {
  run_id = codes "run";
  scan_id = codes "s1";
  scan_time = 60000000;
  source_file_name = codes "KTLX";
  start_time = none;
  end_time = none;
}

abbrev scan_key : ScanKey
scan_key = record { run_id = codes "run"; scan_id = codes "s1" }

abbrev two_products : List Operation
two_products =
    add_artifact 1 volume
    ∷ add_scan 2 scan
    ∷ link_product 3 scan_key (codes "gridded3d") (some (codes "a1")) none
    ∷ link_product 4 scan_key (codes "segmentation2d") none (some (codes "labels"))
    ∷ fail_scan 5 scan_key
    ∷ []

perform_all-IsConsistent_example : IsConsistent (perform_all two_products empty_catalog)
perform_all-IsConsistent_example = perform_all-IsConsistent two_products

-- The third product completes a scan that was marked as failed.
third_product :
    scan_is_complete scan_key (
      perform_all
        (link_product 6 scan_key (codes "cell_stats") none (some (codes "cells")) ∷ [])
        (perform_all two_products empty_catalog))
    ≡ true
unfolding perform_all perform register_artifact register_scan link_scan_product mark_scan_failed get
    has put
third_product = refl

abbrev first_products : Catalog
first_products = perform_all two_products empty_catalog

abbrev link_stats : Result (Unit {0}) × Catalog
link_stats =
    link_scan_product 6 scan_key (codes "cell_stats") none (some (codes "cells")) first_products

returned : link_stats.0 ≡ ok tt
unfolding perform_all perform register_artifact register_scan link_scan_product mark_scan_failed get
    has put
returned = refl

link_scan_product-scan_is_complete_example :
    scan_is_complete scan_key link_stats.1
    ≡ subset required_scan_products (linked_products scan_key link_stats.1.scan_products)
link_scan_product-scan_is_complete_example =
    link_scan_product-scan_is_complete 6 scan_key (codes "cell_stats") none (some (codes "cells"))
      first_products (perform_all-IsConsistent two_products) returned

abbrev handle : ObjectWriteHandle
handle = begin (codes "b2") (codes ".nc")

abbrev meta : ArtifactMeta
meta = record {
  artifact_type = codes "analysis";
  producer = codes "analysis";
  run_id = codes "run";
  scan_id = some (codes "s1");
  observation_time = some 60000000;
  original_filename = none;
  source_uri = none;
}

abbrev staged : Store
staged = record {
  staging = (codes "b2.nc", 7 ∷ 8 ∷ []) ∷ [];
  objects = (codes "a1.gz", 1 ∷ 2 ∷ []) ∷ [];
  catalog = perform_all (add_artifact 1 volume ∷ []) empty_catalog;
}

-- The commit publishes the bytes and links the parent; with a parent twice it raises, and the object
-- and the row are there nevertheless.
published : commit toy_sha256 9 handle meta (codes "a1" ∷ []) staged ≡ (
  ok (record_of toy_sha256 handle meta (7 ∷ 8 ∷ [])),
  committed toy_sha256 9 handle meta (codes "a1" ∷ []) (7 ∷ 8 ∷ []) staged,
)
unfolding commit perform_all perform register_artifact add_parents add_lineage get has put pop
published = refl

parent_twice : Result ArtifactRecord × Store
parent_twice = commit toy_sha256 9 handle meta (codes "a1" ∷ codes "a1" ∷ []) staged

parent_twice_raises : parent_twice.0 ≡ raise store_error
unfolding parent_twice commit perform_all perform register_artifact add_parents add_lineage get has
    put pop
parent_twice_raises = refl

parent_twice_published : has (codes "b2") parent_twice.1.catalog.artifacts ≡ true
unfolding parent_twice commit perform_all perform register_artifact add_parents add_lineage get has
    put pop
parent_twice_published = refl

one_artifact-IsConsistent : IsConsistent staged.catalog
one_artifact-IsConsistent = perform_all-IsConsistent (add_artifact 1 volume ∷ [])

id_is_new : has (codes "b2") staged.catalog.artifacts ≡ false
unfolding perform_all perform register_artifact has put
id_is_new = refl

name_is_free : names_object (object_name_of handle) staged.catalog.artifacts ≡ false
unfolding perform_all perform register_artifact has put
name_is_free = refl

commit_lem_example :
    commit toy_sha256 9 handle meta (codes "a1" ∷ []) staged
    ≡ commit_outcome toy_sha256 9 handle meta
        (codes "a1" ∷ [])
        (get (object_name_of handle) staged.staging)
        staged
commit_lem_example =
    commit_lem toy_sha256 9 handle meta (codes "a1" ∷ []) staged one_artifact-IsConsistent id_is_new
      name_is_free refl

abbrev some_calls : List StoreOperation
some_calls =
    write_bytes handle (7 ∷ 8 ∷ [])
    ∷ commit_staged 9 handle meta []
    ∷ annotate (add_scan 10 scan) refl
    ∷ commit_staged 11 handle meta []
    ∷ abort_staged handle
    ∷ []

one_object :
    get (codes "b2.nc") (store_after_all toy_sha256 some_calls empty_store).objects
    ≡ some (7 ∷ 8 ∷ [])
unfolding store_after_all store_after stage abort commit perform register_artifact register_scan
    add_parents get has put pop
one_object = refl

store_after_all-IsSound_example :
    IsSound toy_sha256 (store_after_all toy_sha256 some_calls empty_store)
store_after_all-IsSound_example = store_after_all-IsSound toy_sha256 some_calls

store_after_all-Preserves_example : Preserves staged (store_after_all toy_sha256 some_calls staged)
store_after_all-Preserves_example = store_after_all-Preserves toy_sha256 some_calls staged
