-- ===== src/Persistence/Objects.antt =====
-- ObjectStore of src/adapt/persistence/objects.py: the files of one collection's objects directory
-- and of its staging directory, with the collection's catalog.
pub mod Commits
pub mod Steps
pub mod Returns
pub mod Soundness
pub mod Histories
use adapt.Prelude.{
  ℕ, Bool, not, Option, none, some, List, [], ◌∷◌, ◌++◌, Text, text_eq, codes, all_of, length,
}
use adapt.Dict.{Dict, get, put, has, pop}
use adapt.Exec.{
  Exec, Result, ok, raise, pure, need, require, gets, modify, store_error, ◌>>=◌, ◌>>◌,
}
use adapt.Persistence.Rows.{Instant, to_scan_iso, ArtifactRecord}
use adapt.Persistence.Catalog.{Catalog, register_artifact, add_lineage}

abbrev pub Bytes : Type 0
Bytes = List ℕ

pub record ArtifactMeta : Type 0 where
  pub artifact_type : Text
  pub producer : Text
  pub run_id : Text
  pub scan_id : Option Text
  pub observation_time : Option Instant
  pub original_filename : Option Text
  pub source_uri : Option Text

pub record ObjectWriteHandle : Type 0 where
  pub artifact_id : Text
  pub suffix : Text

-- f"{artifact_id}{suffix}", the name of the staged file and of the published object.
abbrev pub object_name_of : ObjectWriteHandle → Text
object_name_of handle = handle.artifact_id ++ handle.suffix

-- The files by name, with their contents.
pub record Store : Type 0 where
  pub staging : Dict Text Bytes
  pub objects : Dict Text Bytes
  pub catalog : Catalog

-- begin, for the id that uuid4 returns
abbrev pub begin : (fresh_id suffix : Text) → ObjectWriteHandle
begin fresh_id suffix = record { artifact_id = fresh_id; suffix = suffix }

-- handle.staging_path.write_bytes(data)
unfoldable pub stage : ObjectWriteHandle → Bytes → Exec Store (Unit {0})
stage handle bytes = modify λ s. record s { staging = put (object_name_of handle) bytes s.staging }

-- os.replace(staging_path, final_path)
abbrev pub publish : (name : Text) → Bytes → Store → Store
publish name bytes s = record s { staging = pop name s.staging; objects = put name bytes s.objects }

-- A call of a method of the catalog.
abbrev pub in_catalog {ℓ} : {A : Type ℓ} → Exec Catalog A → Exec Store A
in_catalog m s = let (r, c) = m s.catalog in (r, record s { catalog = c })

unfoldable pub add_parents : (child : Text) → (parents : List Text) → Exec Catalog (Unit {0})
add_parents child [] = pure tt
add_parents child (parent ∷ parents) = do
  add_lineage child parent (codes "derived_from")
  add_parents child parents

abbrev pub scan_iso? : Option Instant → Option ℕ
scan_iso? none = none
scan_iso? (some t) = some (to_scan_iso t)

-- hashlib is an argument.
module _ (sha256 : Bytes → Text) where
  abbrev pub record_of : ObjectWriteHandle → ArtifactMeta → Bytes → ArtifactRecord
  record_of handle meta bytes = record {
    artifact_id = handle.artifact_id;
    artifact_type = meta.artifact_type;
    producer = meta.producer;
    run_id = meta.run_id;
    scan_id = meta.scan_id;
    observation_time = scan_iso? meta.observation_time;
    original_filename = meta.original_filename;
    source_uri = meta.source_uri;
    object_name = object_name_of handle;
    checksum_sha256 = sha256 bytes;
    size_bytes = length bytes;
  }

  unfoldable pub commit :
      (now : Instant)
      → ObjectWriteHandle
      → ArtifactMeta
      → (parents : List Text) → Exec Store ArtifactRecord
  commit now handle meta parents = do
    staged ← gets (λ s. get (object_name_of handle) s.staging)
    bytes ← need store_error staged
    published ← gets (λ s. has (object_name_of handle) s.objects)
    require (not published) store_error
    cataloged ← gets (λ s. all_of (λ parent. has parent s.catalog.artifacts) parents)
    require cataloged store_error
    modify (publish (object_name_of handle) bytes)
    in_catalog (register_artifact now (record_of handle meta bytes))
    in_catalog (add_parents handle.artifact_id parents)
    pure (record_of handle meta bytes)

unfoldable pub abort : ObjectWriteHandle → Exec Store (Unit {0})
abort handle = modify λ s. record s { staging = pop (object_name_of handle) s.staging }
