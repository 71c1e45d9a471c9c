-- ===== src/Persistence/Catalog.antt =====
-- Catalog of src/adapt/persistence/collection_catalog.py over the tables and constraints of
-- src/adapt/configuration/schemas/collection_catalog.sql. A method takes the time at which it asks
-- the clock; each runs under the lock of its connection, as one transaction.
pub mod Tables
pub mod Consistency
pub mod Scans
pub mod Histories
pub mod Queries
use adapt.Prelude.{
  ℕ, Bool, true, false, not, ◌&&◌, ◌||◌, Option, none, some, List, [], ◌∷◌, ◌++◌, map, Text,
  text_eq, text_beq, text_ltb, nat_beq, ltb, ◌==◌, codes, if◌then◌else◌, keep, any_of, mem, subset,
  sorted_by,
}
use adapt.Dict.{Dict, get, put, has, keys, values}
use adapt.Exec.{
  Exec, Result, ok, raise, pure, throw, need, require, gets, modify, store_error, value_error,
  integrity_error, ◌>>=◌, ◌>>◌,
}
use adapt.Persistence.Rows.{
  Instant, to_scan_iso, scan_day, ScanKey, scan_key_eq, ProductKey, product_key_eq, ArtifactRecord,
  ArtifactRow, LineageEdge, lineage_eq, ScanStatus, pending, complete, failed, is_complete,
  ScanRecord, ScanRow, ProductPlace, artifact, table, ProductRow, SchemaSnapshot,
}

-- The tables, by their primary keys.
pub record Catalog : Type 0 where
  pub artifacts : Dict Text ArtifactRow
  pub artifact_lineage : List LineageEdge
  pub scans : Dict ScanKey ScanRow
  pub scan_products : Dict ProductKey ProductRow
  pub table_schemas : Dict Text SchemaSnapshot

abbrev pub empty_catalog : Catalog
empty_catalog = record {
  artifacts = [];
  artifact_lineage = [];
  scans = [];
  scan_products = [];
  table_schemas = [];
}

abbrev pub required_scan_products : List Text
required_scan_products = codes "gridded3d" ∷ codes "segmentation2d" ∷ codes "cell_stats" ∷ []

-- UNIQUE (object_name)
abbrev pub names_object : Text → Dict Text ArtifactRow → Bool
names_object name [] = false
names_object name ((i, a) ∷ artifacts) = a.fields.object_name == name || names_object name artifacts

unfoldable pub register_artifact : (now : Instant) → ArtifactRecord → Exec Catalog (Unit {0})
register_artifact now fields = do
  taken ←
      gets λ c. has fields.artifact_id c.artifacts || names_object fields.object_name c.artifacts
  require (not taken) integrity_error
  modify λ c. record c {
    artifacts = put fields.artifact_id (record { fields = fields; created_at = now }) c.artifacts;
  }

abbrev pub get_artifact : Text → Catalog → Option ArtifactRow
get_artifact artifact_id c = get artifact_id c.artifacts

-- ORDER BY created_at DESC, artifact_id DESC LIMIT 1
abbrev pub is_newer : ArtifactRow → ArtifactRow → Bool
is_newer a b =
    ltb b.created_at a.created_at
    || (nat_beq a.created_at b.created_at && text_ltb b.fields.artifact_id a.fields.artifact_id)

abbrev pub newest_from : ArtifactRow → List ArtifactRow → ArtifactRow
newest_from best [] = best
newest_from best (a ∷ rows) = newest_from (if is_newer a best then a else best) rows

abbrev pub newest : List ArtifactRow → Option ArtifactRow
newest [] = none
newest (a ∷ rows) = some (newest_from a rows)

-- column = ?, which a NULL does not meet
abbrev pub equals : Option Text → Text → Bool
equals none value = false
equals (some column) value = column == value

abbrev pub find_artifact : (run_id scan_id artifact_type : Text) → Catalog → Option ArtifactRow
find_artifact run_id scan_id artifact_type c = newest (
    keep
      (λ a.
        a.fields.run_id == run_id
        && equals a.fields.scan_id scan_id
        && a.fields.artifact_type == artifact_type)
      (values c.artifacts))

abbrev pub find_artifact_by_scan : (scan_id artifact_type : Text) → Catalog → Option ArtifactRow
find_artifact_by_scan scan_id artifact_type c = newest (
    keep (λ a. equals a.fields.scan_id scan_id && a.fields.artifact_type == artifact_type)
      (values c.artifacts))

abbrev pub find_by_source_uri : (source_uri : Text) → Catalog → Option ArtifactRow
find_by_source_uri source_uri c =
    newest (keep (λ a. equals a.fields.source_uri source_uri) (values c.artifacts))

unfoldable pub register_table_schema : SchemaSnapshot → Exec Catalog (Unit {0})
register_table_schema snapshot = do
  frozen ← gets (λ c. has snapshot.table_name c.table_schemas)
  require (not frozen) store_error
  modify λ c. record c { table_schemas = put snapshot.table_name snapshot c.table_schemas }

abbrev pub edge_of : (child parent relationship : Text) → LineageEdge
edge_of child parent relationship = record {
  child = child;
  parent = parent;
  relationship = relationship;
}

unfoldable pub add_lineage :
    (child_artifact_id parent_artifact_id relationship : Text) → Exec Catalog (Unit {0})
add_lineage child_artifact_id parent_artifact_id relationship = do
  child ← gets (λ c. has child_artifact_id c.artifacts)
  require child store_error
  parent ← gets (λ c. has parent_artifact_id c.artifacts)
  require parent store_error
  let edge = edge_of child_artifact_id parent_artifact_id relationship
  known ← gets (λ c. mem edge c.artifact_lineage)
  require (not known) store_error
  modify λ c. record c { artifact_lineage = c.artifact_lineage ++ edge ∷ [] }

-- Another scan of the run has the time: UNIQUE (run_id, scan_time).
abbrev pub collides : ScanKey → (scan_time : ℕ) → Dict ScanKey ScanRow → Bool
collides key scan_time [] = false
collides key scan_time ((k, s) ∷ scans) =
    (not (k == key) && k.run_id == key.run_id && nat_beq s.scan_time scan_time)
    || collides key scan_time scans

-- The row after the upsert: status and created_at of a row that is there are kept.
abbrev pub upserted : (now : Instant) → ScanRecord → Option ScanRow → ScanRow
upserted now r none = record {
  scan_time = to_scan_iso r.scan_time;
  scan_date = scan_day r.scan_time;
  start_time = r.start_time;
  end_time = r.end_time;
  source_file_name = r.source_file_name;
  status = pending;
  created_at = now;
  updated_at = now;
}
upserted now r (some old) = record old {
  scan_time = to_scan_iso r.scan_time;
  scan_date = scan_day r.scan_time;
  start_time = r.start_time;
  end_time = r.end_time;
  source_file_name = r.source_file_name;
  updated_at = now;
}

abbrev pub key_of : ScanRecord → ScanKey
key_of r = record { run_id = r.run_id; scan_id = r.scan_id }

unfoldable pub register_scan : (now : Instant) → ScanRecord → Exec Catalog (Unit {0})
register_scan now r = do
  taken ← gets (λ c. collides (key_of r) (to_scan_iso r.scan_time) c.scans)
  require (not taken) store_error
  modify λ c. record c { scans = put (key_of r) (upserted now r (get (key_of r) c.scans)) c.scans }

abbrev pub get_scan : ScanKey → Catalog → Option ScanRow
get_scan key c = get key c.scans

-- The products that are linked to a scan.
abbrev pub linked_products : ScanKey → Dict ProductKey ProductRow → List Text
linked_products key [] = []
linked_products key ((k, p) ∷ products) =
    let others = linked_products key products in
    if k.scan == key then k.product ∷ others else others

-- Exactly one of artifact_id and table_name.
abbrev pub place_of : (artifact_id table_name : Option Text) → Option ProductPlace
place_of (some a) none = some (artifact a)
place_of none (some t) = some (table t)
place_of _ _ = none

abbrev pub is_cataloged : ProductPlace → Catalog → Bool
is_cataloged (artifact a) c = has a c.artifacts
is_cataloged (table t) c = true

-- UPDATE scans SET status = ?, updated_at = ? WHERE the key matches
abbrev pub set_status :
    ScanStatus → (now : Instant) → ScanKey → Dict ScanKey ScanRow → Dict ScanKey ScanRow
set_status status now key [] = []
set_status status now key ((k, s) ∷ scans) =
    let rest = set_status status now key scans in
    (if k == key then (k, record s { status = status; updated_at = now }) else (k, s)) ∷ rest

abbrev pub complete_if_linked : (now : Instant) → ScanKey → Catalog → Catalog
complete_if_linked now key c =
    if subset required_scan_products (linked_products key c.scan_products)
    then record c { scans = set_status complete now key c.scans }
    else c

unfoldable pub link_scan_product :
    (now : Instant)
    → ScanKey
    → (product : Text) → (artifact_id table_name : Option Text) → Exec Catalog (Unit {0})
link_scan_product now key product artifact_id table_name = do
  place ← need value_error (place_of artifact_id table_name)
  known ← gets (λ c. has key c.scans)
  require known store_error
  cataloged ← gets (is_cataloged place)
  require cataloged store_error
  modify λ c. record c {
    scan_products =
        put (record { scan = key; product = product }) (record { place = place; created_at = now })
          c.scan_products;
  }
  modify (complete_if_linked now key)

unfoldable pub mark_scan_failed : (now : Instant) → ScanKey → Exec Catalog (Unit {0})
mark_scan_failed now key = do
  known ← gets (λ c. has key c.scans)
  require known store_error
  modify λ c. record c { scans = set_status failed now key c.scans }

abbrev pub scan_is_complete : ScanKey → Catalog → Bool
scan_is_complete key c = elim (get key c.scans) [ none ↦ false | some s ↦ is_complete s.status ]
