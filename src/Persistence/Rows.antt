-- ===== src/Persistence/Rows.antt =====
-- The rows of src/adapt/configuration/schemas/collection_catalog.sql, and the records that
-- src/adapt/persistence/collection_catalog.py and src/adapt/contracts/persistence.py hand in.
use adapt.Prelude.{
  ℕ, ◌/◌, ◌≡◌, ◌↔◌, Bool, true, false, ◌&&◌, Option, List, arith, Eq, Text, text_eq, text_beq,
  text_beq_iff,
}

-- A datetime: the microseconds since the epoch.
abbrev pub Instant : Type 0
Instant = ℕ

-- to_scan_iso of src/adapt/utils/time.py: the string shows the whole seconds, and no two numbers of
-- seconds the same way, so the number stands for it.
abbrev pub to_scan_iso : Instant → ℕ
to_scan_iso t = t / 1000000

-- strftime("%Y%m%d"), as the number of the day
abbrev pub scan_day : Instant → ℕ
scan_day t = t / 86400000000

pub record ScanKey : Type 0 where
  pub run_id : Text
  pub scan_id : Text

abbrev scan_key_beq : ScanKey → ScanKey → Bool
scan_key_beq a b = text_beq a.run_id b.run_id && text_beq a.scan_id b.scan_id

pub scan_key_beq_iff : (a b : ScanKey) → (scan_key_beq a b ≡ true) ↔ (a ≡ b)
scan_key_beq_iff a b =
    ground (arith, text_beq_iff a.run_id b.run_id, text_beq_iff a.scan_id b.scan_id)

instance abbrev pub scan_key_eq : Eq ScanKey
scan_key_eq = record { beq = scan_key_beq; beq_iff = scan_key_beq_iff }

-- The primary key of scan_products.
pub record ProductKey : Type 0 where
  pub scan : ScanKey
  pub product : Text

abbrev product_key_beq : ProductKey → ProductKey → Bool
product_key_beq a b = scan_key_beq a.scan b.scan && text_beq a.product b.product

pub product_key_beq_iff : (a b : ProductKey) → (product_key_beq a b ≡ true) ↔ (a ≡ b)
product_key_beq_iff a b =
    ground (arith, scan_key_beq_iff a.scan b.scan, text_beq_iff a.product b.product)

instance abbrev pub product_key_eq : Eq ProductKey
product_key_eq = record { beq = product_key_beq; beq_iff = product_key_beq_iff }

pub record ArtifactRecord : Type 0 where
  pub artifact_id : Text
  pub artifact_type : Text
  pub producer : Text
  pub run_id : Text
  pub scan_id : Option Text
  pub observation_time : Option ℕ
  pub original_filename : Option Text
  pub source_uri : Option Text
  pub object_name : Text
  pub checksum_sha256 : Text
  pub size_bytes : ℕ

-- A row of artifacts.
pub record ArtifactRow : Type 0 where
  pub fields : ArtifactRecord
  pub created_at : Instant

-- A row of artifact_lineage.
pub record LineageEdge : Type 0 where
  pub child : Text
  pub parent : Text
  pub relationship : Text

abbrev lineage_beq : LineageEdge → LineageEdge → Bool
lineage_beq a b =
    text_beq a.child b.child && text_beq a.parent b.parent && text_beq a.relationship b.relationship

pub lineage_beq_iff : (a b : LineageEdge) → (lineage_beq a b ≡ true) ↔ (a ≡ b)
lineage_beq_iff a b = ground (
  arith,
  text_beq_iff a.child b.child,
  text_beq_iff a.parent b.parent,
  text_beq_iff a.relationship b.relationship,
)

instance abbrev pub lineage_eq : Eq LineageEdge
lineage_eq = record { beq = lineage_beq; beq_iff = lineage_beq_iff }

-- The CHECK of scans.status.
pub data ScanStatus : Type 0 where
  pending complete failed : ScanStatus

abbrev pub is_complete : ScanStatus → Bool
is_complete complete = true
is_complete _ = false

-- ScanRecord of src/adapt/contracts/persistence.py
pub record ScanRecord : Type 0 where
  pub run_id : Text
  pub scan_id : Text
  pub scan_time : Instant
  pub source_file_name : Text
  pub start_time : Option Instant
  pub end_time : Option Instant

-- A row of scans behind its key.
pub record ScanRow : Type 0 where
  pub scan_time : ℕ
  pub scan_date : ℕ
  pub start_time : Option Instant
  pub end_time : Option Instant
  pub source_file_name : Text
  pub status : ScanStatus
  pub created_at : Instant
  pub updated_at : Instant

-- Where a product lives: the kind of a row of scan_products with the one column that it fills.
pub data ProductPlace : Type 0 where
  artifact : Text → ProductPlace
  table : Text → ProductPlace

pub record ProductRow : Type 0 where
  pub place : ProductPlace
  pub created_at : Instant

-- A frozen schema, of which the catalog reads the name alone.
pub record SchemaSnapshot : Type 0 where
  pub table_name : Text
  pub owner_module : Text
  pub granularity : Text
  pub primary_key : List Text
  pub index_columns : List Text
  pub columns : List (Text × Text)
  pub frozen_at : Instant
