-- ===== src/Persistence/Catalog/Histories.antt =====
-- Sequences of calls of the catalog's methods (src/adapt/persistence/collection_catalog.py), and when
-- a scan is complete.
use adapt.Prelude.{
  ◌≡◌, refl, sym, ◌∙◌, inl, inr, true, Option, some, List, [], ◌∷◌, arith, Text, text_eq,
  Bool-cases, Option-cases, subset, beq_refl,
}
use adapt.Dict.{Dict, get, has, has→get}
use adapt.Exec.{Exec, ok}
use adapt.Persistence.Rows.{
  Instant, ScanKey, scan_key_eq, product_key_eq, ArtifactRecord, ScanRecord, ScanRow,
  SchemaSnapshot, complete, is_complete,
}
use adapt.Persistence.Catalog.{
  Catalog, empty_catalog, required_scan_products, register_artifact, register_table_schema,
  add_lineage, register_scan, link_scan_product, mark_scan_failed, linked_products, place_of,
  is_cataloged, set_status, complete_if_linked, scan_is_complete,
}
use adapt.Persistence.Catalog.Tables.{get-set_status}
use adapt.Persistence.Catalog.Consistency.{
  IsConsistent, empty-IsConsistent, register_artifact-IsConsistent,
  register_table_schema-IsConsistent, add_lineage-IsConsistent,
}
use adapt.Persistence.Catalog.Scans.{
  register_scan-IsConsistent, link_scan_product-IsConsistent, linked-IsConsistent,
  mark_scan_failed-IsConsistent,
}

-- The methods that write, with their arguments.
pub data Operation : Type 0 where
  add_artifact : (now : Instant) → ArtifactRecord → Operation
  freeze_schema : SchemaSnapshot → Operation
  derive : (child parent relationship : Text) → Operation
  add_scan : (now : Instant) → ScanRecord → Operation
  link_product :
      (now : Instant)
      → ScanKey
      → (product : Text) → (artifact_id table_name : Option Text) → Operation
  fail_scan : (now : Instant) → ScanKey → Operation

unfoldable pub perform : Operation → Exec Catalog (Unit {0})
perform (add_artifact now fields) = register_artifact now fields
perform (freeze_schema snapshot) = register_table_schema snapshot
perform (derive child parent relationship) = add_lineage child parent relationship
perform (add_scan now r) = register_scan now r
perform (link_product now key product artifact_id table_name) =
    link_scan_product now key product artifact_id table_name
perform (fail_scan now key) = mark_scan_failed now key

-- The catalog after some calls, of which any may have raised.
unfoldable pub perform_all : List Operation → Catalog → Catalog
unfolding perform
perform_all [] c = c
perform_all (o ∷ operations) c = perform_all operations (perform o c).1

pub perform-IsConsistent :
    (o : Operation) (c : Catalog) → IsConsistent c → IsConsistent (perform o c).1
unfolding perform
perform-IsConsistent (add_artifact now fields) = register_artifact-IsConsistent now fields
perform-IsConsistent (freeze_schema snapshot) = register_table_schema-IsConsistent snapshot
perform-IsConsistent (derive child parent relationship) =
    add_lineage-IsConsistent child parent relationship
perform-IsConsistent (add_scan now r) = register_scan-IsConsistent now r
perform-IsConsistent (link_product now key product artifact_id table_name) =
    link_scan_product-IsConsistent now key product artifact_id table_name
perform-IsConsistent (fail_scan now key) = mark_scan_failed-IsConsistent now key

from_consistent :
    (operations : List Operation) (c : Catalog)
    → IsConsistent c
    → IsConsistent (perform_all operations c)
unfolding perform_all
from_consistent [] c h = h
from_consistent (o ∷ operations) c h =
    from_consistent operations (perform o c).1 (perform-IsConsistent o c h)

-- After any calls of the catalog's methods on an empty catalog, of which any may have raised: every
-- artifact stands under its id and has an object name of its own, lineage edges and product links
-- lead to rows that are there, no two scans of a run share a time, and a complete scan has all the
-- required products.
pub perform_all-IsConsistent :
    (operations : List Operation) → IsConsistent (perform_all operations empty_catalog)
perform_all-IsConsistent operations = from_consistent operations empty_catalog empty-IsConsistent

completed :
    (now : Instant) (key : ScanKey) (d : Dict ScanKey ScanRow) (s : ScanRow)
    → get key d ≡ some s
    → get key (set_status complete now key d)
      ≡ some (record s { status = complete; updated_at = now })
completed now key d s e = get-set_status complete now key key d ∙ rw (beq_refl key, e) refl

done_at :
    (key : ScanKey) (c : Catalog) (s : ScanRow)
    → get key c.scans ≡ some s
    → scan_is_complete key c ≡ is_complete s.status
done_at key c s e = rw (scan_is_complete, e) refl

complete_if_linked-scan_is_complete :
    (now : Instant) (key : ScanKey) (c : Catalog)
    → IsConsistent c
    → has key c.scans ≡ true
    → scan_is_complete key (complete_if_linked now key c)
      ≡ subset required_scan_products
          (linked_products key (complete_if_linked now key c).scan_products)
complete_if_linked-scan_is_complete now key c h known =
    let (s, e) = has→get key c.scans known in
    elim (Bool-cases (subset required_scan_products (linked_products key c.scan_products))) [
      | inl all ↦ rw all (
          done_at key (record c { scans = set_status complete now key c.scans })
            (record s { status = complete; updated_at = now }) (completed now key c.scans s e)
          ∙ sym all)
      | inr not_all ↦ elim (Bool-cases (is_complete s.status)) [
        | inl done ↦ absurd (ground (arith, h.complete_linked key s e done))
        | inr open_scan ↦ rw not_all (done_at key c s e ∙ open_scan ∙ sym not_all)
      ]
    ]

-- In a consistent catalog, a link that returns leaves the scan complete exactly if all the required
-- products are linked to it then, whatever its status was.
pub link_scan_product-scan_is_complete :
    (now : Instant) (key : ScanKey) (product : Text) (artifact_id table_name : Option Text)
    (c : Catalog)
    → IsConsistent c
    → (link_scan_product now key product artifact_id table_name c).0 ≡ ok tt
    → scan_is_complete key (link_scan_product now key product artifact_id table_name c).1
      ≡ subset required_scan_products (
          linked_products key
            (link_scan_product now key product artifact_id table_name c).1.scan_products)
unfolding link_scan_product
link_scan_product-scan_is_complete now key product artifact_id table_name c h r =
    elim (Option-cases (place_of artifact_id table_name)) [
      | inr unclear ↦ absurd (ground (arith, unclear))
      | inl (place, e) ↦ elim (Bool-cases (has key c.scans)) [
        | inr unknown ↦ absurd (ground (arith, e, unknown))
        | inl known ↦ elim (Bool-cases (is_cataloged place c)) [
          | inr missing ↦ absurd (ground (arith, e, known, missing))
          | inl there ↦
              rw (e, known, there)
                (complete_if_linked-scan_is_complete now key _
                  (linked-IsConsistent (record { scan = key; product = product })
                    (record { place = place; created_at = now }) c known there h)
                  known)
        ]
      ]
    ]
