-- ===== src/Persistence/Catalog/Scans.antt =====
-- The methods of the catalog that write scans and their products
-- (src/adapt/persistence/collection_catalog.py) keep its invariant.
use adapt.Prelude.{
  ◌≡◌, refl, sym, ap, ◌∙◌, ◌⊎◌, inl, inr, true, false, ◌||◌, Option, none, some, arith, Text,
  text_eq, ◌==◌, Bool-cases, Option-cases, subset,
}
use adapt.Dict.{Dict, get, has, put, get-put_cases, has-put}
use adapt.Persistence.Rows.{
  Instant, to_scan_iso, ScanKey, scan_key_eq, ProductKey, product_key_eq, product_key_beq_iff,
  lineage_eq, ScanStatus, complete, failed, is_complete, ScanRecord, ScanRow, ProductPlace,
  artifact, table, ProductRow,
}
use adapt.Persistence.Catalog.{
  Catalog, required_scan_products, collides, upserted, key_of, register_scan, linked_products,
  place_of, is_cataloged, set_status, complete_if_linked, link_scan_product, mark_scan_failed,
}
use adapt.Persistence.Catalog.Tables.{
  subset_mono, no_collision, mem-linked_products, has-set_status,
}
use adapt.Persistence.Catalog.Tables.{set_status_cases}
use adapt.Persistence.Catalog.Consistency.{IsConsistent}

-- The artifacts decide what is cataloged.
cataloged_same :
    (place : ProductPlace) (c d : Catalog)
    → d.artifacts ≡ c.artifacts
    → is_cataloged place c ≡ true
    → is_cataloged place d ≡ true
cataloged_same (artifact a) c d same e = ap (has a) same ∙ e
cataloged_same (table t) c d same e = refl

upserted_time :
    (now : Instant) (r : ScanRecord) (old : Option ScanRow)
    → (upserted now r old).scan_time ≡ to_scan_iso r.scan_time
upserted_time now r none = refl
upserted_time now r (some old) = refl

-- An upsert completes no scan.
upserted_status :
    (now : Instant) (r : ScanRecord) (old : Option ScanRow)
    → is_complete (upserted now r old).status ≡ true
    → (s : ScanRow) × (old ≡ some s) × (is_complete s.status ≡ true)
upserted_status now r none h = absurd (ground arith)
upserted_status now r (some s) h = (s, refl, h)

pub register_scan-IsConsistent :
    (now : Instant) (r : ScanRecord) (c : Catalog)
    → IsConsistent c
    → IsConsistent (register_scan now r c).1
unfolding register_scan
register_scan-IsConsistent now r c h =
    elim (Bool-cases (collides (key_of r) (to_scan_iso r.scan_time) c.scans)) [
      | inl taken ↦ rw taken h
      | inr free ↦ rw free (record {
        keyed = h.keyed;
        one_object = h.one_object;
        lineage_ends = h.lineage_ends;
        one_time = λ k l s t e g run time. elim (cases k s e) [
          | inl (here, new) ↦ elim (cases l t g) [
            | inl (there, last) ↦ sym here ∙ there
            | inr (other, old) ↦
                let at = no_collision (key_of r) l (to_scan_iso r.scan_time) t c.scans free old in
                here_of here (
                  at (sym run ∙ ap (λ (x : ScanKey). x.run_id) (sym here))
                    (sym time ∙ time_of s new))
          ]
          | inr (other, old) ↦ elim (cases l t g) [
            | inl (there, new) ↦
                let at = no_collision (key_of r) k (to_scan_iso r.scan_time) s c.scans free old in
                at (run ∙ ap (λ (x : ScanKey). x.run_id) (sym there)) (time ∙ time_of t new) ∙ there
            | inr (more, older) ↦ h.one_time k l s t old older run time
          ]
        ];
        links_scan = λ p e.
            has-put (key_of r) p.scan (upserted now r (get (key_of r) c.scans)) c.scans
            ∙ ground (arith, h.links_scan p e);
        links_artifact = λ p x e. cataloged_same x.place c _ refl (h.links_artifact p x e);
        complete_linked = λ k s e done. elim (cases k s e) [
          | inl (here, new) ↦
              let (old, found, was) =
                upserted_status now r (get (key_of r) c.scans)
                  (ap (λ (x : ScanRow). is_complete x.status) new ∙ done) in
              h.complete_linked k old (ap (λ (x : ScanKey). get x c.scans) (sym here) ∙ found) was
          | inr (other, old) ↦ h.complete_linked k s old done
        ];
      })
    ]
  where
    cases :
        (k : ScanKey) (s : ScanRow)
        → get k (put (key_of r) (upserted now r (get (key_of r) c.scans)) c.scans) ≡ some s
        → ((key_of r ≡ k) × (upserted now r (get (key_of r) c.scans) ≡ s))
          ⊎ (((key_of r == k) ≡ false) × (get k c.scans ≡ some s))
    cases k s = get-put_cases (key_of r) k (upserted now r (get (key_of r) c.scans)) s c.scans

    time_of :
        (s : ScanRow)
        → upserted now r (get (key_of r) c.scans) ≡ s
        → s.scan_time ≡ to_scan_iso r.scan_time
    time_of s new =
        ap (λ (x : ScanRow). x.scan_time) (sym new) ∙ upserted_time now r (get (key_of r) c.scans)

    here_of : {k l : ScanKey} → key_of r ≡ k → l ≡ key_of r → k ≡ l
    here_of here at = sym here ∙ sym at

set_status-IsConsistent :
    (status : ScanStatus) (now : Instant) (key : ScanKey) (c : Catalog)
    → (is_complete status ≡ true
        → subset required_scan_products (linked_products key c.scan_products) ≡ true)
    → IsConsistent c
    → IsConsistent (record c { scans = set_status status now key c.scans })
set_status-IsConsistent status now key c done h = record {
  keyed = h.keyed;
  one_object = h.one_object;
  lineage_ends = h.lineage_ends;
  one_time = λ k l s t e g run time.
      let (x, p, same, _) = set_status_cases status now key k s c.scans e in
      let (y, q, last, _) = set_status_cases status now key l t c.scans g in
      h.one_time k l x y p q run (same ∙ time ∙ sym last);
  links_scan = λ p e. has-set_status status now key p.scan c.scans ∙ h.links_scan p e;
  links_artifact = λ p x e. cataloged_same x.place c _ refl (h.links_artifact p x e);
  complete_linked = λ k s e complete.
      let (x, p, time, which) = set_status_cases status now key k s c.scans e in
      elim which [
        | inl (same, set) ↦
            ap (λ (y : ScanKey). subset required_scan_products (linked_products y c.scan_products))
              (sym same)
            ∙ done (ap is_complete (sym set) ∙ complete)
        | inr kept ↦
            h.complete_linked k x p (ap (λ (y : ScanRow). is_complete y.status) kept ∙ complete)
      ];
}

complete_if_linked-IsConsistent :
    (now : Instant) (key : ScanKey) (c : Catalog)
    → IsConsistent c
    → IsConsistent (complete_if_linked now key c)
complete_if_linked-IsConsistent now key c h =
    elim (Bool-cases (subset required_scan_products (linked_products key c.scan_products))) [
      | inl all ↦ rw all (set_status-IsConsistent complete now key c (λ _. all) h)
      | inr some_missing ↦ rw some_missing h
    ]

pub mark_scan_failed-IsConsistent :
    (now : Instant) (key : ScanKey) (c : Catalog)
    → IsConsistent c
    → IsConsistent (mark_scan_failed now key c).1
unfolding mark_scan_failed
mark_scan_failed-IsConsistent now key c h = elim (Bool-cases (has key c.scans)) [
  | inr unknown ↦ rw unknown h
  | inl known ↦ rw known (set_status-IsConsistent failed now key c (λ e. absurd (ground arith)) h)
]

-- A link leaves the linked products linked.
linked_put :
    (p : ProductKey) (r : ProductRow) (k : ScanKey) (d : Dict ProductKey ProductRow)
    → subset required_scan_products (linked_products k d) ≡ true
    → subset required_scan_products (linked_products k (put p r d)) ≡ true
linked_put p r k d =
    subset_mono required_scan_products (linked_products k d) (linked_products k (put p r d)) λ x m.
      mem-linked_products k x (put p r d)
      ∙ has-put p (record { scan = k; product = x }) r d
      ∙ ground (arith, mem-linked_products k x d)

pub linked-IsConsistent :
    (p : ProductKey) (r : ProductRow) (c : Catalog)
    → has p.scan c.scans ≡ true
    → is_cataloged r.place c ≡ true
    → IsConsistent c
    → IsConsistent (record c { scan_products = put p r c.scan_products })
linked-IsConsistent p r c known cataloged h = record {
  keyed = h.keyed;
  one_object = h.one_object;
  lineage_ends = h.lineage_ends;
  one_time = h.one_time;
  links_scan = λ q e. elim (Bool-cases (p == q)) [
    | inl same ↦
        ap (λ (x : ProductKey). has x.scan c.scans) (sym ((product_key_beq_iff p q).0 same)) ∙ known
    | inr other ↦
        h.links_scan q
          (sym (has-put p q r c.scan_products ∙ ap (λ b. b || has q c.scan_products) other) ∙ e)
  ];
  links_artifact = λ q x e. elim (get-put_cases p q r x c.scan_products e) [
    | inl (same, new) ↦
        cataloged_same x.place c _ refl
          (ap (λ (y : ProductRow). is_cataloged y.place c) (sym new) ∙ cataloged)
    | inr (other, old) ↦ cataloged_same x.place c _ refl (h.links_artifact q x old)
  ];
  complete_linked = λ k s e done. linked_put p r k c.scan_products (h.complete_linked k s e done);
}

pub link_scan_product-IsConsistent :
    (now : Instant) (key : ScanKey) (product : Text) (artifact_id table_name : Option Text)
    (c : Catalog)
    → IsConsistent c
    → IsConsistent (link_scan_product now key product artifact_id table_name c).1
unfolding link_scan_product
link_scan_product-IsConsistent now key product artifact_id table_name c h =
    elim (Option-cases (place_of artifact_id table_name)) [
      | inr unclear ↦ rw unclear h
      | inl (place, e) ↦ elim (Bool-cases (has key c.scans)) [
        | inr unknown ↦ rw (e, unknown) h
        | inl known ↦ elim (Bool-cases (is_cataloged place c)) [
          | inr missing ↦ rw (e, known, missing) h
          | inl there ↦
              rw (e, known, there)
                (complete_if_linked-IsConsistent now key _ (
                  linked-IsConsistent (record { scan = key; product = product })
                    (record { place = place; created_at = now }) c known there h))
        ]
      ]
    ]
