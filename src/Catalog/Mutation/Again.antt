-- ===== src/Catalog/Mutation/Again.antt =====
-- A file that is imported again changes nothing that is embedded, in talap/catalog/importer.py.
use talap_ml.Common.{
  ℕ, ◌+◌, ◌≡◌, refl, sym, true, inl, inr, Bool-cases, Option, none, some, List, [], ◌∷◌, length,
  arith, ok, >>=-eq-ok, ok-subst, ok-injective, All, All-weaken,
}
use talap_ml.Common.Text.{Text, text_eq, text_eq_iff}
use talap_ml.Common.Table.{Uuid}
use talap_ml.Common.Upsert.{lookup, HasDistinctKeys}
use talap_ml.Indexing.Worker.{Task}
use talap_ml.Catalog.Rows.{
  CatalogRow, CatalogDatabase, CatalogImportSummary, Product, ProductVariant, merchant_key_eq,
  product_key, variant_key,
}
use talap_ml.Catalog.Semantic.{
  SemanticValues, semantic_changed_fields, row_semantic_values, schedule_product_indexing, value_eq,
}
use talap_ml.Catalog.Mutation.{
  NewIds, Ids, get_id, mem_text, find_product, find_variant, upsert_products, upsert_variants,
  upsert_inventory, schedule_indexing_tasks, changed_fields, semantic_values, existing_product_keys,
  existing_skus, count_new, completed_counters, run_catalog_mutation,
}
use talap_ml.Catalog.Mutation.Ids.{sku}
use talap_ml.Catalog.Mutation.Stored.{IsStored, run_catalog_mutation-IsStored}

text_eq_refl : (t : Text) → text_eq t t ≡ true
text_eq_refl t = (text_eq_iff t t).1 refl

value_eq_refl : (v : Option Text) → value_eq v v ≡ true
value_eq_refl none = refl
value_eq_refl (some t) = text_eq_refl t

-- The values of a row do not differ from themselves.
unchanged : (values : SemanticValues) → semantic_changed_fields values values ≡ []
unfolding semantic_changed_fields
unchanged values =
    rw
      (
        value_eq_refl values.category,
        value_eq_refl values.description,
        value_eq_refl values.material,
        value_eq_refl values.name,
      )
      refl

module _ (ids : NewIds) (m : Uuid) where
  semantic_values-of-IsStored :
      (db : CatalogDatabase) (row : CatalogRow)
      → IsStored m db.products db.variants row
      → semantic_values ids m db row.merchant_sku ≡ some (row_semantic_values row)
  unfolding semantic_values
  semantic_values-of-IsStored db row
        (p, v, found, (name, category, description, active), found_v, is_variant, linked) =
      rw (found, semantic_values, found_v, name, category, description, is_variant.2) refl

  changed_fields-of-IsStored :
      (db : CatalogDatabase) (row : CatalogRow)
      → IsStored m db.products db.variants row
      → changed_fields ids m db row ≡ []
  unfolding changed_fields
  changed_fields-of-IsStored db row h =
      rw (semantic_values-of-IsStored db row h, changed_fields)
        (unchanged (row_semantic_values row))

  schedule_indexing_tasks-same :
      (db : CatalogDatabase) (d : Ids) (i : ℕ) (rows : List CatalogRow) (tasks after : List Task)
      → All (IsStored m db.products db.variants) rows
      → schedule_indexing_tasks ids m db d i rows tasks ≡ ok after
      → after ≡ tasks
  unfolding schedule_indexing_tasks schedule_product_indexing
  schedule_indexing_tasks-same db d i [] tasks after h e = ok-injective (sym e)
  schedule_indexing_tasks-same db d i (r ∷ rows) tasks after h e =
      let (id, found, e1) = >>=-eq-ok (get_id r.merchant_sku d) _ e in
      schedule_indexing_tasks-same db d (i + 1) rows tasks after h.1
        (rw (changed_fields-of-IsStored db r h.0) at e1)

  mem-existing_product_keys :
      (k : Text) (products : List Product) (p : Product)
      → find_product (m, k) products ≡ some p
      → mem_text k (existing_product_keys ids m products) ≡ true
  unfolding lookup
  mem-existing_product_keys k [] p h = cc
  mem-existing_product_keys k (x ∷ products) p h =
      elim (Bool-cases (merchant_key_eq (product_key x) (m, k))) [
        | inr e ↦
            let later = mem-existing_product_keys k products p (ground (arith, e)) in
            ground (arith, later)
        | inl e ↦ ground (arith, e, text_eq_iff x.merchant_product_key k, text_eq_refl k)
      ]

  mem-existing_skus :
      (k : Text) (variants : List ProductVariant) (v : ProductVariant)
      → find_variant (m, k) variants ≡ some v
      → mem_text k (existing_skus ids m variants) ≡ true
  unfolding lookup
  mem-existing_skus k [] v h = cc
  mem-existing_skus k (x ∷ variants) v h =
      elim (Bool-cases (merchant_key_eq (variant_key x) (m, k))) [
        | inr e ↦
            let later = mem-existing_skus k variants v (ground (arith, e)) in ground (arith, later)
        | inl e ↦ ground (arith, e, text_eq_iff x.merchant_sku k, text_eq_refl k)
      ]

  count_new_zero :
      (existing : List Text) (rows : List CatalogRow)
      → All (λ row. mem_text row.merchant_sku existing ≡ true) rows
      → count_new ids m existing rows ≡ 0
  count_new_zero existing [] h = refl
  count_new_zero existing (r ∷ rows) h = rw h.0 (count_new_zero existing rows h.1)

-- The rows of a mutation that succeeded, where their SKUs differ, imported again from the tables
-- that it left, schedule no task and are counted as updated, none as created.
pub run_catalog_mutation-again :
    (ids : NewIds) (m import_id : Uuid) (rows : List CatalogRow) (db after : CatalogDatabase)
    (summary : CatalogImportSummary)
    → HasDistinctKeys sku text_eq rows
    → run_catalog_mutation ids m import_id rows db ≡ ok (summary, after)
    → (new_ids : NewIds) (new_import : Uuid) (last : CatalogDatabase)
      (second : CatalogImportSummary)
    → run_catalog_mutation new_ids m new_import rows after ≡ ok (second, last)
    → (last.tasks ≡ after.tasks)
      × (second.counters.created_products ≡ 0)
      × (second.counters.created_variants ≡ 0)
      × (second.counters.updated_products ≡ length rows)
unfolding run_catalog_mutation completed_counters
run_catalog_mutation-again ids m import_id rows db after summary distinct h new_ids new_import last
      second k =
    let stored = run_catalog_mutation-IsStored ids m import_id rows db after summary distinct h in
    let up = upsert_products new_ids m rows after.products in
    let (vr, ev, k1) = >>=-eq-ok (upsert_variants new_ids m up.0 rows after.variants) _ k in
    let (inv, ei, k2) = >>=-eq-ok (upsert_inventory new_ids m vr.0 rows after.inventory) _ k1 in
    let (ts, et, k3) =
      >>=-eq-ok (schedule_indexing_tasks new_ids m after up.0 0 rows after.tasks) _ k2 in
    let same = schedule_indexing_tasks-same new_ids m after up.0 0 rows after.tasks ts stored et in
    let no_products =
      count_new_zero new_ids m (existing_product_keys new_ids m after.products) rows (
        All-weaken (IsStored m after.products after.variants) _
          (λ row (p, v, found, product, found_v, variant, linked).
            mem-existing_product_keys new_ids m row.merchant_sku after.products p found)
          rows stored) in
    let no_variants = count_new_zero new_ids m (existing_skus new_ids m after.variants) rows (
      All-weaken (IsStored m after.products after.variants) _
        (λ row (p, v, found, product, found_v, variant, linked).
          mem-existing_skus new_ids m row.merchant_sku after.variants v found_v)
        rows stored) in
    ok-subst
      (λ r.
        (r.1.tasks ≡ after.tasks)
        × (r.0.counters.created_products ≡ 0)
        × (r.0.counters.created_variants ≡ 0)
        × (r.0.counters.updated_products ≡ length rows))
      k3 (same, no_products, no_variants, omega (arith, no_products))
