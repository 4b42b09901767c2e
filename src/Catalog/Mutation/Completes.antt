-- ===== src/Catalog/Mutation/Completes.antt =====
-- That the catalog mutation of talap/catalog/importer.py misses no key of its dictionaries.
use talap_ml.Common.{
  ℕ, ◌+◌, ◌≡◌, refl, List, [], ◌∷◌, ok, Succeeds, >>=-Succeeds, All, All-weaken, All-both,
}
use talap_ml.Common.Text.{text_eq}
use talap_ml.Common.Table.{Uuid}
use talap_ml.Common.Upsert.{HasDistinctKeys}
use talap_ml.Indexing.Worker.{Task}
use talap_ml.Catalog.Rows.{CatalogRow, CatalogDatabase, Product, ProductVariant, Inventory}
use talap_ml.Catalog.Mutation.{
  NewIds, Ids, get_id, variant_rows, upsert_products, upsert_variants, inventory_rows,
  upsert_inventory, find_product, find_variant, id_of_product, id_of_variant,
  schedule_indexing_tasks, run_catalog_mutation,
}
use talap_ml.Catalog.Mutation.Ids.{sku, get_id-returned_ids}
use talap_ml.Catalog.Mutation.Stored.{
  HasProduct, HasVariant, products-HasProduct, variants-HasVariant,
}

-- The dictionary has an id for every row.
abbrev HasIds : Ids → List CatalogRow → Type 0
HasIds dictionary rows =
    All (λ row. (id : Uuid) × (get_id row.merchant_sku dictionary ≡ ok id)) rows

module _ (ids : NewIds) (m : Uuid) where
  variant_rows-Succeeds :
      (d : Ids) (i : ℕ) (rows : List CatalogRow)
      → HasIds d rows
      → Succeeds (variant_rows ids m d i rows)
  unfolding variant_rows
  variant_rows-Succeeds d i [] h = (_, refl)
  variant_rows-Succeeds d i (r ∷ rows) h = >>=-Succeeds (get_id r.merchant_sku d) _ h.0 (λ id e.
      >>=-Succeeds (variant_rows ids m d (i + 1) rows) _ (variant_rows-Succeeds d (i + 1) rows h.1)
        (λ rest f. (_, refl)))

  inventory_rows-Succeeds :
      (d : Ids) (i : ℕ) (rows : List CatalogRow)
      → HasIds d rows
      → Succeeds (inventory_rows ids m d i rows)
  unfolding inventory_rows
  inventory_rows-Succeeds d i [] h = (_, refl)
  inventory_rows-Succeeds d i (r ∷ rows) h = >>=-Succeeds (get_id r.merchant_sku d) _ h.0 (λ id e.
      >>=-Succeeds (inventory_rows ids m d (i + 1) rows) _
        (inventory_rows-Succeeds d (i + 1) rows h.1) (λ rest f. (_, refl)))

  schedule_indexing_tasks-Succeeds :
      (before : CatalogDatabase) (d : Ids) (i : ℕ) (rows : List CatalogRow) (tasks : List Task)
      → HasIds d rows
      → Succeeds (schedule_indexing_tasks ids m before d i rows tasks)
  unfolding schedule_indexing_tasks
  schedule_indexing_tasks-Succeeds before d i [] tasks h = (_, refl)
  schedule_indexing_tasks-Succeeds before d i (r ∷ rows) tasks h =
      >>=-Succeeds (get_id r.merchant_sku d) _ h.0
        (λ id e. schedule_indexing_tasks-Succeeds before d (i + 1) rows _ h.1)

  products-HasIds :
      (rows : List CatalogRow) (products : List Product)
      → HasDistinctKeys sku text_eq rows
      → HasIds (upsert_products ids m rows products).0 rows
  unfolding upsert_products
  products-HasIds rows products distinct =
      let after = (upsert_products ids m rows products).1 in
      All-weaken _ _ (λ row ((p, found, is_product), id). (p.id, id p found)) rows
        (All-both (HasProduct m after) _ rows (products-HasProduct ids m rows products distinct)
          (get_id-returned_ids (λ key. find_product key after) id_of_product m rows))

  variants-HasIds :
      (product_ids variant_ids : Ids) (rows : List CatalogRow)
      (variants after : List ProductVariant)
      → upsert_variants ids m product_ids rows variants ≡ ok (variant_ids, after)
      → HasDistinctKeys sku text_eq rows
      → HasIds variant_ids rows
  variants-HasIds product_ids variant_ids rows variants after h distinct =
      let (stored, same) =
        variants-HasVariant ids m product_ids variant_ids rows variants after h distinct in
      rw same (
        All-weaken _ _ (λ row ((v, found, is_variant, linked), id). (v.id, id v found)) rows
          (All-both (HasVariant ids m after product_ids) _ rows stored
            (get_id-returned_ids (λ key. find_variant key after) id_of_variant m rows)))

  upsert_variants-Succeeds :
      (product_ids : Ids) (rows : List CatalogRow) (variants : List ProductVariant)
      → HasIds product_ids rows
      → Succeeds (upsert_variants ids m product_ids rows variants)
  unfolding upsert_variants
  upsert_variants-Succeeds d rows variants h =
      >>=-Succeeds (variant_rows ids m d 0 rows) _ (variant_rows-Succeeds d 0 rows h)
        (λ proposed e. (_, refl))

  upsert_inventory-Succeeds :
      (variant_ids : Ids) (rows : List CatalogRow) (inventory : List Inventory)
      → HasIds variant_ids rows
      → Succeeds (upsert_inventory ids m variant_ids rows inventory)
  unfolding upsert_inventory
  upsert_inventory-Succeeds d rows inventory h =
      >>=-Succeeds (inventory_rows ids m d 0 rows) _ (inventory_rows-Succeeds d 0 rows h)
        (λ proposed e. (_, refl))

  -- Rows with different SKUs are imported: the mutation finds the ids of all products and variants.
  pub run_catalog_mutation-Succeeds :
      (import_id : Uuid) (rows : List CatalogRow) (db : CatalogDatabase)
      → HasDistinctKeys sku text_eq rows
      → Succeeds (run_catalog_mutation ids m import_id rows db)
  unfolding run_catalog_mutation
  run_catalog_mutation-Succeeds import_id rows db distinct =
      let up = upsert_products ids m rows db.products in
      let has_products = products-HasIds rows db.products distinct in
      >>=-Succeeds (upsert_variants ids m up.0 rows db.variants) _
        (upsert_variants-Succeeds up.0 rows db.variants has_products)
        (λ (variant_ids, variants) e.
          >>=-Succeeds (upsert_inventory ids m variant_ids rows db.inventory) _
            (upsert_inventory-Succeeds variant_ids rows db.inventory
              (variants-HasIds up.0 variant_ids rows db.variants variants e distinct))
            (λ inventory f.
              >>=-Succeeds (schedule_indexing_tasks ids m db up.0 0 rows db.tasks) _
                (schedule_indexing_tasks-Succeeds db up.0 0 rows db.tasks has_products)
                (λ tasks g. (_, refl))))
