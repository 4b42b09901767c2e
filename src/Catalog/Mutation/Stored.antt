-- ===== src/Catalog/Mutation/Stored.antt =====
-- What the catalog mutation of talap/catalog/importer.py stores of each row, and that it succeeds.
use talap_ml.Common.{
  ℕ, ◌≡◌, refl, sym, ap, ◌∙◌, Option, none, some, List, ok, >>=-eq-ok, ok-subst, ok-injective, All,
  All-weaken, All-both,
}
use talap_ml.Common.Text.{text_eq}
use talap_ml.Common.Table.{Uuid}
use talap_ml.Common.Upsert.{lookup, upsert, merged, HasDistinctKeys, lookup-upsert}
use talap_ml.Catalog.Rows.{
  CatalogRow, CatalogDatabase, CatalogImportSummary, Product, ProductVariant, merchant_key_eq,
  product_key, variant_key,
}
use talap_ml.Catalog.Mutation.{
  NewIds, Ids, get_id, returned_ids, product_row, product_rows, variant_row, variant_rows,
  merge_product, merge_variant, find_product, find_variant, id_of_product, id_of_variant,
  upsert_products, upsert_variants, upsert_inventory, schedule_indexing_tasks, run_catalog_mutation,
}
use talap_ml.Catalog.Mutation.Ids.{
  sku, merchant_key_eq_iff, get_id-returned_ids, product_rows-HasDistinctKeys, All-of_product_rows,
  variant_rows-HasDistinctKeys, All-of_variant_rows,
}

abbrev pub IsProductOf : CatalogRow → Product → Type 0
IsProductOf row p =
    (p.name ≡ row.product_name)
    × (p.category ≡ row.category)
    × (p.description ≡ row.description)
    × (p.active ≡ row.active)

abbrev pub IsVariantOf : CatalogRow → ProductVariant → Type 0
IsVariantOf row v =
    (v.size ≡ row.size)
    × (v.color ≡ row.color)
    × (v.material ≡ row.material)
    × (v.price_kzt ≡ row.price_kzt)
    × (v.image_url ≡ row.image_url)
    × (v.active ≡ row.active)

-- The product and the variant of a row are in the tables, the variant with the id of the product.
abbrev pub HasProduct : Uuid → List Product → CatalogRow → Type 0
HasProduct m products row =
    (p : Product) × (find_product (m, row.merchant_sku) products ≡ some p) × IsProductOf row p

abbrev pub IsStored : Uuid → List Product → List ProductVariant → CatalogRow → Type 0
IsStored m products variants row =
    (p : Product) × (v : ProductVariant) × (find_product (m, row.merchant_sku) products ≡ some p)
    × IsProductOf row p
    × (find_variant (m, row.merchant_sku) variants ≡ some v)
    × IsVariantOf row v
    × (v.product_id ≡ p.id)

module _ (ids : NewIds) (m : Uuid) where
  merged-IsProductOf :
      (j : ℕ) (row : CatalogRow) (stored : Option Product)
      → IsProductOf row
          (merged product_key merchant_key_eq merge_product (product_row ids m j row) stored)
  merged-IsProductOf j row none = (refl, refl, refl, refl)
  merged-IsProductOf j row (some p) = (refl, refl, refl, refl)

  pub products-HasProduct :
      (rows : List CatalogRow) (products : List Product)
      → HasDistinctKeys sku text_eq rows
      → All (HasProduct m (upsert_products ids m rows products).1) rows
  unfolding upsert_products
  products-HasProduct rows products distinct =
      let proposed = product_rows ids m 0 rows in
      let after = upsert product_key merchant_key_eq merge_product proposed products in
      All-weaken
        (λ row.
          (j : ℕ) × (lookup product_key merchant_key_eq (m, row.merchant_sku) after
            ≡ some (
                merged product_key merchant_key_eq merge_product (product_row ids m j row)
                  (lookup product_key merchant_key_eq (m, row.merchant_sku) products))))
        (HasProduct m after)
        (λ row h.
          (_, h.1, merged-IsProductOf h.0 row (find_product (m, row.merchant_sku) products)))
        rows
        (All-of_product_rows ids m
          (λ p.
            lookup product_key merchant_key_eq (product_key p) after
            ≡ some (
                merged product_key merchant_key_eq merge_product p
                  (lookup product_key merchant_key_eq (product_key p) products)))
          0 rows
          (lookup-upsert product_key merchant_key_eq merge_product merchant_key_eq_iff
            (λ row x. refl) proposed products (product_rows-HasDistinctKeys ids m 0 rows distinct)))

  -- The variant of a row, with the id of a product.
  abbrev pub HasVariant : List ProductVariant → Ids → CatalogRow → Type 0
  HasVariant variants product_ids row =
      (v : ProductVariant) × (find_variant (m, row.merchant_sku) variants ≡ some v)
      × IsVariantOf row v
      × (get_id row.merchant_sku product_ids ≡ ok v.product_id)

  merged-IsVariantOf :
      (j : ℕ) (p : Uuid) (row : CatalogRow) (stored : Option ProductVariant)
      → let v =
          merged variant_key merchant_key_eq merge_variant (variant_row ids m j p row) stored in
        IsVariantOf row v × (v.product_id ≡ p)
  merged-IsVariantOf j p row none = ((refl, refl, refl, refl, refl, refl), refl)
  merged-IsVariantOf j p row (some v) = ((refl, refl, refl, refl, refl, refl), refl)

  pub variants-HasVariant :
      (product_ids variant_ids : Ids) (rows : List CatalogRow)
      (variants after : List ProductVariant)
      → upsert_variants ids m product_ids rows variants ≡ ok (variant_ids, after)
      → HasDistinctKeys sku text_eq rows
      → All (HasVariant after product_ids) rows
        × (variant_ids ≡ returned_ids (λ key. find_variant key after) id_of_variant m rows)
  unfolding upsert_variants
  variants-HasVariant product_ids variant_ids rows variants after h distinct =
      let (proposed, e, h1) = >>=-eq-ok (variant_rows ids m product_ids 0 rows) _ h in
      let table = upsert variant_key merchant_key_eq merge_variant proposed variants in
      let stored =
        All-of_variant_rows ids m product_ids
          (λ v.
            lookup variant_key merchant_key_eq (variant_key v) table
            ≡ some (
                merged variant_key merchant_key_eq merge_variant v
                  (lookup variant_key merchant_key_eq (variant_key v) variants)))
          0 rows proposed e
          (lookup-upsert variant_key merchant_key_eq merge_variant merchant_key_eq_iff
            (λ row x. refl) proposed variants
            (variant_rows-HasDistinctKeys ids m product_ids 0 rows proposed e distinct)) in
      ok-subst
        (λ r.
          All (HasVariant r.1 product_ids) rows
          × (r.0 ≡ returned_ids (λ key. find_variant key r.1) id_of_variant m rows))
        h1
        (
          All-weaken
              (λ row.
                (j : ℕ) × (p : Uuid) × (get_id row.merchant_sku product_ids ≡ ok p)
                × (lookup variant_key merchant_key_eq (m, row.merchant_sku) table
                    ≡ some (
                        merged variant_key merchant_key_eq merge_variant (variant_row ids m j p row)
                          (lookup variant_key merchant_key_eq (m, row.merchant_sku) variants))))
              (HasVariant table product_ids)
              (λ row (j, p, found, stored_as).
                let merged_as =
                  merged-IsVariantOf j p row (find_variant (m, row.merchant_sku) variants) in
                (_, stored_as, merged_as.0, found ∙ ap ok (sym merged_as.1)))
              rows stored,
          refl,
        )

  both-IsStored :
      (products : List Product) (variants : List ProductVariant) (product_ids : Ids)
      (row : CatalogRow)
      → HasProduct m products row
      → ((p : Product)
          → find_product (m, row.merchant_sku) products ≡ some p
          → get_id row.merchant_sku product_ids ≡ ok p.id)
      → HasVariant variants product_ids row
      → IsStored m products variants row
  both-IsStored products variants product_ids row (p, found, is_product) id
        (v, found_v, is_variant, linked) =
      (p, v, found, is_product, found_v, is_variant, ok-injective (sym linked ∙ id p found))

  -- Where the SKUs of the rows differ, a mutation that succeeds has stored every row: the product
  -- and the variant of its SKU have the columns of the row, and the variant has the id of the
  -- product.
  pub run_catalog_mutation-IsStored :
      (import_id : Uuid) (rows : List CatalogRow) (db after : CatalogDatabase)
      (summary : CatalogImportSummary)
      → HasDistinctKeys sku text_eq rows
      → run_catalog_mutation ids m import_id rows db ≡ ok (summary, after)
      → All (IsStored m after.products after.variants) rows
  unfolding run_catalog_mutation upsert_products
  run_catalog_mutation-IsStored import_id rows db after summary distinct h =
      let up = upsert_products ids m rows db.products in
      let (vr, ev, h1) = >>=-eq-ok (upsert_variants ids m up.0 rows db.variants) _ h in
      let (inv, ei, h2) = >>=-eq-ok (upsert_inventory ids m vr.0 rows db.inventory) _ h1 in
      let (ts, et, h3) = >>=-eq-ok (schedule_indexing_tasks ids m db up.0 0 rows db.tasks) _ h2 in
      ok-subst (λ r. All (IsStored m r.1.products r.1.variants) rows) h3
        (All-weaken
          (λ row.
            (HasProduct m up.1 row
              × ((p : Product)
                  → find_product (m, row.merchant_sku) up.1 ≡ some p
                  → get_id row.merchant_sku up.0 ≡ ok p.id))
            × HasVariant vr.1 up.0 row)
          (IsStored m up.1 vr.1)
          (λ row ((product, id), variant). both-IsStored up.1 vr.1 up.0 row product id variant) rows
          (All-both _ _ rows
            (All-both _ _ rows (products-HasProduct rows db.products distinct)
              (get_id-returned_ids (λ key. find_product key up.1) id_of_product m rows))
            (variants-HasVariant up.0 vr.0 rows db.variants vr.1 ev distinct).0))
