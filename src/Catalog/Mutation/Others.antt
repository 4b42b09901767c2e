-- ===== src/Catalog/Mutation/Others.antt =====
-- What the catalog mutation of talap/catalog/importer.py leaves as it was.
use talap_ml.Common.{ℕ, ◌+◌, ◌≡◌, refl, List, [], ◌∷◌, ok, >>=-eq-ok, ok-subst}
use talap_ml.Common.Table.{Uuid}
use talap_ml.Common.Upsert.{IsFresh, lookup-upsert_fresh}
use talap_ml.Catalog.Rows.{
  CatalogRow, CatalogDatabase, CatalogImportSummary, ProductVariant, MerchantKey, merchant_key_eq,
  product_key, variant_key,
}
use talap_ml.Catalog.Mutation.{
  NewIds, Ids, get_id, merge_product, merge_variant, find_product, find_variant, product_rows,
  variant_rows, upsert_products, upsert_variants, upsert_inventory, schedule_indexing_tasks,
  run_catalog_mutation,
}
use talap_ml.Catalog.Mutation.Ids.{merchant_key_eq_iff}

-- The products and the variants of the key are the same.
abbrev pub SameRows : MerchantKey → CatalogDatabase → CatalogDatabase → Type 0
SameRows key db after =
    (find_product key after.products ≡ find_product key db.products)
    × (find_variant key after.variants ≡ find_variant key db.variants)

module _ (ids : NewIds) (m : Uuid) where
  -- The key is another merchant's, or the SKU of no row.
  abbrev pub IsOther : MerchantKey → List CatalogRow → Type 0
  IsOther key rows = IsFresh (λ row. (m, row.merchant_sku)) merchant_key_eq key rows

  product_rows-IsOther :
      (key : MerchantKey) (i : ℕ) (rows : List CatalogRow)
      → IsOther key rows
      → IsFresh product_key merchant_key_eq key (product_rows ids m i rows)
  unfolding product_rows
  product_rows-IsOther key i [] other = tt
  product_rows-IsOther key i (r ∷ rows) other =
      (other.0, product_rows-IsOther key (i + 1) rows other.1)

  variant_rows-IsOther :
      (key : MerchantKey) (product_ids : Ids) (i : ℕ) (rows : List CatalogRow)
      (vs : List ProductVariant)
      → variant_rows ids m product_ids i rows ≡ ok vs
      → IsOther key rows
      → IsFresh variant_key merchant_key_eq key vs
  unfolding variant_rows
  variant_rows-IsOther key product_ids i [] vs e other =
      ok-subst (IsFresh variant_key merchant_key_eq key) e tt
  variant_rows-IsOther key product_ids i (r ∷ rows) vs e other =
      let (p, ep, e1) = >>=-eq-ok (get_id r.merchant_sku product_ids) _ e in
      let (rest, er, e2) = >>=-eq-ok (variant_rows ids m product_ids (i + 1) rows) _ e1 in
      ok-subst (IsFresh variant_key merchant_key_eq key) e2
        (other.0, variant_rows-IsOther key product_ids (i + 1) rows rest er other.1)

  upsert_variants-keeps :
      (key : MerchantKey) (product_ids : Ids) (rows : List CatalogRow)
      (variants : List ProductVariant) (r : Ids × List ProductVariant)
      → IsOther key rows
      → upsert_variants ids m product_ids rows variants ≡ ok r
      → find_variant key r.1 ≡ find_variant key variants
  unfolding upsert_variants
  upsert_variants-keeps key product_ids rows variants r other h =
      let (proposed, e, h1) = >>=-eq-ok (variant_rows ids m product_ids 0 rows) _ h in
      ok-subst (λ r. find_variant key r.1 ≡ find_variant key variants) h1
        (lookup-upsert_fresh variant_key merchant_key_eq merge_variant merchant_key_eq_iff
          (λ row x. refl) key proposed variants
          (variant_rows-IsOther key product_ids 0 rows proposed e other))

  -- A mutation that succeeds leaves as they were the product and the variant of every key that is
  -- not one of the rows: those of other merchants, and those of the merchant under other SKUs.
  pub run_catalog_mutation-keeps_others :
      (import_id : Uuid) (rows : List CatalogRow) (db after : CatalogDatabase)
      (summary : CatalogImportSummary) (key : MerchantKey)
      → IsOther key rows
      → run_catalog_mutation ids m import_id rows db ≡ ok (summary, after)
      → SameRows key db after
  unfolding run_catalog_mutation upsert_products
  run_catalog_mutation-keeps_others import_id rows db after summary key other h =
      let up = upsert_products ids m rows db.products in
      let (vr, ev, h1) = >>=-eq-ok (upsert_variants ids m up.0 rows db.variants) _ h in
      let (inv, ei, h2) = >>=-eq-ok (upsert_inventory ids m vr.0 rows db.inventory) _ h1 in
      let (ts, et, h3) = >>=-eq-ok (schedule_indexing_tasks ids m db up.0 0 rows db.tasks) _ h2 in
      ok-subst (λ r. SameRows key db r.1) h3
        (
          lookup-upsert_fresh product_key merchant_key_eq merge_product merchant_key_eq_iff
              (λ row x. refl) key (product_rows ids m 0 rows) db.products
              (product_rows-IsOther key 0 rows other),
          upsert_variants-keeps key up.0 rows db.variants vr other ev,
        )
