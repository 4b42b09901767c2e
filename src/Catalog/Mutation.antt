-- ===== src/Catalog/Mutation.antt =====
-- `_run_catalog_mutation` of talap/catalog/importer.py and the upserts that it runs.
pub mod Ids
pub mod Stored
pub mod Completes
pub mod Again
pub mod Others
use talap_ml.Common.{
  ℕ, ◌+◌, ◌-◌, Bool, true, false, not, Option, none, some, List, [], ◌∷◌, map, any, select, length,
  ◌==◌, if◌then◌else◌, Result, ok, err, ◌>>=◌,
}
use talap_ml.Common.Int.{ℤ}
use talap_ml.Common.Text.{Text, text_eq}
use talap_ml.Common.Table.{Uuid, update_row}
use talap_ml.Common.Upsert.{lookup, upsert}
use talap_ml.Indexing.Worker.{Task}
use talap_ml.Catalog.Rows.{
  CatalogRow, ImportStatus, Counters, CatalogImport, CatalogImportSummary, Product, ProductVariant,
  Inventory, CatalogDatabase, MerchantKey, merchant_key_eq, product_key, variant_key, inventory_key,
  import_key, completed,
}
use talap_ml.Catalog.Semantic.{
  SemanticValues, semantic_product_fields, semantic_changed_fields, row_semantic_values,
  schedule_product_indexing,
}

-- the ids of the new rows, by the number of the row in the file, and the time of the transaction
pub record NewIds : Type 0 where
  pub product_ids : ℕ → Uuid
  pub variant_ids : ℕ → Uuid
  pub inventory_ids : ℕ → Uuid
  pub task_ids : ℕ → Uuid
  pub now : ℤ

-- a dictionary from texts to ids; the error of a missing key is a `KeyError`
abbrev pub Ids : Type 0
Ids = List (Text × Uuid)

pub data KeyError : Type 0 where
  missing_key : KeyError

unfoldable pub get_id : Text → Ids → Result KeyError Uuid
get_id key [] = err missing_key
get_id key ((k, id) ∷ ids) = if text_eq k key then ok id else get_id key ids

abbrev pub mem_text : Text → List Text → Bool
mem_text t ts = any (text_eq t) ts

-- `on_conflict_do_update` of the three tables
abbrev pub merge_product : Product → Product → Product
merge_product row p = record p {
  name = row.name;
  category = row.category;
  description = row.description;
  active = row.active;
}

abbrev pub merge_variant : ProductVariant → ProductVariant → ProductVariant
merge_variant row v = record v {
  product_id = row.product_id;
  size = row.size;
  color = row.color;
  material = row.material;
  price_kzt = row.price_kzt;
  image_url = row.image_url;
  active = row.active;
}

abbrev pub merge_inventory : Inventory → Inventory → Inventory
merge_inventory row i = record i { stock_quantity = row.stock_quantity }

abbrev pub find_product : MerchantKey → List Product → Option Product
find_product key products = lookup product_key merchant_key_eq key products

abbrev pub find_variant : MerchantKey → List ProductVariant → Option ProductVariant
find_variant key variants = lookup variant_key merchant_key_eq key variants

abbrev pub find_inventory : Uuid → List Inventory → Option Inventory
find_inventory key inventory = lookup inventory_key ◌==◌ key inventory

-- the keys with the ids of the rows that have them, as RETURNING gives them
module _ {A : Type 0} (find : MerchantKey → Option A) (id : A → Uuid) (merchant_id : Uuid) where
  unfoldable pub returned_ids : List CatalogRow → Ids
  returned_ids [] = []
  returned_ids (row ∷ rows) =
      let rest = returned_ids rows in
      elim (find (merchant_id, row.merchant_sku)) [
        | none ↦ rest
        | some x ↦ (row.merchant_sku, id x) ∷ rest
      ]

abbrev pub id_of_product : Product → Uuid
id_of_product p = p.id

abbrev pub id_of_variant : ProductVariant → Uuid
id_of_variant v = v.id

module _ (ids : NewIds) (merchant_id : Uuid) where
  abbrev pub product_row : ℕ → CatalogRow → Product
  product_row index row = record {
    id = ids.product_ids index;
    merchant_id = merchant_id;
    merchant_product_key = row.merchant_sku;
    name = row.product_name;
    category = row.category;
    description = row.description;
    active = row.active;
  }

  unfoldable pub product_rows : ℕ → List CatalogRow → List Product
  product_rows index [] = []
  product_rows index (row ∷ rows) = product_row index row ∷ product_rows (index + 1) rows

  unfoldable pub upsert_products : List CatalogRow → List Product → Ids × List Product
  upsert_products rows products =
      let after = upsert product_key merchant_key_eq merge_product (product_rows 0 rows) products in
      (returned_ids (λ key. find_product key after) id_of_product merchant_id rows, after)

  abbrev pub variant_row : ℕ → Uuid → CatalogRow → ProductVariant
  variant_row index product_id row = record {
    id = ids.variant_ids index;
    merchant_id = merchant_id;
    product_id = product_id;
    merchant_sku = row.merchant_sku;
    size = row.size;
    color = row.color;
    material = row.material;
    price_kzt = row.price_kzt;
    image_url = row.image_url;
    active = row.active;
  }

  unfoldable pub variant_rows : Ids → ℕ → List CatalogRow → Result KeyError (List ProductVariant)
  variant_rows product_ids index [] = ok []
  variant_rows product_ids index (row ∷ rows) = do
    product_id ← get_id row.merchant_sku product_ids
    rest ← variant_rows product_ids (index + 1) rows
    ok (variant_row index product_id row ∷ rest)

  unfoldable pub upsert_variants :
      Ids → List CatalogRow → List ProductVariant → Result KeyError (Ids × List ProductVariant)
  upsert_variants product_ids rows variants = do
    proposed ← variant_rows product_ids 0 rows
    let after = upsert variant_key merchant_key_eq merge_variant proposed variants
    ok (returned_ids (λ key. find_variant key after) id_of_variant merchant_id rows, after)

  unfoldable pub inventory_rows : Ids → ℕ → List CatalogRow → Result KeyError (List Inventory)
  inventory_rows variant_ids index [] = ok []
  inventory_rows variant_ids index (row ∷ rows) = do
    variant_id ← get_id row.merchant_sku variant_ids
    rest ← inventory_rows variant_ids (index + 1) rows
    ok (
        record {
          id = ids.inventory_ids index;
          product_variant_id = variant_id;
          stock_quantity = row.stock_quantity;
        }
        ∷ rest)

  unfoldable pub upsert_inventory :
      Ids → List CatalogRow → List Inventory → Result KeyError (List Inventory)
  upsert_inventory variant_ids rows inventory = do
    proposed ← inventory_rows variant_ids 0 rows
    ok (upsert inventory_key ◌==◌ merge_inventory proposed inventory)

  -- `_load_semantic_values` for one key: the product's columns, and the material of its variant
  unfoldable pub semantic_values : CatalogDatabase → Text → Option SemanticValues
  semantic_values db key = elim (find_product (merchant_id, key) db.products) [
    | none ↦ none
    | some p ↦ some (record {
      name = some p.name;
      description = some p.description;
      category = some p.category;
      material = elim (find_variant (merchant_id, key) db.variants) [
        | none ↦ none
        | some v ↦ v.material
      ];
    })
  ]

  -- the fields that a row changes of what was stored before the upserts
  unfoldable pub changed_fields : CatalogDatabase → CatalogRow → List Text
  changed_fields before row = elim (semantic_values before row.merchant_sku) [
    | none ↦ semantic_product_fields
    | some values ↦ semantic_changed_fields values (row_semantic_values row)
  ]

  unfoldable pub schedule_indexing_tasks :
      CatalogDatabase → Ids → ℕ → List CatalogRow → List Task → Result KeyError (List Task)
  schedule_indexing_tasks before product_ids index [] tasks = ok tasks
  schedule_indexing_tasks before product_ids index (row ∷ rows) tasks = do
    product_id ← get_id row.merchant_sku product_ids
    let scheduled =
        schedule_product_indexing (ids.task_ids index) ids.now merchant_id product_id
          (changed_fields before row) tasks
    schedule_indexing_tasks before product_ids (index + 1) rows scheduled

  -- the keys of the merchant's products, and the SKUs of its variants
  abbrev pub existing_product_keys : List Product → List Text
  existing_product_keys products =
      map (λ p. p.merchant_product_key) (select (λ p. p.merchant_id == merchant_id) products)

  abbrev pub existing_skus : List ProductVariant → List Text
  existing_skus variants =
      map (λ v. v.merchant_sku) (select (λ v. v.merchant_id == merchant_id) variants)

  abbrev pub count_new : List Text → List CatalogRow → ℕ
  count_new existing rows = length (select (λ row. not (mem_text row.merchant_sku existing)) rows)

  unfoldable pub completed_counters : CatalogDatabase → List CatalogRow → Counters
  completed_counters before rows =
      let total = length rows in
      let created_products = count_new (existing_product_keys before.products) rows in
      let created_variants = count_new (existing_skus before.variants) rows in
      record {
        total_rows = total;
        valid_rows = total;
        invalid_rows = 0;
        created_products = created_products;
        updated_products = total - created_products;
        created_variants = created_variants;
        updated_variants = total - created_variants;
        updated_inventory_rows = total;
      }

  abbrev pub completed_import : Counters → CatalogImport → CatalogImport
  completed_import counters i = record i { status = completed; counters = counters }

  -- the transaction, where no statement of it is refused by the database
  unfoldable pub run_catalog_mutation :
      Uuid
      → List CatalogRow
      → CatalogDatabase
      → Result KeyError (CatalogImportSummary × CatalogDatabase)
  run_catalog_mutation import_id rows db = do
    let (product_ids, products) = upsert_products rows db.products
    (variant_ids, variants) ← upsert_variants product_ids rows db.variants
    inventory ← upsert_inventory variant_ids rows db.inventory
    tasks ← schedule_indexing_tasks db product_ids 0 rows db.tasks
    let counters = completed_counters db rows
    ok (
      record {
        import_id = import_id;
        merchant_id = merchant_id;
        status = completed;
        counters = counters;
        error_count = 0;
      },
      record db {
        imports = update_row import_key import_id (completed_import counters) db.imports;
        products = products;
        variants = variants;
        inventory = inventory;
        tasks = tasks;
      },
    )
