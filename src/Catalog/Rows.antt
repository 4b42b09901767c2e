-- ===== src/Catalog/Rows.antt =====
-- A parsed catalog file (talap/catalog/schemas.py, errors.py), the summary of an import
-- (import_types.py), and the columns of talap/db/models/catalog.py, imports.py and merchant.py that
-- the import uses.
use talap_ml.Common.{ℕ, Bool, ◌&&◌, Option, List, ◌==◌}
use talap_ml.Common.Text.{Text, text_eq}
use talap_ml.Common.Table.{Uuid}
use talap_ml.Indexing.Worker.{Task}

pub record CatalogRow : Type 0 where
  pub merchant_slug : Text
  pub merchant_name : Text
  pub merchant_sku : Text
  pub product_name : Text
  pub category : Text
  pub description : Text
  pub price_kzt : ℕ
  pub size : Option Text
  pub color : Option Text
  pub material : Option Text
  pub stock_quantity : ℕ
  pub image_url : Option Text
  pub active : Bool

-- `CatalogParseError`, and the columns of `CatalogImportError` but its keys
pub record RowError : Type 0 where
  pub code : Text
  pub message : Text
  pub row_number : Option ℕ
  pub field : Option Text
  pub value : Option Text

pub record ParseResult : Type 0 where
  pub rows : List CatalogRow
  pub errors : List RowError
  pub total_rows : ℕ
  pub valid_rows : ℕ
  pub invalid_rows : ℕ

pub data ImportStatus : Type 0 where
  pending validating importing completed failed : ImportStatus

pub record Counters : Type 0 where
  pub total_rows : ℕ
  pub valid_rows : ℕ
  pub invalid_rows : ℕ
  pub created_products : ℕ
  pub updated_products : ℕ
  pub created_variants : ℕ
  pub updated_variants : ℕ
  pub updated_inventory_rows : ℕ

pub record CatalogImport : Type 0 where
  pub id : Uuid
  pub merchant_id : Uuid
  pub filename : Text
  pub status : ImportStatus
  pub counters : Counters

pub record CatalogImportSummary : Type 0 where
  pub import_id : Uuid
  pub merchant_id : Uuid
  pub status : ImportStatus
  pub counters : Counters
  pub error_count : ℕ

pub record Merchant : Type 0 where
  pub id : Uuid
  pub slug : Text
  pub active : Bool

pub record Product : Type 0 where
  pub id : Uuid
  pub merchant_id : Uuid
  pub merchant_product_key : Text
  pub name : Text
  pub category : Text
  pub description : Text
  pub active : Bool

pub record ProductVariant : Type 0 where
  pub id : Uuid
  pub merchant_id : Uuid
  pub product_id : Uuid
  pub merchant_sku : Text
  pub size : Option Text
  pub color : Option Text
  pub material : Option Text
  pub price_kzt : ℕ
  pub image_url : Option Text
  pub active : Bool

pub record Inventory : Type 0 where
  pub id : Uuid
  pub product_variant_id : Uuid
  pub stock_quantity : ℕ

-- an error row with the import that it belongs to
pub record StoredError : Type 0 where
  pub catalog_import_id : Uuid
  pub error : RowError

pub record CatalogDatabase : Type 0 where
  pub merchants : List Merchant
  pub imports : List CatalogImport
  pub errors : List StoredError
  pub products : List Product
  pub variants : List ProductVariant
  pub inventory : List Inventory
  pub tasks : List Task

-- the two unique constraints over a merchant and a text
abbrev pub MerchantKey : Type 0
MerchantKey = Uuid × Text

abbrev pub merchant_key_eq : MerchantKey → MerchantKey → Bool
merchant_key_eq a b = a.0 == b.0 && text_eq a.1 b.1

abbrev pub product_key : Product → MerchantKey
product_key p = (p.merchant_id, p.merchant_product_key)

abbrev pub variant_key : ProductVariant → MerchantKey
variant_key v = (v.merchant_id, v.merchant_sku)

abbrev pub inventory_key : Inventory → Uuid
inventory_key i = i.product_variant_id

abbrev pub import_key : CatalogImport → Uuid
import_key i = i.id

abbrev pub merchant_id_of : Merchant → Uuid
merchant_id_of m = m.id
