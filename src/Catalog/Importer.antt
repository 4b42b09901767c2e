-- ===== src/Catalog/Importer.antt =====
-- talap/catalog/importer.py: one import, with the transactions that it commits. What it raises leaves
-- the tables that were committed before.
pub mod Validation
pub mod Atomic
pub mod Completed
use talap_ml.Common.{
  ℕ, ◌+◌, ◌-◌, Bool, true, false, ◌&&◌, ◌||◌, not, Option, none, some, List, [], ◌∷◌, ◌++◌, map,
  any, leb, length, if◌then◌else◌, Result, ok, err,
}
use talap_ml.Common.Text.{Text, text, text_eq, is_empty, strip}
use talap_ml.Common.Table.{Uuid, find_row, update_row}
use talap_ml.Catalog.Rows.{
  CatalogRow, RowError, ParseResult, ImportStatus, Counters, CatalogImport, CatalogImportSummary,
  Merchant, StoredError, CatalogDatabase, import_key, merchant_id_of, pending, validating, failed,
}
use talap_ml.Catalog.Mutation.{NewIds, KeyError, mem_text, run_catalog_mutation}

-- `ValueError`, and the errors of import_types.py
pub data ImportError : Type 0 where
  value_error merchant_not_found merchant_inactive : ImportError
  execution_error : Text → ImportError

abbrev pub max_filename_length : ℕ
max_filename_length = 255

abbrev pub mutation_error_message : Text
mutation_error_message = text "Catalog import failed during database mutation."

abbrev pub validation_error_message : Text
validation_error_message = text "Catalog import failed during validation."

abbrev pub is_valid_filename : Text → Bool
is_valid_filename filename =
    not (is_empty (strip filename)) && leb (length filename) max_filename_length

abbrev pub slug_error : ℕ → CatalogRow → RowError
slug_error row_number row = record {
  code = text "merchant_slug_mismatch";
  message = text "Merchant slug does not match the target merchant.";
  row_number = some row_number;
  field = some (text "merchant_slug");
  value = some row.merchant_slug;
}

abbrev pub sku_error : ℕ → CatalogRow → RowError
sku_error row_number row = record {
  code = text "duplicate_merchant_sku";
  message = text "Duplicate merchant_sku in the same catalog file.";
  row_number = some row_number;
  field = some (text "merchant_sku");
  value = some row.merchant_sku;
}

-- the errors, and the number of rows that have one
unfoldable pub validate_rows_from : List Text → ℕ → List CatalogRow → Text → List RowError × ℕ
validate_rows_from seen row_number [] merchant_slug = ([], 0)
validate_rows_from seen row_number (row ∷ rows) merchant_slug =
    let (errors, affected) =
      validate_rows_from (row.merchant_sku ∷ seen) (row_number + 1) rows merchant_slug in
    let mismatch = not (text_eq row.merchant_slug merchant_slug) in
    let duplicate = mem_text row.merchant_sku seen in
    (
      (if mismatch then slug_error row_number row ∷ [] else [])
          ++ (if duplicate then sku_error row_number row ∷ [] else [])
          ++ errors,
      (if mismatch || duplicate then 1 else 0) + affected,
    )

abbrev pub validate_rows : List CatalogRow → Text → List RowError × ℕ
validate_rows rows merchant_slug = validate_rows_from [] 2 rows merchant_slug

abbrev pub no_counters : Counters
no_counters = record {
  total_rows = 0;
  valid_rows = 0;
  invalid_rows = 0;
  created_products = 0;
  updated_products = 0;
  created_variants = 0;
  updated_variants = 0;
  updated_inventory_rows = 0;
}

abbrev pub failed_counters : ℕ → ℕ → ℕ → Counters
failed_counters total valid invalid = record no_counters {
  total_rows = total;
  valid_rows = valid;
  invalid_rows = invalid;
}

abbrev pub set_status : ImportStatus → CatalogImport → CatalogImport
set_status status i = record i { status = status }

abbrev pub set_failed : Counters → CatalogImport → CatalogImport
set_failed counters i = record i {
  status = failed;
  counters = record i.counters {
    total_rows = counters.total_rows;
    valid_rows = counters.valid_rows;
    invalid_rows = counters.invalid_rows;
  };
}

abbrev pub stored_error : Uuid → RowError → StoredError
stored_error import_id e = record { catalog_import_id = import_id; error = e }

-- the two arguments of every step
pub record ImportKey : Type 0 where
  pub import_id : Uuid
  pub merchant_id : Uuid

unfoldable pub mark_failed :
    ImportKey → Counters → List RowError → CatalogDatabase → CatalogDatabase
mark_failed key counters errors db = record db {
  imports = update_row import_key key.import_id (set_failed counters) db.imports;
  errors = db.errors ++ map (stored_error key.import_id) errors;
}

abbrev pub safe_error : Text → RowError
safe_error message = record {
  code = text "catalog_import_failed";
  message = message;
  row_number = none;
  field = none;
  value = none;
}

unfoldable pub mark_failed_with_safe_error : ImportKey → Text → CatalogDatabase → CatalogDatabase
mark_failed_with_safe_error key message db = record db {
  imports = update_row import_key key.import_id (set_status failed) db.imports;
  errors = db.errors ++ stored_error key.import_id (safe_error message) ∷ [];
}

unfoldable pub failed_summary : ImportKey → Counters → ℕ → CatalogImportSummary
failed_summary key counters error_count = record {
  import_id = key.import_id;
  merchant_id = key.merchant_id;
  status = failed;
  counters = counters;
  error_count = error_count;
}

abbrev pub Imported : Type 0
Imported = Result ImportError CatalogImportSummary × CatalogDatabase

-- Whether the database refuses a statement of the mutation, or the recovery from an error.
pub record Faults : Type 0 where
  pub mutation_fails : List CatalogRow → CatalogDatabase → Bool
  pub recovery_fails : CatalogDatabase → Bool

module _ (faults : Faults) (ids : NewIds) where
  -- an unexpected error: it is recorded, where the recovery works, and raised
  unfoldable pub fail_import : ImportKey → Text → CatalogDatabase → Imported
  fail_import key message db = (
    err (execution_error message),
    (if faults.recovery_fails db then db else mark_failed_with_safe_error key message db),
  )

  -- the errors are recorded and counted
  unfoldable pub reject_file : ImportKey → Counters → List RowError → CatalogDatabase → Imported
  reject_file key counters errors db =
      (ok (failed_summary key counters (length errors)), mark_failed key counters errors db)

  -- phase 3
  unfoldable pub mutate_catalog : ImportKey → List CatalogRow → CatalogDatabase → Imported
  mutate_catalog key rows db =
      if faults.mutation_fails rows db
      then fail_import key mutation_error_message db
      else elim (run_catalog_mutation ids key.merchant_id key.import_id rows db) [
        | err _ ↦ fail_import key mutation_error_message db
        | ok (summary, after) ↦ (ok summary, after)
      ]

  -- the parsed file, once it is VALIDATING
  unfoldable pub import_rows : ImportKey → Text → ParseResult → CatalogDatabase → Imported
  import_rows key merchant_slug parsed db =
      let (errors, invalid) = validate_rows parsed.rows merchant_slug in
      if not (is_empty parsed.errors)
      then reject_file key (failed_counters parsed.total_rows parsed.valid_rows parsed.invalid_rows)
          parsed.errors db
      else if not (is_empty errors)
      then reject_file key (failed_counters parsed.total_rows (parsed.total_rows - invalid) invalid)
          errors db
      else mutate_catalog key parsed.rows db

  abbrev pub pending_import : ImportKey → Text → CatalogImport
  pending_import key filename = record {
    id = key.import_id;
    merchant_id = key.merchant_id;
    filename = filename;
    status = pending;
    counters = no_counters;
  }

  -- the import's record after phases 1 and 2
  abbrev pub started : ImportKey → Text → CatalogDatabase → CatalogDatabase
  started key filename db = record db {
    imports =
        update_row import_key key.import_id (set_status validating)
          (db.imports ++ pending_import key filename ∷ []);
  }

  -- the parser's answer, or its exception
  unfoldable pub import_parsed : ImportKey → Text → Option ParseResult → CatalogDatabase → Imported
  import_parsed key merchant_slug none db = fail_import key validation_error_message db
  import_parsed key merchant_slug (some parsed) db = import_rows key merchant_slug parsed db

  unfoldable pub import_catalog_csv :
      (List ℕ → Option ParseResult) → ImportKey → Text → List ℕ → CatalogDatabase → Imported
  import_catalog_csv parse_catalog_csv key filename content db =
      if not (is_valid_filename filename)
      then (err value_error, db)
      else elim (find_row merchant_id_of key.merchant_id db.merchants) [
        | none ↦ (err merchant_not_found, db)
        | some merchant ↦
            if not merchant.active
            then (err merchant_inactive, db)
            else import_parsed key merchant.slug (parse_catalog_csv content)
                (started key filename db)
      ]
